-- ===== src/Database/Writer/Files.antt =====
-- The queue that the producers fill, and the files that the requests are saved to.
use mathlib.Core.List.{append_cancel_left, append_cancel_right}
use project_viatech_ecids_co.Base.{
  ℕ, ◌<◌, ◌≡◌, refl, ◌≢◌, Bool, true, false, List, [], ◌∷◌, ◌++◌, Text, codes, Option, none, some,
  arith, if◌then◌else◌, Option-cases, inl, inr,
}
use project_viatech_ecids_co.Common.Decimal.{padded, padded_injective}
use project_viatech_ecids_co.Common.Frames.{
  DbWriteRequest, WriteType, image, ai_result, stereo_result, point_cloud, depth_map, blank_request,
}
use project_viatech_ecids_co.Data.Recent.{push_recent, push_all, latest, push_all-latest}
use project_viatech_ecids_co.Database.Records.{
  DiskOp, written, save_image, save_ai_result, save_stereo_result, save_pointcloud, save_depth,
  image_name, format_pair_index, ◌/◌,
}
use project_viatech_ecids_co.Database.Writer.{
  DatabaseWriter, enqueue_image, enqueue_ai_result, enqueue_stereo_result, text_request,
  process_request, with_queue, no_data, dispatch, if_data,
}

pub data Enqueue : Type 0 where
  image_call : Text → Text → Text → ℕ → Option (List ℕ) → Text → Enqueue
  ai_call stereo_call : Text → Text → Text → ℕ → Text → Enqueue

unfoldable pub enqueue : DatabaseWriter → Enqueue → Option DatabaseWriter
unfolding enqueue_image enqueue_ai_result enqueue_stereo_result
enqueue w (image_call p s c i d f) = enqueue_image w p s c i d f
enqueue w (ai_call p s c i t) = enqueue_ai_result w p s c i t
enqueue w (stereo_call p s c i t) = enqueue_stereo_result w p s c i t

unfoldable pub enqueue_all : DatabaseWriter → List Enqueue → Option DatabaseWriter
enqueue_all w [] = some w
enqueue_all w (e ∷ es) = elim (enqueue w e) [ none ↦ none | some w' ↦ enqueue_all w' es ]

-- What the calls ask for: an image with no data asks for nothing.
abbrev pub requests : List Enqueue → List DbWriteRequest
requests [] = []
requests (image_call p s c i d f ∷ es) =
    if no_data d
    then requests es
    else record (blank_request image) {
      record_path = p;
      subfolder = s;
      camera_id = c;
      pair_index = i;
      bytes = d;
      format = f;
    }
      ∷ requests es
requests (ai_call p s c i t ∷ es) = text_request ai_result p s c i t ∷ requests es
requests (stereo_call p s c i t ∷ es) = text_request stereo_result p s c i t ∷ requests es

abbrev Pushes : DatabaseWriter → List Enqueue → Type 0
Pushes w es =
    (q : List DbWriteRequest)
    → enqueue_all (record w { queue = q }) es ≡ with_queue w (push_all w.max_queue q (requests es))

abbrev then_all : Option DatabaseWriter → List Enqueue → Option DatabaseWriter
then_all none es = none
then_all (some w) es = enqueue_all w es

pushed :
    (w : DatabaseWriter) (r : DbWriteRequest) (es : List Enqueue)
    → Pushes w es
    → then_all (with_queue w (push_recent w.max_queue w.queue r)) es
      ≡ with_queue w (push_all w.max_queue w.queue (r ∷ requests es))
unfolding push_all
pushed w r es ih = elim (Option-cases (push_recent w.max_queue w.queue r)) [
  | inl e ↦ ground arith
  | inr (q, e) ↦ ground (arith, ih q)
]

enqueue_all-Pushes : (w : DatabaseWriter) (es : List Enqueue) → w.running ≡ true → Pushes w es
unfolding enqueue_all enqueue
enqueue_all-Pushes w [] h q = unfold push_all in refl
enqueue_all-Pushes w (image_call p s c i none f ∷ es) h q =
    ground (arith, enqueue_all-Pushes w es h q)
enqueue_all-Pushes w (image_call p s c i (some []) f ∷ es) h q =
    ground (arith, enqueue_all-Pushes w es h q)
enqueue_all-Pushes w (image_call p s c i (some (b ∷ bs)) f ∷ es) h q =
    let r = record (blank_request image) {
      record_path = p;
      subfolder = s;
      camera_id = c;
      pair_index = i;
      bytes = some (b ∷ bs);
      format = f;
    } in
    ground (arith, pushed (record w { queue = q }) r es (enqueue_all-Pushes w es h))
enqueue_all-Pushes w (ai_call p s c i t ∷ es) h q = ground (
  arith,
  pushed (record w { queue = q }) (text_request ai_result p s c i t) es (enqueue_all-Pushes w es h),
)
enqueue_all-Pushes w (stereo_call p s c i t ∷ es) h q = ground (
  arith,
  pushed (record w { queue = q }) (text_request stereo_result p s c i t) es
      (enqueue_all-Pushes w es h),
)

-- On a running writer with an empty queue and room for at least one request, any calls leave the
-- latest requests that fit, oldest first; no call fails, and calls with no image data ask for nothing.
pub enqueue_all-latest :
    (w : DatabaseWriter) (es : List Enqueue)
    → w.running ≡ true
    → w.queue ≡ []
    → 0 < w.max_queue
    → enqueue_all w es ≡ some (record w { queue = latest w.max_queue (requests es) })
enqueue_all-latest w es h e m =
    ground (arith, enqueue_all-Pushes w es h [], push_all-latest w.max_queue (requests es) m)

-- With a limit of zero the first request of a running writer with an empty queue pops an empty queue.
pub enqueue_ai_result-zero :
    (w : DatabaseWriter) (p s c : Text) (i : ℕ) (t : Text)
    → w.running ≡ true
    → w.queue ≡ []
    → w.max_queue ≡ 0
    → enqueue_ai_result w p s c i t ≡ none
unfolding enqueue_ai_result push_recent
enqueue_ai_result-zero w p s c i t h e m = ground arith

-- The same request for another pair, with other data.
abbrev pub for_pair : DbWriteRequest → ℕ → Option (List ℕ) → Text → DbWriteRequest
for_pair r j bytes text = record r { pair_index = j; bytes = bytes; text_data = text }

same_name : (dir m n : Text) → dir / m ≡ dir / n → m ≡ n
same_name dir m n e = append_cancel_left (codes "/") m n (append_cancel_left dir _ _ e)

numbered :
    (front back : Text) (i j : ℕ)
    → front ++ (padded 3 i ++ back) ≡ front ++ (padded 3 j ++ back)
    → i ≡ j
numbered front back i j e =
    padded_injective 3 i j (append_cancel_right _ _ back (append_cancel_left front _ _ e))

image_pair : (dir c f : Text) (i j : ℕ) → dir / image_name c i f ≡ dir / image_name c j f → i ≡ j
unfolding image_name format_pair_index
image_pair dir c f i j e =
    numbered (codes "_") (codes "." ++ f) i j (append_cancel_left c _ _ (same_name dir _ _ e))

one_file : (a b : Text) → ◌≡◌ {A = List Text} (a ∷ []) (b ∷ []) → a ≡ b
one_file a b e = cc

module _ (i j : ℕ) (save : ℕ → Text → List DiskOp)
    (inj : (b c : Text) → written (save i b) ≡ written (save j c) → i ≡ j) where
  data_pair :
      (d e : Option (List ℕ))
      → written (if_data d (save i)) ≢ []
      → written (if_data d (save i)) ≡ written (if_data e (save j))
      → i ≡ j
  data_pair none e h p = absurd (h refl)
  data_pair (some []) e h p = absurd (h refl)
  data_pair (some (b ∷ bs)) none h p = absurd (h p)
  data_pair (some (b ∷ bs)) (some []) h p = absurd (h p)
  data_pair (some (b ∷ bs)) (some (c ∷ cs)) h p = inj (b ∷ bs) (c ∷ cs) p

dispatch_pair :
    (t : WriteType) (r : DbWriteRequest) (j : ℕ) (bytes : Option (List ℕ)) (text : Text)
    → written (dispatch t r) ≢ []
    → written (dispatch t r) ≡ written (dispatch t (for_pair r j bytes text))
    → r.pair_index ≡ j
unfolding save_image save_ai_result save_stereo_result save_pointcloud save_depth format_pair_index
dispatch_pair image r j bytes text h e =
    data_pair r.pair_index j
      (λ k b. (save_image r.record_path r.subfolder r.camera_id k b r.format).1)
      (λ b c p. image_pair (r.record_path / r.subfolder) r.camera_id r.format _ _ (one_file _ _ p))
      r.bytes bytes h e
dispatch_pair ai_result r j bytes text h e = numbered (codes "_") (codes ".json") _ _ (
    append_cancel_left r.camera_id _ _ (
      append_cancel_left (codes "AI_") _ _
        (same_name (r.record_path / r.subfolder) _ _ (one_file _ _ e))))
dispatch_pair stereo_result r j bytes text h e =
    numbered (codes "Stereo_") (codes ".json") _ _
      (same_name (r.record_path / r.subfolder) _ _ (one_file _ _ e))
dispatch_pair point_cloud r j bytes text h e =
    data_pair r.pair_index j (save_pointcloud r.record_path r.subfolder)
      (λ b c p.
        numbered (codes "PC_") (codes ".pcd") _ _
          (same_name (r.record_path / r.subfolder) _ _ (one_file _ _ p)))
      r.bytes bytes h e
dispatch_pair depth_map r j bytes text h e =
    data_pair r.pair_index j (save_depth r.record_path r.subfolder)
      (λ b c p.
        numbered (codes "Depth_") (codes ".dat") _ _
          (same_name (r.record_path / r.subfolder) _ _ (one_file _ _ p)))
      r.bytes bytes h e

-- Results for different pairs never overwrite each other: where two requests that differ at most in
-- pair and data write a file each, and it is the same file, they are for the same pair.
process_request-pair :
    (m : Bool) (r : DbWriteRequest) (j : ℕ) (bytes : Option (List ℕ)) (text : Text)
    → written (process_request m r) ≢ []
    → written (process_request m r) ≡ written (process_request m (for_pair r j bytes text))
    → r.pair_index ≡ j
unfolding process_request
process_request-pair true r j bytes text h e = dispatch_pair r.write_type r j bytes text h e
process_request-pair false r j bytes text h e = absurd (h refl)
