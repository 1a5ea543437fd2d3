-- ===== src/Preprocess/Pending.antt =====
-- src/preprocess/PreprocessModule.cpp, `on_ai_result_`: the AI result that answers a pair of frames.
use project_viatech_ecids_co.Base.{
  ℕ, ◌+◌, ◌-◌, ◌≤◌, ◌≡◌, ◌≢◌, refl, inl, inr, Bool, true, false, String, str_eq, eq_iff, List, [],
  ◌∷◌, ◌++◌, Text, codes, text_lt, text_lt_asym, text_lt_trans, text_lt_irrefl, Bool-cases, All,
  Option, none, some, arith, ltb, if◌then◌else◌, length, is_empty, lookup, erase, string_eq,
  lookup-assign, lookup-erase, beq_self, ◌∙◌,
}
use project_viatech_ecids_co.Common.Modes.{InspectionSubTask, installation}
use project_viatech_ecids_co.Common.Frames.{DataBundle, blank_bundle}
use project_viatech_ecids_co.Common.Geometry.{DetectionResponse}
use project_viatech_ecids_co.Database.Writer.Files.{Enqueue, image_call, ai_call}
use project_viatech_ecids_co.Preprocess.{PreprocessModule, PendingRequest}
use project_viatech_ecids_co.Preprocess.Send.{store, stored, encoded_right, process_pair}

-- What the callback gets besides the response.
pub record Delivery (D : Type 0) : Type 0 where
  pub left : DataBundle
  pub right : DataBundle
  pub pair_index : ℕ
  pub sub_task : InspectionSubTask
  pub working_distance_mm : D

-- The folder of the saved images and results.
unfoldable pub result_subfolder : Bool → InspectionSubTask → Text
result_subfolder true sub = []
result_subfolder false installation = codes "installation"
result_subfolder false _ = codes "inspection"

module _ {D : Type 0} (zero_mm : D) where
  abbrev pub blank_delivery : Delivery D
  blank_delivery = record {
    left = blank_bundle;
    right = blank_bundle;
    pair_index = 0;
    sub_task = InspectionSubTask.none;
    working_distance_mm = zero_mm;
  }

module _ {D : Type 0} where
  abbrev pub delivery : PendingRequest D → Delivery D
  delivery r = record {
    left = r.left;
    right = r.right;
    pair_index = r.pair_index;
    sub_task = r.sub_task;
    working_distance_mm = r.working_distance_mm;
  }

  unfoldable pub earlier :
      String × PendingRequest D → String × PendingRequest D → String × PendingRequest D
  earlier e best = if text_lt (codes e.0) (codes best.0) then e else best

  -- `min_element` by the transaction id.
  unfoldable pub oldest :
      String × PendingRequest D → List (String × PendingRequest D) → String × PendingRequest D
  oldest best [] = best
  oldest best (e ∷ es) = oldest (earlier e best) es

  -- The locked part of `on_ai_result_`: the request to deliver, or `none` for a stale one, which is
  -- dropped with no callback.
  abbrev without :
      PreprocessModule D
      → String × PendingRequest D
      → Bool
      → Option (Delivery D) × PreprocessModule D
  without p (k, r) stale =
      (if stale then none else some (delivery r), record p { pending = erase k p.pending })

  abbrev pub is_stale : ℕ → String × PendingRequest D → Bool
  is_stale now (k, r) = ltb 30_000 (now - r.created_at)

  abbrev fall_back :
      D
      → PreprocessModule D
      → List (String × PendingRequest D)
      → ℕ
      → Option (Delivery D) × PreprocessModule D
  fall_back zero_mm p [] now = (some (blank_delivery zero_mm), p)
  fall_back zero_mm p (e ∷ es) now = let first = oldest e es in without p first (is_stale now first)

  abbrev take_found :
      D
      → PreprocessModule D
      → String
      → Option (PendingRequest D)
      → ℕ
      → Option (Delivery D) × PreprocessModule D
  take_found zero_mm p tid none now = fall_back zero_mm p p.pending now
  take_found zero_mm p tid (some r) now = without p (tid, r) false

  unfoldable pub take_pending :
      D → PreprocessModule D → String → ℕ → Option (Delivery D) × PreprocessModule D
  unfolding oldest
  take_pending zero_mm p tid now = take_found zero_mm p tid (lookup tid p.pending) now

  -- What is handed to the database writer, `ai_json` being the text made of the response. Without a
  -- writer the record manager saves the same files at once; `main` sets a writer.
  abbrev save_frame : PreprocessModule D → Text → Text → ℕ → DataBundle → List Enqueue
  save_frame p subfolder camera idx f =
      if is_empty f.bytes
      then []
      else image_call p.active_record_path subfolder camera idx (some f.bytes) (codes "jpg") ∷ []

  unfoldable pub save_result : PreprocessModule D → Delivery D → Text → List Enqueue
  unfolding result_subfolder
  save_result p d ai_json =
      let subfolder = result_subfolder p.ai_test_mode d.sub_task in
      if is_empty p.active_record_path
      then []
      else save_frame p subfolder (codes "L") d.pair_index d.left
        ++ (save_frame p subfolder (codes "R") d.pair_index d.right
            ++ (ai_call p.active_record_path subfolder (codes "L") d.pair_index ai_json
                ∷ ai_call p.active_record_path subfolder (codes "R") d.pair_index ai_json
                ∷ []))

  abbrev saved : PreprocessModule D → Option (Delivery D) → Text → List Enqueue
  saved p none ai_json = []
  saved p (some d) ai_json = save_result p d ai_json

  -- The whole handler: what the callback gets, what is saved, and the module after it.
  unfoldable pub on_ai_result :
      D
      → (DetectionResponse D → Text)
      → PreprocessModule D
      → DetectionResponse D
      → ℕ
      → (Option (Delivery D) × List Enqueue) × PreprocessModule D
  unfolding take_pending save_result
  on_ai_result zero_mm to_json p response now =
      let (d, p') = take_pending zero_mm p response.transaction_id now in
      ((d, saved p d (to_json response)), p')

  lookup-store :
      (p : PreprocessModule D) (ts k : String) (request : PendingRequest D)
      → length p.pending ≤ 200
      → lookup k (store p ts request).pending
        ≡ (if str_eq ts k then some request else lookup k p.pending)
  unfolding store
  lookup-store p ts k request h =
      let room : ltb 200 (length p.pending) ≡ false = ground arith in
      rw room (lookup-assign ts k request p.pending)

  -- A found request is delivered and taken off the table; the others stay.
  take_pending_found :
      (zero_mm : D) (p : PreprocessModule D) (ts : String) (now : ℕ) (r : PendingRequest D)
      → lookup ts p.pending ≡ some r
      → take_pending zero_mm p ts now
        ≡ (some (delivery r), record p { pending = erase ts p.pending })
  unfolding take_pending
  take_pending_found zero_mm p ts now r e = rw e refl

  -- With at most 200 requests on the table, a pair that is sent with a left frame and whose
  -- transaction is answered is delivered with its encoded frames, index, sub-task and distance, and
  -- its request, and no other, is off the table.
  pub process_pair-take_pending :
      (encode : List ℕ → List ℕ) (zero_mm : D) (p : PreprocessModule D) (ts : String)
      (now later : ℕ) (l r : DataBundle) (wd : D)
      → is_empty l.bytes ≡ false
      → length p.pending ≤ 200
      → let sent = (process_pair encode p ts now l r wd).after in
        ((take_pending zero_mm sent ts later).0
          ≡ some (record {
            left = stored (encode l.bytes);
            right = stored (encoded_right encode r.bytes);
            pair_index = p.pair_index;
            sub_task = p.sub_task;
            working_distance_mm = wd;
          }))
        × ((k : String)
            → lookup k (take_pending zero_mm sent ts later).1.pending
              ≡ (if str_eq ts k then none else lookup k p.pending))
  unfolding process_pair
  process_pair-take_pending encode zero_mm p ts now later l r wd h room =
      let p' = record p { pair_index = p.pair_index + 1 } in
      let request : PendingRequest D = record {
        transaction_id = ts;
        left = stored (encode l.bytes);
        right = stored (encoded_right encode r.bytes);
        pair_index = p.pair_index;
        sub_task = p.sub_task;
        working_distance_mm = wd;
        created_at = now;
      } in
      let there = lookup-store p' ts ts request room ∙ simp (beq_self ts) in
      let taken = take_pending_found zero_mm (store p' ts request) ts later request there in
      rw h (
        rw taken (
          refl,
          λ k. ground (
            arith,
            lookup-erase ts k (store p' ts request).pending,
            lookup-store p' ts k request room,
          ),
        ))

  -- The entry has an id that comes first among those of the table.
  abbrev pub IsFirst : String × PendingRequest D → List (String × PendingRequest D) → Type 0
  IsFirst e es = All (λ x. text_lt (codes x.0) (codes e.0) ≡ false) es

  earlier_lem :
      (tid : String) (e best : String × PendingRequest D)
      → e.0 ≢ tid
      → best.0 ≢ tid
      → (text_lt (codes e.0) (codes (earlier e best).0) ≡ false)
        × (text_lt (codes best.0) (codes (earlier e best).0) ≡ false)
        × ((earlier e best).0 ≢ tid)
  unfolding earlier
  earlier_lem tid e best h h' = elim (Bool-cases (text_lt (codes e.0) (codes best.0))) [
    | inl lower ↦
        rw lower (text_lt_irrefl (codes e.0), text_lt_asym (codes e.0) (codes best.0) lower, h)
    | inr upper ↦ rw upper (upper, text_lt_irrefl (codes best.0), h')
  ]

  key_ne :
      (tid k : String) (r : PendingRequest D) (es : List (String × PendingRequest D))
      → lookup tid ((k, r) ∷ es) ≡ none
      → (k ≢ tid) × (lookup tid es ≡ none)
  unfolding lookup
  key_ne tid k r es n = (ground (arith, eq_iff k tid), ground (arith, eq_iff k tid))

  oldest_lem :
      (tid : String) (best : String × PendingRequest D) (es : List (String × PendingRequest D))
      → best.0 ≢ tid
      → lookup tid es ≡ none
      → (text_lt (codes best.0) (codes (oldest best es).0) ≡ false)
        × IsFirst (oldest best es) es
        × ((oldest best es).0 ≢ tid)
  unfolding oldest
  oldest_lem tid best [] h n = (text_lt_irrefl (codes best.0), tt, h)
  oldest_lem tid best ((k, r) ∷ es) h n =
      let (ke, rest) = key_ne tid k r es n in
      let (le, lb, ne) = earlier_lem tid (k, r) best ke h in
      let (lo, first, no_) = oldest_lem tid (earlier (k, r) best) es ne rest in
      (text_lt_trans _ _ _ lo lb, (text_lt_trans _ _ _ lo le, first), no_)

  -- A result whose transaction is not pending, while others are, is given the frames, the index and
  -- the sub-task of another transaction: the one whose id comes first. That request leaves the table;
  -- if it waited over 30 seconds, no callback is made and the result is dropped with it.
  pub take_pending_other :
      (zero_mm : D) (p : PreprocessModule D) (tid : String) (now : ℕ)
      (e : String × PendingRequest D) (es : List (String × PendingRequest D))
      → p.pending ≡ e ∷ es
      → lookup tid p.pending ≡ none
      → let other = oldest e es in
        (other.0 ≢ tid)
        × IsFirst other (e ∷ es)
        × ((take_pending zero_mm p tid now).0
            ≡ (if is_stale now other then none else some (delivery other.1)))
        × ((take_pending zero_mm p tid now).1 ≡ record p { pending = erase other.0 p.pending })
  unfolding take_pending
  take_pending_other zero_mm p tid now (k, r) es q n =
      let (ke, rest) = key_ne tid k r es (rw q at n) in
      let (lo, first, ne) = oldest_lem tid (k, r) es ke rest in
      (ne, (lo, first), rw (n, q) refl, rw (n, q) refl)
