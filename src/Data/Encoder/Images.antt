-- ===== src/Data/Encoder/Images.antt =====
-- ImageEncoder.cpp: which images are encoded, and that no more is read of them than there is.
use project_viatech_ecids_co.Base.{
  ℕ, zero, suc, ◌*◌, ◌≤◌, ◌<◌, ◌≡◌, refl, ap, ◌∙◌, Bool, true, false, not, ◌&&◌, ◌||◌, List, [],
  ◌∷◌, Option, none, some, if◌then◌else◌, ltb, length, is_empty, keep, arith, if_true, if_false,
  map, length-drop, ◌-◌,
}
use project_viatech_ecids_co.Data.Recent.{push_recent, push_all, latest, push_all-latest}
use project_viatech_ecids_co.Data.Encoder.{
  EncodeRequest, EncodeResult, ImageEncoder, max_queue, enqueue, with_images, size_of, encode,
  encode_at, result_of, encode_loop,
}

abbrev pub encoder_with : List EncodeRequest → ImageEncoder
encoder_with q = record { running = true; queue = q }

unfoldable pub enqueue_all : ImageEncoder → List EncodeRequest → Option ImageEncoder
enqueue_all e [] = some e
enqueue_all e (r ∷ rs) = elim (enqueue e r.raw_data r.width r.height r.topic r.header_json) [
  | none ↦ none
  | some e' ↦ enqueue_all e' rs
]

abbrev pub has_data : EncodeRequest → Bool
has_data r = not (is_empty r.raw_data)

abbrev pub given : {A : Type 0} → List (Option A) → List A
given [] = []
given (none ∷ os) = given os
given (some a ∷ os) = a ∷ given os

pushed :
    (q rs : List EncodeRequest) (o : Option (List EncodeRequest))
    → ((q' : List EncodeRequest)
        → enqueue_all (encoder_with q') rs
          ≡ with_images (encoder_with []) (push_all max_queue q' (keep has_data rs)))
    → elim (with_images (encoder_with q) o) [ none ↦ none | some e' ↦ enqueue_all e' rs ]
      ≡ with_images
          (encoder_with [])
          (elim o [ none ↦ none | some q' ↦ push_all max_queue q' (keep has_data rs) ])
pushed q rs none h = refl
pushed q rs (some q') h = h q'

enqueued_first :
    (c : Bool) (q rs : List EncodeRequest) (r : EncodeRequest)
    → ((q' : List EncodeRequest)
        → enqueue_all (encoder_with q') rs
          ≡ with_images (encoder_with []) (push_all max_queue q' (keep has_data rs)))
    → elim (if c
        then some (encoder_with q)
        else with_images (encoder_with q) (push_recent max_queue q r)) [
          | none ↦ none
          | some e' ↦ enqueue_all e' rs
        ]
      ≡ with_images
          (encoder_with [])
          (push_all max_queue q (if not c then r ∷ keep has_data rs else keep has_data rs))
unfolding push_all
enqueued_first true q rs r h = h q
enqueued_first false q rs r h = pushed q rs (push_recent max_queue q r) h

enqueue_all-push_all :
    (rs q : List EncodeRequest)
    → enqueue_all (encoder_with q) rs
      ≡ with_images (encoder_with []) (push_all max_queue q (keep has_data rs))
unfolding enqueue_all push_all enqueue
enqueue_all-push_all [] q = refl
enqueue_all-push_all (r ∷ rs) q =
    enqueued_first (is_empty r.raw_data) q rs r (λ q'. enqueue_all-push_all rs q')

module _ (compress : List ℕ → ℕ → ℕ → Option (List ℕ)) where
  abbrev and_result : Option EncodeResult → List EncodeResult → List EncodeResult
  and_result none rs = rs
  and_result (some r) rs = r ∷ rs

  in_front :
      (o : Option EncodeResult) (os : List (Option EncodeResult))
      → and_result o (given os) ≡ given (o ∷ os)
  in_front none os = refl
  in_front (some r) os = refl

  -- The images that are handed to the callback in `n` turns of the loop.
  unfoldable pub turns : ℕ → ImageEncoder → ImageEncoder × List EncodeResult
  unfolding encode_loop
  turns zero e = (e, [])
  turns (suc n) e =
      let (e', r) = encode_loop compress e in let (e'', rs) = turns n e' in (e'', and_result r rs)

  turns_empty : (n : ℕ) → turns n (encoder_with []) ≡ (encoder_with [], [])
  unfolding turns
  turns_empty zero = refl
  turns_empty (suc n) = ap (λ r. (r.0, and_result none r.1)) (turns_empty n)

  turns_all :
      (n : ℕ) (q : List EncodeRequest)
      → length q ≤ n
      → turns n (encoder_with q) ≡ (encoder_with [], given (map (encode compress) q))
  unfolding turns
  turns_all n [] h = turns_empty n
  turns_all zero (r ∷ q) h = ground arith
  turns_all (suc n) (r ∷ q) h =
      ap (λ t. (t.0, and_result (encode compress r) t.1)) (turns_all n q (omega arith))
      ∙ ap (λ rs. (encoder_with [], rs)) (in_front (encode compress r) (map (encode compress) q))

  abbrev pub after_turns : Option ImageEncoder → Option (ImageEncoder × List EncodeResult)
  after_turns none = none
  after_turns (some e) = some (turns max_queue e)

  -- Of images enqueued on a running encoder with an empty queue, five turns of its thread hand on the latest
  -- five that have data, in their order, each as it is encoded and without those that cannot be; then
  -- nothing is queued. No call fails.
  pub turns-enqueue_all :
      (rs : List EncodeRequest)
      → after_turns (enqueue_all (encoder_with []) rs)
        ≡ some
            (encoder_with [], given (map (encode compress) (latest max_queue (keep has_data rs))))
  turns-enqueue_all rs =
      ap after_turns (
        enqueue_all-push_all rs []
        ∙ ap (with_images (encoder_with []))
            (push_all-latest max_queue (keep has_data rs) (omega arith)))
      ∙ ap some (
          turns_all max_queue (latest max_queue (keep has_data rs))
            (omega (arith, length-drop (length (keep has_data rs) - max_queue) (keep has_data rs))))

-- Two libraries that make the same of every image whose rows are all there.
abbrev pub AgreeInside :
    (List ℕ → ℕ → ℕ → Option (List ℕ)) → (List ℕ → ℕ → ℕ → Option (List ℕ)) → Type 0
AgreeInside c d =
    (raw : List ℕ) (w h : ℕ) → 0 < w → 0 < h → w * h * 4 ≤ length raw → c raw w h ≡ d raw w h

result_if :
    (b : Bool) (r : EncodeRequest) (x y : Option (List ℕ))
    → (b ≡ false → x ≡ y)
    → (if b then none else result_of r x) ≡ (if b then none else result_of r y)
result_if true r x y h = refl
result_if false r x y h = ap (result_of r) (h refl)

-- The library is only given images whose rows are all there: what two libraries make of any other image
-- makes no difference.
encode-inside :
    (c d : List ℕ → ℕ → ℕ → Option (List ℕ)) (r : EncodeRequest)
    → AgreeInside c d
    → encode c r ≡ encode d r
unfolding encode
encode-inside c d r agree =
    let w = (size_of r).0 in
    let h = (size_of r).1 in
    result_if (not (ltb 0 w) || not (ltb 0 h) || ltb (length r.raw_data) (w * h * 4)) r
      (c r.raw_data w h) (d r.raw_data w h)
      (λ fits. agree r.raw_data w h (ground arith) (ground arith) (ground arith))

size_of-given : (r : EncodeRequest) → 0 < r.width → 0 < r.height → size_of r ≡ (r.width, r.height)
unfolding size_of
size_of-given r p q = if_true (ltb 0 r.width && ltb 0 r.height) _ _ (ground arith)

encode_at_lem :
    (c : List ℕ → ℕ → ℕ → Option (List ℕ)) (r : EncodeRequest) (w h : ℕ)
    → 0 < w
    → 0 < h
    → w * h * 4 ≤ length r.raw_data
    → encode_at c r (w, h) ≡ result_of r (c r.raw_data w h)
encode_at_lem c r w h p q fits =
    if_false (not (ltb 0 w) || not (ltb 0 h) || ltb (length r.raw_data) (w * h * 4)) none _
      (ground arith)

-- An image of a given size, with the data for it, is handed to the library with that size.
pub encode_given :
    (c : List ℕ → ℕ → ℕ → Option (List ℕ)) (r : EncodeRequest)
    → 0 < r.width
    → 0 < r.height
    → r.width * r.height * 4 ≤ length r.raw_data
    → encode c r ≡ result_of r (c r.raw_data r.width r.height)
unfolding encode
encode_given c r p q fits =
    ap (encode_at c r) (size_of-given r p q) ∙ encode_at_lem c r r.width r.height p q fits
