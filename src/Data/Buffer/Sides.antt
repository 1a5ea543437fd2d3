-- ===== src/Data/Buffer/Sides.antt =====
-- DataBuffer.cpp: the pairs of a buffer to which only parts that are no side are added.
use project_viatech_ecids_co.Base.{
  ℕ, ◌≡◌, refl, Bool, true, false, String, str_eq, List, Option, none, some, ltb, if◌then◌else◌,
  length, lookup, erase, lookup-assign, lookup-erase, nat_eq, ◌==◌, ap,
}
use project_viatech_ecids_co.Common.Frames.{DataBundle}
use project_viatech_ecids_co.Data.Buffer.{
  DataBuffer, StereoPair, ready, take_pair, make_room, set_part, pair_at, put_stereo,
  try_get_stereo_pair,
}

-- No pair of the buffer is complete.
abbrev pub IsUnready : DataBuffer → Type 0
IsUnready b = (id : ℕ) → ready (lookup id b.stereo_pairs) ≡ none

pub try_get_stereo_pair-none :
    (b : DataBuffer) → IsUnready b → (id : ℕ) → try_get_stereo_pair b id ≡ (none, b)
unfolding try_get_stereo_pair
try_get_stereo_pair-none b h id = ap (λ o. take_pair o b id) (h id)

unready_if :
    (c : Bool) (o p : Option StereoPair)
    → ready o ≡ none
    → ready p ≡ none
    → ready (if c then o else p) ≡ none
unready_if true o p h k = h
unready_if false o p h k = k

set_part-no_side :
    (p : StereoPair) (part : String) (d : DataBundle)
    → str_eq part "left" ≡ false
    → str_eq part "right" ≡ false
    → set_part p part d ≡ p
set_part-no_side p part d l r = rw l (rw r refl)

pair_at-unready : (o : Option StereoPair) → ready o ≡ none → ready (some (pair_at o)) ≡ none
pair_at-unready none h = refl
pair_at-unready (some p) h = h

module _ (begin : List (ℕ × StereoPair) → ℕ) where
  make_room-unready :
      (pairs : List (ℕ × StereoPair))
      → ((id : ℕ) → ready (lookup id pairs) ≡ none)
      → (id : ℕ) → ready (lookup id (make_room begin pairs)) ≡ none
  make_room-unready pairs h id =
      elim (ltb 50 (length pairs))
        as (λ c. ready (lookup id (if c then erase (begin pairs) pairs else pairs)) ≡ none) [
          | true ↦
              rw (lookup-erase (begin pairs) id pairs)
                (unready_if (begin pairs == id) none _ refl (h id))
          | false ↦ h id
        ]

  pub put_stereo-IsUnready :
      (b : DataBuffer) (i : ℕ) (part : String) (d : DataBundle)
      → str_eq part "left" ≡ false
      → str_eq part "right" ≡ false
      → IsUnready b
      → IsUnready (put_stereo begin b i part d)
  unfolding put_stereo
  put_stereo-IsUnready b i part d l r h id =
      let pairs = make_room begin b.stereo_pairs in
      let h' = make_room-unready b.stereo_pairs h in
      rw (lookup-assign i id (set_part (pair_at (lookup i pairs)) part d) pairs) (
        rw (set_part-no_side (pair_at (lookup i pairs)) part d l r) (
          unready_if (i == id) (some (pair_at (lookup i pairs))) (lookup id pairs)
            (pair_at-unready (lookup i pairs) (h' i)) (h' id)))
