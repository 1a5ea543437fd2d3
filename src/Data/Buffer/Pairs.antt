-- ===== src/Data/Buffer/Pairs.antt =====
-- Stereo pairs in the buffer: what completes a pair, and what loses one.
use project_viatech_ecids_co.Base.{
  ℕ, ◌+◌, ◌≤◌, ◌<◌, ◌≡◌, true, false, String, str_eq, List, none, some, arith, ltb, if◌then◌else◌,
  length, lookup, erase, lookup-assign, lookup-erase, length-assign-le, nat_eq, ◌==◌, string_eq,
}
use project_viatech_ecids_co.Common.Frames.{DataBundle}
use project_viatech_ecids_co.Data.Buffer.{
  DataBuffer, StereoPair, set_part, pair_at, put_stereo, try_get_stereo_pair, put, get_latest,
}

-- The latest frame of a channel is the one that was put last; other channels are left alone.
pub get_latest-put :
    (b : DataBuffer) (c d : String) (bundle : DataBundle)
    → get_latest (put b c bundle) d ≡ (if str_eq c d then some bundle else get_latest b d)
unfolding get_latest put
get_latest-put b c d bundle =
    ground (
      arith,
      lookup-assign c d (record { header = bundle.header; bytes = bundle.bytes }) b.channels,
    )

module _ (begin : List (ℕ × StereoPair) → ℕ) where
  lookup-put_stereo :
      (b : DataBuffer) (i j : ℕ) (part : String) (d : DataBundle)
      → length b.stereo_pairs ≤ 50
      → lookup j (put_stereo begin b i part d).stereo_pairs ≡ (
          if i == j
          then some (set_part (pair_at (lookup i b.stereo_pairs)) part d)
          else lookup j b.stereo_pairs)
  unfolding put_stereo
  lookup-put_stereo b i j part d h =
      let room : ltb 50 (length b.stereo_pairs) ≡ false = ground arith in
      rw room (lookup-assign i j _ b.stereo_pairs)

  length-put_stereo-le :
      (b : DataBuffer) (i : ℕ) (part : String) (d : DataBundle)
      → length b.stereo_pairs ≤ 50
      → length (put_stereo begin b i part d).stereo_pairs ≤ length b.stereo_pairs + 1
  unfolding put_stereo
  length-put_stereo-le b i part d h =
      let room : ltb 50 (length b.stereo_pairs) ≡ false = ground arith in
      rw room (length-assign-le i _ b.stereo_pairs)

  abbrev pub left_then_right : DataBuffer → ℕ → DataBundle → DataBundle → DataBuffer
  left_then_right b i l r = put_stereo begin (put_stereo begin b i "left" l) i "right" r

  abbrev pub right_then_left : DataBuffer → ℕ → DataBundle → DataBundle → DataBuffer
  right_then_left b i l r = put_stereo begin (put_stereo begin b i "right" r) i "left" l

  lookup-left_then_right :
      (b : DataBuffer) (i j : ℕ) (l r : DataBundle)
      → length b.stereo_pairs < 50
      → lookup j (left_then_right b i l r).stereo_pairs ≡ (
          if i == j
          then some (record { left = l; right = r; has_left = true; has_right = true })
          else lookup j b.stereo_pairs)
  lookup-left_then_right b i j l r h =
      let b' = put_stereo begin b i "left" l in
      ground (
        arith,
        length-put_stereo-le b i "left" l,
        lookup-put_stereo b' i j "right" r,
        lookup-put_stereo b i j "left" l,
        lookup-put_stereo b i i "left" l,
      )

  lookup-right_then_left :
      (b : DataBuffer) (i j : ℕ) (l r : DataBundle)
      → length b.stereo_pairs < 50
      → lookup j (right_then_left b i l r).stereo_pairs ≡ (
          if i == j
          then some (record { left = l; right = r; has_left = true; has_right = true })
          else lookup j b.stereo_pairs)
  lookup-right_then_left b i j l r h =
      let b' = put_stereo begin b i "right" r in
      ground (
        arith,
        length-put_stereo-le b i "right" r,
        lookup-put_stereo b' i j "left" l,
        lookup-put_stereo b i j "right" r,
        lookup-put_stereo b i i "right" r,
      )

  -- What a buffer gives for a pair that it holds complete, and what it then holds.
  abbrev pub Gives : DataBuffer → DataBuffer → ℕ → DataBundle → DataBundle → Type 0
  Gives b c i l r =
      ((try_get_stereo_pair c i).0 ≡ some (l, r))
      × ((try_get_stereo_pair (try_get_stereo_pair c i).1 i).0 ≡ none)
      × ((j : ℕ)
          → lookup j (try_get_stereo_pair c i).1.stereo_pairs
            ≡ (if i == j then none else lookup j b.stereo_pairs))

  Gives-lookup :
      (b c : DataBuffer) (i : ℕ) (l r : DataBundle)
      → ((j : ℕ)
          → lookup j c.stereo_pairs ≡ (
              if i == j
              then some (record { left = l; right = r; has_left = true; has_right = true })
              else lookup j b.stereo_pairs))
      → Gives b c i l r
  unfolding try_get_stereo_pair
  Gives-lookup b c i l r h = (
    ground (arith, h i),
    ground (arith, h i, lookup-erase i i c.stereo_pairs),
    λ j. ground (arith, h i, h j, lookup-erase i j c.stereo_pairs),
  )

  -- With fewer than 50 pairs in the buffer, a left and a right frame of one id, put in either order,
  -- come back together, once; the other pairs stay as they were.
  pub put_stereo-try_get_stereo_pair :
      (b : DataBuffer) (i : ℕ) (l r : DataBundle)
      → length b.stereo_pairs < 50
      → Gives b (left_then_right b i l r) i l r × Gives b (right_then_left b i l r) i l r
  put_stereo-try_get_stereo_pair b i l r h = (
    Gives-lookup b (left_then_right b i l r) i l r (λ j. lookup-left_then_right b i j l r h),
    Gives-lookup b (right_then_left b i l r) i l r (λ j. lookup-right_then_left b i j l r h),
  )

  -- A full buffer whose `begin()` points at a half pair loses the half when the other one arrives:
  -- the pair is not given, whatever it held before.
  put_stereo_loses_pair :
      (b : DataBuffer) (i : ℕ) (l r : DataBundle)
      → 50 < length b.stereo_pairs
      → begin b.stereo_pairs ≡ i
      → ((try_get_stereo_pair (put_stereo begin b i "right" r) i).0 ≡ none)
        × ((try_get_stereo_pair (put_stereo begin b i "left" l) i).0 ≡ none)
  unfolding put_stereo try_get_stereo_pair
  put_stereo_loses_pair b i l r h e =
      let m = erase i b.stereo_pairs in
      let gone = lookup-erase i i b.stereo_pairs in
      (
        ground (arith, gone, lookup-assign i i (set_part (pair_at none) "right" r) m),
        ground (arith, gone, lookup-assign i i (set_part (pair_at none) "left" l) m),
      )
