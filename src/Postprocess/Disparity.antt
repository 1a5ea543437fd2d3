-- ===== src/Postprocess/Disparity.antt =====
-- src/postprocess/DisparityCalculator.cpp over a type `D` of doubles: matching windows of two pictures.
-- Reading past the end of a picture's bytes is `none`. Decoding a picture, and rounding a coordinate to an
-- int (a negative one is 0, as it is clamped), are arguments. Ints do not overflow for pictures of less
-- than 2^29 pixels.
use project_viatech_ecids_co.Base.{
  ℕ, zero, suc, ◌+◌, ◌-◌, ◌*◌, ◌/◌, ◌≤◌, ◌<◌, ◌≡◌, Bool, true, false, not, ◌&&◌, ◌||◌, List, [],
  ◌∷◌, ◌++◌, Option, none, some, if◌then◌else◌, ltb, leb, ◌==◌, length, is_empty, keep, get_or,
  take,
}
use project_viatech_ecids_co.Common.Counting.{and_then, for_each}
use project_viatech_ecids_co.Common.Double.{Double}
use project_viatech_ecids_co.Common.Geometry.{Point2D}
use project_viatech_ecids_co.Common.Sorting.{sort}
pub mod Reads
pub mod Best
pub mod Raw
pub mod Shifts

abbrev pub max_of : ℕ → ℕ → ℕ
max_of a b = if ltb a b then b else a

abbrev pub min_of : ℕ → ℕ → ℕ
min_of a b = if ltb b a then b else a

abbrev pub get_elem? {ℓ} : {A : Type ℓ} → List A → ℕ → Option A
get_elem? [] i = none
get_elem? (x ∷ xs) zero = some x
get_elem? (x ∷ xs) (suc i) = get_elem? xs i

-- A decoded picture: `elem_size` bytes for each pixel, row by row.
pub record Mat : Type 0 where
  pub cols : ℕ
  pub rows : ℕ
  pub bytes : List ℕ

-- Where the window stands, and how large it is.
pub record Window : Type 0 where
  pub x0 : ℕ
  pub y0 : ℕ
  pub tw : ℕ
  pub th : ℕ

unfoldable pub window_of : ℕ → ℕ → ℕ → ℕ → ℕ → Window
window_of lw lh px py wr =
    let x0 = px - wr in
    let y0 = py - wr in
    record {
      x0 = x0;
      y0 = y0;
      tw = min_of lw (px + wr + 1) - x0;
      th = min_of lh (py + wr + 1) - y0;
    }

-- `std::abs(static_cast<int>(a) - static_cast<int>(b))`
abbrev pub abs_diff : ℕ → ℕ → ℕ
abs_diff a b = (a - b) + (b - a)

abbrev pub channel_diff : Mat → Mat → ℕ → ℕ → Option ℕ
channel_diff left right li ri =
    and_then (get_elem? left.bytes li)
      (λ a. and_then (get_elem? right.bytes ri) (λ b. some (abs_diff a b)))

-- The sum of the differences so far, and the number of pixels.
unfoldable pub add_pixel : Mat → Mat → ℕ → ℕ → ℕ × ℕ → Option (ℕ × ℕ)
add_pixel left right li ri (sad, count) = and_then (channel_diff left right li ri) (λ b.
    and_then (channel_diff left right (li + 1) (ri + 1)) (λ g.
      and_then (channel_diff left right (li + 2) (ri + 2))
        (λ r. some (sad + (b + g + r), count + 1))))

unfoldable pub match_pixel : Mat → Mat → Window → ℕ → ℕ → ℕ → ℕ × ℕ → Option (ℕ × ℕ)
unfolding add_pixel
match_pixel left right w d y x s =
    let li = ((w.y0 + y) * left.cols + (w.x0 + x)) * 4 in
    let ri = ((w.y0 + y) * right.cols + (w.x0 + x - d)) * 4 in
    if leb (right.cols * right.rows * 4) (ri + 3) then some s else add_pixel left right li ri s

unfoldable pub match_row : Mat → Mat → Window → ℕ → ℕ → ℕ × ℕ → Option (ℕ × ℕ)
unfolding match_pixel for_each
match_row left right w d y s = for_each (match_pixel left right w d y) w.tw 0 s

-- The window at a disparity: the sum of absolute differences and the number of pixels.
unfoldable pub match_window : Mat → Mat → Window → ℕ → Option (ℕ × ℕ)
unfolding match_row for_each
match_window left right w d = for_each (match_row left right w d) w.th 0 (0, 0)

-- What is not a picture is one row of BGRA pixels, as many as the left one has, in both.
abbrev pub raw_mat : ℕ → List ℕ → Option Mat
raw_mat w bytes =
    if ltb (length bytes) (w * 4)
    then none
    else some (record { cols = w; rows = 1; bytes = take (w * 4) bytes })

module _ {D : Type 0} ⦃d : Double D⦄ where
  -- The best disparity so far, and its sum of differences per pixel.
  abbrev pub keep_better : ℕ → ℕ × D → ℕ × ℕ → ℕ × D
  keep_better disp (best_disp, best_sad) (sad, count) =
      let norm_sad = d.div (d.of_nat sad) (d.of_nat count) in
      if ltb 0 count && d.lt norm_sad best_sad then (disp, norm_sad) else (best_disp, best_sad)

  -- From `disp` on, as many as are left; at the left edge of the right picture the loop breaks.
  unfoldable pub best_of : Mat → Mat → Window → ℕ → ℕ → ℕ × D → Option (ℕ × D)
  unfolding match_window
  best_of left right w zero disp best = some best
  best_of left right w (suc rounds) disp best =
      let here =
        and_then (match_window left right w disp)
          (λ s. best_of left right w rounds (suc disp) (keep_better disp best s)) in
      if ltb w.x0 disp then some best else here

  unfoldable pub template_match : Mat → Mat → ℕ → ℕ → ℕ → Option D
  unfolding window_of best_of
  template_match left right px py wr =
      let w = window_of left.cols left.rows px py wr in
      let max_disp = min_of 128 right.cols in
      if ltb w.tw 3 || ltb w.th 3
      then some (d.of_nat 0)
      else and_then (best_of left right w (max_disp + 1) 0 (0, d.huge))
          (λ best. some (d.of_nat best.0))

  module _ (imdecode : List ℕ → Option Mat) (pixel : D → ℕ) where
    abbrev pub match_at : Point2D D → ℕ → Mat → Mat → Option D
    match_at point wr left right =
        let px = min_of (pixel point.x) (left.cols - 1) in
        let py = min_of (pixel point.y) (left.rows - 1) in template_match left right px py wr

    unfoldable pub match_raw : List ℕ → List ℕ → Point2D D → ℕ → Option D
    unfolding template_match
    match_raw left right point wr =
        let w = max_of 1 (length left / 4) in
        let h = length left / 4 / w in
        if h == 0
        then some (d.of_nat 0)
        else and_then (raw_mat w left) (λ l. and_then (raw_mat w right) (match_at point wr l))

    abbrev match_mats : Option Mat → Option Mat → List ℕ → List ℕ → Point2D D → ℕ → Option D
    match_mats (some l) (some r) left right point wr = match_at point wr l r
    match_mats (some l) none left right point wr = match_raw left right point wr
    match_mats none r left right point wr = match_raw left right point wr

    unfoldable pub calculate_disparity : List ℕ → List ℕ → Point2D D → ℕ → Option D
    unfolding match_raw template_match
    calculate_disparity left right point wr =
        if is_empty left || is_empty right
        then some (d.of_nat 0)
        else match_mats (imdecode left) (imdecode right) left right point wr
