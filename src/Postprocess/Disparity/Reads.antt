-- ===== src/Postprocess/Disparity/Reads.antt =====
-- DisparityCalculator.cpp: matching reads no byte outside the pictures, if these have four bytes for each
-- pixel.
use project_viatech_ecids_co.Base.{
  ℕ, zero, suc, ◌+◌, ◌-◌, ◌*◌, ◌≤◌, ◌<◌, ◌≡◌, refl, Bool, true, false, List, [], ◌∷◌, Option, some,
  if◌then◌else◌, leb, length, arith,
}
use project_viatech_ecids_co.Common.Counting.{for_each, Ends, and_then-Ends, for_each-Ends}
use project_viatech_ecids_co.Postprocess.Disparity.{
  get_elem?, Mat, Window, window_of, channel_diff, add_pixel, match_pixel, match_row, match_window,
}

abbrev pub IsBgra : Mat → Type 0
IsBgra m = length m.bytes ≡ m.cols * m.rows * 4

abbrev pub Read {ℓ} : {A : Type ℓ} → Option A → Type 0
Read o = Ends (λ a. Unit) o

get_elem?-Read : (xs : List ℕ) (i : ℕ) → i < length xs → Read (get_elem? xs i)
get_elem?-Read [] i h = absurd (omega arith)
get_elem?-Read (x ∷ xs) zero h = tt
get_elem?-Read (x ∷ xs) (suc i) h = get_elem?-Read xs i (omega arith)

channel_diff-Read :
    (left right : Mat) (li ri : ℕ)
    → li < length left.bytes
    → ri < length right.bytes
    → Read (channel_diff left right li ri)
channel_diff-Read left right li ri p q =
    and_then-Ends _ _ (get_elem? left.bytes li) _ (get_elem?-Read left.bytes li p) (λ a _.
      and_then-Ends _ _ (get_elem? right.bytes ri) _ (get_elem?-Read right.bytes ri q) (λ b _. tt))

add_pixel-Read :
    (left right : Mat) (li ri : ℕ) (s : ℕ × ℕ)
    → li + 2 < length left.bytes
    → ri + 2 < length right.bytes
    → Read (add_pixel left right li ri s)
unfolding add_pixel
add_pixel-Read left right li ri (sad, count) p q =
    and_then-Ends _ _ (channel_diff left right li ri) _
      (channel_diff-Read left right li ri (omega arith) (omega arith))
      (λ b _.
        and_then-Ends _ _ (channel_diff left right (li + 1) (ri + 1)) _
          (channel_diff-Read left right (li + 1) (ri + 1) (omega arith) (omega arith))
          (λ g _.
            and_then-Ends _ _ (channel_diff left right (li + 2) (ri + 2)) _
              (channel_diff-Read left right (li + 2) (ri + 2) p q) (λ r _. tt)))

-- A pixel in a row and a column of a picture stands among its bytes.
pixel_in : (x y cols rows : ℕ) → x < cols → y < rows → (y * cols + x) * 4 + 2 < cols * rows * 4
pixel_in x y cols rows p q = grind arith

read_if :
    {A : Type 0} (b : Bool) (s : A) (o : Option A)
    → (b ≡ false → Read o)
    → Read (if b then some s else o)
read_if true s o h = tt
read_if false s o h = h refl

-- A loop whose body never fails.
loop_Read :
    {S : Type 0} (body : ℕ → S → Option S) (rounds : ℕ) (s : S)
    → ((i : ℕ) (t : S) → i < rounds → Read (body i t))
    → Read (for_each body rounds 0 s)
loop_Read body rounds s h =
    for_each-Ends (λ i t. Unit) body rounds rounds 0 s (omega arith) (λ i t p _. h i t p) tt

module _ (left right : Mat) (l : IsBgra left) (r : IsBgra right) where
  match_pixel-Read :
      (w : Window) (disp y x : ℕ) (s : ℕ × ℕ)
      → w.x0 + x < left.cols
      → w.y0 + y < left.rows
      → Read (match_pixel left right w disp y x s)
  unfolding match_pixel
  match_pixel-Read w disp y x s p q =
      let li = ((w.y0 + y) * left.cols + (w.x0 + x)) * 4 in
      let ri = ((w.y0 + y) * right.cols + (w.x0 + x - disp)) * 4 in
      read_if (leb (right.cols * right.rows * 4) (ri + 3)) s (add_pixel left right li ri s) (λ e.
        add_pixel-Read left right li ri s
          (omega (arith, l, pixel_in (w.x0 + x) (w.y0 + y) left.cols left.rows p q)) (ground arith))

  -- The window lies in the left picture.
  abbrev pub Inside : Window → Type 0
  Inside w = (w.x0 + w.tw ≤ left.cols) × (w.y0 + w.th ≤ left.rows)

  pub match_window-Read : (w : Window) (disp : ℕ) → Inside w → Read (match_window left right w disp)
  unfolding match_window match_row
  match_window-Read w disp (p, q) =
      loop_Read (match_row left right w disp) w.th (0, 0)
        (λ y s hy.
          loop_Read (match_pixel left right w disp y) w.tw s
            (λ x t hx. match_pixel-Read w disp y x t (omega arith) (omega arith)))

  pub window_of-Inside :
      (px py wr : ℕ)
      → px < left.cols
      → py < left.rows
      → Inside (window_of left.cols left.rows px py wr)
  unfolding window_of
  window_of-Inside px py wr p q = (ground arith, ground arith)
