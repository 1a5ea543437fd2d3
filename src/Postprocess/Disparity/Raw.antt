-- ===== src/Postprocess/Disparity/Raw.antt =====
-- DisparityCalculator.cpp: what becomes of bytes that are no picture.
use project_viatech_ecids_co.Base.{
  ℕ, ◌*◌, ◌/◌, ◌≤◌, ◌≡◌, refl, ◌∙◌, Bool, true, false, ◌⊎◌, ◌&&◌, ◌||◌, List, Option, none, some,
  if◌then◌else◌, ltb, leb, ◌==◌, length, is_empty, arith, Bool-cases, inl, inr, if_true, if_false,
}
use project_viatech_ecids_co.Common.Counting.{and_then}
use project_viatech_ecids_co.Common.Double.{Double}
use project_viatech_ecids_co.Common.Geometry.{Point2D}
use project_viatech_ecids_co.Postprocess.Disparity.{
  Mat, max_of, window_of, template_match, raw_mat, match_at, match_raw, match_mats,
  calculate_disparity,
}

module _ {D : Type 0} ⦃d : Double D⦄ where
  -- In a picture of one row every window is too low.
  one_row :
      (left right : Mat) (px py wr : ℕ)
      → left.rows ≡ 1
      → template_match left right px py wr ≡ some (d.of_nat 0)
  unfolding template_match window_of
  one_row left right px py wr h =
      let w = window_of left.cols left.rows px py wr in
      if_true (ltb w.tw 3 || ltb w.th 3) (some (d.of_nat 0)) _ (ground arith)

  module _ (imdecode : List ℕ → Option Mat) (pixel : D → ℕ) where
    one_row_each :
        (w : ℕ) (left right : List ℕ) (point : Point2D D) (wr : ℕ)
        → w * 4 ≤ length left
        → and_then
            (raw_mat w left)
            (λ l. and_then (raw_mat w right) (match_at imdecode pixel point wr l))
          ≡ (if ltb (length right) (w * 4) then none else some (d.of_nat 0))
    one_row_each w left right point wr h =
        let enough : ltb (length left) (w * 4) ≡ false = ground arith in
        elim (Bool-cases (ltb (length right) (w * 4))) [
          | inl short ↦ rw (enough, short) refl
          | inr long ↦ rw (enough, long) (one_row _ _ _ _ wr refl)
        ]

    raw_cases :
        (left right : List ℕ) (point : Point2D D) (wr : ℕ) (b : Bool)
        → leb 4 (length left) ≡ b
        → match_raw imdecode pixel left right point wr
          ≡ (if b && ltb (length right) (length left / 4 * 4) then none else some (d.of_nat 0))
    unfolding match_raw
    raw_cases left right point wr false e =
        if_true (length left / 4 / max_of 1 (length left / 4) == 0) (some (d.of_nat 0)) _
          (ground arith)
    raw_cases left right point wr true e =
        let w : max_of 1 (length left / 4) ≡ length left / 4 = ground arith in
        if_false (length left / 4 / max_of 1 (length left / 4) == 0) _ _ (ground arith)
        ∙ rw w (one_row_each (length left / 4) left right point wr (omega arith))

    not_both :
        (l r : Option Mat)
        → (l ≡ none) ⊎ (r ≡ none)
        → (left right : List ℕ) (point : Point2D D) (wr : ℕ)
        → match_mats imdecode pixel l r left right point wr
          ≡ match_raw imdecode pixel left right point wr
    not_both none r h left right point wr = refl
    not_both (some l) none h left right point wr = refl
    not_both (some l) (some r) h left right point wr = ground arith

    -- Where one of the two is no picture the disparity is 0, whatever the bytes and the point; but where the
    -- left bytes have more whole pixels than the right ones hold, bytes past the end of these are read.
    pub calculate_disparity-raw :
        (left right : List ℕ) (point : Point2D D) (wr : ℕ)
        → (imdecode left ≡ none) ⊎ (imdecode right ≡ none)
        → is_empty left || is_empty right ≡ false
        → calculate_disparity imdecode pixel left right point wr ≡ (
            if leb 4 (length left) && ltb (length right) (length left / 4 * 4)
            then none
            else some (d.of_nat 0))
    unfolding calculate_disparity
    calculate_disparity-raw left right point wr h e =
        if_false (is_empty left || is_empty right) (some (d.of_nat 0)) _ e
        ∙ not_both (imdecode left) (imdecode right) h left right point wr
        ∙ raw_cases left right point wr (leb 4 (length left)) refl
