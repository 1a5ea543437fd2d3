-- ===== src/Postprocess/Disparity/Shifts.antt =====
-- DisparityCalculator.cpp: the sets of disparities by shifts of the points, and their fit. A shift is to the
-- left or to the right.
use project_viatech_ecids_co.Base.{
  ℕ, suc, ◌+◌, ◌-◌, Bool, ◌&&◌, List, [], ◌∷◌, ◌++◌, Option, some, if◌then◌else◌, ltb, leb, length,
  is_empty, keep, get_or, ◌||◌, ◌/◌,
}
use project_viatech_ecids_co.Common.Counting.{and_then}
use project_viatech_ecids_co.Common.Double.{Double}
use project_viatech_ecids_co.Common.Geometry.{Point2D}
use project_viatech_ecids_co.Common.Sorting.{sort}
use project_viatech_ecids_co.Postprocess.Disparity.{Mat, calculate_disparity}

pub data Shift : Type 0 where
  back ahead : ℕ → Shift

pub record DisparitySet (D : Type 0) : Type 0 where
  pub average_disparity : D
  pub shift : Shift
  pub disparities : List D

-- `i + shift` is the index of a right point.
abbrev pub is_matched : Shift → ℕ → ℕ → Bool
is_matched (back k) n_r i = leb k i && ltb (i - k) n_r
is_matched (ahead k) n_r i = ltb (i + k) n_r

abbrev pub shifts : List Shift
shifts =
    back 5
    ∷ back 4
    ∷ back 3
    ∷ back 2
    ∷ back 1
    ∷ ahead 1
    ∷ ahead 2
    ∷ ahead 3
    ∷ ahead 4
    ∷ ahead 5
    ∷ []

module _ {D : Type 0} ⦃d : Double D⦄ where
  abbrev pub x_lt : Point2D D → Point2D D → Bool
  x_lt a b = d.lt a.x b.x

  abbrev pub sum_of : D → List D → D
  sum_of s [] = s
  sum_of s (x ∷ xs) = sum_of (d.add s x) xs

  -- The disparities of the points from `i` on that are matched, if they are above a tenth.
  unfoldable pub shifted :
      (Point2D D → Option D) → Shift → ℕ → ℕ → List (Point2D D) → Option (List D)
  shifted disparity shift n_r i [] = some []
  shifted disparity shift n_r i (p ∷ ps) =
      let rest = shifted disparity shift n_r (suc i) ps in
      if is_matched shift n_r i
      then and_then (disparity p)
          (λ disp. and_then rest (λ ds. some (if d.lt (d.tenths 1) disp then disp ∷ ds else ds)))
      else rest

  abbrev set_of : Shift → List D → List (DisparitySet D)
  set_of shift [] = []
  set_of shift (x ∷ xs) =
      record {
        average_disparity = d.div (sum_of (d.of_nat 0) (x ∷ xs)) (d.of_nat (length (x ∷ xs)));
        shift = shift;
        disparities = x ∷ xs;
      }
      ∷ []

  unfoldable pub all_shifts :
      (Point2D D → Option D) → ℕ → List (Point2D D) → List Shift → Option (List (DisparitySet D))
  unfolding shifted
  all_shifts disparity n_r ls [] = some []
  all_shifts disparity n_r ls (s ∷ ss) =
      and_then (shifted disparity s n_r 0 ls)
        (λ ds. and_then (all_shifts disparity n_r ls ss) (λ more. some (set_of s ds ++ more)))

  unfoldable pub global_shift_disparity :
      (List ℕ → Option Mat)
      → (D → ℕ)
      → List (Point2D D)
      → List (Point2D D)
      → List ℕ
      → List ℕ
      → ℕ
      → Option (List (DisparitySet D))
  unfolding all_shifts
  global_shift_disparity imdecode pixel left_points right_points left right wr =
      let l = sort x_lt left_points in
      let r = sort x_lt right_points in
      if is_empty left_points || is_empty right_points
      then some []
      else all_shifts (λ p. calculate_disparity imdecode pixel left right p wr) (length r) l shifts

  abbrev median : List D → D
  median ds = get_or (sort d.lt ds) (length ds / 2) (d.of_nat 0)

  abbrev or_median : D → List D → List D
  or_median m [] = m ∷ []
  or_median m (x ∷ xs) = x ∷ xs

  unfoldable pub ransac_fit_disparity : List D → D → List D
  ransac_fit_disparity ds inlier_threshold =
      let m = median ds in
      if ltb (length ds) 3
      then ds
      else or_median m (keep (λ x. d.lt (d.abs (d.sub x m)) inlier_threshold) ds)
