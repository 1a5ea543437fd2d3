-- ===== src/Postprocess/Edges.antt =====
-- src/postprocess/EdgeFitter.cpp, over a type `D` of doubles. The random draws of
-- `hybrid_ransac_fit` are an argument: the pair of indices that iteration `i` draws. The points are
-- fewer than 2^16, so the number of pairs fits an `int`.
use project_viatech_ecids_co.Base.{
  ℕ, zero, suc, ◌+◌, ◌-◌, ◌*◌, ◌/◌, Bool, true, false, not, ◌||◌, List, [], ◌∷◌, ◌++◌,
  if◌then◌else◌, ltb, leb, ◌==◌, map, length, get_or, take, keep, is_empty, any_of,
}
use project_viatech_ecids_co.Common.Double.{Double}
use project_viatech_ecids_co.Common.Geometry.{Detection, Point2D, Line2D, ClassifiedCleat}
use project_viatech_ecids_co.Common.Sorting.{sort}
pub mod Consensus

-- The locals of `fit_line`.
pub record Sums (D : Type 0) : Type 0 where
  pub sum_x : D
  pub sum_y : D
  pub sum_xy : D
  pub sum_xx : D

-- The locals of the loop of `hybrid_ransac_fit`.
pub record Best (D : Type 0) : Type 0 where
  pub best_inliers : ℕ
  pub best_line : Line2D D

unfoldable pub actual_iters : ℕ → ℕ → ℕ
actual_iters max_iterations n =
    let pairs = n * (n - 1) / 2 in if ltb pairs max_iterations then pairs else max_iterations

module _ {D : Type 0} ⦃d : Double D⦄ where
  abbrev pub no_line : Line2D D
  no_line = record { slope = d.of_nat 0; intercept = d.of_nat 0; valid = false }

  unfoldable pub no_point : Point2D D
  no_point = record { x = d.of_nat 0; y = d.of_nat 0 }

  unfoldable pub add_point : Sums D → Point2D D → Sums D
  add_point s p = record {
    sum_x = d.add s.sum_x p.x;
    sum_y = d.add s.sum_y p.y;
    sum_xy = d.add s.sum_xy (d.mul p.x p.y);
    sum_xx = d.add s.sum_xx (d.mul p.x p.x);
  }

  unfoldable pub sums : Sums D → List (Point2D D) → Sums D
  unfolding add_point
  sums s [] = s
  sums s (p ∷ ps) = sums (add_point s p) ps

  unfoldable pub denom : D → Sums D → D
  denom n s = d.sub (d.mul n s.sum_xx) (d.mul s.sum_x s.sum_x)

  unfoldable pub least_squares : D → Sums D → Line2D D
  unfolding denom
  least_squares n s =
      let slope = d.div (d.sub (d.mul n s.sum_xy) (d.mul s.sum_x s.sum_y)) (denom n s) in
      record {
        slope = slope;
        intercept = d.div (d.sub s.sum_y (d.mul slope s.sum_x)) n;
        valid = true;
      }

  unfoldable pub sums_of : List (Point2D D) → Sums D
  unfolding sums
  sums_of points =
      sums
        (record {
          sum_x = d.of_nat 0;
          sum_y = d.of_nat 0;
          sum_xy = d.of_nat 0;
          sum_xx = d.of_nat 0;
        })
        points

  unfoldable pub fit_line : List (Point2D D) → Line2D D
  unfolding denom least_squares sums_of
  fit_line points =
      let n = d.of_nat (length points) in
      let s = sums_of points in
      if ltb (length points) 2
      then no_line
      else if d.lt (d.abs (denom n s)) d.tiny
      then no_line
      else least_squares n s

  unfoldable pub point_to_line_distance : Point2D D → Line2D D → D
  point_to_line_distance p line =
      let predicted_y = d.add (d.mul line.slope p.x) line.intercept in
      if not line.valid
      then d.huge
      else d.div (d.abs (d.sub p.y predicted_y))
          (d.sqrt (d.add (d.of_nat 1) (d.mul line.slope line.slope)))

  unfoldable pub is_inlier : D → Line2D D → Point2D D → Bool
  unfolding point_to_line_distance
  is_inlier inlier_threshold line p = d.lt (point_to_line_distance p line) inlier_threshold

  unfoldable pub line_through : Point2D D → Point2D D → Line2D D
  line_through a b =
      let slope = d.div (d.sub a.y b.y) (d.sub a.x b.x) in
      record { slope = slope; intercept = d.sub a.y (d.mul slope a.x); valid = true }

  unfoldable pub count_inliers : D → Line2D D → List (Point2D D) → ℕ
  unfolding is_inlier
  count_inliers inlier_threshold line points =
      length (keep (is_inlier inlier_threshold line) points)

  -- An iteration: two indices, the two `continue`s, and a candidate.
  unfoldable pub try_pair : List (Point2D D) → D → ℕ × ℕ → Best D → Best D
  unfolding line_through count_inliers no_point
  try_pair points inlier_threshold (a, b) s =
      let p = get_or points a no_point in
      let q = get_or points b no_point in
      let candidate = line_through p q in
      let inliers = count_inliers inlier_threshold candidate points in
      if a == b
      then s
      else if d.lt (d.abs (d.sub p.x q.x)) d.tiny
      then s
      else if ltb s.best_inliers inliers
      then record { best_inliers = inliers; best_line = candidate }
      else s

  -- `n` iterations, the next one being `i`.
  unfoldable pub try_pairs : List (Point2D D) → D → (ℕ → ℕ × ℕ) → ℕ → ℕ → Best D → Best D
  unfolding try_pair
  try_pairs points inlier_threshold draws i zero s = s
  try_pairs points inlier_threshold draws i (suc n) s =
      try_pairs points inlier_threshold draws (suc i) n
        (try_pair points inlier_threshold (draws i) s)

  -- The end of `hybrid_ransac_fit`, on more than one point.
  unfoldable pub refit : List (Point2D D) → D → Best D → Line2D D
  unfolding is_inlier fit_line
  refit points inlier_threshold s =
      let inlier_pts = keep (is_inlier inlier_threshold s.best_line) points in
      if leb 2 s.best_inliers
      then if leb 2 (length inlier_pts) then fit_line inlier_pts else s.best_line
      else if leb 2 (length points)
      then fit_line points
      else s.best_line

  unfoldable pub hybrid_ransac_fit : List (Point2D D) → D → ℕ → (ℕ → ℕ × ℕ) → Line2D D
  unfolding try_pairs actual_iters refit
  hybrid_ransac_fit points inlier_threshold max_iterations draws =
      if ltb (length points) 2
      then no_line
      else refit points inlier_threshold (
          try_pairs points inlier_threshold draws 0 (actual_iters max_iterations (length points))
            (record { best_inliers = 0; best_line = no_line }))

  unfoldable pub add_points : Point2D D → List (Point2D D) → Point2D D
  add_points c [] = c
  add_points c (p ∷ pts) = add_points (record { x = d.add c.x p.x; y = d.add c.y p.y }) pts

  unfoldable pub centroid : List (Point2D D) → Point2D D
  unfolding add_points no_point
  centroid pts =
      let c = add_points no_point pts in
      let n = d.of_nat (length pts) in
      if not (is_empty pts) then record { x = d.div c.x n; y = d.div c.y n } else c

  unfoldable pub remove_outliers : List (Point2D D) → Line2D D → D → List (Point2D D)
  unfolding point_to_line_distance
  remove_outliers pts line threshold =
      let result = keep (λ p. d.le (point_to_line_distance p line) threshold) pts in
      if not line.valid then pts else if is_empty result then pts else result

  abbrev points_of : List (D × D) → List (Point2D D)
  points_of coordinates = map (λ c. record { x = c.0; y = c.1 }) coordinates

  unfoldable pub extract_edge_points : Detection D → Bool → List (Point2D D)
  unfolding sort
  extract_edge_points det bottom_edge =
      let pts = points_of det.coordinates in
      let sorted = sort (λ a b. if bottom_edge then d.lt b.y a.y else d.lt a.y b.y) pts in
      if ltb (length det.coordinates) 2 then [] else take (length pts / 2) sorted

  unfoldable pub extract_classified_bottom_points : List (ClassifiedCleat D) → List (Point2D D)
  extract_classified_bottom_points cleats = map (λ cc. cc.bottom_mid) cleats

  unfoldable pub extract_classified_top_points : List (ClassifiedCleat D) → List (Point2D D)
  extract_classified_top_points cleats = map (λ cc. record { x = cc.center_x; y = cc.top_y }) cleats

  unfoldable pub edge_points : List (Detection D) → Bool → List (Point2D D)
  unfolding extract_edge_points
  edge_points [] bottom_edge = []
  edge_points (det ∷ dets) bottom_edge =
      extract_edge_points det bottom_edge ++ edge_points dets bottom_edge

  -- What `fit_up_edge` and `fit_dn_edge` do with their points, with the threshold 2.0.
  unfoldable pub fit_cleaned : List (Point2D D) → Line2D D
  unfolding fit_line remove_outliers
  fit_cleaned pts =
      let first = fit_line pts in
      if is_empty pts
      then no_line
      else if first.valid
      then fit_line (remove_outliers pts first (d.of_nat 2))
      else first

  unfoldable pub fit_up_edge : List (Detection D) → Line2D D
  unfolding edge_points fit_cleaned
  fit_up_edge up_cleats = fit_cleaned (edge_points up_cleats true)

  unfoldable pub fit_dn_edge : List (Detection D) → Line2D D
  unfolding edge_points fit_cleaned
  fit_dn_edge dn_cleats = fit_cleaned (edge_points dn_cleats false)

  unfoldable pub line_intersection_x : Line2D D → D → Point2D D
  line_intersection_x line x = record {
    x = x;
    y = if line.valid then d.add (d.mul line.slope x) line.intercept else d.of_nat 0;
  }

  -- With the default threshold of 5.0 and 100 iterations.
  unfoldable pub fit_classified : List (Point2D D) → (ℕ → ℕ × ℕ) → Line2D D
  unfolding hybrid_ransac_fit
  fit_classified pts draws =
      if is_empty pts then no_line else hybrid_ransac_fit pts (d.of_nat 5) 100 draws

  unfoldable pub fit_up_long_edge : List (ClassifiedCleat D) → (ℕ → ℕ × ℕ) → Line2D D
  unfolding fit_classified extract_classified_bottom_points
  fit_up_long_edge cleats draws = fit_classified (extract_classified_bottom_points cleats) draws

  unfoldable pub fit_up_short_edge : List (ClassifiedCleat D) → (ℕ → ℕ × ℕ) → Line2D D
  unfolding fit_classified extract_classified_bottom_points
  fit_up_short_edge cleats draws = fit_classified (extract_classified_bottom_points cleats) draws

  unfoldable pub fit_dn_long_edge : List (ClassifiedCleat D) → (ℕ → ℕ × ℕ) → Line2D D
  unfolding fit_classified extract_classified_top_points
  fit_dn_long_edge cleats draws = fit_classified (extract_classified_top_points cleats) draws

  unfoldable pub fit_dn_short_edge : List (ClassifiedCleat D) → (ℕ → ℕ × ℕ) → Line2D D
  unfolding fit_classified extract_classified_top_points
  fit_dn_short_edge cleats draws = fit_classified (extract_classified_top_points cleats) draws
