-- ===== src/Postprocess/Cleats.antt =====
-- src/postprocess/CleatClassifier.cpp, over a type `D` of doubles. Logging is left out.
use project_viatech_ecids_co.Base.{
  ℕ, ◌+◌, ◌/◌, Bool, true, false, String, str_eq, List, [], ◌∷◌, ◌++◌, if◌then◌else◌, ltb, map,
  length, get_or,
}
use project_viatech_ecids_co.Common.Double.{Double}
use project_viatech_ecids_co.Common.Geometry.{Detection, Point2D, CleatType, ClassifiedCleat}
use project_viatech_ecids_co.Common.Sorting.{sort}
pub mod Split
pub mod Keeps

pub record CleatClassificationResult (D : Type 0) : Type 0 where
  pub up_long : List (ClassifiedCleat D)
  pub up_short : List (ClassifiedCleat D)
  pub dn_long : List (ClassifiedCleat D)
  pub dn_short : List (ClassifiedCleat D)

-- The locals of `detection_bottom_mid`.
pub record Bottom (D : Type 0) : Type 0 where
  pub max_y : D
  pub sum_x : D
  pub count : ℕ

module _ {D : Type 0} ⦃d : Double D⦄ where
  -- The body of the loop of `detection_bottom_mid`: two tests, one after the other.
  unfoldable pub bottom_step : Bottom D → D × D → Bottom D
  bottom_step s (x, y) =
      if d.lt s.max_y y
      then record { max_y = y; sum_x = x; count = 1 }
      else if d.lt (d.abs (d.sub y s.max_y)) (d.of_nat 3)
      then record s { sum_x = d.add s.sum_x x; count = s.count + 1 }
      else s

  unfoldable pub bottom_loop : Bottom D → List (D × D) → Bottom D
  unfolding bottom_step
  bottom_loop s [] = s
  bottom_loop s (c ∷ cs) = bottom_loop (bottom_step s c) cs

  unfoldable pub detection_bottom_mid : Detection D → Point2D D
  unfolding bottom_loop
  detection_bottom_mid det = mid det.coordinates
    where
      mid : List (D × D) → Point2D D
      mid [] = record { x = d.of_nat 0; y = d.of_nat 0 }
      mid ((x, y) ∷ cs) =
          let s = bottom_loop (record { max_y = y; sum_x = d.of_nat 0; count = 0 }) ((x, y) ∷ cs) in
          record { x = if ltb 0 s.count then d.div s.sum_x (d.of_nat s.count) else x; y = s.max_y }

  unfoldable pub largest_y : D → List (D × D) → D
  largest_y max_y [] = max_y
  largest_y max_y ((x, y) ∷ cs) = largest_y (if d.lt max_y y then y else max_y) cs

  unfoldable pub detection_bottom_y : Detection D → D
  unfolding largest_y
  detection_bottom_y det = largest_y (d.of_nat 0) det.coordinates

  unfoldable pub smallest_y : D → List (D × D) → D
  smallest_y min_y [] = min_y
  smallest_y min_y ((x, y) ∷ cs) = smallest_y (if d.lt y min_y then y else min_y) cs

  unfoldable pub detection_top_y : Detection D → D
  unfolding smallest_y
  detection_top_y det =
      let min_y = smallest_y d.huge det.coordinates in
      if d.lt min_y d.huge then min_y else d.of_nat 0

  unfoldable pub sum_x : D → List (D × D) → D
  sum_x sum [] = sum
  sum_x sum ((x, y) ∷ cs) = sum_x (d.add sum x) cs

  unfoldable pub detection_center_x : Detection D → D
  unfolding sum_x
  detection_center_x det = center det.coordinates
    where
      center : List (D × D) → D
      center [] = d.of_nat 0
      center (c ∷ cs) = d.div (sum_x (d.of_nat 0) (c ∷ cs)) (d.of_nat (length (c ∷ cs)))

  unfoldable pub make_classified : Detection D → CleatType → ClassifiedCleat D
  unfolding detection_bottom_mid detection_bottom_y detection_top_y detection_center_x
  make_classified det cleat_type = record {
    detection = det;
    cleat_type = cleat_type;
    bottom_mid = detection_bottom_mid det;
    bottom_y = detection_bottom_y det;
    top_y = detection_top_y det;
    center_x = detection_center_x det;
  }

  unfoldable pub value_of : Bool → Detection D → D
  unfolding detection_bottom_y detection_top_y
  value_of use_bottom det = if use_bottom then detection_bottom_y det else detection_top_y det

  unfoldable pub median_of : Bool → List (Detection D) → D
  unfolding value_of sort
  median_of use_bottom cleats =
      let values = sort d.lt (map (value_of use_bottom) cleats) in
      get_or values (length values / 2) (d.of_nat 0)

  -- Whether a cleat counts as long.
  unfoldable pub is_long : Bool → D → Detection D → Bool
  unfolding value_of
  is_long true median det = d.le median (value_of true det)
  is_long false median det = d.le (value_of false det) median

  -- The second loop, on the two vectors it fills.
  unfoldable pub split_loop :
      Bool
      → D
      → List (ClassifiedCleat D)
      → List (ClassifiedCleat D)
      → List (Detection D)
      → List (ClassifiedCleat D) × List (ClassifiedCleat D)
  unfolding is_long make_classified
  split_loop use_bottom median long_out short_out [] = (long_out, short_out)
  split_loop use_bottom median long_out short_out (det ∷ cleats) =
      let b = is_long use_bottom median det in
      split_loop use_bottom median
        (if b then long_out ++ make_classified det CleatType.long ∷ [] else long_out)
        (if b then short_out else short_out ++ make_classified det CleatType.short ∷ []) cleats

  unfoldable pub split_by_median :
      List (Detection D) → Bool → List (ClassifiedCleat D) × List (ClassifiedCleat D)
  unfolding median_of split_loop
  split_by_median [] use_bottom = ([], [])
  split_by_median (det ∷ cleats) use_bottom =
      split_loop use_bottom (median_of use_bottom (det ∷ cleats)) [] [] (det ∷ cleats)

  abbrev pub all_of : CleatType → List (Detection D) → List (ClassifiedCleat D)
  all_of cleat_type dets = map (λ det. make_classified det cleat_type) dets

  unfoldable pub classify :
      List (Detection D)
      → List (Detection D)
      → List (Detection D)
      → String
      → CleatClassificationResult D
  unfolding split_by_median make_classified
  classify up_cleats dn_cleats riser_cleats task_id =
      if str_eq task_id "T2"
      then record {
        up_long = all_of CleatType.long riser_cleats;
        up_short = [];
        dn_long = [];
        dn_short = all_of CleatType.short dn_cleats;
      }
      else record {
        up_long = (split_by_median up_cleats true).0;
        up_short = (split_by_median up_cleats true).1;
        dn_long = (split_by_median dn_cleats false).0;
        dn_short = (split_by_median dn_cleats false).1;
      }
