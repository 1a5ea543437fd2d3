-- ===== src/Examples/Post.antt =====
-- Runs of src/postprocess.
use project_viatech_ecids_co.Base.{ℕ, ◌≡◌, ◌⊎◌, refl, true, String, List, [], ◌∷◌}
use project_viatech_ecids_co.Common.Double.{Double, whole, whole-IsOrdered}
use project_viatech_ecids_co.Common.Geometry.{Detection}
use project_viatech_ecids_co.Postprocess.Distance.{
  GapDistance, select_best_disparity, NoneNearer, IsUsable, depth_diff,
  select_best_disparity-NoneNearer,
}
use project_viatech_ecids_co.Postprocess.SameGap.{SameGapChecker}

instance abbrev units : Double ℕ
units = whole

abbrev detection : String → ℕ → Detection ℕ
detection label confidence = record {
  label_id = label;
  confidence = confidence;
  file_name = "";
  coordinates = [];
  ts_start = "";
  ts_end = "";
}

abbrev detections : List (Detection ℕ)
detections =
    detection "T1" 90 ∷ detection "gap_t1" 80 ∷ detection "gap_t2" 20 ∷ detection "dust" 70 ∷ []

abbrev distance : GapDistance ℕ
distance = record {
  disp_calc = record { baseline_mm = 120; focal_length_px = 1000 };
  depth_reference_mm = 500;
  offset_mm = 0;
}

select_best_disparity-NoneNearer_example :
    (IsUsable (select_best_disparity distance (100 ∷ 200 ∷ 240 ∷ [])) (100 ∷ 200 ∷ 240 ∷ [])
      × NoneNearer distance
          (depth_diff distance (select_best_disparity distance (100 ∷ 200 ∷ 240 ∷ [])))
          (100 ∷ 200 ∷ 240 ∷ []))
    ⊎ ((select_best_disparity distance (100 ∷ 200 ∷ 240 ∷ []) ≡ 100)
        × NoneNearer distance units.huge (100 ∷ 200 ∷ 240 ∷ []))
select_best_disparity-NoneNearer_example =
    select_best_disparity-NoneNearer whole-IsOrdered distance 100 (200 ∷ 240 ∷ []) refl

abbrev checker : SameGapChecker ℕ
checker = record {
  config = record { enabled = true; location_threshold = 30; size_threshold = 1 };
  has_previous = true;
  prev = record { center_x = 15; center_y = 15; width = 10; height = 10 };
}

abbrev same_place : Detection ℕ
same_place = record (detection "gap_t1" 80) { coordinates = (10, 10) ∷ (20, 20) ∷ [] }
