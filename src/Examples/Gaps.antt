-- ===== src/Examples/Gaps.antt =====
-- Runs of src/postprocess from the cleats to the saved result.
use project_viatech_ecids_co.Base.{
  ℕ, ◌≡◌, refl, true, false, String, List, [], ◌∷◌, length, some, codes, if◌then◌else◌, str_eq,
  arith,
}
use project_viatech_ecids_co.Common.Double.{Double, whole, whole-IsOrdered}
use project_viatech_ecids_co.Common.Modes.{InspectionSubTask}
use project_viatech_ecids_co.Common.Geometry.{Detection, DetectionResponse, Point2D, Line2D}
use project_viatech_ecids_co.Database.Writer.{DatabaseWriter}
use project_viatech_ecids_co.Postprocess.Cleats.{classify}
use project_viatech_ecids_co.Postprocess.Cleats.Keeps.{ClassifiesAll, classify-Classifies}
use project_viatech_ecids_co.Postprocess.Edges.{hybrid_ransac_fit, fit_line, actual_iters}
use project_viatech_ecids_co.Postprocess.Edges.Consensus.{Consensus, hybrid_ransac_fit-Consensus}
use project_viatech_ecids_co.Postprocess.GapLines.{perp_of, perpendicular_to_line}
use project_viatech_ecids_co.Postprocess.GapLines.Walk.{Stops, perpendicular_to_line-Stops}
use project_viatech_ecids_co.Postprocess.Pipeline.{PostprocessConfig, Images, Vision}
use project_viatech_ecids_co.Common.Json.{JsonBuilder}
use project_viatech_ecids_co.Postprocess.Process.{Processed, Drawing, PostprocessModule, process}
use project_viatech_ecids_co.Postprocess.Process.Report.{
  Reports, height_in, abnormal_in, process-Reports,
}
use project_viatech_ecids_co.Postprocess.Process.Saved.{calls_of}
use project_viatech_ecids_co.Postprocess.Process.Written.{AllWritten, process-AllWritten}

instance abbrev units : Double ℕ
units = whole

abbrev cleat : String → ℕ → ℕ → ℕ → Detection ℕ
cleat label x top bottom = record {
  label_id = label;
  confidence = 90;
  file_name = "";
  coordinates = (x, top) ∷ (x, bottom) ∷ [];
  ts_start = "";
  ts_end = "";
}

abbrev up_cleats : List (Detection ℕ)
up_cleats =
    cleat "tread_cleat_up" 10 5 40
    ∷ cleat "tread_cleat_up" 20 5 30
    ∷ cleat "tread_cleat_up" 30 5 41
    ∷ []

abbrev dn_cleats : List (Detection ℕ)
dn_cleats = cleat "tread_cleat_dn" 10 60 90 ∷ cleat "tread_cleat_dn" 20 70 90 ∷ []

classify-Classifies_example :
    ClassifiesAll
      (classify up_cleats dn_cleats [] "T1")
      (if str_eq "T1" "T2" then [] else up_cleats)
      dn_cleats
classify-Classifies_example = classify-Classifies up_cleats dn_cleats [] "T1"

abbrev points : List (Point2D ℕ)
points =
    record { x = 1; y = 1 }
    ∷ record { x = 2; y = 2 }
    ∷ record { x = 3; y = 9 }
    ∷ record { x = 4; y = 4 }
    ∷ []

abbrev draws : ℕ → ℕ × ℕ
draws i = (3, 0)

hybrid_ransac_fit-Consensus_example :
    (kept : List (Point2D ℕ)) × (hybrid_ransac_fit points 5 100 draws ≡ fit_line kept)
    × Consensus points 5 draws (actual_iters 100 (length points)) kept
hybrid_ransac_fit-Consensus_example = hybrid_ransac_fit-Consensus points 5 100 draws refl

abbrev level : ℕ → Line2D ℕ
level y = record { slope = 0; intercept = y; valid = true }

perpendicular_to_line-Stops_example :
    Stops
      (perp_of (level 10))
      (level 14)
      10_000
      (record { x = 3; y = 10 })
      (perpendicular_to_line (level 10) (level 14) (record { x = 3; y = 10 }))
perpendicular_to_line-Stops_example =
    perpendicular_to_line-Stops (level 10) (level 14) (record { x = 3; y = 10 }) refl refl

abbrev config : PostprocessConfig ℕ
config = record {
  min_confidence = 50;
  gap_filter_margin = 0;
  same_gap_config = record { enabled = true; location_threshold = 30; size_threshold = 1 };
  depth_reference_mm = 0;
  offset_mm = 0;
  edge_inlier_threshold = 5;
}

abbrev post : PostprocessModule ℕ
post = record {
  gap_dist = record {
    disp_calc = record { baseline_mm = 120; focal_length_px = 1000 };
    depth_reference_mm = 0;
    offset_mm = 0;
  };
  same_gap_checker = record {
    config = record { enabled = true; location_threshold = 30; size_threshold = 1 };
    has_previous = false;
    prev = record { center_x = 0; center_y = 0; width = 0; height = 0 };
  };
  record_mgr = some (record { root_path = codes "db"; active_record = codes "db/r" });
  has_db_writer = true;
  min_confidence = 50;
  config = config;
}

abbrev vision : Vision ℕ
vision = record {
  imdecode_rows = λ bytes. some 100;
  calculate_disparity = λ left right p. 20;
  draws = λ n i. (i, 0);
}

abbrev drawing : Drawing ℕ
drawing = record {
  annotate_image = λ bytes r b. 1 ∷ bytes;
  annotate_image_ai_only = λ bytes r. 2 ∷ bytes;
}

abbrev images : Images
images = record { left_data = some (7 ∷ []); right_data = some (8 ∷ []) }

-- A library that prints nothing but the keys' count.
abbrev pub counting : JsonBuilder ℕ
counting = record {
  J = ℕ;
  of_string = λ s. 0;
  of_text = λ t. 0;
  of_double = λ x. x;
  of_int = λ i. i;
  array = λ js. length js;
  object = λ ms. length ms;
  dump = λ j. j ∷ [];
}

abbrev response : String → DetectionResponse ℕ
response task = record {
  transaction_id = "t";
  dealer_id = "";
  results =
      cleat task 0 0 0
      ∷ cleat "dust" 3 1 2
      ∷ cleat "riser_cleat" 10 5 40
      ∷ cleat "riser_cleat" 20 5 40
      ∷ cleat "riser_cleat" 30 5 40
      ∷ cleat "tread_cleat_dn" 10 60 90
      ∷ cleat "tread_cleat_dn" 20 60 90
      ∷ cleat "tread_cleat_dn" 30 60 90
      ∷ [];
  ts_received = "now";
  ts_replied = "now";
}

process-Reports_example :
    Reports whole-IsOrdered config
      (height_in whole-IsOrdered counting vision drawing post (response "T2") images)
      (response "T2").results
      (abnormal_in whole-IsOrdered counting vision drawing post (response "T2") images)
      (process counting vision drawing post
        (response "T2")
        "s"
        "e"
        images
        7
        InspectionSubTask.gap_inspection
        500).result
process-Reports_example =
    process-Reports whole-IsOrdered counting vision drawing post (response "T2") images "s" "e" 7
      InspectionSubTask.gap_inspection 500

abbrev done : Processed ℕ
done =
    process counting vision drawing post (response "T2") "s" "e" images 7
      InspectionSubTask.gap_inspection 500

abbrev idle_writer : DatabaseWriter
idle_writer = record { has_manager = true; running = true; queue = []; max_queue = 200 }

process-AllWritten_example :
    AllWritten idle_writer
      (calls_of
        (process counting vision drawing post
          (response "T2")
          "s"
          "e"
          images
          7
          InspectionSubTask.gap_inspection
          500).saves)
      5
process-AllWritten_example =
    process-AllWritten counting vision drawing post (response "T2") images idle_writer refl refl
      (ground arith) "s" "e" 7 InspectionSubTask.gap_inspection 500

-- The run gives three lines, of 6000 mm each.
three_lines :
    (length
        (process counting vision drawing post
          (response "T2")
          "s"
          "e"
          images
          7
          InspectionSubTask.gap_inspection
          500).result.gap_lines
      ≡ 3)
    × ((process counting vision drawing post
          (response "T2")
          "s"
          "e"
          images
          7
          InspectionSubTask.gap_inspection
          500).result.gap_distance_mm
        ≡ 6000)
unfolding process
three_lines = (refl, refl)
