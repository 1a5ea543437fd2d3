-- ===== src/Postprocess/Process.antt =====
-- src/postprocess/PostprocessModule.cpp: `process` and `process_ai_test`, over a type `D` of doubles. The
-- drawing on images and the JSON library are arguments. What is to be saved is the calls of the
-- database writer, in their order, or without a writer the operations on the disk. The task id that `process` is given is left out, as
-- the code overwrites it.
use project_viatech_ecids_co.Base.{
  ℕ, Bool, true, false, not, ◌&&◌, String, str_eq, List, [], ◌∷◌, ◌++◌, Option, none, some, Text,
  codes, if◌then◌else◌, is_empty, map,
}
use project_viatech_ecids_co.Common.Modes.{InspectionSubTask}
use project_viatech_ecids_co.Common.Double.{Double}
use project_viatech_ecids_co.Common.Geometry.{
  Detection, DetectionResponse, Line2D, FittedEdges, GapLineType, up_gap, GapLineInfo,
  InspectionResult,
}
use project_viatech_ecids_co.Database.Records.{DiskOp, RecordManager, save_stereo_result}
use project_viatech_ecids_co.Database.Writer.Files.{Enqueue, image_call, ai_call, stereo_call}
use project_viatech_ecids_co.Postprocess.Extract.{ExtractedDetections, extract}
use project_viatech_ecids_co.Postprocess.Distance.{GapDistance}
use project_viatech_ecids_co.Postprocess.Distance as Distance
use project_viatech_ecids_co.Postprocess.SameGap.{SameGapChecker, is_same_gap}
use project_viatech_ecids_co.Postprocess.Edges.{no_line}
use project_viatech_ecids_co.Common.Json.{JsonBuilder}
use project_viatech_ecids_co.Postprocess.Messages.{result_json, ai_test_json}
use project_viatech_ecids_co.Postprocess.Pipeline.{
  PostprocessConfig, Images, Vision, image_height, run_gap_pipeline,
}
pub mod Report
pub mod Saved
pub mod Written

-- The drawing: the bytes of the picture, none if the image cannot be decoded.
pub record Drawing (D : Type 0) : Type 0 where
  pub annotate_image : List ℕ → InspectionResult D → Bool → List ℕ
  pub annotate_image_ai_only : List ℕ → InspectionResult D → List ℕ

pub record PostprocessModule (D : Type 0) : Type 0 where
  pub gap_dist : GapDistance D
  pub same_gap_checker : SameGapChecker D
  pub record_mgr : Option RecordManager
  pub has_db_writer : Bool
  pub min_confidence : D
  pub config : PostprocessConfig D

pub data Saves : Type 0 where
  nothing : Saves
  queued : List Enqueue → Saves
  direct : List DiskOp → Saves

pub record Processed (D : Type 0) : Type 0 where
  pub result : InspectionResult D
  pub module_after : PostprocessModule D
  pub saves : Saves

-- A picture is made of an image that is there and not empty.
unfoldable pub drawn : Option (List ℕ) → (List ℕ → List ℕ) → List ℕ → List ℕ
drawn none f old = old
drawn (some bytes) f old = if is_empty bytes then old else f bytes

module _ {D : Type 0} ⦃d : Double D⦄ where
  unfoldable pub init : PostprocessModule D → D → D → D → PostprocessModule D
  init m min_confidence baseline_mm focal_length_px = record m {
    min_confidence = min_confidence;
    config = record (m.config) { min_confidence = min_confidence };
    gap_dist = Distance.init m.gap_dist baseline_mm focal_length_px;
  }

  unfoldable pub set_record_manager :
      PostprocessModule D → Option RecordManager → PostprocessModule D
  set_record_manager m mgr = record m { record_mgr = mgr }

  unfoldable pub set_db_writer : PostprocessModule D → Bool → PostprocessModule D
  set_db_writer m writer = record m { has_db_writer = writer }

  unfoldable pub set_config : PostprocessModule D → PostprocessConfig D → PostprocessModule D
  set_config m cfg = record m { config = cfg }

  unfoldable pub blank_result : InspectionResult D
  blank_result = record {
    transaction_id = "";
    task_id = "";
    station_id = "";
    escalator_id = "";
    gap_distance_mm = d.of_nat 0;
    working_distance_mm = d.of_nat 0;
    ai_detections = [];
    abnormal = [];
    timestamp = "";
    edges = record { up_long = no_line; up_short = no_line; dn_long = no_line; dn_short = no_line };
    region = record {
      up_y_start = d.of_nat 0;
      up_y_end = d.of_nat 0;
      gap_y_start = d.of_nat 0;
      gap_y_end = d.of_nat 0;
      dn_y_start = d.of_nat 0;
      dn_y_end = d.of_nat 0;
      valid = false;
    };
    gap_lines = [];
    annotated_left = [];
    annotated_right = [];
    ai_annotated_left = [];
    ai_annotated_right = [];
  }

  -- The task that was detected, or the default.
  abbrev pub task_or : String → ExtractedDetections D → String
  task_or default extracted =
      if not (str_eq extracted.task_id "") then extracted.task_id else default

  -- The result before the pipeline.
  unfoldable pub start_result :
      DetectionResponse D → ExtractedDetections D → String → String → D → InspectionResult D
  unfolding blank_result
  start_result response extracted station_id escalator_id working_distance_mm =
      record (blank_result) {
        transaction_id = response.transaction_id;
        station_id = station_id;
        escalator_id = escalator_id;
        task_id = task_or "Unknown" extracted;
        timestamp = response.ts_received;
        working_distance_mm = working_distance_mm;
        ai_detections = response.results;
        abnormal = extracted.abnormals;
      }

  unfoldable pub start_ai_test : DetectionResponse D → ExtractedDetections D → InspectionResult D
  unfolding blank_result
  start_ai_test response extracted = record (blank_result) {
    transaction_id = response.transaction_id;
    task_id = task_or "AI Test" extracted;
    timestamp = response.ts_received;
    ai_detections = response.results;
    abnormal = extracted.abnormals;
  }

  unfoldable pub annotate : Drawing D → Images → InspectionResult D → InspectionResult D
  unfolding drawn
  annotate w images r = record r {
    annotated_left =
        drawn images.left_data (λ bytes. w.annotate_image bytes r false) r.annotated_left;
    annotated_right =
        drawn images.right_data (λ bytes. w.annotate_image bytes r false) r.annotated_right;
  }

  -- The drawing does not read the pictures made before, so each is made from the same result.
  unfoldable pub annotate_ai_test : Drawing D → Images → InspectionResult D → InspectionResult D
  unfolding annotate drawn
  annotate_ai_test w images r = record (annotate w images r) {
    ai_annotated_left =
        drawn images.left_data (λ bytes. w.annotate_image_ai_only bytes r) r.ai_annotated_left;
    ai_annotated_right =
        drawn images.right_data (λ bytes. w.annotate_image_ai_only bytes r) r.ai_annotated_right;
  }

-- `sub_task == InspectionSubTask::GapInspection`, and the folder of a sub-task.
unfoldable pub is_gap_inspection : InspectionSubTask → Bool
is_gap_inspection InspectionSubTask.gap_inspection = true
is_gap_inspection _ = false

unfoldable pub subfolder_of : InspectionSubTask → Text
subfolder_of InspectionSubTask.installation = codes "installation"
subfolder_of _ = codes "inspection"

-- A picture that is not empty is saved.
unfoldable pub save_picture : Text → Text → Text → ℕ → List ℕ → List Enqueue
save_picture record_path subfolder camera_id pair_index bytes =
    if not (is_empty bytes)
    then image_call record_path subfolder camera_id pair_index (some bytes) (codes "jpg") ∷ []
    else []

-- Nothing is saved without a record manager that has an active record.
unfoldable pub save_to : Option RecordManager → (Text → Saves) → Saves
save_to none f = nothing
save_to (some mgr) f = if not (is_empty mgr.active_record) then f mgr.active_record else nothing

module _ {D : Type 0} ⦃d : Double D⦄ where
  -- The check for a repeated gap, of the first gap of a gap inspection.
  unfoldable pub repeated :
      PostprocessModule D → InspectionSubTask → List (Detection D) → Bool × SameGapChecker D
  unfolding is_gap_inspection is_same_gap
  repeated m sub_task [] = (false, m.same_gap_checker)
  repeated m sub_task (gap ∷ gaps) =
      if is_gap_inspection sub_task
      then is_same_gap m.same_gap_checker gap
      else (false, m.same_gap_checker)

  -- The result with its lines, for a gap inspection, and its pictures.
  unfoldable pub finished :
      Vision D
      → Drawing D
      → PostprocessModule D
      → Images
      → InspectionSubTask
      → ExtractedDetections D
      → InspectionResult D
      → InspectionResult D
  unfolding is_gap_inspection run_gap_pipeline annotate image_height
  finished v w m images sub_task extracted r = annotate w images (
      if is_gap_inspection sub_task
      then run_gap_pipeline v m.config m.gap_dist images
          (image_height v.imdecode_rows images.left_data) r extracted
      else r)

module _ {D : Type 0} ⦃d : Double D⦄ (b : JsonBuilder D) where
  unfoldable pub save_result :
      PostprocessModule D → DetectionResponse D → InspectionResult D → Text → ℕ → Saves
  unfolding save_to save_picture result_json
  save_result m response r subfolder pair_index = save_to m.record_mgr (λ active.
      if m.has_db_writer
      then queued (
          stereo_call active subfolder [] pair_index (result_json b active pair_index r)
          ∷ ai_call active subfolder (codes "L") pair_index (codes response.transaction_id)
          ∷ ai_call active subfolder (codes "R") pair_index (codes response.transaction_id)
          ∷ (save_picture active subfolder (codes "AL") pair_index r.annotated_left
              ++ save_picture active subfolder (codes "AR") pair_index r.annotated_right))
      else direct
          (save_stereo_result active subfolder pair_index (result_json b active pair_index r)))

  unfoldable pub save_ai_test : PostprocessModule D → InspectionResult D → ℕ → Saves
  unfolding save_to save_picture ai_test_json
  save_ai_test m r pair_index = save_to m.record_mgr (λ active.
      if m.has_db_writer
      then queued (
          stereo_call active [] [] pair_index (ai_test_json b pair_index r)
          ∷ (save_picture active [] (codes "AL") pair_index r.annotated_left
              ++ (save_picture active [] (codes "AR") pair_index r.annotated_right
                  ++ (save_picture active [] (codes "AL2") pair_index r.ai_annotated_left
                      ++ save_picture active [] (codes "AR2") pair_index r.ai_annotated_right))))
      else direct (save_stereo_result active [] pair_index (ai_test_json b pair_index r)))

  unfoldable pub process :
      Vision D
      → Drawing D
      → PostprocessModule D
      → DetectionResponse D
      → String
      → String
      → Images
      → ℕ
      → InspectionSubTask
      → D
      → Processed D
  unfolding extract start_result repeated finished save_result
  process v w m response station_id escalator_id images pair_index sub_task working_distance_mm =
      let extracted = extract response.results m.min_confidence in
      let r = start_result response extracted station_id escalator_id working_distance_mm in
      let (same, checker) = repeated m sub_task extracted.gaps in
      let after = record m { same_gap_checker = checker } in
      let r' = finished v w m images sub_task extracted r in
      if same then record { result = r; module_after = after; saves = nothing } else record {
        result = r';
        module_after = after;
        saves = save_result m response r' (subfolder_of sub_task) pair_index;
      }

  unfoldable pub process_ai_test :
      Vision D → Drawing D → PostprocessModule D → DetectionResponse D → Images → ℕ → Processed D
  unfolding extract start_ai_test run_gap_pipeline image_height annotate_ai_test save_ai_test
  process_ai_test v w m response images pair_index =
      let extracted = extract response.results m.min_confidence in
      let r = annotate_ai_test w images (
        run_gap_pipeline v m.config m.gap_dist images
          (image_height v.imdecode_rows images.left_data) (start_ai_test response extracted)
          extracted) in
      record { result = r; module_after = m; saves = save_ai_test m r pair_index }
