-- ===== src/App/Publish.antt =====
-- src/main.cpp: the callback that takes a result of the AI service: it is processed, the working distances
-- of an installation are averaged, and the result is published. `std::round` is an argument, and how the JSON
-- library makes a truth value.
pub mod Averages
use project_viatech_ecids_co.Base.{
  ℕ, ◌+◌, Bool, true, false, not, ◌&&◌, ◌||◌, String, str_eq, List, [], ◌∷◌, ◌++◌, Text, codes,
  some, if◌then◌else◌, ltb, is_empty, map,
}
use project_viatech_ecids_co.Common.Double.{Double}
use project_viatech_ecids_co.Common.Frames.{DataBundle}
use project_viatech_ecids_co.Common.Geometry.{DetectionResponse, InspectionResult}
use project_viatech_ecids_co.Common.Modes.{Mode, mode_eq, InspectionSubTask, subtask_name}
use project_viatech_ecids_co.Postprocess.Pipeline.{Images, Vision}
use project_viatech_ecids_co.Common.Json.{JsonBuilder}
use project_viatech_ecids_co.Postprocess.Messages.{labelled_json, lines_json, edges_json}
use project_viatech_ecids_co.Postprocess.Process.{
  Drawing, PostprocessModule, Processed, Saves, process, process_ai_test,
}
use project_viatech_ecids_co.App.{Core}

-- What goes out: a text on the channel `Visual2D`, a text under the topic `core/result`, and a picture with
-- its header under the topic `core/result_image`.
pub data Published : Type 0 where
  visual_2d core_result : Text → Published
  result_image : Text → List ℕ → Published

-- What the message of an installation has more.
pub record Installation (D : Type 0) : Type 0 where
  pub avg_working_distance_mm : D
  pub installation_ready : Bool
  pub working_distance_ok : Bool
  pub task_detected : Bool

module _ {D : Type 0} ⦃d : Double D⦄ where
  -- The working distance is counted, if it is one.
  unfoldable pub count_distance : Core D → D → Core D
  count_distance c wd =
      if d.lt (d.of_nat 0) wd
      then record c { wd_sum = d.add c.wd_sum wd; wd_count = c.wd_count + 1 }
      else c

  unfoldable pub average : Core D → D → D
  average c wd = if ltb 0 c.wd_count then d.div c.wd_sum (d.of_nat c.wd_count) else wd

  unfoldable pub installation_of : (D → D) → Core D → InspectionResult D → Installation D
  unfolding average
  installation_of round c r =
      let avg_wd = average c r.working_distance_mm in
      let wd_ok = d.le (d.of_nat 300) avg_wd && d.le avg_wd (d.of_nat 1000) in
      let task_ok = str_eq r.task_id "T1" || str_eq r.task_id "T2" in
      record {
        avg_working_distance_mm = d.div (round (d.mul avg_wd (d.of_nat 10))) (d.of_nat 10);
        installation_ready = wd_ok && task_ok;
        working_distance_ok = wd_ok;
        task_detected = task_ok;
      }

  unfoldable pub count_result : Core D → InspectionSubTask → InspectionResult D → Core D
  unfolding count_distance
  count_result c InspectionSubTask.installation r = count_distance c r.working_distance_mm
  count_result c _ r = c

module _ {D : Type 0} ⦃d : Double D⦄ (b : JsonBuilder D) (of_bool : Bool → b.J)
    (round : D → D) where
  unfoldable pub installation_json :
      Core D → InspectionSubTask → InspectionResult D → List (String × b.J)
  unfolding installation_of
  installation_json c InspectionSubTask.installation r =
      let i = installation_of round c r in
      ("avg_working_distance_mm", b.of_double i.avg_working_distance_mm)
      ∷ ("installation_ready", of_bool i.installation_ready)
      ∷ ("working_distance_ok", of_bool i.working_distance_ok)
      ∷ ("task_detected", of_bool i.task_detected)
      ∷ []
  installation_json c _ r = []

  unfoldable pub message : Core D → InspectionSubTask → InspectionResult D → Text
  unfolding subtask_name edges_json installation_json
  message c sub_task r = b.dump (
      b.object (
        ("transaction_id", b.of_string r.transaction_id)
        ∷ ("task_id", b.of_string r.task_id)
        ∷ ("station_id", b.of_string r.station_id)
        ∷ ("escalator_id", b.of_string r.escalator_id)
        ∷ ("gap_distance_mm", b.of_double r.gap_distance_mm)
        ∷ ("working_distance_mm", b.of_double r.working_distance_mm)
        ∷ ("timestamp", b.of_string r.timestamp)
        ∷ ("sub_task", b.of_string (subtask_name sub_task))
        ∷ ("ai_detections", b.array (map (labelled_json b) r.ai_detections))
        ∷ ("abnormal", b.array (map (labelled_json b) r.abnormal))
        ∷ (installation_json c sub_task r
            ++ (edges_json b r.edges
                ++ (if not (is_empty r.gap_lines) then lines_json b r.gap_lines ∷ [] else [])))))

  -- A picture that is not empty is sent with its header.
  unfoldable pub picture : String → ℕ → InspectionResult D → List ℕ → List Published
  picture camera pair_index r bytes =
      if not (is_empty bytes)
      then result_image
          (b.dump (
            b.object (
              ("camera", b.of_string camera)
              ∷ ("pair_index", b.of_int pair_index)
              ∷ ("transaction_id", b.of_string r.transaction_id)
              ∷ [])))
          bytes
        ∷ []
      else []

  unfoldable pub publish :
      Core D → InspectionSubTask → ℕ → InspectionResult D → Core D × List Published
  unfolding count_result message picture
  publish c sub_task pair_index r =
      let after = count_result c sub_task r in
      let text = message after sub_task r in
      (
        after,
        visual_2d text
            ∷ core_result text
            ∷ (picture "L" pair_index r r.annotated_left
                ++ picture "R" pair_index r r.annotated_right),
      )

  -- How a result is processed goes by the mode.
  unfoldable pub processed :
      Vision D
      → Drawing D
      → PostprocessModule D
      → Core D
      → DetectionResponse D
      → DataBundle
      → DataBundle
      → ℕ
      → InspectionSubTask
      → D
      → Processed D
  unfolding mode_eq process process_ai_test
  processed v w m c resp left right pair_index sub_task working_distance_mm =
      let images : Images = record { left_data = some left.bytes; right_data = some right.bytes } in
      if mode_eq c.board.control.mode Mode.ai_test
      then process_ai_test b v w m resp images pair_index
      else process b v w m resp c.tasks.inspection_.station_id c.tasks.inspection_.escalator_id
          images pair_index sub_task working_distance_mm

  unfoldable pub result_callback :
      Vision D
      → Drawing D
      → PostprocessModule D
      → Core D
      → DetectionResponse D
      → DataBundle
      → DataBundle
      → ℕ
      → InspectionSubTask
      → D
      → Core D × PostprocessModule D × Saves × List Published
  unfolding processed publish
  result_callback v w m c resp left right pair_index sub_task working_distance_mm =
      let p = processed v w m c resp left right pair_index sub_task working_distance_mm in
      let (after, out) = publish c sub_task pair_index p.result in
      (after, p.module_after, p.saves, out)
