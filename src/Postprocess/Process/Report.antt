-- ===== src/Postprocess/Process/Report.antt =====
-- PostprocessModule.cpp: what the result of `process` and `process_ai_test` reports.
use project_viatech_ecids_co.Base.{
  ℕ, ◌≡◌, refl, subst, Bool, true, false, String, List, Option, none, some, if◌then◌else◌, keep,
}
use project_viatech_ecids_co.Common.Modes.{InspectionSubTask}
use project_viatech_ecids_co.Common.Double.{Double, IsOrdered}
use project_viatech_ecids_co.Common.Geometry.{
  Detection, DetectionResponse, GapLineType, InspectionResult, up_gap, down_gap,
}
use project_viatech_ecids_co.Postprocess.Extract.{
  ExtractedDetections, extract, labelled, Kind, extract_lists,
}
use project_viatech_ecids_co.Postprocess.GapLines.{GapLine}
use project_viatech_ecids_co.Postprocess.Distance.{GapDistance}
use project_viatech_ecids_co.Postprocess.Pipeline.{
  PostprocessConfig, Images, Vision, image_height, push_line, run_gap_pipeline, with_edges,
  fit_edges,
}
use project_viatech_ecids_co.Postprocess.Pipeline.Lines.{
  IsLined, push_line-IsLined, run_gap_pipeline_keeps, is_near_border,
}
use project_viatech_ecids_co.Common.Json.{JsonBuilder}
use project_viatech_ecids_co.Postprocess.Process.{
  Drawing, PostprocessModule, Processed, start_result, start_ai_test, blank_result, annotate,
  annotate_ai_test, repeated, finished, is_gap_inspection, process, process_ai_test,
}

either_of : {A : Type 0} (P : A → Type 0) (a : Bool) (x y : A) → P x → P y → P (if a then x else y)
either_of P true x y p q = p
either_of P false x y p q = q

result_of :
    {D : Type 0} (P : InspectionResult D → Type 0) (a : Bool) (x y : Processed D)
    → P x.result
    → P y.result
    → P (if a then x else y).result
result_of P true x y p q = p
result_of P false x y p q = q

module _ {D : Type 0} ⦃d : Double D⦄ (o : IsOrdered d) (config : PostprocessConfig D)
    (height : ℕ) where
  -- The detections as received, the abnormal ones, and the gap lines of a lined result.
  abbrev pub Reports : List (Detection D) → List (Detection D) → InspectionResult D → Type 0
  Reports detections abnormals r =
      (r.ai_detections ≡ detections) × (r.abnormal ≡ abnormals) × IsLined o config height r

  module _ (detections abnormals : List (Detection D)) (v : Vision D) (g : GapDistance D)
      (images : Images) where
    push_line-Reports :
        (t : GapLineType) (gl : GapLine D) (r : InspectionResult D) (dist : Option D)
        → is_near_border v config g images height (Reports detections abnormals) gl ≡ false
        → Reports detections abnormals r
        → Reports detections abnormals (push_line t gl r dist)
    unfolding push_line
    push_line-Reports t gl r none near (a, b, l) =
        (a, b, push_line-IsLined o config height t gl r none near l)
    push_line-Reports t gl r (some dist) near (a, b, l) =
        (a, b, push_line-IsLined o config height t gl r (some dist) near l)

    run_gap_pipeline-Reports :
        (r : InspectionResult D) (e : ExtractedDetections D)
        → Reports detections abnormals r
        → Reports detections abnormals (run_gap_pipeline v config g images height r e)
    unfolding with_edges fit_edges
    run_gap_pipeline-Reports r e h =
        run_gap_pipeline_keeps v config g images height (Reports detections abnormals)
          (push_line-Reports up_gap) (push_line-Reports down_gap) r e h h

  start-Reports :
      (response : DetectionResponse D) (e : ExtractedDetections D) (station escalator : String)
      (wd : D)
      → Reports response.results e.abnormals (start_result response e station escalator wd)
  unfolding start_result blank_result
  start-Reports response e station escalator wd = (refl, refl, (tt, o.lt_irrefl (d.of_nat 0)))

  start_ai_test-Reports :
      (response : DetectionResponse D) (e : ExtractedDetections D)
      → Reports response.results e.abnormals (start_ai_test response e)
  unfolding start_ai_test blank_result
  start_ai_test-Reports response e = (refl, refl, (tt, o.lt_irrefl (d.of_nat 0)))

  finished-Reports :
      (ds abnormals : List (Detection D)) (v : Vision D) (w : Drawing D) (m : PostprocessModule D)
      (images : Images) (sub_task : InspectionSubTask) (e : ExtractedDetections D)
      (r : InspectionResult D)
      → Reports ds abnormals r
      → Reports ds abnormals (
          run_gap_pipeline v m.config m.gap_dist images
            (image_height v.imdecode_rows images.left_data)
            r
            e)
      → Reports ds abnormals (finished v w m images sub_task e r)
  unfolding finished annotate
  finished-Reports ds abnormals v w m images sub_task e r p q =
      either_of (Reports ds abnormals) (is_gap_inspection sub_task)
        (run_gap_pipeline v m.config m.gap_dist images
          (image_height v.imdecode_rows images.left_data) r e)
        r q p

module _ {D : Type 0} ⦃d : Double D⦄ (o : IsOrdered d) (b : JsonBuilder D) (v : Vision D)
    (w : Drawing D) (m : PostprocessModule D) (response : DetectionResponse D)
    (images : Images) where
  abbrev pub height_in : ℕ
  height_in = image_height v.imdecode_rows images.left_data

  abbrev pub abnormal_in : List (Detection D)
  abnormal_in = keep (labelled m.min_confidence Kind.abnormal) response.results

  -- `process` reports all detections, the abnormal ones, and gap lines that keep to the margins of
  -- the image with no distance above that of the result, for every sub-task and also for a repeated gap.
  pub process-Reports :
      (station_id escalator_id : String) (pair_index : ℕ) (sub_task : InspectionSubTask) (wd : D)
      → Reports o m.config height_in response.results abnormal_in
          (process b v w m response station_id escalator_id images pair_index sub_task wd).result
  unfolding process
  process-Reports station_id escalator_id pair_index sub_task wd =
      let e = extract response.results m.min_confidence in
      let r = start_result response e station_id escalator_id wd in
      let listed = (extract_lists response.results m.min_confidence).4 in
      let started =
        subst (λ as'. Reports o m.config height_in response.results as' r) listed
          (start-Reports o m.config height_in response e station_id escalator_id wd) in
      let piped =
        run_gap_pipeline-Reports o m.config height_in response.results abnormal_in v m.gap_dist
          images r e started in
      result_of (Reports o m.config height_in response.results abnormal_in)
        (repeated m sub_task e.gaps).0 _ _ started
        (finished-Reports o m.config height_in response.results abnormal_in v w m images sub_task e
          r started piped)

  -- The same of `process_ai_test`.
  pub process_ai_test-Reports :
      (pair_index : ℕ)
      → Reports o m.config height_in response.results abnormal_in
          (process_ai_test b v w m response images pair_index).result
  unfolding process_ai_test annotate_ai_test annotate
  process_ai_test-Reports pair_index =
      let e = extract response.results m.min_confidence in
      let listed = (extract_lists response.results m.min_confidence).4 in
      let r = start_ai_test response e in
      run_gap_pipeline-Reports o m.config height_in response.results abnormal_in v m.gap_dist images
        r e
        (subst (λ as'. Reports o m.config height_in response.results as' r) listed
          (start_ai_test-Reports o m.config height_in response e))
