-- ===== src/Postprocess/Pipeline.antt =====
-- src/postprocess/PostprocessModule.cpp up to the gap lines, over a type `D` of doubles. Decoding an
-- image and matching the two images are arguments, and so are the random draws of the four fits.
use project_viatech_ecids_co.Base.{
  ℕ, ◌+◌, ◌*◌, ◌/◌, ◌%◌, Bool, true, false, not, ◌&&◌, ◌||◌, String, str_eq, List, [], ◌∷◌, ◌++◌,
  Option, none, some, if◌then◌else◌, ltb, ◌==◌, length, is_empty, map,
}
use project_viatech_ecids_co.Common.Double.{Double}
use project_viatech_ecids_co.Common.Geometry.{
  Detection, Point2D, Line2D, GapLineType, up_gap, down_gap, GapLineInfo, InspectionResult,
  ClassifiedCleat,
}
use project_viatech_ecids_co.Postprocess.Extract.{ExtractedDetections}
use project_viatech_ecids_co.Postprocess.Distance.{GapDistance, from_disparity}
use project_viatech_ecids_co.Postprocess.SameGap.{SameGapConfig, localize}
use project_viatech_ecids_co.Postprocess.Cleats.{CleatClassificationResult, classify}
use project_viatech_ecids_co.Postprocess.Edges.{
  hybrid_ransac_fit, extract_classified_bottom_points, extract_classified_top_points,
}
use project_viatech_ecids_co.Postprocess.GapLines.{
  GapLine, locate_gap, locate_up_gap_lines, locate_down_gap_lines,
}
pub mod Lines

pub record PostprocessConfig (D : Type 0) : Type 0 where
  pub min_confidence : D
  pub gap_filter_margin : D
  pub same_gap_config : SameGapConfig D
  pub depth_reference_mm : D
  pub offset_mm : D
  pub edge_inlier_threshold : D

-- The images: the bytes, when the pointer is not null.
pub record Images : Type 0 where
  pub left_data : Option (List ℕ)
  pub right_data : Option (List ℕ)

-- What the images and the random source give.
pub record Vision (D : Type 0) : Type 0 where
  pub imdecode_rows : List ℕ → Option ℕ  -- of an image that can be decoded
  pub calculate_disparity : List ℕ → List ℕ → Point2D D → D
  pub draws : ℕ → ℕ → ℕ × ℕ  -- by the number of the fit, from 0 to 3

-- `decode_image_`: the number of rows, of a picture or else of raw BGRA pixels.
unfoldable pub decode_rows : (List ℕ → Option ℕ) → List ℕ → Option ℕ
decode_rows imdecode_rows bytes =
    let h = length bytes / (1920 * 4) in
    let raw = length bytes % 4 == 0 && (ltb 0 h && 1920 * 4 * h == length bytes) in
    if is_empty bytes
    then none
    else elim (imdecode_rows bytes) [ some rows ↦ some rows | none ↦ if raw then some h else none ]

unfoldable pub image_height : (List ℕ → Option ℕ) → Option (List ℕ) → ℕ
unfolding decode_rows
image_height imdecode_rows none = 1200
image_height imdecode_rows (some bytes) = elim (decode_rows imdecode_rows bytes) [
  | some rows ↦ rows
  | none ↦ 1200
]

module _ {D : Type 0} ⦃d : Double D⦄ where
  -- `GapDistance::calculate`
  unfoldable pub calculate :
      (List ℕ → List ℕ → Point2D D → D) → GapDistance D → GapLine D → List ℕ → List ℕ → D
  unfolding from_disparity
  calculate calculate_disparity g gap_line left right =
      let half = λ (a : D) (b : D). d.div (d.add a b) (d.of_nat 2) in
      let mid : Point2D D = record {
        x = half gap_line.up_point.x gap_line.dn_point.x;
        y = half gap_line.up_point.y gap_line.dn_point.y;
      } in
      if not gap_line.valid
      then d.of_nat 0
      else from_disparity g (calculate_disparity left right mid)

  unfoldable pub margin_of : PostprocessConfig D → ℕ → D
  margin_of config height = d.mul (d.of_nat height) config.gap_filter_margin

  -- The gap filter: near the top or the bottom of the image.
  unfoldable pub near_border : D → ℕ → D → Bool
  near_border margin height gap_center_y =
      d.lt gap_center_y margin || d.lt (d.sub (d.of_nat height) margin) gap_center_y

  unfoldable pub center_of : D → D → D
  center_of up_y dn_y = d.div (d.add up_y dn_y) (d.of_nat 2)

  unfoldable pub distance_in : Vision D → GapDistance D → Images → GapLine D → Option D
  unfolding calculate
  distance_in v g images gl = both images.left_data images.right_data
    where
      both : Option (List ℕ) → Option (List ℕ) → Option D
      both (some left) (some right) = some (calculate v.calculate_disparity g gl left right)
      both _ _ = none

  abbrev pub info_of : GapLineType → GapLine D → D → GapLineInfo D
  info_of t gl dist = record {
    valid = true;
    gap_type = t;
    up_x = gl.up_point.x;
    up_y = gl.up_point.y;
    dn_x = gl.dn_point.x;
    dn_y = gl.dn_point.y;
    gap_distance_mm = dist;
    disparity = d.of_nat 0;
  }

  -- A line is added with its distance, if there is one; the result's distance is the greatest.
  unfoldable pub push_line :
      GapLineType → GapLine D → InspectionResult D → Option D → InspectionResult D
  push_line t gl r none = record r { gap_lines = r.gap_lines ++ info_of t gl (d.of_nat 0) ∷ [] }
  push_line t gl r (some dist) = record r {
    gap_distance_mm = if d.lt r.gap_distance_mm dist then dist else r.gap_distance_mm;
    gap_lines = r.gap_lines ++ info_of t gl dist ∷ [];
  }

  -- The body of the three loops over gap lines.
  unfoldable pub add_line :
      Vision D
      → PostprocessConfig D
      → GapDistance D
      → Images
      → ℕ
      → GapLineType
      → InspectionResult D
      → GapLine D
      → InspectionResult D
  unfolding margin_of near_border center_of distance_in push_line
  add_line v config g images height t r gl =
      if not gl.valid
      then r
      else if near_border (margin_of config height) height (center_of gl.up_point.y gl.dn_point.y)
      then r
      else push_line t gl r (distance_in v g images gl)

  unfoldable pub add_lines :
      Vision D
      → PostprocessConfig D
      → GapDistance D
      → Images
      → ℕ
      → GapLineType
      → InspectionResult D
      → List (GapLine D)
      → InspectionResult D
  unfolding add_line
  add_lines v config g images height t r [] = r
  add_lines v config g images height t r (gl ∷ gls) =
      add_lines v config g images height t (add_line v config g images height t r gl) gls

  -- An edge keeps its line if it has no points. The fit makes at most 100 iterations.
  unfoldable pub fit_edge : D → (ℕ → ℕ × ℕ) → Line2D D → List (Point2D D) → Line2D D
  unfolding hybrid_ransac_fit
  fit_edge inlier_thresh draws old pts =
      if is_empty pts then old else hybrid_ransac_fit pts inlier_thresh 100 draws

  -- The region and the four edges.
  unfoldable pub fit_edges :
      Vision D → D → CleatClassificationResult D → InspectionResult D → InspectionResult D
  unfolding fit_edge extract_classified_bottom_points extract_classified_top_points
  fit_edges v thresh classified r = record r {
    edges = record {
      up_long =
          fit_edge thresh (v.draws 0) r.edges.up_long
            (extract_classified_bottom_points classified.up_long);
      up_short =
          fit_edge thresh (v.draws 1) r.edges.up_short
            (extract_classified_bottom_points classified.up_short);
      dn_long =
          fit_edge thresh (v.draws 2) r.edges.dn_long
            (extract_classified_top_points classified.dn_long);
      dn_short =
          fit_edge thresh (v.draws 3) r.edges.dn_short
            (extract_classified_top_points classified.dn_short);
    };
  }

  -- The up lines, the down lines, and the lines of the gaps if there is none of either.
  unfoldable pub up_lines : InspectionResult D → List (ClassifiedCleat D) → List (GapLine D)
  unfolding locate_up_gap_lines
  up_lines r up_short =
      if r.edges.up_short.valid && (r.edges.dn_long.valid && not (is_empty up_short))
      then locate_up_gap_lines r.edges.up_short r.edges.dn_long up_short
      else []

  unfoldable pub down_lines : InspectionResult D → List (ClassifiedCleat D) → List (GapLine D)
  unfolding locate_down_gap_lines
  down_lines r up_long =
      if r.edges.up_long.valid && (r.edges.dn_short.valid && not (is_empty up_long))
      then locate_down_gap_lines r.edges.up_long r.edges.dn_short up_long
      else []

  unfoldable pub fallback_lines : InspectionResult D → List (Detection D) → List (GapLine D)
  unfolding locate_gap
  fallback_lines r gaps =
      if is_empty r.gap_lines && (r.edges.up_long.valid && r.edges.dn_short.valid)
      then map (λ gap. locate_gap r.edges.up_long r.edges.dn_short (gap ∷ [])) gaps
      else []

  unfoldable pub locate_lines :
      Vision D
      → PostprocessConfig D
      → GapDistance D
      → Images
      → ℕ
      → CleatClassificationResult D
      → List (Detection D)
      → InspectionResult D
      → InspectionResult D
  unfolding add_lines up_lines down_lines fallback_lines
  locate_lines v config g images height classified gaps r =
      let add = λ (t : GapLineType) (s : InspectionResult D) (ls : List (GapLine D)).
        add_lines v config g images height t s ls in
      let r1 = add up_gap r (up_lines r classified.up_short) in
      let r2 = add down_gap r1 (down_lines r1 classified.up_long) in
      add down_gap r2 (fallback_lines r2 gaps)

  -- The early return: no up cleats, or none that stand for them, or no down cleats.
  unfoldable pub lacks_cleats : InspectionResult D → ExtractedDetections D → Bool
  lacks_cleats r e =
      let up_cleats =
        if str_eq r.task_id "T2" && is_empty e.up_cleats then e.riser_cleats else e.up_cleats in
      is_empty up_cleats || is_empty e.dn_cleats

  unfoldable pub classes_of :
      InspectionResult D → ExtractedDetections D → CleatClassificationResult D
  unfolding classify
  classes_of r e = classify e.up_cleats e.dn_cleats e.riser_cleats r.task_id

  -- The result with its region and its edges.
  unfoldable pub with_edges :
      Vision D
      → PostprocessConfig D
      → ℕ
      → InspectionResult D
      → ExtractedDetections D
      → InspectionResult D
  unfolding classes_of localize fit_edges
  with_edges v config height r e =
      fit_edges v config.edge_inlier_threshold (classes_of r e)
        (record r { region = localize e.gaps height })

  unfoldable pub run_gap_pipeline :
      Vision D
      → PostprocessConfig D
      → GapDistance D
      → Images
      → ℕ
      → InspectionResult D
      → ExtractedDetections D
      → InspectionResult D
  unfolding lacks_cleats classes_of with_edges locate_lines
  run_gap_pipeline v config g images height r e =
      if lacks_cleats r e
      then r
      else locate_lines v config g images height (classes_of r e) e.gaps
          (with_edges v config height r e)
