-- ===== src/Postprocess/Messages.antt =====
-- src/postprocess/PostprocessModule.cpp: the JSON texts of the results that are saved, and of which src/main.cpp
-- makes its messages. A member that the code sets later stands behind those before it.
use project_viatech_ecids_co.Base.{
  ℕ, not, String, List, [], ◌∷◌, ◌++◌, Text, if◌then◌else◌, is_empty, map,
}
use project_viatech_ecids_co.Common.Json.{JsonBuilder}
use project_viatech_ecids_co.Common.Double.{Double}
use project_viatech_ecids_co.Common.Geometry.{
  Detection, Line2D, FittedEdges, GapLineType, up_gap, GapLineInfo, InspectionResult,
}

unfoldable pub line_type : GapLineType → String
line_type up_gap = "up"
line_type _ = "down"

module _ {D : Type 0} ⦃d : Double D⦄ (b : JsonBuilder D) where
  abbrev pub labelled_json : Detection D → b.J
  labelled_json det =
      b.object
        (("label_id", b.of_string det.label_id) ∷ ("confidence", b.of_double det.confidence) ∷ [])

  unfoldable pub edge_json : String → Line2D D → List (String × b.J)
  edge_json name e =
      if e.valid
      then (
        name,
        b.object (("slope", b.of_double e.slope) ∷ ("intercept", b.of_double e.intercept) ∷ []),
      )
        ∷ []
      else []

  unfoldable pub edges_json : FittedEdges D → List (String × b.J)
  unfolding edge_json
  edges_json e =
      edge_json "up_edge_long" e.up_long
      ++ (edge_json "up_edge_short" e.up_short
          ++ (edge_json "dn_edge_long" e.dn_long ++ edge_json "dn_edge_short" e.dn_short))

  unfoldable pub line_json : GapLineInfo D → b.J
  unfolding line_type
  line_json gl = b.object (
      ("type", b.of_string (line_type gl.gap_type))
      ∷ ("up_x", b.of_double gl.up_x)
      ∷ ("up_y", b.of_double gl.up_y)
      ∷ ("dn_x", b.of_double gl.dn_x)
      ∷ ("dn_y", b.of_double gl.dn_y)
      ∷ ("gap_distance_mm", b.of_double gl.gap_distance_mm)
      ∷ [])

  abbrev pub lines_json : List (GapLineInfo D) → String × b.J
  unfolding line_json
  lines_json gls = ("gap_lines", b.array (map line_json gls))

  unfoldable pub result_json : Text → ℕ → InspectionResult D → Text
  unfolding edges_json line_json
  result_json record_id pair_index r = b.dump (
      b.object (
        ("record_id", b.of_text record_id)
        ∷ ("pair_index", b.of_int pair_index)
        ∷ ("timestamp", b.of_string r.timestamp)
        ∷ ("task_id", b.of_string r.task_id)
        ∷ ("station_id", b.of_string r.station_id)
        ∷ ("escalator_id", b.of_string r.escalator_id)
        ∷ ("working_distance_mm", b.of_double r.working_distance_mm)
        ∷ ("gap_distance_mm", b.of_double r.gap_distance_mm)
        ∷ ("ai_detections", b.array (map labelled_json r.ai_detections))
        ∷ ("abnormal", b.array (map labelled_json r.abnormal))
        ∷ (edges_json r.edges
            ++ (if not (is_empty r.gap_lines) then lines_json r.gap_lines ∷ [] else []))))

  unfoldable pub ai_test_json : ℕ → InspectionResult D → Text
  unfolding edges_json line_json
  ai_test_json pair_index r = b.dump (
      b.object (
        ("pair_index", b.of_int pair_index)
        ∷ ("timestamp", b.of_string r.timestamp)
        ∷ ("task_id", b.of_string r.task_id)
        ∷ ("gap_distance_mm", b.of_double r.gap_distance_mm)
        ∷ (edges_json r.edges
            ++ lines_json r.gap_lines
              ∷ ("ai_detections", b.array (map labelled_json r.ai_detections))
              ∷ [])))
