-- ===== src/Common/Geometry.antt =====
-- include/ecids_core/common/Types.h: detections and geometry, over a type `D` of doubles.
use project_viatech_ecids_co.Base.{ℕ, List, String, Bool}

pub record Detection (D : Type 0) : Type 0 where
  pub label_id : String
  pub confidence : D
  pub file_name : String
  pub coordinates : List (D × D)
  pub ts_start : String
  pub ts_end : String

pub record DetectionResponse (D : Type 0) : Type 0 where
  pub transaction_id : String
  pub dealer_id : String
  pub results : List (Detection D)
  pub ts_received : String
  pub ts_replied : String

pub record Point2D (D : Type 0) : Type 0 where
  pub x : D
  pub y : D

pub record Line2D (D : Type 0) : Type 0 where
  pub slope : D
  pub intercept : D
  pub valid : Bool

pub data CleatType : Type 0 where
  unknown long short : CleatType

pub record ClassifiedCleat (D : Type 0) : Type 0 where
  pub detection : Detection D
  pub cleat_type : CleatType
  pub bottom_mid : Point2D D
  pub bottom_y : D
  pub top_y : D
  pub center_x : D

-- `FittedEdge` has the fields of `Line2D`.
abbrev pub FittedEdge : Type 0 → Type 0
FittedEdge D = Line2D D

pub record FittedEdges (D : Type 0) : Type 0 where
  pub up_long : FittedEdge D
  pub up_short : FittedEdge D
  pub dn_long : FittedEdge D
  pub dn_short : FittedEdge D

pub record RegionInfo (D : Type 0) : Type 0 where
  pub up_y_start : D
  pub up_y_end : D
  pub gap_y_start : D
  pub gap_y_end : D
  pub dn_y_start : D
  pub dn_y_end : D
  pub valid : Bool

pub data GapLineType : Type 0 where
  unknown up_gap down_gap : GapLineType

pub record GapLineInfo (D : Type 0) : Type 0 where
  pub valid : Bool
  pub gap_type : GapLineType
  pub up_x : D
  pub up_y : D
  pub dn_x : D
  pub dn_y : D
  pub gap_distance_mm : D
  pub disparity : D

-- The annotated images are JPG bytes.
pub record InspectionResult (D : Type 0) : Type 0 where
  pub transaction_id : String
  pub task_id : String
  pub station_id : String
  pub escalator_id : String
  pub gap_distance_mm : D
  pub working_distance_mm : D
  pub ai_detections : List (Detection D)
  pub abnormal : List (Detection D)
  pub timestamp : String
  pub edges : FittedEdges D
  pub region : RegionInfo D
  pub gap_lines : List (GapLineInfo D)
  pub annotated_left : List ℕ
  pub annotated_right : List ℕ
  pub ai_annotated_left : List ℕ
  pub ai_annotated_right : List ℕ
