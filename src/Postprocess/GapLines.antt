-- ===== src/Postprocess/GapLines.antt =====
-- src/postprocess/GapLocalizer.cpp, over a type `D` of doubles.
use project_viatech_ecids_co.Base.{
  ℕ, zero, suc, Bool, true, false, not, ◌||◌, List, [], ◌∷◌, if◌then◌else◌, map, length, is_empty,
  keep,
}
use project_viatech_ecids_co.Common.Double.{Double}
use project_viatech_ecids_co.Common.Geometry.{
  Detection, Point2D, Line2D, ClassifiedCleat, GapLineType, unknown, up_gap, down_gap,
}
use project_viatech_ecids_co.Postprocess.Cleats.{sum_x}
use project_viatech_ecids_co.Postprocess.Edges.{no_point}
pub mod Walk

pub record GapLine (D : Type 0) : Type 0 where
  pub up_point : Point2D D
  pub dn_point : Point2D D
  pub length_px : D
  pub gap_type : GapLineType
  pub valid : Bool

module _ {D : Type 0} ⦃d : Double D⦄ where
  -- The point of an edge at `x`.
  unfoldable pub y_at : Line2D D → D → D
  y_at line x = d.add (d.mul line.slope x) line.intercept

  unfoldable pub step : D × D → Point2D D → Point2D D
  step (dx, dy) p = record { x = d.add p.x dx; y = d.add p.y dy }

  -- `result.y >= end_y`
  unfoldable pub reached : Line2D D → Point2D D → Bool
  unfolding y_at
  reached end_edge p = d.le (y_at end_edge p.x) p.y

  -- The loop, with `n` rounds left.
  unfoldable pub walk : D × D → Line2D D → ℕ → Point2D D → Point2D D
  unfolding step reached
  walk perp end_edge zero p = p
  walk perp end_edge (suc n) p = elim (reached end_edge (step perp p)) [
    | true ↦ step perp p
    | false ↦ walk perp end_edge n (step perp p)
  ]

  -- The direction across an edge, turned downwards.
  unfoldable pub perp_of : Line2D D → D × D
  perp_of start_edge =
      let angle = d.add (d.atan start_edge.slope) d.half_pi in
      let perp_dx = d.cos angle in
      let perp_dy = d.sin angle in
      if d.lt perp_dy (d.of_nat 0)
      then (d.sub (d.of_nat 0) perp_dx, d.sub (d.of_nat 0) perp_dy)
      else (perp_dx, perp_dy)

  unfoldable pub perpendicular_to_line : Line2D D → Line2D D → Point2D D → Point2D D
  unfolding walk perp_of
  perpendicular_to_line start_edge end_edge start =
      if not start_edge.valid || not end_edge.valid
      then start
      else walk (perp_of start_edge) end_edge 10_000 start

  unfoldable pub point_distance : Point2D D → Point2D D → D
  point_distance p q =
      let dx = d.sub p.x q.x in let dy = d.sub p.y q.y in d.sqrt (d.add (d.mul dx dx) (d.mul dy dy))

  -- Where the line starts: below the middle of the first gap, or at x = 0.
  unfoldable pub middle_up : Line2D D → List (Detection D) → Point2D D
  unfolding y_at sum_x
  middle_up up_edge [] = record { x = d.of_nat 0; y = up_edge.intercept }
  middle_up up_edge (g ∷ gaps) =
      let x = d.div (sum_x (d.of_nat 0) g.coordinates) (d.of_nat (length g.coordinates)) in
      if is_empty g.coordinates
      then record { x = d.of_nat 0; y = up_edge.intercept }
      else record { x = x; y = y_at up_edge x }

  unfoldable pub blank_line : GapLine D
  unfolding no_point
  blank_line = record {
    up_point = no_point;
    dn_point = no_point;
    length_px = d.of_nat 0;
    gap_type = unknown;
    valid = false;
  }

  -- A line from a point of the upper edge, across that edge, to the lower edge.
  unfoldable pub line_between : GapLineType → Line2D D → Line2D D → Point2D D → GapLine D
  unfolding perpendicular_to_line point_distance
  line_between gap_type up_edge dn_edge up_point =
      let dn_point = perpendicular_to_line up_edge dn_edge up_point in
      record {
        up_point = up_point;
        dn_point = dn_point;
        length_px = point_distance dn_point up_point;
        gap_type = gap_type;
        valid = true;
      }

  unfoldable pub locate_gap : Line2D D → Line2D D → List (Detection D) → GapLine D
  unfolding middle_up blank_line line_between
  locate_gap up_edge dn_edge gaps =
      let mid_up = middle_up up_edge gaps in
      if not up_edge.valid
      then blank_line
      else if dn_edge.valid
      then line_between down_gap up_edge dn_edge mid_up
      else record (blank_line) { up_point = mid_up; gap_type = down_gap; valid = true }

  -- The lines of the gaps one by one that are valid.
  unfoldable pub locate_each : Line2D D → Line2D D → List (Detection D) → List (GapLine D)
  unfolding locate_gap
  locate_each up_edge dn_edge gaps =
      keep (λ gl. gl.valid) (map (λ g. locate_gap up_edge dn_edge (g ∷ [])) gaps)

  unfoldable pub locate_all_gaps : Line2D D → Line2D D → List (Detection D) → List (GapLine D)
  unfolding locate_each locate_gap
  locate_all_gaps up_edge dn_edge gaps =
      let result = locate_each up_edge dn_edge gaps in
      if is_empty result then keep (λ gl. gl.valid) (locate_gap up_edge dn_edge [] ∷ []) else result

  -- The bottom of a cleat, moved to the edge.
  unfoldable pub on_edge : Line2D D → ClassifiedCleat D → Point2D D
  unfolding y_at
  on_edge up_edge cc = record { x = cc.bottom_mid.x; y = y_at up_edge cc.bottom_mid.x }

  unfoldable pub locate_up_gap_lines :
      Line2D D → Line2D D → List (ClassifiedCleat D) → List (GapLine D)
  unfolding line_between on_edge
  locate_up_gap_lines up_short dn_long up_short_cleats =
      if not up_short.valid || not dn_long.valid
      then []
      else map (λ cc. line_between up_gap up_short dn_long (on_edge up_short cc)) up_short_cleats

  unfoldable pub locate_down_gap_lines :
      Line2D D → Line2D D → List (ClassifiedCleat D) → List (GapLine D)
  unfolding line_between on_edge
  locate_down_gap_lines up_long dn_short up_long_cleats =
      if not up_long.valid || not dn_short.valid
      then []
      else map (λ cc. line_between down_gap up_long dn_short (on_edge up_long cc)) up_long_cleats
