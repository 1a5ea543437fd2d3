-- ===== src/Postprocess/SameGap.antt =====
-- src/postprocess/SameGapChecker.cpp and RegionLocalizer.cpp, over a type `D` of doubles.
use project_viatech_ecids_co.Base.{
  ℕ, ◌≡◌, refl, inl, inr, Bool, true, false, not, ◌&&◌, List, [], ◌∷◌, arith, if◌then◌else◌,
  is_empty, Bool-cases,
}
use project_viatech_ecids_co.Common.Double.{Double}
use project_viatech_ecids_co.Common.Geometry.{Detection, RegionInfo}

pub record SameGapConfig (D : Type 0) : Type 0 where
  pub enabled : Bool
  pub location_threshold : D
  pub size_threshold : D

-- The centre and the size of a gap.
pub record Box (D : Type 0) : Type 0 where
  pub center_x : D
  pub center_y : D
  pub width : D
  pub height : D

pub record SameGapChecker (D : Type 0) : Type 0 where
  pub config : SameGapConfig D
  pub has_previous : Bool
  pub prev : Box D

module _ {D : Type 0} ⦃d : Double D⦄ where
  abbrev least : D → D → D
  least a b = if d.lt a b then a else b

  abbrev greatest : D → D → D
  greatest a b = if d.lt b a then a else b

  -- The loop: minimum and maximum of x, then of y.
  unfoldable pub extent : D × D → D × D → List (D × D) → (D × D) × (D × D)
  extent xs ys [] = (xs, ys)
  extent (min_x, max_x) (min_y, max_y) ((x, y) ∷ cs) =
      extent (least x min_x, greatest x max_x) (least y min_y, greatest y max_y) cs

  unfoldable pub box_of : Detection D → Box D
  unfolding extent
  box_of g =
      let ((min_x, max_x), (min_y, max_y)) =
        extent (d.huge, d.of_nat 0) (d.huge, d.of_nat 0) g.coordinates in
      record {
        center_x = d.div (d.add min_x max_x) (d.of_nat 2);
        center_y = d.div (d.add min_y max_y) (d.of_nat 2);
        width = d.sub max_x min_x;
        height = d.sub max_y min_y;
      }

  -- The test against the previous gap.
  unfoldable pub is_near : SameGapConfig D → Box D → Box D → Bool
  is_near config prev b =
      let dx = d.sub b.center_x prev.center_x in
      let dy = d.sub b.center_y prev.center_y in
      let dist = d.sqrt (d.add (d.mul dx dx) (d.mul dy dy)) in
      let prev_area = d.mul prev.width prev.height in
      let curr_area = d.mul b.width b.height in
      let size_diff =
        if d.lt (d.of_nat 0) prev_area
        then d.div (d.abs (d.sub curr_area prev_area)) prev_area
        else d.of_nat 0 in
      d.lt dist config.location_threshold && d.lt size_diff config.size_threshold

  abbrev pub remember : SameGapChecker D → Box D → SameGapChecker D
  remember s b = record s { has_previous = true; prev = b }

  unfoldable pub is_same_gap : SameGapChecker D → Detection D → Bool × SameGapChecker D
  unfolding box_of is_near
  is_same_gap s gap =
      let b = box_of gap in
      if not s.config.enabled
      then (false, s)
      else if is_empty gap.coordinates
      then (false, s)
      else if not s.has_previous
      then (false, remember s b)
      else if is_near s.config s.prev b
      then (true, s)
      else (false, record s { prev = b })

  unfoldable pub reset : SameGapChecker D → SameGapChecker D
  reset s = record s { has_previous = false }

  -- For an enabled checker and a gap with coordinates: the gap is the same exactly if there is a previous
  -- one and it is near that; the previous gap stays if it is the same, and else becomes this one. Without
  -- either the answer is no and nothing changes.
  is_same_gap_lem :
      (s : SameGapChecker D) (gap : Detection D)
      → let sees = s.config.enabled && not (is_empty gap.coordinates) in
        let same = s.has_previous && is_near s.config s.prev (box_of gap) in
        ((is_same_gap s gap).0 ≡ sees && same)
        × ((is_same_gap s gap).1 ≡ (if sees && not same then remember s (box_of gap) else s))
  unfolding is_same_gap
  is_same_gap_lem s gap = elim (Bool-cases s.config.enabled) [
    | inr off ↦ rw off (refl, refl)
    | inl on ↦ elim (Bool-cases (is_empty gap.coordinates)) [
      | inl blank ↦ rw (on, blank) (refl, refl)
      | inr there ↦ elim (Bool-cases s.has_previous) [
        | inr first ↦ rw (on, there, first) (refl, refl)
        | inl known ↦ elim (Bool-cases (is_near s.config s.prev (box_of gap))) [
          | inl near ↦ rw (on, there, known, near) (refl, refl)
          | inr far ↦ rw (on, there, known, far) (refl, ground arith)
        ]
      ]
    ]
  ]

  -- The loop over the gaps' points: the least and the greatest y.
  unfoldable pub y_range : D × D → List (D × D) → D × D
  y_range r [] = r
  y_range (lo, hi) ((x, y) ∷ cs) = y_range (least y lo, greatest y hi) cs

  unfoldable pub gaps_range : D × D → List (Detection D) → D × D
  unfolding y_range
  gaps_range r [] = r
  gaps_range r (g ∷ gs) = gaps_range (y_range r g.coordinates) gs

  abbrev regions : D → D → ℕ → RegionInfo D
  regions gap_start gap_end image_height = record {
    up_y_start = d.of_nat 0;
    up_y_end = gap_start;
    gap_y_start = gap_start;
    gap_y_end = gap_end;
    dn_y_start = gap_end;
    dn_y_end = d.of_nat image_height;
    valid = true;
  }

  -- `margin_ratio` is not used by the code.
  unfoldable pub localize_from_gap : D → D → ℕ → RegionInfo D
  localize_from_gap gap_center_y gap_height image_height =
      let half_gap = d.div gap_height (d.of_nat 2) in
      regions (d.sub gap_center_y half_gap) (d.add gap_center_y half_gap) image_height

  -- The cleats are not used by the code.
  unfoldable pub localize : List (Detection D) → ℕ → RegionInfo D
  unfolding gaps_range localize_from_gap
  localize gaps image_height =
      let (gap_min_y, gap_max_y) = gaps_range (d.huge, d.of_nat 0) gaps in
      if d.le d.huge gap_min_y
      then localize_from_gap (d.div (d.of_nat image_height) (d.of_nat 2))
          (d.mul (d.of_nat image_height) (d.tenths 1)) image_height
      else regions gap_min_y gap_max_y image_height
