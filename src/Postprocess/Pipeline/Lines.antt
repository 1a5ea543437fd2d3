-- ===== src/Postprocess/Pipeline/Lines.antt =====
-- PostprocessModule.cpp: the gap lines of a result and its distance.
use project_viatech_ecids_co.Base.{
  ℕ, ◌≡◌, refl, sym, subst, ap, ◌∙◌, inl, inr, Bool, true, false, not, ◌&&◌, str_eq, List, [], ◌∷◌,
  Option, none, some, if◌then◌else◌, All, All-append, Bool-cases, arith,
}
use project_viatech_ecids_co.Common.Double.{Double, IsOrdered}
use project_viatech_ecids_co.Common.Geometry.{
  Detection, GapLineType, up_gap, down_gap, GapLineInfo, InspectionResult,
}
use project_viatech_ecids_co.Postprocess.Extract.{ExtractedDetections}
use project_viatech_ecids_co.Postprocess.Distance.{GapDistance}
use project_viatech_ecids_co.Postprocess.Cleats.{CleatClassificationResult, classify}
use project_viatech_ecids_co.Postprocess.GapLines.{GapLine}
use project_viatech_ecids_co.Postprocess.Pipeline.{
  PostprocessConfig, Images, Vision, margin_of, near_border, center_of, distance_in, push_line,
  add_line, lacks_cleats, classes_of, with_edges, add_lines, fit_edges, locate_lines, up_lines,
  down_lines, fallback_lines, run_gap_pipeline,
}

never : {A : Type 0} (a b : Bool) (x y : A) → (if a && (b && false) then x else y) ≡ y
never true true x y = refl
never true false x y = refl
never false b x y = refl

one_of :
    {A : Type 0} (P : A → Type 0) (a b : Bool) (x y : A)
    → P x
    → (b ≡ false → P y)
    → P (if a then x else if b then x else y)
one_of P true b x y p q = p
one_of P false true x y p q = p
one_of P false false x y p q = q refl

module _ {D : Type 0} ⦃d : Double D⦄ where
  up_lines_none : (r : InspectionResult D) → up_lines r [] ≡ []
  unfolding up_lines
  up_lines_none r = never r.edges.up_short.valid r.edges.dn_long.valid _ []

  t2_has_no_short :
      (r : InspectionResult D) (e : ExtractedDetections D)
      → str_eq r.task_id "T2" ≡ true
      → (classes_of r e).up_short ≡ []
  unfolding classes_of classify
  t2_has_no_short r e t = rw t refl

module _ {D : Type 0} ⦃d : Double D⦄ (v : Vision D) (config : PostprocessConfig D)
    (g : GapDistance D) (images : Images) (height : ℕ) (P : InspectionResult D → Type 0) where
  abbrev pub is_near_border : GapLine D → Bool
  is_near_border gl =
      near_border (margin_of config height) height (center_of gl.up_point.y gl.dn_point.y)

  -- What a line of the type that is not near the border keeps when it is added.
  abbrev pub Keeps : GapLineType → Type 0
  Keeps t =
      (gl : GapLine D) (r : InspectionResult D) (dist : Option D)
      → is_near_border gl ≡ false
      → P r
      → P (push_line t gl r dist)

  add_lines_keeps :
      (t : GapLineType) (keeps : Keeps t) (gls : List (GapLine D)) (r : InspectionResult D)
      → P r
      → P (add_lines v config g images height t r gls)
  unfolding add_lines add_line
  add_lines_keeps t keeps [] r h = h
  add_lines_keeps t keeps (gl ∷ gls) r h =
      add_lines_keeps t keeps gls (add_line v config g images height t r gl) (
        one_of P (not gl.valid) (is_near_border gl) r (push_line t gl r (distance_in v g images gl))
          h (λ inside. keeps gl r (distance_in v g images gl) inside h))

  module _ (up : Keeps up_gap) (down : Keeps down_gap) where
    pub locate_lines_keeps :
        (c : CleatClassificationResult D) (gaps : List (Detection D)) (r : InspectionResult D)
        → P r
        → P (locate_lines v config g images height c gaps r)
    unfolding locate_lines
    locate_lines_keeps c gaps r h =
        let r1 = add_lines v config g images height up_gap r (up_lines r c.up_short) in
        let r2 = add_lines v config g images height down_gap r1 (down_lines r1 c.up_long) in
        add_lines_keeps down_gap down (fallback_lines r2 gaps) r2 (
          add_lines_keeps down_gap down (down_lines r1 c.up_long) r1
            (add_lines_keeps up_gap up (up_lines r c.up_short) r h))

    pub run_gap_pipeline_keeps :
        (r : InspectionResult D) (e : ExtractedDetections D)
        → P r
        → P (with_edges v config height r e)
        → P (run_gap_pipeline v config g images height r e)
    unfolding run_gap_pipeline
    run_gap_pipeline_keeps r e h fitted =
        one_of P (lacks_cleats r e) false r
          (locate_lines v config g images height (classes_of r e) e.gaps
            (with_edges v config height r e))
          h
          (λ z. locate_lines_keeps (classes_of r e) e.gaps (with_edges v config height r e) fitted)

module _ {D : Type 0} ⦃d : Double D⦄ (v : Vision D) (config : PostprocessConfig D)
    (g : GapDistance D) (images : Images) (height : ℕ) where
  abbrev pub AllDown : InspectionResult D → Type 0
  AllDown r = All (λ gl. gl.gap_type ≡ down_gap) r.gap_lines

  push_line-AllDown :
      (gl : GapLine D) (r : InspectionResult D) (dist : Option D)
      → is_near_border v config g images height AllDown gl ≡ false
      → AllDown r
      → AllDown (push_line down_gap gl r dist)
  unfolding push_line
  push_line-AllDown gl r none b h = All-append _ r.gap_lines _ h (refl, tt)
  push_line-AllDown gl r (some dist) b h = All-append _ r.gap_lines _ h (refl, tt)

  no_up_lines :
      (c : CleatClassificationResult D) (r : InspectionResult D)
      → c.up_short ≡ []
      → add_lines v config g images height up_gap r (up_lines r c.up_short) ≡ r
  unfolding add_lines
  no_up_lines c r e =
      ap (add_lines v config g images height up_gap r) (ap (up_lines r) e ∙ up_lines_none r)

  locate_lines-AllDown :
      (c : CleatClassificationResult D) (gaps : List (Detection D)) (r : InspectionResult D)
      → c.up_short ≡ []
      → AllDown r
      → AllDown (locate_lines v config g images height c gaps r)
  unfolding locate_lines
  locate_lines-AllDown c gaps r e h =
      let r1 = add_lines v config g images height up_gap r (up_lines r c.up_short) in
      let r2 = add_lines v config g images height down_gap r1 (down_lines r1 c.up_long) in
      add_lines_keeps v config g images height AllDown down_gap push_line-AllDown
        (fallback_lines r2 gaps) r2
        (add_lines_keeps v config g images height AllDown down_gap push_line-AllDown
          (down_lines r1 c.up_long) r1 (subst AllDown (sym (no_up_lines c r e)) h))

  -- For task T2 every line is a down gap line.
  run_gap_pipeline-AllDown :
      (r : InspectionResult D) (e : ExtractedDetections D)
      → str_eq r.task_id "T2" ≡ true
      → AllDown r
      → AllDown (run_gap_pipeline v config g images height r e)
  unfolding run_gap_pipeline with_edges fit_edges
  run_gap_pipeline-AllDown r e t h =
      one_of AllDown (lacks_cleats r e) false r
        (locate_lines v config g images height (classes_of r e) e.gaps
          (with_edges v config height r e))
        h
        (λ z.
          locate_lines-AllDown (classes_of r e) e.gaps (with_edges v config height r e)
            (t2_has_no_short r e t) h)

module _ {D : Type 0} ⦃d : Double D⦄ (o : IsOrdered d) (config : PostprocessConfig D)
    (height : ℕ) where
  -- A kept line is valid, its middle is not near the border, and its distance is not above `top`.
  abbrev pub Kept : D → GapLineInfo D → Type 0
  Kept top gl =
      (gl.valid ≡ true)
      × (near_border (margin_of config height) height (center_of gl.up_y gl.dn_y) ≡ false)
      × (d.lt top gl.gap_distance_mm ≡ false)

  abbrev pub IsLined : InspectionResult D → Type 0
  IsLined r =
      All (Kept r.gap_distance_mm) r.gap_lines × (d.lt r.gap_distance_mm (d.of_nat 0) ≡ false)

  not_above : (low top x : D) → d.lt low top ≡ true → d.lt low x ≡ false → d.lt top x ≡ false
  not_above low top x up h = elim (Bool-cases (d.lt top x)) [
    | inl above ↦ ground (arith, o.lt_trans low top x)
    | inr below ↦ below
  ]

  raised :
      (low top : D) (ls : List (GapLineInfo D))
      → d.lt low top ≡ true
      → All (Kept low) ls
      → All (Kept top) ls
  raised low top [] up ks = tt
  raised low top (l ∷ ls) up ((v, b, h), ks) =
      ((v, b, not_above low top l.gap_distance_mm up h), raised low top ls up ks)

  pub push_line-IsLined :
      (t : GapLineType) (gl : GapLine D) (r : InspectionResult D) (dist : Option D)
      → near_border (margin_of config height) height (center_of gl.up_point.y gl.dn_point.y) ≡ false
      → IsLined r
      → IsLined (push_line t gl r dist)
  unfolding push_line
  push_line-IsLined t gl r none b (ks, z) =
      (All-append (Kept r.gap_distance_mm) r.gap_lines _ ks ((refl, b, z), tt), z)
  push_line-IsLined t gl r (some dist) b (ks, z) = elim (Bool-cases (d.lt r.gap_distance_mm dist)) [
    | inl e ↦ rw e (
      All-append (Kept dist) r.gap_lines _ (raised r.gap_distance_mm dist r.gap_lines e ks)
          ((refl, b, o.lt_irrefl dist), tt),
      not_above r.gap_distance_mm dist (d.of_nat 0) e z,
    )
    | inr e ↦ rw e (All-append (Kept r.gap_distance_mm) r.gap_lines _ ks ((refl, b, e), tt), z)
  ]

  -- The pipeline keeps: every line is valid, inside the margins, and no farther than the result's distance.
  pub run_gap_pipeline-IsLined :
      (v : Vision D) (g : GapDistance D) (images : Images) (r : InspectionResult D)
      (e : ExtractedDetections D)
      → IsLined r
      → IsLined (run_gap_pipeline v config g images height r e)
  unfolding with_edges fit_edges
  run_gap_pipeline-IsLined v g images r e h =
      run_gap_pipeline_keeps v config g images height IsLined (push_line-IsLined up_gap)
        (push_line-IsLined down_gap) r e h h
