-- ===== src/Postprocess/Extract.antt =====
-- src/postprocess/DetectionExtractor.cpp, over a type `D` of doubles. The default `min_confidence` is
-- the caller's argument.
use project_viatech_ecids_co.Base.{
  ◌≡◌, inl, inr, Bool, true, false, not, ◌&&◌, ◌||◌, String, str_eq, List, [], ◌∷◌, ◌++◌, arith,
  if◌then◌else◌, keep, Bool-cases, append_assoc, append-nil,
}
use project_viatech_ecids_co.Common.Double.{Double}
use project_viatech_ecids_co.Common.Geometry.{Detection}

pub record ExtractedDetections (D : Type 0) : Type 0 where
  pub task_id : String
  pub task_confidence : D
  pub gaps : List (Detection D)
  pub up_cleats : List (Detection D)
  pub dn_cleats : List (Detection D)
  pub riser_cleats : List (Detection D)
  pub abnormals : List (Detection D)

-- The locals of `extract`.
pub record Extraction (D : Type 0) : Type 0 where
  pub best_t1_conf : D
  pub best_t2_conf : D
  pub result : ExtractedDetections D

pub data Kind : Type 0 where
  t1 t2 gap up_cleat dn_cleat riser_cleat abnormal other : Kind

-- The tests of the loop's `else if` chain.
unfoldable pub kind_of : String → Kind
kind_of label =
    if str_eq label "T1"
    then t1
    else if str_eq label "T2"
    then t2
    else if str_eq label "gap_t1" || str_eq label "gap_t2"
    then gap
    else if str_eq label "tread_cleat_up"
    then up_cleat
    else if str_eq label "tread_cleat_dn"
    then dn_cleat
    else if str_eq label "riser_cleat"
    then riser_cleat
    else if str_eq label "dust" || str_eq label "deformation"
    then abnormal
    else other

unfoldable pub kind_eq : Kind → Kind → Bool
kind_eq t1 t1 = true
kind_eq t2 t2 = true
kind_eq gap gap = true
kind_eq up_cleat up_cleat = true
kind_eq dn_cleat dn_cleat = true
kind_eq riser_cleat riser_cleat = true
kind_eq abnormal abnormal = true
kind_eq other other = true
kind_eq _ _ = false

module _ {D : Type 0} ⦃d : Double D⦄ where
  abbrev pub blank : ExtractedDetections D
  blank = record {
    task_id = "";
    task_confidence = d.of_nat 0;
    gaps = [];
    up_cleats = [];
    dn_cleats = [];
    riser_cleats = [];
    abnormals = [];
  }

  abbrev raise : D → D → D
  raise best confidence = if d.lt best confidence then confidence else best

  -- The body of the loop of `extract`, by the kind of the label.
  unfoldable pub sort_kind : Kind → Extraction D → Detection D → Extraction D
  sort_kind t1 s det = record s { best_t1_conf = raise s.best_t1_conf det.confidence }
  sort_kind t2 s det = record s { best_t2_conf = raise s.best_t2_conf det.confidence }
  sort_kind gap s det = record s { result = record (s.result) { gaps = s.result.gaps ++ det ∷ [] } }
  sort_kind up_cleat s det = record s {
    result = record (s.result) { up_cleats = s.result.up_cleats ++ det ∷ [] };
  }
  sort_kind dn_cleat s det = record s {
    result = record (s.result) { dn_cleats = s.result.dn_cleats ++ det ∷ [] };
  }
  sort_kind riser_cleat s det = record s {
    result = record (s.result) { riser_cleats = s.result.riser_cleats ++ det ∷ [] };
  }
  sort_kind abnormal s det = record s {
    result = record (s.result) { abnormals = s.result.abnormals ++ det ∷ [] };
  }
  sort_kind other s det = s

  unfoldable pub sort_in : D → Extraction D → Detection D → Extraction D
  unfolding kind_of sort_kind
  sort_in min_confidence s det =
      if d.lt det.confidence min_confidence then s else sort_kind (kind_of det.label_id) s det

  unfoldable pub sort_all : D → Extraction D → List (Detection D) → Extraction D
  unfolding sort_in
  sort_all m s [] = s
  sort_all m s (det ∷ ds) = sort_all m (sort_in m s det) ds

  abbrev with_task : Extraction D → ExtractedDetections D
  with_task s =
      if d.lt (d.of_nat 0) s.best_t1_conf || d.lt (d.of_nat 0) s.best_t2_conf
      then if d.le s.best_t2_conf s.best_t1_conf
        then record (s.result) { task_id = "T1"; task_confidence = s.best_t1_conf }
        else record (s.result) { task_id = "T2"; task_confidence = s.best_t2_conf }
      else s.result

  abbrev start : Extraction D
  start = record { best_t1_conf = d.of_nat 0; best_t2_conf = d.of_nat 0; result = blank }

  unfoldable pub extract : List (Detection D) → D → ExtractedDetections D
  unfolding sort_all
  extract detections min_confidence = with_task (sort_all min_confidence start detections)

  -- The loop of `determine_task`.
  unfoldable pub best_two : D → D → D → List (Detection D) → D × D
  best_two m b1 b2 [] = (b1, b2)
  best_two m b1 b2 (det ∷ ds) =
      let u1 = if str_eq det.label_id "T1" && d.lt b1 det.confidence then det.confidence else b1 in
      let u2 = if str_eq det.label_id "T2" && d.lt b2 det.confidence then det.confidence else b2 in
      let skipped = best_two m b1 b2 ds in
      let taken = best_two m u1 u2 ds in if d.lt det.confidence m then skipped else taken

  abbrev task_of : D × D → String
  task_of (b1, b2) =
      if d.eq b1 (d.of_nat 0) && d.eq b2 (d.of_nat 0) then "" else if d.le b2 b1 then "T1" else "T2"

  unfoldable pub determine_task : List (Detection D) → D → String
  unfolding best_two
  determine_task detections min_confidence =
      task_of (best_two min_confidence (d.of_nat 0) (d.of_nat 0) detections)

  -- Confident enough, and with a label of the kind.
  abbrev pub labelled : D → Kind → Detection D → Bool
  labelled m k det = not (d.lt det.confidence m) && kind_eq (kind_of det.label_id) k

  abbrev one : Bool → Detection D → List (Detection D)
  one b det = if b then det ∷ [] else []

  keep_cons :
      (p : Detection D → Bool) (det : Detection D) (ds xs ys zs : List (Detection D))
      → ys ≡ xs ++ one (p det) det
      → zs ≡ ys ++ keep p ds
      → zs ≡ xs ++ keep p (det ∷ ds)
  keep_cons p det ds xs ys zs e f =
      ground (arith, append_assoc xs (det ∷ []) (keep p ds), append-nil xs)

  -- Every list of the loop grows by the detections of its kind, in their order.
  abbrev Grows : D → Extraction D → List (Detection D) → Extraction D → Type 0
  Grows m s ds t =
      (t.result.gaps ≡ s.result.gaps ++ keep (labelled m gap) ds)
      × (t.result.up_cleats ≡ s.result.up_cleats ++ keep (labelled m up_cleat) ds)
      × (t.result.dn_cleats ≡ s.result.dn_cleats ++ keep (labelled m dn_cleat) ds)
      × (t.result.riser_cleats ≡ s.result.riser_cleats ++ keep (labelled m riser_cleat) ds)
      × (t.result.abnormals ≡ s.result.abnormals ++ keep (labelled m abnormal) ds)

  -- One detection goes to the list of its kind.
  abbrev Sorts : (Kind → Bool) → Extraction D → Detection D → Extraction D → Type 0
  Sorts is s det t =
      (t.result.gaps ≡ s.result.gaps ++ one (is gap) det)
      × (t.result.up_cleats ≡ s.result.up_cleats ++ one (is up_cleat) det)
      × (t.result.dn_cleats ≡ s.result.dn_cleats ++ one (is dn_cleat) det)
      × (t.result.riser_cleats ≡ s.result.riser_cleats ++ one (is riser_cleat) det)
      × (t.result.abnormals ≡ s.result.abnormals ++ one (is abnormal) det)

  sort_kind-Sorts :
      (k : Kind) (s : Extraction D) (det : Detection D)
      → Sorts (λ j. kind_eq k j) s det (sort_kind k s det)
  unfolding sort_kind kind_eq
  sort_kind-Sorts t1 s det = ground (
    arith,
    append-nil s.result.gaps,
    append-nil s.result.up_cleats,
    append-nil s.result.dn_cleats,
    append-nil s.result.riser_cleats,
    append-nil s.result.abnormals,
  )
  sort_kind-Sorts t2 s det = ground (
    arith,
    append-nil s.result.gaps,
    append-nil s.result.up_cleats,
    append-nil s.result.dn_cleats,
    append-nil s.result.riser_cleats,
    append-nil s.result.abnormals,
  )
  sort_kind-Sorts gap s det = ground (
    arith,
    append-nil s.result.gaps,
    append-nil s.result.up_cleats,
    append-nil s.result.dn_cleats,
    append-nil s.result.riser_cleats,
    append-nil s.result.abnormals,
  )
  sort_kind-Sorts up_cleat s det = ground (
    arith,
    append-nil s.result.gaps,
    append-nil s.result.up_cleats,
    append-nil s.result.dn_cleats,
    append-nil s.result.riser_cleats,
    append-nil s.result.abnormals,
  )
  sort_kind-Sorts dn_cleat s det = ground (
    arith,
    append-nil s.result.gaps,
    append-nil s.result.up_cleats,
    append-nil s.result.dn_cleats,
    append-nil s.result.riser_cleats,
    append-nil s.result.abnormals,
  )
  sort_kind-Sorts riser_cleat s det = ground (
    arith,
    append-nil s.result.gaps,
    append-nil s.result.up_cleats,
    append-nil s.result.dn_cleats,
    append-nil s.result.riser_cleats,
    append-nil s.result.abnormals,
  )
  sort_kind-Sorts abnormal s det = ground (
    arith,
    append-nil s.result.gaps,
    append-nil s.result.up_cleats,
    append-nil s.result.dn_cleats,
    append-nil s.result.riser_cleats,
    append-nil s.result.abnormals,
  )
  sort_kind-Sorts other s det = ground (
    arith,
    append-nil s.result.gaps,
    append-nil s.result.up_cleats,
    append-nil s.result.dn_cleats,
    append-nil s.result.riser_cleats,
    append-nil s.result.abnormals,
  )

  sort_in-Sorts :
      (m : D) (s : Extraction D) (det : Detection D)
      → Sorts (λ k. labelled m k det) s det (sort_in m s det)
  unfolding sort_in
  sort_in-Sorts m s det = elim (Bool-cases (d.lt det.confidence m)) [
    | inl low ↦ rw low (
        ground (
          arith,
          append-nil s.result.gaps,
          append-nil s.result.up_cleats,
          append-nil s.result.dn_cleats,
          append-nil s.result.riser_cleats,
          append-nil s.result.abnormals,
        ))
    | inr high ↦ rw high (sort_kind-Sorts (kind_of det.label_id) s det)
  ]

  sort_all-Grows :
      (m : D) (s : Extraction D) (ds : List (Detection D)) → Grows m s ds (sort_all m s ds)
  unfolding sort_all
  sort_all-Grows m s [] = ground (
    arith,
    append-nil s.result.gaps,
    append-nil s.result.up_cleats,
    append-nil s.result.dn_cleats,
    append-nil s.result.riser_cleats,
    append-nil s.result.abnormals,
  )
  sort_all-Grows m s (det ∷ ds) =
      let (a, b, c, e, f) = sort_in-Sorts m s det in
      let (a', b', c', e', f') = sort_all-Grows m (sort_in m s det) ds in
      (
        keep_cons (labelled m gap) det ds _ _ _ a a',
        keep_cons (labelled m up_cleat) det ds _ _ _ b b',
        keep_cons (labelled m dn_cleat) det ds _ _ _ c c',
        keep_cons (labelled m riser_cleat) det ds _ _ _ e e',
        keep_cons (labelled m abnormal) det ds _ _ _ f f',
      )

  -- The lists of `extract` are the detections that are confident enough, by label, in their order.
  pub extract_lists :
      (ds : List (Detection D)) (m : D)
      → ((extract ds m).gaps ≡ keep (labelled m gap) ds)
        × ((extract ds m).up_cleats ≡ keep (labelled m up_cleat) ds)
        × ((extract ds m).dn_cleats ≡ keep (labelled m dn_cleat) ds)
        × ((extract ds m).riser_cleats ≡ keep (labelled m riser_cleat) ds)
        × ((extract ds m).abnormals ≡ keep (labelled m abnormal) ds)
  unfolding extract
  extract_lists ds m = ground (arith, sort_all-Grows m start ds)
