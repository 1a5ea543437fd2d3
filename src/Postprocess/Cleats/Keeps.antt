-- ===== src/Postprocess/Cleats/Keeps.antt =====
-- CleatClassifier.cpp: no cleat is lost, and every list has cleats of its type.
use project_viatech_ecids_co.Base.{
  ◌≡◌, refl, sym, subst, ap, ◌∙◌, inl, inr, Bool, true, false, not, String, str_eq, List, [], ◌∷◌,
  ◌++◌, append-nil, if◌then◌else◌, map, keep, All, Bool-cases,
}
use project_viatech_ecids_co.Common.Double.{Double}
use project_viatech_ecids_co.Common.Geometry.{Detection, CleatType, ClassifiedCleat}
use project_viatech_ecids_co.Postprocess.Cleats.{
  CleatClassificationResult, median_of, is_long, make_classified, all_of, split_by_median, classify,
}
use project_viatech_ecids_co.Postprocess.Cleats.Split.{halves, split_by_median_lem}
use mathlib.Core.List.{Perm}
use mathlib.Core.List.Perm

middle-Perm : {A : Type 0} (a : A) (xs ys : List A) → Perm (xs ++ a ∷ ys) (a ∷ (xs ++ ys))
middle-Perm a [] ys = Perm.refl (a ∷ ys)
middle-Perm a (x ∷ xs) ys =
    Perm.trans (Perm.cons x (middle-Perm a xs ys)) (Perm.swap a x (xs ++ ys))

keep-Perm :
    {A : Type 0} (p : A → Bool) (xs : List A) → Perm (keep p xs ++ keep (λ x. not (p x)) xs) xs
keep-Perm p [] = Perm.refl []
keep-Perm p (x ∷ xs) = elim (Bool-cases (p x)) [
  | inl e ↦ rw e (Perm.cons x (keep-Perm p xs))
  | inr e ↦ rw e (Perm.trans (middle-Perm x (keep p xs) _) (Perm.cons x (keep-Perm p xs)))
]

module _ {D : Type 0} ⦃d : Double D⦄ where
  abbrev pub detections_of : List (ClassifiedCleat D) → List (Detection D)
  detections_of cleats = map (λ c. c.detection) cleats

  abbrev pub AllOf : CleatType → List (ClassifiedCleat D) → Type 0
  AllOf t cleats = All (λ c. c.cleat_type ≡ t) cleats

  detections_of-all_of :
      (t u : CleatType) (xs ys : List (Detection D))
      → detections_of (all_of t xs ++ all_of u ys) ≡ xs ++ ys
  unfolding make_classified
  detections_of-all_of t u [] [] = refl
  detections_of-all_of t u [] (y ∷ ys) = ap (◌∷◌ y) (detections_of-all_of t u [] ys)
  detections_of-all_of t u (x ∷ xs) ys = ap (◌∷◌ x) (detections_of-all_of t u xs ys)

  all_of-AllOf : (t : CleatType) (xs : List (Detection D)) → AllOf t (all_of t xs)
  unfolding make_classified
  all_of-AllOf t [] = tt
  all_of-AllOf t (x ∷ xs) = (refl, all_of-AllOf t xs)

  -- The long and the short list of one row of cleats.
  abbrev pub Classifies :
      List (ClassifiedCleat D) → List (ClassifiedCleat D) → List (Detection D) → Type 0
  Classifies longs shorts cleats =
      Perm (detections_of (longs ++ shorts)) cleats
      × AllOf CleatType.long longs
      × AllOf CleatType.short shorts

  halves-Classifies :
      (p : Detection D → Bool) (cleats : List (Detection D))
      → Classifies (halves p cleats).0 (halves p cleats).1 cleats
  halves-Classifies p cleats = (
    subst (λ l. Perm l cleats) (sym (detections_of-all_of CleatType.long CleatType.short _ _))
        (keep-Perm p cleats),
    all_of-AllOf CleatType.long _,
    all_of-AllOf CleatType.short _,
  )

  split_by_median-Classifies :
      (cleats : List (Detection D)) (u : Bool)
      → Classifies (split_by_median cleats u).0 (split_by_median cleats u).1 cleats
  split_by_median-Classifies cleats u =
      let (a, b) = split_by_median_lem cleats u in
      rw a (rw b (halves-Classifies (is_long u (median_of u cleats)) cleats))

  longs-Classifies :
      (cleats : List (Detection D)) → Classifies (all_of CleatType.long cleats) [] cleats
  longs-Classifies cleats =
      let same =
        detections_of-all_of CleatType.long CleatType.short cleats [] ∙ append-nil cleats in
      (
        subst (λ l. Perm l cleats) (sym same) (Perm.refl cleats),
        all_of-AllOf CleatType.long cleats,
        tt,
      )

  shorts-Classifies :
      (cleats : List (Detection D)) → Classifies [] (all_of CleatType.short cleats) cleats
  shorts-Classifies cleats =
      let same = detections_of-all_of CleatType.long CleatType.short [] cleats in
      (
        subst (λ l. Perm l cleats) (sym same) (Perm.refl cleats),
        tt,
        all_of-AllOf CleatType.short cleats,
      )

  abbrev pub ClassifiesAll :
      CleatClassificationResult D → List (Detection D) → List (Detection D) → Type 0
  ClassifiesAll r ups dns =
      Classifies r.up_long r.up_short ups × Classifies r.dn_long r.dn_short dns

  -- The upper lists are the risers of task T2 and the up cleats otherwise, the lower ones the down
  -- cleats, each list with cleats of its type.
  pub classify-Classifies :
      (ups dns risers : List (Detection D)) (task_id : String)
      → ClassifiesAll
          (classify ups dns risers task_id)
          (if str_eq task_id "T2" then risers else ups)
          dns
  unfolding classify
  classify-Classifies ups dns risers task_id = elim (Bool-cases (str_eq task_id "T2")) [
    | inl e ↦ rw e (longs-Classifies risers, shorts-Classifies dns)
    | inr e ↦ rw e (split_by_median-Classifies ups true, split_by_median-Classifies dns false)
  ]
