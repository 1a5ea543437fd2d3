-- ===== src/Postprocess/Cleats/Split.antt =====
-- CleatClassifier.cpp: which cleats are long and which are short.
use project_viatech_ecids_co.Base.{
  ◌/◌, ◌≡◌, refl, sym, subst, ◌∙◌, inl, inr, Bool, true, false, not, List, [], ◌∷◌, ◌++◌, ◌||◌,
  if◌then◌else◌, map, length, get_or, keep, any_of, All, is_empty, arith, Bool-cases, append_assoc,
  append-nil, any_of-get_or, All-get_or,
}
use project_viatech_ecids_co.Common.Double.{Double, IsOrdered, IsNum}
use project_viatech_ecids_co.Common.Geometry.{Detection, CleatType, ClassifiedCleat}
use project_viatech_ecids_co.Common.Sorting.{sort, any_of-sort, All-sort, length-sort}
use project_viatech_ecids_co.Postprocess.Cleats.{
  value_of, median_of, is_long, make_classified, all_of, split_loop, split_by_median,
}

length_some :
    {A : Type 0} (xs ys : List A)
    → length xs ≡ length ys
    → is_empty ys ≡ false
    → is_empty xs ≡ false
length_some [] [] e h = h
length_some [] (y ∷ ys) e h = ground arith
length_some (x ∷ xs) ys e h = refl

module _ {D : Type 0} ⦃d : Double D⦄ where
  -- The cleats that a test takes for long, and the others.
  abbrev pub halves :
      (Detection D → Bool)
      → List (Detection D)
      → List (ClassifiedCleat D) × List (ClassifiedCleat D)
  halves p cleats = (
    all_of CleatType.long (keep p cleats),
    all_of CleatType.short (keep (λ det. not (p det)) cleats),
  )

  long_part :
      (b : Bool) (lo : List (ClassifiedCleat D)) (det : Detection D) (ds : List (Detection D))
      → (if b then lo ++ make_classified det CleatType.long ∷ [] else lo)
          ++ all_of CleatType.long ds
        ≡ lo ++ all_of CleatType.long (if b then det ∷ ds else ds)
  long_part true lo det ds = append_assoc lo (make_classified det CleatType.long ∷ []) _
  long_part false lo det ds = refl

  short_part :
      (b : Bool) (so : List (ClassifiedCleat D)) (det : Detection D) (ds : List (Detection D))
      → (if b then so else so ++ make_classified det CleatType.short ∷ [])
          ++ all_of CleatType.short ds
        ≡ so ++ all_of CleatType.short (if not b then det ∷ ds else ds)
  short_part true so det ds = refl
  short_part false so det ds = append_assoc so (make_classified det CleatType.short ∷ []) _

  split_loop_lem :
      (u : Bool) (m : D) (cleats : List (Detection D)) (lo so : List (ClassifiedCleat D))
      → ((split_loop u m lo so cleats).0 ≡ lo ++ (halves (is_long u m) cleats).0)
        × ((split_loop u m lo so cleats).1 ≡ so ++ (halves (is_long u m) cleats).1)
  unfolding split_loop
  split_loop_lem u m [] lo so = (sym (append-nil lo), sym (append-nil so))
  split_loop_lem u m (det ∷ cleats) lo so =
      let (a, b) = split_loop_lem u m cleats _ _ in
      (
        a ∙ long_part (is_long u m det) lo det (keep (is_long u m) cleats),
        b ∙ short_part (is_long u m det) so det (keep (λ c. not (is_long u m c)) cleats),
      )

  -- `split_by_median` is two filters by the median, which keep the order.
  pub split_by_median_lem :
      (cleats : List (Detection D)) (u : Bool)
      → ((split_by_median cleats u).0 ≡ (halves (is_long u (median_of u cleats)) cleats).0)
        × ((split_by_median cleats u).1 ≡ (halves (is_long u (median_of u cleats)) cleats).1)
  unfolding split_by_median
  split_by_median_lem [] u = (refl, refl)
  split_by_median_lem (det ∷ cleats) u = split_loop_lem u _ (det ∷ cleats) [] []

  module _ (ordered : IsOrdered d) where
    -- The order in which the test compares a value with the median.
    reaches : Bool → D → D → Bool
    reaches u m v = if u then d.le m v else d.le v m

    any_long :
        (u : Bool) (m : D) (cleats : List (Detection D))
        → any_of (reaches u m) (map (value_of u) cleats) ≡ true
        → is_empty (keep (is_long u m) cleats) ≡ false
    unfolding is_long reaches
    any_long u m [] h = ground arith
    any_long true m (det ∷ cleats) h = elim (Bool-cases (d.le m (value_of true det))) [
      | inl e ↦ rw e refl
      | inr e ↦ rw e (
          any_long true m cleats
            (subst (λ b. (b || any_of (reaches true m) (map (value_of true) cleats)) ≡ true) e h))
    ]
    any_long false m (det ∷ cleats) h = elim (Bool-cases (d.le (value_of false det) m)) [
      | inl e ↦ rw e refl
      | inr e ↦ rw e (
          any_long false m cleats
            (subst (λ b. (b || any_of (reaches false m) (map (value_of false) cleats)) ≡ true) e h))
    ]

    reaches_self : (u : Bool) (m : D) → IsNum d m → reaches u m m ≡ true
    unfolding reaches
    reaches_self true m n = n
    reaches_self false m n = n

    sort_cons : (values : List D) → is_empty values ≡ false → is_empty (sort d.lt values) ≡ false
    sort_cons values h = length_some _ _ (length-sort d.lt values) h

    map_some :
        (cleats : List (Detection D))
        → is_empty cleats ≡ false
        → is_empty (all_of CleatType.long cleats) ≡ false
    map_some [] h = h
    map_some (det ∷ cleats) h = refl

    median_reached :
        (u : Bool) (values : List D)
        → is_empty values ≡ false
        → All (IsNum d) values
        → any_of (reaches u (get_or values (length values / 2) (d.of_nat 0))) values ≡ true
    median_reached u [] h ns = ground arith
    median_reached u (v ∷ vs) h ns =
        let i = length (v ∷ vs) / 2 in
        let m = get_or (v ∷ vs) i (d.of_nat 0) in
        any_of-get_or (reaches u m) (v ∷ vs) i (d.of_nat 0) (omega arith)
          (reaches_self u m (All-get_or (IsNum d) (v ∷ vs) i (d.of_nat 0) (omega arith) ns))

    -- With a cleat, and no NaN among the values, some cleat is long.
    pub split_by_median-some :
        (det : Detection D) (cleats : List (Detection D)) (u : Bool)
        → All (IsNum d) (map (value_of u) (det ∷ cleats))
        → is_empty (split_by_median (det ∷ cleats) u).0 ≡ false
    unfolding median_of
    split_by_median-some det cleats u ns =
        let values = map (value_of u) (det ∷ cleats) in
        let m = median_of u (det ∷ cleats) in
        let reached =
          median_reached u (sort d.lt values) (sort_cons values refl)
            (All-sort d.lt (IsNum d) values ns) in
        let long =
          any_long u m (det ∷ cleats) (sym (any_of-sort d.lt (reaches u m) values) ∙ reached) in
        subst (λ c. is_empty c ≡ false) (sym (split_by_median_lem (det ∷ cleats) u).0)
          (map_some (keep (is_long u m) (det ∷ cleats)) long)
