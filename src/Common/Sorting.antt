-- ===== src/Common/Sorting.antt =====
-- `std::sort`: an insertion sort by a strict order. The result is a permutation and, for an order
-- whose negation is total and transitive, sorted.
use project_viatech_ecids_co.Base.{
  ◌≡◌, refl, Bool, true, false, List, [], ◌∷◌, arith, if◌then◌else◌, length, All, Bool-cases,
  any_of, ◌||◌, total, ℕ, ◌+◌, inl, inr, suc, ap, ◌∙◌,
}
use mathlib.Core.List.{Perm}
use mathlib.Core.List.Perm

module _ {ℓ} {A : Type ℓ} (lt : A → A → Bool) where
  unfoldable pub insert : A → List A → List A
  insert a [] = a ∷ []
  insert a (x ∷ xs) = if lt x a then x ∷ insert a xs else a ∷ x ∷ xs

  unfoldable pub sort : List A → List A
  unfolding insert
  sort [] = []
  sort (x ∷ xs) = insert x (sort xs)

  insert-perm : (a : A) (xs : List A) → Perm (insert a xs) (a ∷ xs)
  unfolding insert
  insert-perm a [] = Perm.refl (a ∷ [])
  insert-perm a (x ∷ xs) = elim (Bool-cases (lt x a)) [
    | inl e ↦ rw e (Perm.trans (Perm.cons x (insert-perm a xs)) (Perm.swap a x xs))
    | inr e ↦ rw e (Perm.refl (a ∷ x ∷ xs))
  ]

  pub sort-perm : (xs : List A) → Perm (sort xs) xs
  unfolding sort
  sort-perm [] = Perm.refl []
  sort-perm (x ∷ xs) = Perm.trans (insert-perm x (sort xs)) (Perm.cons x (sort-perm xs))

  length-insert : (a : A) (xs : List A) → length (insert a xs) ≡ suc (length xs)
  unfolding insert
  length-insert a [] = refl
  length-insert a (x ∷ xs) = ground (arith, length-insert a xs)

  pub length-sort : (xs : List A) → length (sort xs) ≡ length xs
  unfolding sort
  length-sort [] = refl
  length-sort (x ∷ xs) = length-insert x (sort xs) ∙ ap suc (length-sort xs)

  any_of-insert :
      (p : A → Bool) (a : A) (xs : List A) → any_of p (insert a xs) ≡ (p a || any_of p xs)
  unfolding insert
  any_of-insert p a [] = refl
  any_of-insert p a (x ∷ xs) = elim (Bool-cases (lt x a)) [
    | inl e ↦ rw e (ground (arith, any_of-insert p a xs))
    | inr e ↦ rw e refl
  ]

  pub any_of-sort : (p : A → Bool) (xs : List A) → any_of p (sort xs) ≡ any_of p xs
  unfolding sort
  any_of-sort p [] = refl
  any_of-sort p (x ∷ xs) = ground (arith, any_of-insert p x (sort xs), any_of-sort p xs)

  All-insert {κ} : (P : A → Type κ) (a : A) (xs : List A) → P a → All P xs → All P (insert a xs)
  unfolding insert
  All-insert P a [] p ps = (p, tt)
  All-insert P a (x ∷ xs) p (q, ps) = elim (Bool-cases (lt x a)) [
    | inl e ↦ rw e (q, All-insert P a xs p ps)
    | inr e ↦ rw e (p, (q, ps))
  ]

  pub All-sort {κ} : (P : A → Type κ) (xs : List A) → All P xs → All P (sort xs)
  unfolding sort
  All-sort P [] ps = tt
  All-sort P (x ∷ xs) (p, ps) = All-insert P x (sort xs) p (All-sort P xs ps)

  total-insert : (f : A → ℕ) (a : A) (xs : List A) → total f (insert a xs) ≡ f a + total f xs
  unfolding insert
  total-insert f a [] = refl
  total-insert f a (x ∷ xs) = elim (Bool-cases (lt x a)) [
    | inl e ↦ rw e (omega (arith, total-insert f a xs))
    | inr e ↦ rw e refl
  ]

  pub total-sort : (f : A → ℕ) (xs : List A) → total f (sort xs) ≡ total f xs
  unfolding sort
  total-sort f [] = refl
  total-sort f (x ∷ xs) = omega (arith, total-insert f x (sort xs), total-sort f xs)

  -- Nothing later in the list comes before an element.
  abbrev pub IsSorted : List A → Type ℓ
  IsSorted [] = Unit
  IsSorted (x ∷ xs) = All (λ y. lt y x ≡ false) xs × IsSorted xs

  module _ (trans : (a b c : A) → lt b a ≡ false → lt c b ≡ false → lt c a ≡ false)
      (asym : (a b : A) → lt a b ≡ true → lt b a ≡ false) where
    above :
        (a b : A) (xs : List A)
        → lt b a ≡ false
        → All (λ y. lt y b ≡ false) xs
        → All (λ y. lt y a ≡ false) xs
    above a b [] h q = tt
    above a b (x ∷ xs) h (p, q) = (trans a b x h p, above a b xs h q)

    insert_above :
        (a b : A) (xs : List A)
        → lt a b ≡ false
        → All (λ y. lt y b ≡ false) xs
        → All (λ y. lt y b ≡ false) (insert a xs)
    unfolding insert
    insert_above a b [] h q = (h, tt)
    insert_above a b (x ∷ xs) h (p, q) = elim (Bool-cases (lt x a)) [
      | inl e ↦ rw e (p, insert_above a b xs h q)
      | inr e ↦ rw e (h, (p, q))
    ]

    insert-IsSorted : (a : A) (xs : List A) → IsSorted xs → IsSorted (insert a xs)
    unfolding insert
    insert-IsSorted a [] s = (tt, tt)
    insert-IsSorted a (x ∷ xs) (p, s) = elim (Bool-cases (lt x a)) [
      | inl e ↦ rw e (insert_above a x xs (asym x a e) p, insert-IsSorted a xs s)
      | inr e ↦ rw e ((e, above a x xs e p), (p, s))
    ]

    pub sort-IsSorted : (xs : List A) → IsSorted (sort xs)
    unfolding sort
    sort-IsSorted [] = tt
    sort-IsSorted (x ∷ xs) = insert-IsSorted x (sort xs) (sort-IsSorted xs)
