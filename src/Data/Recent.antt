-- ===== src/Data/Recent.antt =====
-- The bounded `std::queue` of src/database/DatabaseWriter.cpp and src/data/ImageEncoder.cpp, which
-- drops its oldest entry when it is full. The newest entry stands last.
use project_viatech_ecids_co.Base.{
  ℕ, zero, suc, ◌+◌, ◌-◌, ◌≤◌, ◌<◌, ◌≡◌, refl, List, [], ◌∷◌, ◌++◌, Option, none, some, arith, leb,
  if◌then◌else◌, length, drop, length-append, length-drop, append_assoc, append-nil, ◌∙◌, ap,
  Bool-cases, inl, inr, leb→le, false,
}
use native.Mathlib.Nat.{zero-add}

module _ {ℓ} {A : Type ℓ} where
  -- `pop()` on an empty queue is undefined: `none`.
  abbrev pub pop : List A → Option (List A)
  pop [] = none
  pop (x ∷ q) = some q

  abbrev and_push : Option (List A) → A → Option (List A)
  and_push none a = none
  and_push (some q) a = some (q ++ a ∷ [])

  unfoldable pub push_recent : ℕ → List A → A → Option (List A)
  push_recent max_queue q a =
      if leb max_queue (length q) then and_push (pop q) a else some (q ++ a ∷ [])

  unfoldable pub push_all : ℕ → List A → List A → Option (List A)
  push_all max_queue q [] = some q
  push_all max_queue q (a ∷ as') = elim (push_recent max_queue q a) [
    | none ↦ none
    | some q' ↦ push_all max_queue q' as'
  ]

  -- The last `n` elements.
  abbrev pub latest : ℕ → List A → List A
  latest n xs = drop (length xs - n) xs

module _ {ℓ} {A : Type ℓ} where
  pub push_recent_lem :
      (n : ℕ) (q : List A) (a : A)
      → length q ≤ suc n
      → push_recent (suc n) q a ≡ some (latest (suc n) (q ++ a ∷ []))
  unfolding push_recent
  push_recent_lem n [] a h =
      let room : leb (suc n) 0 ≡ false = ground arith in
      let whole : 1 - suc n ≡ 0 = omega arith in rw (room, whole)
  push_recent_lem n (x ∷ q) a h = elim (Bool-cases (leb (suc n) (suc (length q)))) [
    | inl full ↦
        let one : suc (length (q ++ a ∷ [])) - suc n ≡ 1 =
          omega (arith, length-append q (a ∷ []), leb→le (suc n) (suc (length q)) full) in
        rw (full, one)
    | inr room ↦
        let zero_ : suc (length (q ++ a ∷ [])) - suc n ≡ 0 =
          ground (arith, length-append q (a ∷ [])) in
        rw (room, zero_)
  ]

  drop-drop : (j k : ℕ) (xs : List A) → drop j (drop k xs) ≡ drop (k + j) xs
  drop-drop j zero xs = rw zero-add
  drop-drop zero (suc k) [] = let e : suc k + 0 ≡ suc k = omega arith in rw e
  drop-drop (suc j) (suc k) [] = let e : suc k + suc j ≡ suc (k + suc j) = omega arith in rw e
  drop-drop j (suc k) (x ∷ xs) =
      let e : suc k + j ≡ suc (k + j) = omega arith in rw e (drop-drop j k xs)

  drop-append_le : (k : ℕ) (xs ys : List A) → k ≤ length xs → drop k xs ++ ys ≡ drop k (xs ++ ys)
  drop-append_le zero xs ys h = refl
  drop-append_le (suc k) [] ys h = absurd (omega arith)
  drop-append_le (suc k) (x ∷ xs) ys h = drop-append_le k xs ys (omega arith)

  latest-latest : (n : ℕ) (xs ys : List A) → latest n (latest n xs ++ ys) ≡ latest n (xs ++ ys)
  latest-latest n xs ys =
      let k : ℕ = length xs - n in
      let j : ℕ = length (drop k (xs ++ ys)) - n in
      rw (drop-append_le k xs ys (omega arith)) (
        drop-drop j k (xs ++ ys)
        ∙ ap (λ (m : ℕ). drop m (xs ++ ys))
            (omega (arith, length-drop k (xs ++ ys), length-append xs ys)))

  push_all_lem :
      (n : ℕ) (q xs : List A)
      → length q ≤ suc n
      → push_all (suc n) q xs ≡ some (latest (suc n) (q ++ xs))
  unfolding push_all
  push_all_lem n q [] h = let whole : length q - suc n ≡ 0 = omega arith in rw (append-nil q, whole)
  push_all_lem n q (x ∷ xs) h =
      let q' = latest (suc n) (q ++ x ∷ []) in
      let short : length q' ≤ suc n =
        omega (arith, length-drop (length (q ++ x ∷ []) - suc n) (q ++ x ∷ [])) in
      rw (push_recent_lem n q x h, push_all)
        (push_all_lem n q' xs short
          ∙ ap some (
              latest-latest (suc n) (q ++ x ∷ []) xs
              ∙ ap (latest (suc n)) (append_assoc q (x ∷ []) xs)))

  -- A push never makes the queue longer than its limit.
  pub length-push_recent-le :
      (n : ℕ) (q : List A) (a : A) {q' : List A}
      → length q ≤ suc n
      → push_recent (suc n) q a ≡ some q'
      → length q' ≤ suc n
  unfolding push_recent
  length-push_recent-le n [] a h e = ground arith
  length-push_recent-le n (x ∷ q) a h e = ground (arith, length-append q (a ∷ []))

  -- With a limit of at least one, pushing entries on an empty queue leaves the latest of them, in
  -- their order, and no push fails.
  pub push_all-latest :
      (max_queue : ℕ) (xs : List A)
      → 0 < max_queue
      → push_all max_queue [] xs ≡ some (latest max_queue xs)
  push_all-latest zero xs h = absurd (omega arith)
  push_all-latest (suc n) xs h = push_all_lem n [] xs (omega arith)

  -- With a limit of zero the first push pops an empty queue.
  pub push_recent-zero : (a : A) → push_recent 0 [] a ≡ none
  unfolding push_recent
  push_recent-zero a = refl
