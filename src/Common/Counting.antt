-- ===== src/Common/Counting.antt =====
-- Counted loops whose body may fail.
use project_viatech_ecids_co.Base.{ℕ, zero, suc, ◌+◌, ◌<◌, ◌≡◌, subst, Option, none, some, arith}

abbrev pub and_then {ℓ κ} : {A : Type ℓ} {B : Type κ} → Option A → (A → Option B) → Option B
and_then none f = none
and_then (some a) f = f a

-- `for (i = first; i < first + rounds; ++i)`; `none` is a failure of the body.
unfoldable pub for_each {ℓ} : {S : Type ℓ} → (ℕ → S → Option S) → ℕ → ℕ → S → Option S
for_each body zero i s = some s
for_each body (suc rounds) i s = and_then (body i s) (for_each body rounds (suc i))

-- The computation does not fail, and its value has the property.
abbrev pub Ends {ℓ} : {A : Type ℓ} → (A → Type 0) → Option A → Type 0
Ends P none = ⊥
Ends P (some a) = P a

pub and_then-Ends {ℓ κ} :
    {A : Type ℓ} {B : Type κ} (P : A → Type 0) (Q : B → Type 0) (o : Option A) (f : A → Option B)
    → Ends P o
    → ((a : A) → P a → Ends Q (f a))
    → Ends Q (and_then o f)
and_then-Ends P Q none f h k = absurd h
and_then-Ends P Q (some a) f h k = k a h

pub Ends-map {ℓ} :
    {A : Type ℓ} (P Q : A → Type 0) (o : Option A) → Ends P o → ((a : A) → P a → Q a) → Ends Q o
Ends-map P Q none h k = absurd h
Ends-map P Q (some a) h k = k a h

-- The rule of the loop: an invariant by the index.
pub for_each-Ends {ℓ} :
    {S : Type ℓ} (P : ℕ → S → Type 0) (body : ℕ → S → Option S) (stop rounds i : ℕ) (s : S)
    → i + rounds ≡ stop
    → ((j : ℕ) (t : S) → j < stop → P j t → Ends (P (suc j)) (body j t))
    → P i s
    → Ends (P stop) (for_each body rounds i s)
unfolding for_each
for_each-Ends P body stop zero i s e step p = subst (λ j. P j s) (omega arith) p
for_each-Ends P body stop (suc rounds) i s e step p =
    and_then-Ends (P (suc i)) (P stop) (body i s) (for_each body rounds (suc i))
      (step i s (omega arith) p)
      (λ t q. for_each-Ends P body stop rounds (suc i) t (omega arith) step q)
