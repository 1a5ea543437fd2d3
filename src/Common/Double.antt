-- ===== src/Common/Double.antt =====
-- What the program does with `double`: literals, conversions from integers, arithmetic, comparisons
-- and the functions of <cmath>. The laws are those of IEEE comparisons; `a > b` is `b < a` and
-- `a >= b` is `b <= a`, also for NaN.
use project_viatech_ecids_co.Base.{
  ℕ, ◌+◌, ◌-◌, ◌*◌, ◌/◌, ◌≡◌, Bool, true, false, arith, ltb, leb, ◌==◌, ◌⊎◌, inl, inr, subst, sym,
  Bool-cases,
}

pub record Double (D : Type 0) : Type 0 where
  pub of_nat : ℕ → D
  pub tenths : ℕ → D  -- the literals 0.1, 0.2, …
  pub huge : D  -- 1e18
  pub tiny : D  -- 1e-10
  pub add : D → D → D
  pub sub : D → D → D
  pub mul : D → D → D
  pub div : D → D → D
  pub lt : D → D → Bool
  pub le : D → D → Bool
  pub eq : D → D → Bool
  pub abs : D → D
  pub sqrt : D → D
  pub atan : D → D
  pub cos : D → D
  pub sin : D → D
  pub half_pi : D

-- A value that is no NaN compares equal with itself.
abbrev pub IsNum : {D : Type 0} → Double D → D → Type 0
IsNum d x = d.le x x ≡ true

pub record IsOrdered {D : Type 0} (d : Double D) : Type 0 where
  pub lt_trans : (a b c : D) → d.lt a b ≡ true → d.lt b c ≡ true → d.lt a c ≡ true
  pub lt_irrefl : (a : D) → d.lt a a ≡ false
  pub le_trans : (a b c : D) → d.le a b ≡ true → d.le b c ≡ true → d.le a c ≡ true
  pub le_of_lt : (a b : D) → d.lt a b ≡ true → d.le a b ≡ true
  pub le_of_not_lt : (a b : D) → IsNum d a → IsNum d b → d.lt a b ≡ false → d.le b a ≡ true
  pub not_le_of_lt : (a b : D) → d.lt a b ≡ true → d.le b a ≡ false
  pub lt_of_not_le : (a b : D) → IsNum d a → IsNum d b → d.le a b ≡ false → d.lt b a ≡ true
  pub num_of_le : (a b : D) → d.le a b ≡ true → IsNum d a × IsNum d b
  pub eq-le : (a b : D) → d.eq a b ≡ true → d.le a b ≡ true
  pub eq_self : (a : D) → IsNum d a → d.eq a a ≡ true
  pub num_of_nat : (n : ℕ) → IsNum d (d.of_nat n)
  pub num_huge : IsNum d d.huge

-- The laws can be met: whole numbers, where a literal below one is zero.
abbrev pub whole : Double ℕ
whole = record {
  of_nat = λ n. n;
  tenths = λ n. 0;
  huge = 1_000_000_000_000_000_000;
  tiny = 0;
  add = λ a b. a + b;
  sub = λ a b. a - b;
  mul = λ a b. a * b;
  div = λ a b. a / b;
  lt = ltb;
  le = leb;
  eq = ◌==◌;
  abs = λ a. a;
  sqrt = λ a. a;
  atan = λ a. a;
  cos = λ a. 0;
  sin = λ a. 1;
  half_pi = 1;
}

pub whole-IsOrdered : IsOrdered whole
whole-IsOrdered = ground arith

module _ {D : Type 0} ⦃d : Double D⦄ where
  -- No greater, as one of two numbers.
  abbrev pub Below : D → D → Type 0
  Below r e = (r ≡ e) ⊎ (d.lt r e ≡ true)

  -- What is not less than `e` is not less than what is below `e`.
  pub not_less : IsOrdered d → (x e r : D) → Below r e → d.lt x e ≡ false → d.lt x r ≡ false
  not_less o x e r (inl same) h = subst (λ y. d.lt x y ≡ false) (sym same) h
  not_less o x e r (inr less) h = elim (Bool-cases (d.lt x r)) [
    | inl less_too ↦ ground (arith, o.lt_trans x r e)
    | inr not_ ↦ not_
  ]

  pub Below-trans : IsOrdered d → (r m e : D) → Below r m → d.lt m e ≡ true → Below r e
  Below-trans o r m e (inl same) h = inr (subst (λ y. d.lt y e ≡ true) (sym same) h)
  Below-trans o r m e (inr less) h = inr (o.lt_trans r m e less h)
