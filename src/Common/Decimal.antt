-- ===== src/Common/Decimal.antt =====
-- Decimal output as `operator<<`, `std::setw` with `std::setfill('0')`, and `%0kd` write it, for
-- numbers that are not negative.
use project_viatech_ecids_co.Base.{
  ℕ, zero, suc, ◌+◌, ◌-◌, ◌*◌, ◌/◌, ◌%◌, ◌≤◌, ◌<◌, ◌≡◌, refl, [], ◌∷◌, Text, codes, arith, ltb,
  if◌then◌else◌, length, All, Bool-cases, inl, inr, ◌∙◌, sym, ap,
}
use mathlib.Core.List.{foldl}

-- The digits of `n` in front of `acc`. A number has fewer digits than `n + 1`.
digits_onto : ℕ → ℕ → Text → Text
digits_onto zero n acc = acc
digits_onto (suc fuel) n acc =
    let more = digits_onto fuel (n / 10) ((b'0' + n % 10) ∷ acc) in
    if ltb n 10 then (b'0' + n) ∷ acc else more

unfoldable pub decimal : ℕ → Text
unfolding digits_onto
decimal n = digits_onto (suc n) n []

digits_onto_from :
    (fuel n : ℕ) (acc : Text) → All (λ c. 48 ≤ c) acc → All (λ c. 48 ≤ c) (digits_onto fuel n acc)
unfolding digits_onto
digits_onto_from zero n acc h = h
digits_onto_from (suc fuel) n acc h = elim (Bool-cases (ltb n 10)) [
  | inl small ↦ rw small (omega arith, h)
  | inr large ↦ rw large (digits_onto_from fuel (n / 10) ((b'0' + n % 10) ∷ acc) (omega arith, h))
]

-- No character of a number is below the digit 0.
pub decimal_from : (n : ℕ) → All (λ c. 48 ≤ c) (decimal n)
unfolding decimal
decimal_from n = digits_onto_from (suc n) n [] tt

unfoldable pub zeros : ℕ → Text → Text
zeros zero ds = ds
zeros (suc k) ds = b'0' ∷ zeros k ds

-- Zeros on the left up to the width; a longer number is written whole.
unfoldable pub padded : ℕ → ℕ → Text
unfolding zeros
padded width n = zeros (width - length (decimal n)) (decimal n)

abbrev add_digit : ℕ → ℕ → ℕ
add_digit n c = n * 10 + (c - b'0')

-- The number that digits stand for.
unfoldable pub read_decimal : Text → ℕ
read_decimal ds = foldl add_digit 0 ds

read_digits_onto :
    (fuel n : ℕ) (acc : Text)
    → n < fuel
    → foldl add_digit 0 (digits_onto fuel n acc) ≡ foldl add_digit n acc
unfolding digits_onto
read_digits_onto zero n acc h = elim h [ ]
read_digits_onto (suc fuel) n acc h = elim (Bool-cases (ltb n 10)) [
  | inl small ↦ rw small (ap (λ (k : ℕ). foldl add_digit k acc) (omega arith))
  | inr large ↦ rw large (
      read_digits_onto fuel (n / 10) ((b'0' + n % 10) ∷ acc) (ground arith)
      ∙ ap (λ (k : ℕ). foldl add_digit k acc) (omega arith))
]

pub read_decimal-decimal : (n : ℕ) → read_decimal (decimal n) ≡ n
unfolding read_decimal decimal
read_decimal-decimal n = read_digits_onto (suc n) n [] (omega arith)

read_decimal-zeros : (k : ℕ) (ds : Text) → read_decimal (zeros k ds) ≡ read_decimal ds
unfolding read_decimal zeros
read_decimal-zeros zero ds = refl
read_decimal-zeros (suc k) ds = read_decimal-zeros k ds

length-zeros : (k : ℕ) (ds : Text) → length (zeros k ds) ≡ k + length ds
unfolding zeros
length-zeros zero ds = omega arith
length-zeros (suc k) ds = omega (arith, length-zeros k ds)

pub read_decimal-padded : (width n : ℕ) → read_decimal (padded width n) ≡ n
unfolding padded
read_decimal-padded width n = read_decimal-zeros _ (decimal n) ∙ read_decimal-decimal n

pub padded_injective : (width m n : ℕ) → padded width m ≡ padded width n → m ≡ n
padded_injective width m n e =
    sym (read_decimal-padded width m) ∙ ap read_decimal e ∙ read_decimal-padded width n

pub le-length-padded : (width n : ℕ) → width ≤ length (padded width n)
unfolding padded
le-length-padded width n = omega (arith, length-zeros (width - length (decimal n)) (decimal n))

padded_examples : (padded 3 7 ≡ codes "007") × (padded 3 1234 ≡ codes "1234")
unfolding padded decimal digits_onto zeros
padded_examples = (refl, refl)
