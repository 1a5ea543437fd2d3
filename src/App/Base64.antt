-- ===== src/App/Base64.antt =====
-- src/main.cpp: `base64_encode`. Bytes are numbers below 256, and the `int` that takes them up is its 32 bits:
-- shifting it further, which C++17 leaves undefined, is taken to wrap around, as compilers have it.
-- The number of bits that are held is `valb + 6`, from 0.
use project_viatech_ecids_co.Base.{
  ℕ, zero, suc, ◌+◌, ◌-◌, ◌*◌, ◌/◌, ◌%◌, ◌^◌, ◌<◌, ◌≡◌, refl, ap, ◌∙◌, List, [], ◌∷◌, ◌++◌, Text,
  codes, Bool, true, false, if◌then◌else◌, ltb, leb, ◌==◌, length, get_or, All, arith,
}

abbrev pub table : Text
table = codes "ABCDEFGHIJKLMNOPQRSTUVWXYZabcdefghijklmnopqrstuvwxyz0123456789+/"

abbrev pub digit : ℕ → ℕ
digit k = get_or table k 0

-- The inner loop, which goes on while six bits are held: what is put out, and the bits left. With as many
-- rounds as bits it comes to its end.
abbrev digits : ℕ → ℕ → ℕ → Text × ℕ
digits zero val bits = ([], bits)
digits (suc rounds) val bits =
    let (out, left) = digits rounds val (bits - 6) in
    if leb 6 bits then (digit (val / 2 ^ (bits - 6) % 64) ∷ out, left) else ([], bits)

-- The outer loop, and the digit of the bits that are left at its end.
abbrev encode_from : ℕ → ℕ → List ℕ → Text
encode_from val bits [] =
    if ltb 0 bits then digit (val * 256 % 2 ^ 32 / 2 ^ (bits + 2) % 64) ∷ [] else []
encode_from val bits (c ∷ s) =
    let next = (val * 256 + c) % 2 ^ 32 in
    let (out, left) = digits (bits + 8) next (bits + 8) in out ++ encode_from next left s

-- `while (out.size() % 4)`: three rounds are enough.
abbrev pad : ℕ → Text → Text
pad zero out = out
pad (suc rounds) out = if length out % 4 == 0 then out else pad rounds (out ++ 61 ∷ [])

unfoldable pub base64_encode : List ℕ → Text
base64_encode s = pad 3 (encode_from 0 0 s)

-- RFC 4648: three bytes are four digits, and a group that is short is filled up.
abbrev pub base64 : List ℕ → Text
base64 [] = []
base64 (a ∷ []) = digit (a / 4) ∷ digit (a % 4 * 16) ∷ 61 ∷ 61 ∷ []
base64 (a ∷ b ∷ []) = digit (a / 4) ∷ digit (a % 4 * 16 + b / 16) ∷ digit (b % 16 * 4) ∷ 61 ∷ []
base64 (a ∷ b ∷ c ∷ s) =
    digit (a / 4)
    ∷ digit (a % 4 * 16 + b / 16)
    ∷ digit (b % 16 * 4 + c / 64)
    ∷ digit (c % 64)
    ∷ base64 s

-- The bits of a digit: what was held before and the byte that was taken up.
first_bits : (v a : ℕ) → a < 256 → (v * 256 + a) % 4294967296 / 4 % 64 ≡ a / 4
first_bits v a h = omega arith

second_bits : (v b : ℕ) → b < 256 → (v * 256 + b) % 4294967296 / 16 % 64 ≡ v % 4 * 16 + b / 16
second_bits v b h = omega arith

third_bits : (v c : ℕ) → c < 256 → (v * 256 + c) % 4294967296 / 64 % 64 ≡ v % 16 * 4 + c / 64
third_bits v c h = omega arith

fourth_bits : (v c : ℕ) → (v * 256 + c) % 4294967296 / 1 % 64 ≡ c % 64
fourth_bits v c = omega arith

low_bits :
    (v a : ℕ)
    → ((v * 256 + a) % 4294967296 % 4 ≡ a % 4) × ((v * 256 + a) % 4294967296 % 16 ≡ a % 16)
low_bits v a = (omega arith, omega arith)

last_two : (v : ℕ) → v * 256 % 4294967296 / 16 % 64 ≡ v % 4 * 16
last_two v = omega arith

last_four : (v : ℕ) → v * 256 % 4294967296 / 64 % 64 ≡ v % 16 * 4
last_four v = omega arith

module _ (v : ℕ) where
  abbrev taken : ℕ → ℕ
  taken a = (v * 256 + a) % 4294967296

  one_group : (a : ℕ) → a < 256 → encode_from v 0 (a ∷ []) ≡ digit (a / 4) ∷ digit (a % 4 * 16) ∷ []
  one_group a h =
      let p = first_bits v a h in
      let q = last_two (taken a) ∙ ap (λ k. k * 16) (low_bits v a).0 in
      λ i. digit (p i) ∷ digit (q i) ∷ []

  two_group :
      (a b : ℕ)
      → a < 256
      → b < 256
      → encode_from v 0 (a ∷ b ∷ [])
        ≡ digit (a / 4) ∷ digit (a % 4 * 16 + b / 16) ∷ digit (b % 16 * 4) ∷ []
  two_group a b h g =
      let p = first_bits v a h in
      let q = second_bits (taken a) b g ∙ ap (λ k. k * 16 + b / 16) (low_bits v a).0 in
      let r =
        last_four ((taken a * 256 + b) % 4294967296) ∙ ap (λ k. k * 4) (low_bits (taken a) b).1 in
      λ i. digit (p i) ∷ digit (q i) ∷ digit (r i) ∷ []

  whole_group :
      (a b c : ℕ) (s : List ℕ)
      → a < 256
      → b < 256
      → c < 256
      → (w : ℕ) × (encode_from v 0 (a ∷ b ∷ c ∷ s)
          ≡ digit (a / 4)
            ∷ digit (a % 4 * 16 + b / 16)
            ∷ digit (b % 16 * 4 + c / 64)
            ∷ digit (c % 64)
            ∷ encode_from w 0 s)
  whole_group a b c s h g f =
      let v2 = (taken a * 256 + b) % 4294967296 in
      let w = (v2 * 256 + c) % 4294967296 in
      let p = first_bits v a h in
      let q = second_bits (taken a) b g ∙ ap (λ k. k * 16 + b / 16) (low_bits v a).0 in
      let r = third_bits v2 c f ∙ ap (λ k. k * 4 + c / 64) (low_bits (taken a) b).1 in
      let t = fourth_bits v2 c in
      (w, λ i. digit (p i) ∷ digit (q i) ∷ digit (r i) ∷ digit (t i) ∷ encode_from w 0 s)

pad_group :
    (rounds x y z u : ℕ) (out : Text)
    → pad rounds (x ∷ y ∷ z ∷ u ∷ out) ≡ x ∷ y ∷ z ∷ u ∷ pad rounds out
pad_group zero x y z u out = refl
pad_group (suc rounds) x y z u out =
    let e : length (x ∷ y ∷ z ∷ u ∷ out) % 4 ≡ length out % 4 = omega arith in
    rw e (choice (length out % 4 == 0) _ (pad_group rounds x y z u (out ++ 61 ∷ [])))
  where
    choice :
        (b : Bool) (rest : Text)
        → rest ≡ x ∷ y ∷ z ∷ u ∷ pad rounds (out ++ 61 ∷ [])
        → (if b then x ∷ y ∷ z ∷ u ∷ out else rest)
          ≡ x ∷ y ∷ z ∷ u ∷ (if b then out else pad rounds (out ++ 61 ∷ []))
    choice true rest h = refl
    choice false rest h = h

encode_from-base64 :
    (v : ℕ) (s : List ℕ) → All (λ c. c < 256) s → pad 3 (encode_from v 0 s) ≡ base64 s
encode_from-base64 v [] h = refl
encode_from-base64 v (a ∷ []) (h, _) = ap (pad 3) (one_group v a h)
encode_from-base64 v (a ∷ b ∷ []) (h, (g, _)) = ap (pad 3) (two_group v a b h g)
encode_from-base64 v (a ∷ b ∷ c ∷ s) (h, (g, (f, hs))) =
    let (w, e) = whole_group v a b c s h g f in
    ap (pad 3) e
    ∙ pad_group 3 _ _ _ _ (encode_from w 0 s)
    ∙ ap
        (λ t.
          digit (a / 4)
          ∷ digit (a % 4 * 16 + b / 16)
          ∷ digit (b % 16 * 4 + c / 64)
          ∷ digit (c % 64)
          ∷ t)
        (encode_from-base64 w s hs)

-- Of every list of bytes the code makes the Base64 text of RFC 4648, however long it is.
pub base64_encode-base64 : (s : List ℕ) → All (λ c. c < 256) s → base64_encode s ≡ base64 s
unfolding base64_encode
base64_encode-base64 s h = encode_from-base64 0 s h
