-- ===== src/Api3/Http/Find.antt =====
-- ClientServer.cpp: where the headers end, and where the first and the last space of a line are.
use project_viatech_ecids_co.Base.{
  ℕ, suc, ◌+◌, ◌≤◌, ◌≡◌, refl, sym, ap, ◌∙◌, inl, inr, true, false, ◌&&◌, [], ◌∷◌, ◌++◌, none, some,
  Text, length, ◌==◌, All, arith, Option-cases, Bool-cases, is_empty,
}
use project_viatech_ecids_co.Api3.Http.{starts, one_on, find, rfind, find_end, crlf2}

-- No byte of the text is `c`.
abbrev pub Without : ℕ → Text → Type 0
Without c s = All (λ x. (c == x) ≡ false) s

same : (c : ℕ) → (c == c) ≡ true
same c = ground arith

starts-append :
    (needle xs ys : Text) → length needle ≤ length xs → starts needle (xs ++ ys) ≡ starts needle xs
starts-append [] xs ys h = refl
starts-append (a ∷ as') [] ys h = ground arith
starts-append (a ∷ as') (x ∷ xs) ys h =
    ap (λ b. (a == x) && b) (starts-append as' xs ys (omega arith))

starts_fits : (needle xs : Text) → starts needle xs ≡ true → length needle ≤ length xs
starts_fits [] xs e = omega arith
starts_fits (a ∷ as') [] e = ground arith
starts_fits (a ∷ as') (x ∷ xs) e = ground (arith, starts_fits as' xs)

find_here :
    (needle : Text) (c : ℕ) (s : Text) → starts needle (c ∷ s) ≡ true → find needle (c ∷ s) ≡ some 0
unfolding find
find_here needle c s e = rw e refl

find_there :
    (needle : Text) (c : ℕ) (s : Text)
    → starts needle (c ∷ s) ≡ false
    → find needle (c ∷ s) ≡ one_on (find needle s)
unfolding find
find_there needle c s e = rw e refl

-- The text before the end of the headers has no part of the mark.
pub find_end_mark : (body : Text) → find_end (crlf2 ++ body) ≡ some 0
unfolding find_end
find_end_mark body = find_here crlf2 13 (10 ∷ 13 ∷ 10 ∷ body) refl

pub find_end_byte :
    (c : ℕ) (s : Text) (k : ℕ)
    → (13 == c) ≡ false
    → find_end s ≡ some k
    → find_end (c ∷ s) ≡ some (suc k)
unfolding find_end
find_end_byte c s k e h = find_there crlf2 c s (ground arith) ∙ ap one_on h

pub find_end_line :
    (l s : Text) (k : ℕ)
    → Without 13 l
    → find_end s ≡ some k
    → find_end (l ++ s) ≡ some (length l + k)
find_end_line [] s k w h = h ∙ ap some (omega arith)
find_end_line (c ∷ l) s k (e, w) h =
    find_end_byte c (l ++ s) (length l + k) e (find_end_line l s k w h) ∙ ap some (omega arith)

pub find_end_break :
    (c : ℕ) (s : Text) (k : ℕ)
    → (13 == c) ≡ false
    → find_end (c ∷ s) ≡ some k
    → find_end (13 ∷ 10 ∷ c ∷ s) ≡ some (2 + k)
unfolding find_end
find_end_break c s k e h =
    find_there crlf2 13 (10 ∷ c ∷ s) (ground arith)
    ∙ ap one_on (find_there crlf2 10 (c ∷ s) refl ∙ ap one_on h)
    ∙ ap some (omega arith)

-- What a search that passes over the first byte gives.
find_passed :
    (needle : Text) (c : ℕ) (s : Text) (k : ℕ)
    → starts needle (c ∷ s) ≡ false
    → find needle (c ∷ s) ≡ some k
    → (j : ℕ) × (find needle s ≡ some j) × (suc j ≡ k)
find_passed needle c s k e h = elim (Option-cases (find needle s)) [
  | inl n ↦ ground (arith, find_there needle c s e)
  | inr (j, n) ↦ (j, n, ground (arith, find_there needle c s e))
]

find_fits :
    (needle xs : Text) (k : ℕ)
    → is_empty needle ≡ false
    → find needle xs ≡ some k
    → k + length needle ≤ length xs
find_fits needle [] k n h = unfold find in ground arith
find_fits needle (x ∷ xs) k n h = elim (Bool-cases (starts needle (x ∷ xs))) [
  | inl e ↦ ground (arith, starts_fits needle (x ∷ xs) e, find_here needle x xs e)
  | inr e ↦
      let (j, found, next) = find_passed needle x xs k e h in
      omega (arith, find_fits needle xs j n found)
]

find-append :
    (needle xs ys : Text) (k : ℕ)
    → is_empty needle ≡ false
    → find needle xs ≡ some k
    → find needle (xs ++ ys) ≡ some k
find-append needle [] ys k n h = unfold find in ground arith
find-append needle (x ∷ xs) ys k n h = elim (Bool-cases (starts needle (x ∷ xs))) [
  | inl e ↦
      let there = starts-append needle (x ∷ xs) ys (starts_fits needle (x ∷ xs) e) in
      find_here needle x (xs ++ ys) (there ∙ e) ∙ sym (find_here needle x xs e) ∙ h
  | inr e ↦
      let (j, found, next) = find_passed needle x xs k e h in
      let fits = find_fits needle xs j n found in
      let there = starts-append needle (x ∷ xs) ys (omega arith) in
      find_there needle x (xs ++ ys) (there ∙ e)
      ∙ ap one_on (find-append needle xs ys j n found)
      ∙ ap some next
]

-- Bytes that come later do not move the end that was found, and the mark lies in the text.
pub find_end_more : (xs ys : Text) (k : ℕ) → find_end xs ≡ some k → find_end (xs ++ ys) ≡ some k
unfolding find_end
find_end_more xs ys k h = find-append crlf2 xs ys k refl h

pub find_end_fits : (xs : Text) (k : ℕ) → find_end xs ≡ some k → k + 4 ≤ length xs
unfolding find_end
find_end_fits xs k h = find_fits crlf2 xs k refl h

-- The first and the last byte `c` of a text.
pub find_byte :
    (c : ℕ) (xs ys : Text) → Without c xs → find (c ∷ []) (xs ++ c ∷ ys) ≡ some (length xs)
find_byte c [] ys w = find_here (c ∷ []) c ys (ground arith)
find_byte c (x ∷ xs) ys (e, w) =
    find_there (c ∷ []) x (xs ++ c ∷ ys) (ground arith) ∙ ap one_on (find_byte c xs ys w)

rfind_nothing : (c : ℕ) (ys : Text) → Without c ys → rfind c ys ≡ none
unfolding rfind
rfind_nothing c [] w = refl
rfind_nothing c (y ∷ ys) (e, w) = rw (rfind_nothing c ys w, e) refl

pub rfind_byte : (c : ℕ) (xs ys : Text) → Without c ys → rfind c (xs ++ c ∷ ys) ≡ some (length xs)
unfolding rfind
rfind_byte c [] ys w = rw (rfind_nothing c ys w, same c) refl
rfind_byte c (x ∷ xs) ys w = rw (rfind_byte c xs ys w) refl
