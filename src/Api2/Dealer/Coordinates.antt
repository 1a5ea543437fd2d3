-- ===== src/Api2/Dealer/Coordinates.antt =====
-- DetectionDealer.cpp: the coordinates of a detection are read back from their text.
use project_viatech_ecids_co.Base.{
  ◌≡◌, refl, sym, ap, ◌∙◌, ◌⊎◌, inr, false, List, [], ◌∷◌, ◌++◌, Text, ◌==◌, is_empty, All,
  if_false, append_assoc, append-nil,
}
use project_viatech_ecids_co.Api2.Dealer.{tokens, numbers, pair_up, parse_coordinates}

-- A token is not empty and has no comma.
abbrev pub IsToken : Text → Type 0
IsToken t = (is_empty t ≡ false) × All (λ c. (b',' == c) ≡ false) t

-- The tokens with a comma between two of them.
unfoldable pub separated : List Text → Text
separated [] = []
separated (t ∷ []) = t
separated (t ∷ u ∷ ts) = t ++ b',' ∷ separated (u ∷ ts)

tokens_last :
    (acc t : Text)
    → is_empty (acc ++ t) ≡ false
    → All (λ c. (b',' == c) ≡ false) t
    → tokens acc t ≡ (acc ++ t) ∷ []
unfolding tokens
tokens_last acc [] h w =
    if_false (is_empty acc) [] (acc ∷ []) (ap is_empty (sym (append-nil acc)) ∙ h)
    ∙ ap (λ a. a ∷ []) (sym (append-nil acc))
tokens_last acc (c ∷ t) h (e, w) = rw e (
    tokens_last (acc ++ c ∷ []) t (ap is_empty (append_assoc acc (c ∷ []) t) ∙ h) w
    ∙ ap (λ a. a ∷ []) (append_assoc acc (c ∷ []) t))

tokens_next :
    (acc t s : Text)
    → All (λ c. (b',' == c) ≡ false) t
    → tokens acc (t ++ b',' ∷ s) ≡ (acc ++ t) ∷ tokens [] s
unfolding tokens
tokens_next acc [] s w = ap (λ a. a ∷ tokens [] s) (sym (append-nil acc))
tokens_next acc (c ∷ t) s (e, w) =
    rw e
      (tokens_next (acc ++ c ∷ []) t s w ∙ ap (λ a. a ∷ tokens [] s) (append_assoc acc (c ∷ []) t))

tokens-separated : (ts : List Text) → All IsToken ts → tokens [] (separated ts) ≡ ts
unfolding separated
tokens-separated [] h = unfold tokens in refl
tokens-separated (t ∷ []) ((some_, w), h) = tokens_last [] t some_ w
tokens-separated (t ∷ u ∷ ts) ((some_, w), h) =
    tokens_next [] t (separated (u ∷ ts)) w ∙ ap (◌∷◌ t) (tokens-separated (u ∷ ts) h)

module _ {D : Type 0} (stod : Text → Text ⊎ D) (show : D → Text) where
  abbrev pub shown : List (D × D) → List Text
  shown [] = []
  shown ((x, y) ∷ ps) = show x ∷ show y ∷ shown ps

  -- The coordinates as text: x and y in turn, with commas.
  abbrev pub print_coordinates : List (D × D) → Text
  print_coordinates ps = separated (shown ps)

  -- What is printed is a token, and `stod` reads it back.
  abbrev pub ReadsBack : Type 0
  ReadsBack = (x : D) → IsToken (show x) × (stod (show x) ≡ inr x)

  shown-IsToken : ReadsBack → (ps : List (D × D)) → All IsToken (shown ps)
  shown-IsToken r [] = tt
  shown-IsToken r ((x, y) ∷ ps) = ((r x).0, ((r y).0, shown-IsToken r ps))

  pair_up-numbers : ReadsBack → (ps : List (D × D)) → pair_up stod (numbers stod (shown ps)) ≡ ps
  unfolding numbers pair_up
  pair_up-numbers r [] = refl
  pair_up-numbers r ((x, y) ∷ ps) = rw (r x).1 (rw (r y).1 (ap (◌∷◌ (x, y)) (pair_up-numbers r ps)))

  -- Printed coordinates are read back.
  pub parse_coordinates-print_coordinates :
      ReadsBack → (ps : List (D × D)) → parse_coordinates stod (print_coordinates ps) ≡ ps
  unfolding parse_coordinates
  parse_coordinates-print_coordinates r ps =
      ap (λ ts. pair_up stod (numbers stod ts)) (tokens-separated (shown ps) (shown-IsToken r ps))
      ∙ pair_up-numbers r ps
