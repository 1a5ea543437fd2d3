-- ===== src/Preprocess/AiTest/Together.antt =====
-- PreprocessModule.cpp: which files an AI test sends together.
use project_viatech_ecids_co.Base.{
  ℕ, ◌≡◌, refl, ap, ◌⊎◌, inl, inr, subst, Bool, true, false, not, List, [], ◌∷◌, ◌++◌, map, Text,
  codes, Option, none, some, if◌then◌else◌, is_empty, keep, ◌==◌, lookup, assign, text_eq, All,
  All-append, arith, Bool-cases,
}
use project_viatech_ecids_co.Common.Sorting.{sort, All-sort}
use project_viatech_ecids_co.Preprocess.AiTest.{
  cut_first, stem, Side, left_side, right_side, side_of, slot_in, with_suffix, slot_of, given_paths,
  PathPair, pair_or_new, set_side, add_slot, pair_up, pair_in, not_blank, key_lt, alone, is_one_of,
  entries_of,
}

abbrev pub left_names : List Text
left_names = codes "1" ∷ codes "L" ∷ codes "l" ∷ codes "left" ∷ []

abbrev pub right_names : List Text
right_names = codes "2" ∷ codes "R" ∷ codes "r" ∷ codes "right" ∷ []

-- The file's name without its extension is one of the names, `_` and the suffix.
abbrev pub Named : List Text → Text → Text → Type 0
Named names suffix f =
    (prefix : Text) × ((is_one_of prefix names ≡ true) × (stem f ≡ prefix ++ b'_' ∷ suffix))

-- The left and the right file of one suffix.
abbrev pub Halves : Text → Text → Type 0
Halves l r = (suffix : Text) × (Named left_names suffix l × Named right_names suffix r)

abbrev names_of : Side → List Text
names_of left_side = left_names
names_of right_side = right_names

abbrev Cut : Type 0
Cut = Option (Text × Text)

abbrev joined : ℕ → Cut → Text
joined b none = []
joined b (some (x, y)) = x ++ b ∷ y

abbrev with_first : ℕ → Cut → Cut
with_first c none = none
with_first c (some (x, y)) = some (c ∷ x, y)

abbrev IsCut : ℕ → Text → Cut → Type 0
IsCut b s none = Unit
IsCut b s (some (x, y)) = s ≡ x ++ b ∷ y

-- The byte that is cut at stands between the two parts.
cut_first-IsCut : (b : ℕ) (s : Text) → IsCut b s (cut_first b s)
cut_first-IsCut b [] = tt
cut_first-IsCut b (c ∷ s) = elim (Bool-cases (c == b)) [
  | inl e ↦ let same : c ≡ b = ground arith in rw e (ap (λ (k : ℕ). k ∷ s) same)
  | inr e ↦ rw e (on (cut_first b s) (cut_first-IsCut b s))
]
  where
    on : (o : Cut) → IsCut b s o → IsCut b (c ∷ s) (with_first c o)
    on none h = tt
    on (some (x, y)) h = ap (λ (t : Text). c ∷ t) h

abbrev SlotOk : Text → Option (Side × Text) → Type 0
SlotOk f none = Unit
SlotOk f (some (side, suffix)) = Named (names_of side) suffix f

-- The side that is found is one whose names the prefix is of.
side_of-names :
    (f prefix suffix : Text)
    → stem f ≡ prefix ++ b'_' ∷ suffix
    → SlotOk f (with_suffix (side_of prefix) suffix)
side_of-names f prefix suffix h = elim (Bool-cases (is_one_of prefix left_names)) [
  | inl e ↦ rw e (prefix, (e, h))
  | inr e ↦ elim (Bool-cases (is_one_of prefix right_names)) [
    | inl r ↦ rw (e, r) (prefix, (r, h))
    | inr r ↦ rw (e, r) tt
  ]
]

slot_in-SlotOk : (f : Text) (o : Cut) → IsCut b'_' (stem f) o → SlotOk f (slot_in o)
slot_in-SlotOk f none h = tt
slot_in-SlotOk f (some ([], suffix)) h = tt
slot_in-SlotOk f (some (p ∷ prefix, suffix)) h = side_of-names f (p ∷ prefix) suffix h

slot_of-SlotOk : (f : Text) → SlotOk f (slot_of f)
unfolding slot_of
slot_of-SlotOk f = slot_in-SlotOk f (cut_first b'_' (stem f)) (cut_first-IsCut b'_' (stem f))

-- What stands on a side of a suffix is named so.
abbrev SideOk : List Text → Text → Text → Type 0
SideOk names suffix f = (is_empty f ≡ true) ⊎ Named names suffix f

abbrev PairOk : Text × PathPair → Type 0
PairOk (suffix, (l, r)) = SideOk left_names suffix l × SideOk right_names suffix r

lookup-PairOk :
    (k : Text) (pairs : List (Text × PathPair))
    → All PairOk pairs
    → PairOk (k, pair_or_new (lookup k pairs))
unfolding lookup
lookup-PairOk k [] h = (inl refl, inl refl)
lookup-PairOk k ((j, w) ∷ pairs) (h, hs) = elim (Bool-cases (text_eq.beq j k)) [
  | inl e ↦
      let same : j ≡ k = (text_eq.beq_iff j k).0 e in
      rw (lookup, e) (subst (λ i. PairOk (i, w)) same h)
  | inr e ↦ rw (lookup, e) (lookup-PairOk k pairs hs)
]

assign-PairOk :
    (k : Text) (v : PathPair) (pairs : List (Text × PathPair))
    → PairOk (k, v)
    → All PairOk pairs
    → All PairOk (assign k v pairs)
unfolding assign
assign-PairOk k v [] p h = (p, tt)
assign-PairOk k v ((j, w) ∷ pairs) p (h, hs) = elim (Bool-cases (text_eq.beq j k)) [
  | inl e ↦ rw (assign, e) (p, hs)
  | inr e ↦ rw (assign, e) (h, assign-PairOk k v pairs p hs)
]

set_side-PairOk :
    (side : Side) (k f : Text) (lr : PathPair)
    → Named (names_of side) k f
    → PairOk (k, lr)
    → PairOk (k, set_side side f lr)
set_side-PairOk left_side k f (l, r) n (h, g) = (inr n, g)
set_side-PairOk right_side k f (l, r) n (h, g) = (h, inr n)

add_slot-PairOk :
    (o : Option (Side × Text)) (f : Text) (pairs : List (Text × PathPair)) (used : List Text)
    → SlotOk f o
    → All PairOk pairs
    → All PairOk (add_slot o f (pairs, used)).0
add_slot-PairOk none f pairs used s h = h
add_slot-PairOk (some (side, k)) f pairs used s h =
    assign-PairOk k (set_side side f (pair_or_new (lookup k pairs))) pairs
      (set_side-PairOk side k f (pair_or_new (lookup k pairs)) s (lookup-PairOk k pairs h)) h

pair_up-PairOk :
    (fs : List Text) (pairs : List (Text × PathPair)) (used : List Text)
    → All PairOk pairs
    → All PairOk (pair_up fs (pairs, used)).0
unfolding pair_up
pair_up-PairOk [] pairs used h = h
pair_up-PairOk (f ∷ fs) pairs used h =
    let s = add_slot (slot_of f) f (pairs, used) in
    pair_up-PairOk fs s.0 s.1 (add_slot-PairOk (slot_of f) f pairs used (slot_of-SlotOk f) h)

-- What is sent at once: one file, or the halves of one suffix.
abbrev pub IsTogether : List Text → Type 0
IsTogether [] = Unit
IsTogether (f ∷ []) = Unit
IsTogether (l ∷ r ∷ []) = Halves l r
IsTogether (l ∷ r ∷ f ∷ fs) = ⊥

abbrev pub EntryOk : PathPair → Type 0
EntryOk lr = IsTogether (given_paths lr)

pair_in-EntryOk : (e : Text × PathPair) → PairOk e → EntryOk (pair_in e)
pair_in-EntryOk (k, ([], [])) h = tt
pair_in-EntryOk (k, ([], r ∷ rs)) h = tt
pair_in-EntryOk (k, (l ∷ ls, [])) h = tt
pair_in-EntryOk (k, (l ∷ ls, r ∷ rs)) (inl a, g) = absurd (ground arith)
pair_in-EntryOk (k, (l ∷ ls, r ∷ rs)) (inr a, inl c) = absurd (ground arith)
pair_in-EntryOk (k, (l ∷ ls, r ∷ rs)) (inr a, inr c) = (k, (a, c))

paired-EntryOk :
    (pairs : List (Text × PathPair))
    → All PairOk pairs
    → All EntryOk (keep not_blank (map pair_in pairs))
paired-EntryOk [] h = tt
paired-EntryOk (e ∷ pairs) (h, hs) =
    choose (not_blank (pair_in e)) (pair_in-EntryOk e h) (paired-EntryOk pairs hs)
  where
    choose :
        (t : Bool)
        → EntryOk (pair_in e)
        → All EntryOk (keep not_blank (map pair_in pairs))
        → All EntryOk (
            if t
            then pair_in e ∷ keep not_blank (map pair_in pairs)
            else keep not_blank (map pair_in pairs))
    choose true p ps = (p, ps)
    choose false p ps = ps

alone-EntryOk : (fs : List Text) → All EntryOk (map alone fs)
alone-EntryOk [] = tt
alone-EntryOk (f ∷ fs) = (one f, alone-EntryOk fs)
  where
    one : (g : Text) → EntryOk (alone g)
    one [] = tt
    one (c ∷ g) = tt

pub entries_of-EntryOk : (fs : List Text) → All EntryOk (entries_of fs)
unfolding entries_of
entries_of-EntryOk fs =
    let s = pair_up fs ([], []) in
    All-append EntryOk (sort key_lt (keep not_blank (map pair_in s.0)))
      (map alone (keep (λ f. not (is_one_of f s.1)) fs))
      (All-sort key_lt EntryOk (keep not_blank (map pair_in s.0))
        (paired-EntryOk s.0 (pair_up-PairOk fs [] [] tt)))
      (alone-EntryOk (keep (λ f. not (is_one_of f s.1)) fs))
