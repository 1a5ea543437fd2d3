-- ===== src/Preprocess/AiTest/Pairs.antt =====
-- PreprocessModule.cpp: how often a path stands in the pairs that `ai_test_loop_` makes of the files.
use project_viatech_ecids_co.Base.{
  ℕ, ◌+◌, ◌≡◌, ◌≢◌, refl, sym, ap, ◌∙◌, ◌⊎◌, inl, inr, Bool, true, false, ◌||◌, List, [], ◌∷◌, Text,
  Option, none, some, if◌then◌else◌, is_empty, lookup, assign, lookup-assign, keep, total,
  total-append, text_eq, text_beq_iff, All, arith, Bool-cases,
}
use project_viatech_ecids_co.Preprocess.AiTest.{
  Side, left_side, right_side, slot_of, PathPair, pair_or_new, set_side, pair_up, pair_in,
  given_paths, add_slot, is_one_of,
}

-- One for the path itself, and none for any other.
abbrev pub one : Text → Text → ℕ
one p f = if text_eq.beq p f then 1 else 0

abbrev pub count : Text → List Text → ℕ
count p fs = total (one p) fs

abbrev pub count_pair : Text → PathPair → ℕ
count_pair p lr = count p (given_paths lr)

abbrev pub count_all : Text → List (Text × PathPair) → ℕ
count_all p pairs = total (λ e. count_pair p (pair_in e)) pairs

abbrev side_in : Side → PathPair → Text
side_in left_side (l, r) = l
side_in right_side (l, r) = r

count-set_side :
    (p f : Text) (side : Side) (lr : PathPair)
    → is_empty f ≡ false
    → is_empty (side_in side lr) ≡ true
    → count_pair p (set_side side f lr) ≡ one p f + count_pair p lr
count-set_side p f left_side (l, r) h e = rw (h, e) refl
count-set_side p f right_side (l, r) h e =
    let ls : List Text = if is_empty l then [] else l ∷ [] in
    rw (h, e) (omega (arith, total-append (one p) ls (f ∷ []), total-append (one p) ls []))

count_all-assign :
    (p k : Text) (v : PathPair) (m : List (Text × PathPair))
    → count_all p (assign k v m) + count_pair p (pair_or_new (lookup k m))
      ≡ count_all p m + count_pair p v
unfolding assign lookup
count_all-assign p k v [] = omega arith
count_all-assign p k v ((j, w) ∷ m) = elim (Bool-cases (text_eq.beq j k)) [
  | inl e ↦ rw e (omega arith)
  | inr e ↦ rw e (omega (arith, count_all-assign p k v m))
]

abbrev pub is_slot : Option (Side × Text) → Bool
is_slot none = false
is_slot (some s) = true

abbrev pub has_slot : Text → Bool
has_slot f = is_slot (slot_of f)

-- No other file of the list has the slot of a file.
abbrev pub NoClash : List Text → Type 0
NoClash [] = Unit
NoClash (f ∷ fs) = All (λ g. (has_slot f ≡ false) ⊎ (slot_of f ≢ slot_of g)) fs × NoClash fs

-- The slot of a file is free.
abbrev IsFree : List (Text × PathPair) → Text → Type 0
IsFree pairs f =
    (side : Side) (k : Text)
    → slot_of f ≡ some (side, k)
    → is_empty (side_in side (pair_or_new (lookup k pairs))) ≡ true

side_in-set_side :
    (s t : Side) (f : Text) (lr : PathPair) → (s ≢ t) → side_in t (set_side s f lr) ≡ side_in t lr
side_in-set_side left_side left_side f (l, r) h = absurd (h refl)
side_in-set_side left_side right_side f (l, r) h = refl
side_in-set_side right_side left_side f (l, r) h = refl
side_in-set_side right_side right_side f (l, r) h = absurd (h refl)

IsFree-assign :
    (pairs : List (Text × PathPair)) (s : Side) (k : Text) (f g : Text)
    → slot_of g ≢ some (s, k)
    → IsFree pairs g
    → IsFree (assign k (set_side s f (pair_or_new (lookup k pairs))) pairs) g
IsFree-assign pairs s k f g other free t j e = elim (Bool-cases (text_eq.beq k j)) [
  | inl same ↦
      let old = pair_or_new (lookup k pairs) in
      let kj : k ≡ j = (text_beq_iff k j).0 same in
      let apart : s ≢ t = λ st. other (cc) in
      rw (lookup-assign k j (set_side s f old) pairs) (
        rw same
          (rw (side_in-set_side s t f old apart) (free t k (e ∙ ap (λ i. some (t, i)) (sym kj)))))
  | inr new ↦
      rw (lookup-assign k j (set_side s f (pair_or_new (lookup k pairs))) pairs)
        (rw new (free t j e))
]

abbrev AllFree : List (Text × PathPair) → List Text → Type 0
AllFree pairs fs = All (IsFree pairs) fs

-- A file with a slot is counted once more; a file without one changes nothing.
abbrev slotted : Text → List Text → ℕ
slotted p fs = count p (keep has_slot fs)

has_slot_of : (f : Text) (o : Option (Side × Text)) → slot_of f ≡ o → has_slot f ≡ is_slot o
has_slot_of f o e = ap is_slot e

slot_there : (f : Text) (sk : Side × Text) → slot_of f ≡ some sk → has_slot f ≢ false
slot_there f sk e n = cc (has_slot_of f (some sk) e)

all_free :
    (pairs : List (Text × PathPair)) (s : Side) (k f : Text) (fs : List Text)
    → slot_of f ≡ some (s, k)
    → All (λ g. (has_slot f ≡ false) ⊎ (slot_of f ≢ slot_of g)) fs
    → AllFree pairs fs
    → AllFree (assign k (set_side s f (pair_or_new (lookup k pairs))) pairs) fs
all_free pairs s k f [] e c h = tt
all_free pairs s k f (g ∷ gs) e (inl none_, cs) (h, hs) = absurd (slot_there f (s, k) e none_)
all_free pairs s k f (g ∷ gs) e (inr apart, cs) (h, hs) =
    (IsFree-assign pairs s k f g (λ eg. apart (e ∙ sym eg)) h, all_free pairs s k f gs e cs hs)

-- What is known of the rest of the files.
abbrev Counted : Text → List Text → Type 0
Counted p fs =
    (pairs : List (Text × PathPair)) (used : List Text)
    → AllFree pairs fs
    → count_all p (pair_up fs (pairs, used)).0 ≡ count_all p pairs + slotted p fs

added :
    (o : Option (Side × Text)) (p f : Text) (fs : List Text) (pairs : List (Text × PathPair))
    (used : List Text)
    → slot_of f ≡ o
    → is_empty f ≡ false
    → All (λ g. (has_slot f ≡ false) ⊎ (slot_of f ≢ slot_of g)) fs
    → AllFree pairs (f ∷ fs)
    → Counted p fs
    → count_all p (pair_up fs (add_slot o f (pairs, used))).0
      ≡ count_all p pairs + slotted p (f ∷ fs)
added none p f fs pairs used e n c (h, hs) ih = rw (has_slot_of f none e) (ih pairs used hs)
added (some (s, k)) p f fs pairs used e n c (h, hs) ih =
    let old = pair_or_new (lookup k pairs) in
    let new = assign k (set_side s f old) pairs in
    rw (has_slot_of f (some (s, k)) e) (
      omega (
        arith,
        ih new (f ∷ used) (all_free pairs s k f fs e c hs),
        count_all-assign p k (set_side s f old) pairs,
        count-set_side p f s old n (h s k e),
      ))

pub pair_up-count :
    (p : Text) (fs : List Text) → All (λ f. is_empty f ≡ false) fs → NoClash fs → Counted p fs
unfolding pair_up
pair_up-count p [] n c pairs used h = omega arith
pair_up-count p (f ∷ fs) (n, ns) (c, cs) pairs used h =
    added (slot_of f) p f fs pairs used refl n c h (λ q u. pair_up-count p fs ns cs q u)

mark_used :
    (o : Option (Side × Text)) (x f : Text) (fs : List Text) (pairs : List (Text × PathPair))
    (used : List Text)
    → slot_of f ≡ o
    → ((pairs' : List (Text × PathPair)) (used' : List Text)
        → is_one_of x (pair_up fs (pairs', used')).1
          ≡ (is_one_of x (keep has_slot fs) || is_one_of x used'))
    → is_one_of x (pair_up fs (add_slot o f (pairs, used))).1
      ≡ (is_one_of x (keep has_slot (f ∷ fs)) || is_one_of x used)
mark_used none x f fs pairs used e ih = rw (has_slot_of f none e) (ih pairs used)
mark_used (some (s, k)) x f fs pairs used e ih =
    rw (has_slot_of f (some (s, k)) e)
      (ground (arith, ih (assign k (set_side s f (pair_or_new (lookup k pairs))) pairs) (f ∷ used)))

-- The paths that are used are those with a slot.
pub pair_up-used :
    (x : Text) (fs : List Text) (pairs : List (Text × PathPair)) (used : List Text)
    → is_one_of x (pair_up fs (pairs, used)).1
      ≡ (is_one_of x (keep has_slot fs) || is_one_of x used)
unfolding pair_up
pair_up-used x [] pairs used = refl
pair_up-used x (f ∷ fs) pairs used =
    mark_used (slot_of f) x f fs pairs used refl (λ q u. pair_up-used x fs q u)

side_in-new : (side : Side) → is_empty (side_in side ([], [])) ≡ true
side_in-new left_side = refl
side_in-new right_side = refl

AllFree-new : (fs : List Text) → AllFree [] fs
unfolding lookup
AllFree-new [] = tt
AllFree-new (f ∷ fs) = (λ side k e. side_in-new side, AllFree-new fs)

-- Of files with no clash, the pairs hold each path as often as those with a slot do.
pub count_all-pair_up :
    (p : Text) (fs : List Text)
    → All (λ f. is_empty f ≡ false) fs
    → NoClash fs
    → count_all p (pair_up fs ([], [])).0 ≡ count p (keep has_slot fs)
count_all-pair_up p fs n c = pair_up-count p fs n c [] [] (AllFree-new fs) ∙ omega arith
