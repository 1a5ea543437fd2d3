-- ===== src/Data/Config/Settings.antt =====
-- ConfigManager.cpp: what is set is read back, and nothing else changes.
use project_viatech_ecids_co.Base.{
  ◌≡◌, ◌≢◌, refl, sym, ap, ◌∙◌, ◌⊎◌, inl, inr, Bool, true, false, List, [], ◌∷◌, Option, none, some,
  Text, if◌then◌else◌, text_eq, beq_self, arith, if_true, if_false,
}
use project_viatech_ecids_co.Common.Counting.{and_then}
use project_viatech_ecids_co.Data.Config.{
  JsonValue, Kind, ConfigManager, segments, find, set_at, get, set, with_config, or_default,
}

and_then-some :
    {A B : Type 0} (o : Option A) (f : A → Option B) (b : B)
    → and_then o f ≡ some b
    → (a : A) × ((o ≡ some a) × (f a ≡ some b))
and_then-some none f b h = cc
and_then-some (some a) f b h = (a, (refl, h))

-- Two ways that part: neither goes on along the other.
abbrev pub Part : List Text → List Text → Type 0
Part [] q = ⊥
Part (s ∷ p) [] = ⊥
Part (s ∷ p) (t ∷ q) = (s ≢ t) ⊎ ((s ≡ t) × Part p q)

module _ (js : JsonValue) where
  -- What `set_at` does at a part: a value is put there that was set in what was there, or in an object.
  record Step (j v j' : js.J) (part : Text) (parts : List Text) : Type 0 where
    sub : js.J
    sub' : js.J
    deeper : set_at js sub parts v ≡ some sub'
    there : (js.member j part ≡ some sub) ⊎ ((js.member j part ≡ none) × (sub ≡ js.object))
    members :
        (l : Text) → js.member j' l ≡ (if text_eq.beq part l then some sub' else js.member j l)

  second_put :
      {A : Type 0} (b : Bool) (x y z : A)
      → (if b then x else if b then y else z) ≡ (if b then x else z)
  second_put true x y z = refl
  second_put false x y z = refl

  put_there :
      (j v j' : js.J) (part : Text) (parts : List Text) (m : Option js.J)
      → js.member j part ≡ m
      → (elim m [
        | some sub ↦ and_then (set_at js sub parts v) (λ sub'. js.put_member j part sub')
        | none ↦
            and_then
              (js.put_member j part js.object)
              (λ at. and_then (set_at js js.object parts v) (λ sub'. js.put_member at part sub'))
      ])
        ≡ some j'
      → Step j v j' part parts
  put_there j v j' part parts (some sub) e h =
      let (sub', (deeper, last)) = and_then-some (set_at js sub parts v) _ j' h in
      record {
        sub = sub;
        sub' = sub';
        deeper = deeper;
        there = inl e;
        members = λ l. js.member-put_member j part l sub' last;
      }
  put_there j v j' part parts none e h =
      let (at, (first, rest)) = and_then-some (js.put_member j part js.object) _ j' h in
      let (sub', (deeper, last)) = and_then-some (set_at js js.object parts v) _ j' rest in
      record {
        sub = js.object;
        sub' = sub';
        deeper = deeper;
        there = inr (e, refl);
        members = λ l.
            js.member-put_member at part l sub' last
            ∙ ap (λ r. if text_eq.beq part l then some sub' else r)
                (js.member-put_member j part l js.object first)
            ∙ second_put (text_eq.beq part l) _ _ _;
      }

  set_at-Step :
      (j v j' : js.J) (part : Text) (parts : List Text)
      → set_at js j (part ∷ parts) v ≡ some j'
      → Step j v j' part parts
  unfolding set_at
  set_at-Step j v j' part parts h = put_there j v j' part parts (js.member j part) refl h

  find-set_at : (p : List Text) (j v j' : js.J) → set_at js j p v ≡ some j' → find js j' p ≡ some v
  unfolding find set_at
  find-set_at [] j v j' h = sym h
  find-set_at (part ∷ p) j v j' h =
      let s = set_at-Step j v j' part p h in
      ap (λ o. and_then o (λ sub. find js sub p))
        (s.members part
          ∙ ap (λ b. if b then some s.sub' else js.member j part) (beq_self ⦃e = text_eq⦄ part))
      ∙ find-set_at p s.sub v s.sub' s.deeper

  find-object : (p q : List Text) → Part p q → find js js.object q ≡ none
  unfolding find
  find-object [] q c = absurd c
  find-object (s ∷ p) [] c = absurd c
  find-object (s ∷ p) (t ∷ q) c = rw (js.member-object t) refl

  was_there :
      (p q : List Text) (j sub : js.J) (s t : Text)
      → s ≡ t
      → Part p q
      → (js.member j s ≡ some sub) ⊎ ((js.member j s ≡ none) × (sub ≡ js.object))
      → and_then (js.member j t) (λ x. find js x q) ≡ find js sub q
  was_there p q j sub s t same c (inl e) = rw (← same) (rw e refl)
  was_there p q j sub s t same c (inr (e, new)) =
      rw (← same) (rw e (sym (rw new (find-object p q c))))

  find-set_at_other :
      (p q : List Text) (j v j' : js.J)
      → Part p q
      → set_at js j p v ≡ some j'
      → find js j' q ≡ find js j q
  unfolding find
  find-set_at_other [] q j v j' c h = absurd c
  find-set_at_other (s ∷ p) [] j v j' c h = absurd c
  find-set_at_other (s ∷ p) (t ∷ q) j v j' (inl apart) h =
      let step = set_at-Step j v j' s p h in
      ap (λ o. and_then o (λ sub. find js sub q))
        (step.members t
          ∙ if_false (text_eq.beq s t) (some step.sub') (js.member j t)
              (ground (arith, text_eq.beq_iff s t)))
  find-set_at_other (s ∷ p) (t ∷ q) j v j' (inr (same, c)) h =
      let step = set_at-Step j v j' s p h in
      ap (λ o. and_then o (λ sub. find js sub q))
        (step.members t
          ∙ if_true (text_eq.beq s t) (some step.sub') (js.member j t)
              ((text_eq.beq_iff s t).1 same))
      ∙ find-set_at_other p q step.sub v step.sub' c step.deeper
      ∙ sym (was_there p q j step.sub s t same c step.there)

  abbrev config_in : Option (ConfigManager js) → Option js.J
  config_in none = none
  config_in (some c) = some c.g_config

  read_back :
      (c c' : ConfigManager js) (o : Option js.J)
      → with_config js c o ≡ some c'
      → o ≡ some c'.g_config
  read_back c c' none h = ap config_in h
  read_back c c' (some j) h = ap config_in h

  module _ {A : Type 0} (kind : Kind js A) (c c' : ConfigManager js) (key : Text) (val : A)
      (done : set js kind c key val ≡ some c') where
    is_set : set_at js c.g_config (segments key) (kind.of val) ≡ some c'.g_config
    unfolding set
    is_set = read_back c c' (set_at js c.g_config (segments key) (kind.of val)) done

    -- What is set is read back.
    pub get-set : (def : A) → get js kind c' key def ≡ val
    unfolding get
    get-set def =
        ap (λ o. or_default js kind def (and_then o kind.as_kind))
          (find-set_at (segments key) c.g_config (kind.of val) c'.g_config is_set)
        ∙ ap (or_default js kind def) (kind.as_kind-of val)

    -- A setting of any kind at another key stays, unless one of the keys goes on along the other.
    pub get-set_other :
        {B : Type 0} (kind' : Kind js B) (other : Text) (def : B)
        → Part (segments key) (segments other)
        → get js kind' c' other def ≡ get js kind' c other def
    unfolding get
    get-set_other kind' other def apart =
        ap (λ o. or_default js kind' def (and_then o kind'.as_kind))
          (find-set_at_other (segments key) (segments other) c.g_config (kind.of val) c'.g_config
            apart is_set)
