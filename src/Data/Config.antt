-- ===== src/Data/Config.antt =====
-- src/data/ConfigManager.cpp: the settings as one JSON value, read and written at dotted keys. The JSON
-- library is an argument, with what its documentation says of members; so are the file system's answers.
-- Each method holds the mutex from its first line to its last.
use project_viatech_ecids_co.Base.{
  ℕ, ◌≡◌, ◌≢◌, refl, Bool, true, false, List, [], ◌∷◌, Option, none, some, Text, if◌then◌else◌,
  ◌==◌, text_eq,
}
use project_viatech_ecids_co.Common.Counting.{and_then}
pub mod Settings

pub record JsonValue : Type 1 where
  pub J : Type 0
  -- `contains(k)` and `operator[]`: a member, of an object that has it.
  pub member : J → Text → Option J
  -- `j[k] = v`; `none` is a type error, which is thrown.
  pub put_member : J → Text → J → Option J
  pub object : J  -- `json::object()`
  pub member-put_member :
      (j : J) (k l : Text) (v : J) {j' : J}
      → put_member j k v ≡ some j'
      → member j' l ≡ (if text_eq.beq k l then some v else member j l)
  pub member-object : (k : Text) → member object k ≡ none
  -- An object takes every member, and so does a value that has one.
  pub put_member-object : (k : Text) (v : J) → put_member object k v ≢ none
  pub put_member-member : (j v : J) (k l : Text) → member j l ≢ none → put_member j k v ≢ none

-- The values that are read and written as a `A`.
pub record Kind (js : JsonValue) (A : Type 0) : Type 1 where
  pub of : A → js.J
  pub as_kind : js.J → Option A  -- `none`, if it is of another type
  pub as_kind-of : (a : A) → as_kind (of a) ≡ some a

-- The parts of a key between its dots; a key that ends in a dot has no last part.
abbrev onto_first : ℕ → List Text → List Text
onto_first c [] = (c ∷ []) ∷ []
onto_first c (part ∷ parts) = (c ∷ part) ∷ parts

unfoldable pub segments : Text → List Text
segments [] = []
segments (c ∷ key) = let rest = segments key in if c == b'.' then [] ∷ rest else onto_first c rest

module _ (js : JsonValue) where
  -- `navigate_const`
  unfoldable pub find : js.J → List Text → Option js.J
  find j [] = some j
  find j (part ∷ parts) = and_then (js.member j part) (λ sub. find sub parts)

  -- `*navigate(j, key, true) = v`: what is not there on the way is made an object. `none` is a throw, which
  -- comes before anything is made.
  unfoldable pub set_at : js.J → List Text → js.J → Option js.J
  set_at j [] v = some v
  set_at j (part ∷ parts) v =
      let into = λ (at : js.J) (sub : js.J).
        and_then (set_at sub parts v) (λ sub'. js.put_member at part sub') in
      elim (js.member j part) [
        | some sub ↦ into j sub
        | none ↦ and_then (js.put_member j part js.object) (λ at. into at js.object)
      ]

  pub record ConfigManager : Type 0 where
    pub g_config : js.J
    pub config_path : Text

  abbrev with_config : ConfigManager → Option js.J → Option ConfigManager
  with_config c none = none
  with_config c (some j) = some (record c { g_config = j })

  module _ {A : Type 0} (kind : Kind js A) where
    abbrev or_default : A → Option A → A
    or_default def none = def
    or_default def (some a) = a

    -- `get_string`, `get_int`, `get_double` and `get_bool`
    unfoldable pub get : ConfigManager → Text → A → A
    unfolding find segments
    get c key default_val =
        or_default default_val (and_then (find c.g_config (segments key)) kind.as_kind)

    -- `set_string`, `set_int`, `set_double` and `set_bool`
    unfoldable pub set : ConfigManager → Text → A → Option ConfigManager
    unfolding set_at segments
    set c key val = with_config c (set_at c.g_config (segments key) (kind.of val))

  -- What a file gives: it cannot be opened, it cannot be parsed, or its value.
  pub data Loaded : Type 0 where
    not_open not_parsed : Loaded
    parsed : js.J → Loaded

  unfoldable pub load : ConfigManager → Text → Loaded → ConfigManager × Bool
  load c path not_open = (record c { config_path = path }, false)
  load c path not_parsed = (record c { config_path = path }, false)
  load c path (parsed j) = (record { g_config = j; config_path = path }, true)

  -- The file that is written, if it can be opened; `dump` may throw, and the file is empty then.
  unfoldable pub save_as :
      (js.J → Option Text) → ConfigManager → Text → Bool → Option (Text × Text) × Bool
  save_as dump c path opened =
      if opened
      then elim (dump c.g_config) [
        | none ↦ (some (path, []), false)
        | some text ↦ (some (path, text), true)
      ]
      else (none, false)

  unfoldable pub save : (js.J → Option Text) → ConfigManager → Bool → Option (Text × Text) × Bool
  unfolding save_as
  save dump c opened = save_as dump c c.config_path opened
