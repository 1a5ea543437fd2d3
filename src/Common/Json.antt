-- ===== src/Common/Json.antt =====
-- What the program takes from its JSON library: to parse a text, and to read a member. Each may throw;
-- what was thrown is then the text of `e.what()`.
use project_viatech_ecids_co.Base.{ℕ, List, String, Text, ◌⊎◌, inl, inr}

pub record Json : Type 1 where
  pub J : Type 0
  pub parse : String → Text ⊎ J
  -- `req.value(key, def)` for a text; a member of another type throws
  pub value : J → String → String → Text ⊎ String
  -- the elements, if the member is there and is an array; else none
  pub items : J → String → List J
  -- a text as it is, any other value printed, and nothing if the member is not there
  pub shown : J → String → String
  -- `dump()` of the member, or the default
  pub dumped : J → String → String → String

-- The rest of a `try` block after a call that may throw.
abbrev pub then_ : {A B : Type 0} → Text ⊎ A → (A → Text ⊎ B) → Text ⊎ B
then_ (inl what) f = inl what
then_ (inr a) f = f a

-- What the code takes from the JSON library: values, an object from its members, and `dump()`.
pub record JsonBuilder (D : Type 0) : Type 1 where
  pub J : Type 0
  pub of_string : String → J
  pub of_text : Text → J
  pub of_double : D → J
  pub of_int : ℕ → J
  pub array : List J → J
  pub object : List (String × J) → J
  pub dump : J → Text
