-- ===== src/Examples/Settings.antt =====
-- Settings in a small JSON value: src/data/ConfigManager.cpp.
use project_viatech_ecids_co.Base.{
  ℕ, ◌≡◌, ◌≢◌, refl, sym, ap, inl, inr, Option, none, some, Text, codes, if◌then◌else◌, text_eq,
}
use project_viatech_ecids_co.Data.Config.{JsonValue, Kind, ConfigManager, segments, set, get}
use project_viatech_ecids_co.Data.Config.Settings.{get-set, get-set_other}

mutual
  data Tree : Type 0 where
    number : ℕ → Tree
    branch : Members → Tree

  data Members : Type 0 where
    end : Members
    entry : Text → Tree → Members → Members

abbrev look : Members → Text → Option Tree
look end k = none
look (entry j v ms) k = if text_eq.beq j k then some v else look ms k

abbrev member : Tree → Text → Option Tree
member (number n) k = none
member (branch ms) k = look ms k

abbrev put_member : Tree → Text → Tree → Option Tree
put_member (number n) k v = none
put_member (branch ms) k v = some (branch (entry k v ms))

abbrev member_in : Text → Option Tree → Option Tree
member_in k none = none
member_in k (some t) = member t k

member-put_member :
    (j : Tree) (k l : Text) (v : Tree) {j' : Tree}
    → put_member j k v ≡ some j'
    → member j' l ≡ (if text_eq.beq k l then some v else member j l)
member-put_member (number n) k l v h = cc
member-put_member (branch ms) k l v h = sym (ap (member_in l) h)

put_member-member : (j v : Tree) (k l : Text) → member j l ≢ none → put_member j k v ≢ none
put_member-member (number n) v k l h = absurd (h refl)
put_member-member (branch ms) v k l h = λ e. cc

put_member-object : (k : Text) (v : Tree) → put_member (branch end) k v ≢ none
put_member-object k v e = cc

abbrev trees : JsonValue
trees = record {
  J = Tree;
  member = member;
  put_member = put_member;
  object = branch end;
  member-put_member = member-put_member;
  member-object = λ k. refl;
  put_member-object = put_member-object;
  put_member-member = put_member-member;
}

abbrev number_of : Tree → Option ℕ
number_of (number n) = some n
number_of (branch ms) = none

abbrev numbers : Kind trees ℕ
numbers = record { of = number; as_kind = number_of; as_kind-of = λ n. refl }

abbrev empty_config : ConfigManager trees
empty_config = record { g_config = branch end; config_path = codes "config.json" }

abbrev quality_set : ConfigManager trees
quality_set = record (empty_config) {
  g_config = branch (
      entry (codes "api3c")
        (branch (
          entry (codes "jpeg_quality") (number 85) (entry (codes "jpeg_quality") (branch end) end)))
        (entry (codes "api3c") (branch end) end));
}

set_quality : set trees numbers empty_config (codes "api3c.jpeg_quality") 85 ≡ some quality_set
unfolding set
set_quality = refl

get-set_example : get trees numbers quality_set (codes "api3c.jpeg_quality") 0 ≡ 85
get-set_example =
    get-set trees numbers empty_config quality_set (codes "api3c.jpeg_quality") 85 set_quality 0

get-set_other_example :
    get trees numbers quality_set (codes "api3c.port") 9003
    ≡ get trees numbers empty_config (codes "api3c.port") 9003
unfolding segments
get-set_other_example =
    get-set_other trees numbers empty_config quality_set (codes "api3c.jpeg_quality") 85 set_quality
      numbers (codes "api3c.port") 9003 (inr (refl, inl (λ e. cc)))
