-- ===== src/Api1/Subscriber/Names.antt =====
-- DataSubscriber.cpp: under which name a bundle is delivered.
use project_viatech_ecids_co.Base.{
  ℕ, Option, ◌≡◌, refl, sym, ◌⊎◌, inl, inr, String, str_eq, eq_iff, List, [], ◌∷◌, none, some, All,
  Text, Bool-cases, if_false,
}
use project_viatech_ecids_co.Common.Json.{then_}
use project_viatech_ecids_co.Common.Frames.{DataBundle}
use project_viatech_ecids_co.Api1.Subscriber.{
  HeaderJson, Deliveries, name_or, without_header, each_part, single, deliver_parts, with_header,
  on_message,
}

-- A bundle of a part is delivered under the part's name.
abbrev pub IsNamed : String × DataBundle → Type 0
IsNamed (name, bundle) = (bundle.header.part ≡ "") ⊎ (bundle.header.part ≡ name)

abbrev pub AreNamed : Text ⊎ Deliveries → Type 0
AreNamed (inl thrown) = Unit
AreNamed (inr ds) = All IsNamed ds

then_-AreNamed :
    {A : Type 0} (a : Text ⊎ A) (f : A → Text ⊎ Deliveries)
    → ((x : A) → AreNamed (f x))
    → AreNamed (then_ a f)
then_-AreNamed (inl thrown) f h = tt
then_-AreNamed (inr x) f h = h x

in_front :
    (d : String × DataBundle) (r : Text ⊎ Deliveries)
    → IsNamed d
    → AreNamed r
    → AreNamed (then_ r (λ more. inr (d ∷ more)))
in_front d (inl thrown) h hs = tt
in_front d (inr ds) h hs = (h, hs)

module _ (js : HeaderJson) (channel : String) where
  name_or_lem : (part : String) → (part ≡ "") ⊎ (part ≡ name_or js channel part)
  name_or_lem part = elim (Bool-cases (str_eq part "")) [
    | inl e ↦ inl ((eq_iff part "").0 e)
    | inr e ↦ inr (sym (if_false (str_eq part "") channel part e))
  ]

  each_part-AreNamed :
      (hdr : js.J) (ts_sec ts_nsec pair_id : ℕ) (entries : List js.J) (datas : List (List ℕ))
      → AreNamed (each_part js channel hdr ts_sec ts_nsec pair_id entries datas)
  unfolding each_part
  each_part-AreNamed hdr ts_sec ts_nsec pair_id [] datas = tt
  each_part-AreNamed hdr ts_sec ts_nsec pair_id (entry ∷ entries) [] = tt
  each_part-AreNamed hdr ts_sec ts_nsec pair_id (entry ∷ entries) (bytes ∷ datas) =
      then_-AreNamed (js.text entry "id" "") _ (λ data_id.
        then_-AreNamed (js.text hdr "channel" channel) _ (λ chan.
          in_front _ _ (name_or_lem data_id)
            (each_part-AreNamed hdr ts_sec ts_nsec pair_id entries datas)))

  single-AreNamed :
      (hdr : js.J) (ts_sec ts_nsec pair_id : ℕ) (bytes : List ℕ)
      → AreNamed (single js channel hdr ts_sec ts_nsec pair_id bytes)
  unfolding single
  single-AreNamed hdr ts_sec ts_nsec pair_id bytes =
      then_-AreNamed (js.number hdr "type") _ (λ frame_type.
        then_-AreNamed (js.text hdr "part" "") _ (λ part.
          then_-AreNamed (js.text hdr "channel" channel) _ (λ chan. (name_or_lem part, tt))))

  deliver_parts-AreNamed :
      (hdr : js.J) (ts_sec ts_nsec pair_id : ℕ) (parts : List (List ℕ)) (data_offset : ℕ)
      (entries : Option (List js.J))
      → AreNamed (deliver_parts js channel hdr ts_sec ts_nsec pair_id parts data_offset entries)
  unfolding deliver_parts
  deliver_parts-AreNamed hdr ts_sec ts_nsec pair_id parts data_offset (some entries) =
      each_part-AreNamed hdr ts_sec ts_nsec pair_id entries _
  deliver_parts-AreNamed hdr ts_sec ts_nsec pair_id parts data_offset none =
      single-AreNamed hdr ts_sec ts_nsec pair_id _

  with_header-AreNamed :
      (parts : List (List ℕ)) (data_offset : ℕ) (hdr : Option js.J)
      → AreNamed (with_header js channel parts data_offset hdr)
  unfolding with_header without_header
  with_header-AreNamed parts data_offset none = (inl refl, tt)
  with_header-AreNamed parts data_offset (some hdr) =
      then_-AreNamed (js.number hdr "ts_sec") _ (λ ts_sec.
        then_-AreNamed (js.number hdr "ts_nsec") _ (λ ts_nsec.
          then_-AreNamed (js.number hdr "pair_id") _
            (λ id. deliver_parts-AreNamed hdr ts_sec ts_nsec _ parts data_offset (js.parts hdr))))

  -- Every bundle is delivered under the name of its part, unless the part has none.
  pub on_message-AreNamed : (parts : List (List ℕ)) → AreNamed (on_message js channel parts)
  unfolding on_message
  on_message-AreNamed parts = with_header-AreNamed parts _ _
