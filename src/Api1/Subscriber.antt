-- ===== src/Api1/Subscriber.antt =====
-- src/api1/DataSubscriber.cpp: what `subscriber_loop_` makes of a message of the camera. The sockets are not
-- modelled: a message is the bytes of its parts. The JSON library is an argument; a result on the left is
-- what was thrown, which nothing catches. Time stamps are not negative.
use project_viatech_ecids_co.Base.{
  ℕ, zero, suc, ◌+◌, ◌*◌, ◌^◌, ◌%◌, Bool, true, false, not, ◌⊎◌, inl, inr, String, str_eq, List, [],
  ◌∷◌, Option, none, some, Text, if◌then◌else◌, length, leb, ◌==◌, drop, get_or,
}
use project_viatech_ecids_co.Common.Json.{then_}
use project_viatech_ecids_co.Common.Frames.{FrameHeader, DataBundle, blank_header}
pub mod Names

pub record HeaderJson : Type 1 where
  pub J : Type 0
  pub parse : List ℕ → Option J  -- `none` where it throws
  pub is_object : J → Bool
  pub number : J → String → Text ⊎ ℕ  -- `value(key, 0)`
  pub text : J → String → String → Text ⊎ String  -- `value(key, def)`
  pub parts : J → Option (List J)  -- the member `parts`, if it is there and is an array

-- The calls of the callback: the name of a channel and a bundle.
abbrev pub Deliveries : Type 0
Deliveries = List (String × DataBundle)

abbrev pub part_or_nothing : List (List ℕ) → ℕ → List ℕ
part_or_nothing parts i = get_or parts i []

module _ (js : HeaderJson) (channel : String) where
  unfoldable pub parse_object : List ℕ → Option js.J
  parse_object bytes = elim (js.parse bytes) [
    | none ↦ none
    | some hdr ↦ if js.is_object hdr then some hdr else none
  ]

  -- Where the header is: in the second part, if there are three and the first is no JSON object. The data
  -- follow it.
  unfoldable pub header_index : List (List ℕ) → ℕ
  unfolding parse_object
  header_index parts = elim (parse_object (part_or_nothing parts 0)) [
    | none ↦ if leb 3 (length parts) then 1 else 0
    | some hdr ↦ 0
  ]

  -- `data_id.empty() ? channel : data_id`
  abbrev pub name_or : String → String
  name_or part = if str_eq part "" then channel else part

  abbrev pub bundle_of : ℕ → ℕ → ℕ → ℕ → String → String → List ℕ → DataBundle
  bundle_of frame_type ts_sec ts_nsec pair_id part chan bytes = record {
    header = record {
      frame_type = frame_type;
      ts_sec = ts_sec;
      ts_nsec = ts_nsec;
      pair_id = pair_id;
      part = part;
      channel = chan;
    };
    bytes = bytes;
  }

  unfoldable pub without_header : List (List ℕ) → ℕ → Deliveries
  without_header parts data_offset =
      (
        channel,
        record {
          header = record (blank_header) { channel = channel };
          bytes = part_or_nothing parts data_offset;
        },
      )
      ∷ []

  -- The id of the pair, or else one made of the time, in 64 bits.
  unfoldable pub pair_id_of : ℕ → ℕ → ℕ → ℕ
  pair_id_of pair_id ts_sec ts_nsec =
      if pair_id == 0 then (ts_sec * 1_000_000_000 + ts_nsec) % 2 ^ 64 else pair_id

  -- The entries of `parts`, each with its data, while there are data.
  unfoldable pub each_part : js.J → ℕ → ℕ → ℕ → List js.J → List (List ℕ) → Text ⊎ Deliveries
  each_part hdr ts_sec ts_nsec pair_id [] datas = inr []
  each_part hdr ts_sec ts_nsec pair_id (entry ∷ entries) [] = inr []
  each_part hdr ts_sec ts_nsec pair_id (entry ∷ entries) (bytes ∷ datas) =
      then_ (js.text entry "id" "") (λ data_id. then_ (js.text hdr "channel" channel) (λ chan.
        then_ (each_part hdr ts_sec ts_nsec pair_id entries datas) (λ more.
          inr ((name_or data_id, bundle_of 0 ts_sec ts_nsec pair_id data_id chan bytes) ∷ more))))

  unfoldable pub single : js.J → ℕ → ℕ → ℕ → List ℕ → Text ⊎ Deliveries
  single hdr ts_sec ts_nsec pair_id bytes = then_ (js.number hdr "type") (λ frame_type.
      then_ (js.text hdr "part" "") (λ part. then_ (js.text hdr "channel" channel) (λ chan.
        inr ((name_or part, bundle_of frame_type ts_sec ts_nsec pair_id part chan bytes) ∷ []))))

  unfoldable pub deliver_parts :
      js.J → ℕ → ℕ → ℕ → List (List ℕ) → ℕ → Option (List js.J) → Text ⊎ Deliveries
  unfolding each_part single
  deliver_parts hdr ts_sec ts_nsec pair_id parts data_offset (some entries) =
      each_part hdr ts_sec ts_nsec pair_id entries (drop data_offset parts)
  deliver_parts hdr ts_sec ts_nsec pair_id parts data_offset none =
      single hdr ts_sec ts_nsec pair_id (part_or_nothing parts data_offset)

  unfoldable pub with_header : List (List ℕ) → ℕ → Option js.J → Text ⊎ Deliveries
  unfolding pair_id_of without_header deliver_parts
  with_header parts data_offset none = inr (without_header parts data_offset)
  with_header parts data_offset (some hdr) = then_ (js.number hdr "ts_sec") (λ ts_sec.
      then_ (js.number hdr "ts_nsec") (λ ts_nsec. then_ (js.number hdr "pair_id") (λ id.
        let pair_id = pair_id_of id ts_sec ts_nsec in
        deliver_parts hdr ts_sec ts_nsec pair_id parts data_offset (js.parts hdr))))

  -- A message of at least one part.
  unfoldable pub on_message : List (List ℕ) → Text ⊎ Deliveries
  unfolding parse_object header_index with_header
  on_message parts =
      let hdr_idx = header_index parts in
      with_header parts (hdr_idx + 1) (parse_object (part_or_nothing parts hdr_idx))
