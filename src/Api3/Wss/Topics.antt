-- ===== src/Api3/Wss/Topics.antt =====
-- src/api3/WSSServer.cpp: subscriptions, and who gets a broadcast.
use mathlib.Core.Path.{ap₂}
use project_viatech_ecids_co.Base.{
  ℕ, ◌/◌, ◌%◌, ◌+◌, ◌*◌, ◌<◌, ◌≡◌, refl, ◌∙◌, Bool, false, not, ◌&&◌, ◌||◌, String, str_eq, eq_iff,
  List, [], ◌∷◌, ◌++◌, map, Option, none, some, arith, if◌then◌else◌, length, length-append, take,
  drop, keep, any_of, is_empty, take-append, drop-append, ltb,
}
use project_viatech_ecids_co.Api3.Wss.{binary_frame}

pub record ClientConn : Type 0 where
  pub fd : ℕ
  pub has_ssl : Bool
  pub topics : List String
  pub alive : Bool

-- A message of a client, once it is parsed: its action, and its `topics` if that is an array.
pub record Message : Type 0 where
  pub action : String
  pub topics : Option (List String)

-- `erase(remove(topics, t))`
unfoldable pub remove_topic : List String → String → List String
remove_topic topics t = keep (λ s. not (str_eq s t)) topics

unfoldable pub remove_topics : List String → List String → List String
unfolding remove_topic
remove_topics topics [] = topics
remove_topics topics (t ∷ ts) = remove_topics (remove_topic topics t) ts

abbrev or_none : Option (List String) → List String
or_none none = []
or_none (some ts) = ts

-- The `try` block of `client_loop_`; a text that does not parse changes nothing.
unfoldable pub on_message : ClientConn → Option Message → ClientConn
unfolding remove_topics
on_message c none = c
on_message c (some m) =
    if str_eq m.action "subscribe"
    then record c { topics = c.topics ++ or_none m.topics }
    else if str_eq m.action "unsubscribe"
    then record c { topics = remove_topics c.topics (or_none m.topics) }
    else c

-- The loop over `conn->topics`.
unfoldable pub is_subscribed : List String → String → Bool
is_subscribed topics topic = any_of (λ t. str_eq t topic || str_eq t "core/*") topics

abbrev gets : String → ClientConn → Bool
gets topic c = c.alive && c.has_ssl && is_subscribed c.topics topic

-- The frames that a broadcast writes, each to its client.
unfoldable pub broadcast : List ClientConn → String → List ℕ → List (ℕ × List ℕ)
unfolding is_subscribed
broadcast clients topic frame = map (λ (c : ClientConn). (c.fd, frame)) (keep (gets topic) clients)

-- `hdr_len` is a `uint16_t`.
unfoldable pub binary_payload : List ℕ → List ℕ → List ℕ
binary_payload header_json bytes =
    let hdr_len = length header_json % 65536 in
    if is_empty header_json then bytes else hdr_len / 256 ∷ hdr_len % 256 ∷ (header_json ++ bytes)

unfoldable pub broadcast_binary : List ClientConn → String → List ℕ → List ℕ → List (ℕ × List ℕ)
unfolding broadcast
broadcast_binary clients topic bytes header_json =
    broadcast clients topic (binary_frame (binary_payload header_json bytes))

-- How a client reads the payload: two bytes of length, the header, the data.
abbrev pub read_binary : List ℕ → Option (List ℕ × List ℕ)
read_binary [] = none
read_binary (h ∷ []) = none
read_binary (h ∷ l ∷ rest) =
    let n = h * 256 + l in if ltb (length rest) n then none else some (take n rest, drop n rest)

-- A binary broadcast can be taken apart again by its length field, for a header that is not empty
-- and shorter than 65536 bytes.
read_binary-binary_payload :
    (header bytes : List ℕ)
    → is_empty header ≡ false
    → length header < 65536
    → read_binary (binary_payload header bytes) ≡ some (header, bytes)
unfolding binary_payload
read_binary-binary_payload header bytes h short =
    let n = length header in
    let small : n % 65536 ≡ n = omega arith in
    let whole : n / 256 * 256 + n % 256 ≡ n = omega arith in
    let there : ltb (length (header ++ bytes)) n ≡ false =
      ground (arith, length-append header bytes) in
    rw (h, small, whole, there, take-append header bytes, drop-append header bytes)

any_of-append :
    (p : String → Bool) (xs ys : List String) → any_of p (xs ++ ys) ≡ any_of p xs || any_of p ys
any_of-append p [] ys = refl
any_of-append p (x ∷ xs) ys = ground (arith, any_of-append p xs ys)

-- The wanted topics: listed, or all of them.
abbrev pub wants : List String → String → Bool
wants ts topic = any_of (λ t. str_eq t topic || str_eq t "core/*") ts

-- A subscription adds exactly its topics to those that a client gets.
on_message-subscribe :
    (c : ClientConn) (ts : List String) (topic : String)
    → let c' = on_message c (some (record { action = "subscribe"; topics = some ts })) in
      is_subscribed c'.topics topic ≡ is_subscribed c.topics topic || wants ts topic
unfolding on_message is_subscribed
on_message-subscribe c ts topic = any_of-append _ c.topics ts

-- Membership of a text in a list, as a test.
abbrev pub listed : String → List String → Bool
listed s ts = any_of (λ t. str_eq t s) ts

listed-remove_topic :
    (s t : String) (topics : List String)
    → listed s (remove_topic topics t) ≡ listed s topics && not (str_eq t s)
unfolding remove_topic
listed-remove_topic s t [] = refl
listed-remove_topic s t (u ∷ us) =
    ground (arith, eq_iff u t, eq_iff u s, eq_iff t s, listed-remove_topic s t us)

listed-remove_topics :
    (s : String) (topics ts : List String)
    → listed s (remove_topics topics ts) ≡ listed s topics && not (listed s ts)
unfolding remove_topics
listed-remove_topics s topics [] = ground arith
listed-remove_topics s topics (t ∷ ts) =
    ground
      (arith, listed-remove_topics s (remove_topic topics t) ts, listed-remove_topic s t topics)

wants-listed :
    (topics : List String) (topic : String)
    → wants topics topic ≡ listed topic topics || listed "core/*" topics
wants-listed [] topic = refl
wants-listed (t ∷ ts) topic = ground (arith, wants-listed ts topic)

-- After an unsubscription a client gets a topic exactly if it had subscribed to it, or to "core/*",
-- and the message names neither what it had: a wildcard survives the removal of a single topic.
on_message-unsubscribe :
    (c : ClientConn) (ts : List String) (topic : String)
    → let c' = on_message c (some (record { action = "unsubscribe"; topics = some ts })) in
      is_subscribed c'.topics topic
      ≡ (listed topic c.topics && not (listed topic ts))
        || (listed "core/*" c.topics && not (listed "core/*" ts))
unfolding on_message is_subscribed
on_message-unsubscribe c ts topic =
    wants-listed (remove_topics c.topics ts) topic
    ∙ ap₂ ◌||◌ (listed-remove_topics topic c.topics ts) (listed-remove_topics "core/*" c.topics ts)
