-- ===== src/Api3/Wss/Handshake.antt =====
-- src/api3/WSSServer.cpp: `do_handshake_`. What the TLS library returns is given by lists, as for the requests
-- of Api3.Http, whose loop up to the end of the headers this one repeats. SHA-1 and Base64 are arguments.
use project_viatech_ecids_co.Base.{
  ℕ, ◌+◌, Bool, true, false, not, ◌&&◌, ◌||◌, List, [], ◌∷◌, ◌++◌, Option, none, some, Text, codes,
  if◌then◌else◌, ◌==◌, drop, is_empty, put_first,
}
use project_viatech_ecids_co.Api3.Http.{Read, find, drop_blanks, read_headers}
use project_viatech_ecids_co.Api3.Wss.{write_frame}
pub mod Keys
pub mod Upgraded

-- What `SSL_accept` gives: `retry` where it wants to read or to write.
pub data Accept : Type 0 where
  accepted retry refused : Accept

-- The second call is made where the first wants one, and must succeed.
abbrev pub tls_accepted : Accept → Accept → Bool
tls_accepted accepted second = true
tls_accepted refused second = false
tls_accepted retry accepted = true
tls_accepted retry _ = false

abbrev pub has : Text → Text → Bool
has needle s = elim (find needle s) [ none ↦ false | some k ↦ true ]

abbrev pub either : Option ℕ → Option ℕ → Option ℕ
either (some k) later = some k
either none later = later

abbrev pub key_name : Text
key_name = codes "Sec-WebSocket-Key:"

unfoldable pub key_pos : Text → Option ℕ
unfolding find
key_pos line = either (find key_name line) (find (codes "sec-websocket-key:") line)

-- The lines that `std::getline` gives in turn.
abbrev pub lines_of : Text → List Text
lines_of [] = []
lines_of (c ∷ s) = if c == 10 then [] ∷ lines_of s else put_first c (lines_of s)

-- The `\r` and `\n` at the end are taken away.
abbrev pub strip_end : Text → Text
strip_end [] = []
strip_end (c ∷ s) =
    let rest = strip_end s in if is_empty rest && (c == 13 || c == 10) then [] else c ∷ rest

unfoldable pub ws_key : List Text → Text
unfolding key_pos
ws_key [] = []
ws_key (line ∷ ls) = elim (key_pos line) [
  | some pos ↦ strip_end (drop_blanks (drop (pos + 18) line))
  | none ↦ ws_key ls
]

abbrev ws_magic : Text
ws_magic = codes "258EAFA5-E914-47DA-95CA-C5AB0DC85B11"

abbrev pub compute_accept_key : (Text → Text) → (Text → Text) → Text → Text
compute_accept_key sha1 base64 key = base64 (sha1 (key ++ ws_magic))

abbrev crlf : Text → Text
crlf s = 13 ∷ 10 ∷ s

unfoldable pub upgrade_response : Text → Text
upgrade_response accept_key =
    codes "HTTP/1.1 101 Switching Protocols"
    ++ crlf (
        codes "Upgrade: websocket"
        ++ crlf (
            codes "Connection: Upgrade"
            ++ crlf (codes "Sec-WebSocket-Accept: " ++ (accept_key ++ crlf (crlf [])))))

-- A refusal: nothing is written, and the result is `false`.
abbrev pub no_upgrade : Text × Option Bool
no_upgrade = ([], some false)

-- What is written in answer to a request, and the result.
unfoldable pub answer : (Text → Text) → (Text → Text) → List ℕ → Text → Text × Option Bool
unfolding find ws_key upgrade_response write_frame
answer sha1 base64 returns request =
    let key = ws_key (lines_of request) in
    if not (has (codes "Upgrade: websocket") request)
      && not (has (codes "upgrade: websocket") request)
    then no_upgrade
    else if is_empty key
    then no_upgrade
    else write_frame returns (upgrade_response (compute_accept_key sha1 base64 key))

-- `none` while the thread still reads.
unfoldable pub do_handshake :
    (Text → Text)
    → (Text → Text)
    → Accept
    → Accept
    → List Read
    → List ℕ
    → Option (Text × Option Bool)
unfolding read_headers answer
do_handshake sha1 base64 first second es returns =
    if not (tls_accepted first second) then some no_upgrade else elim (read_headers [] es) [
      | none ↦ none
      | some (request, rest) ↦ some (answer sha1 base64 returns request)
    ]
