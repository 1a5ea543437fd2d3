-- ===== src/Api3/Wss/Handshake/Upgraded.antt =====
-- WSSServer.cpp: an upgrade request is answered, whatever the pieces in which it comes.
use project_viatech_ecids_co.Base.{
  ℕ, ◌+◌, ◌≡◌, refl, ap, ◌∙◌, true, false, List, [], ◌∷◌, ◌++◌, some, Text, codes, length, All,
  All-append, arith, is_empty, length-append,
}
use project_viatech_ecids_co.Api3.Http.{Read, find_end, crlf2, read_headers}
use project_viatech_ecids_co.Api3.Http.Find.{Without, find_end_fits}
use project_viatech_ecids_co.Api3.Http.Parse.{
  message, IsLine, headers_of, message_split, find_end-message,
}
use project_viatech_ecids_co.Api3.Http.Exchange.{bytes_of, Arrives, headers_read, all_there, no_end}
use project_viatech_ecids_co.Api3.Wss.{write_frame}
use project_viatech_ecids_co.Api3.Wss.Handshake.{
  Accept, tls_accepted, has, lines_of, ws_key, compute_accept_key, upgrade_response, answer,
  do_handshake,
}
use project_viatech_ecids_co.Api3.Wss.Handshake.Keys.{
  has_inside, IsKey, NoKey, key_line, IsKey-no_line_end, key_line-IsLine, ws_key-message,
}

-- The first loop ends with the last bytes of a request that has no body, and has all of it.
read_headers-whole :
    (es : List Read) (request : Text) (k : ℕ)
    → Arrives es
    → bytes_of es ≡ request
    → find_end request ≡ some k
    → length request ≡ k + 4
    → (rest : List Read) × (read_headers [] es ≡ some (request, rest))
read_headers-whole es request k a e f n =
    let (buf, rest, r, found, same, a') = headers_read es [] k a no_end (ap find_end e ∙ f) in
    let fits = find_end_fits buf k found in
    let whole = same ∙ e in
    let len = ap length whole in
    let buf_request = all_there buf (bytes_of rest) (omega arith) ∙ whole in
    (rest, r ∙ ap (λ t. some (t, rest)) buf_request)

length-message :
    (first : Text) (ls : List Text)
    → length (message first ls []) ≡ length (headers_of first ls) + 4
length-message first ls =
    ap length (message_split first ls []) ∙ length-append (headers_of first ls) (crlf2 ++ [])

abbrev upgrade_request : Text → List Text → Text → List Text → Text
upgrade_request first before key after = message first (before ++ key_line key ∷ after) []

answer-key :
    (sha1 base64 : Text → Text) (returns : List ℕ) (request key : Text)
    → has (codes "Upgrade: websocket") request ≡ true
    → ws_key (lines_of request) ≡ key
    → is_empty key ≡ false
    → answer sha1 base64 returns request
      ≡ write_frame returns (upgrade_response (compute_accept_key sha1 base64 key))
unfolding answer
answer-key sha1 base64 returns request key h e k = rw (answer, h, e, k) refl

IsKey-not_empty : (key : Text) → IsKey key → is_empty key ≡ false
IsKey-not_empty [] h = elim h [ ]
IsKey-not_empty (c ∷ s) h = refl

module _ (sha1 base64 : Text → Text) where
  -- A request whose header lines say to upgrade and give a key, where no line before names a key, and which
  -- arrives in whatever pieces: once the TLS library has accepted, it is answered with the key that RFC 6455
  -- derives of the request's, as far as the library lets the answer be written.
  pub do_handshake-key :
      (first : Text) (before after : List Text) (key p q : Text) (one two : Accept) (es : List Read)
      (returns : List ℕ)
      → Without 13 first
      → All IsLine before
      → All IsLine after
      → All (Without 10) (first ∷ before)
      → All NoKey (first ∷ before)
      → IsKey key
      → upgrade_request first before key after ≡ p ++ (codes "Upgrade: websocket" ++ q)
      → tls_accepted one two ≡ true
      → Arrives es
      → bytes_of es ≡ upgrade_request first before key after
      → do_handshake sha1 base64 one two es returns
        ≡ some (write_frame returns (upgrade_response (compute_accept_key sha1 base64 key)))
  unfolding do_handshake
  do_handshake-key first before after key p q one two es returns w b a n nk k up acc arr e =
      let ls = before ++ key_line key ∷ after in
      let lines =
        All-append IsLine before (key_line key ∷ after) b
          (key_line-IsLine key (IsKey-no_line_end key k).0, a) in
      let (rest, r) =
        read_headers-whole es (message first ls []) (length (headers_of first ls)) arr e
          (find_end-message first ls [] w lines) (length-message first ls) in
      let upgrade =
        ap (has (codes "Upgrade: websocket")) up ∙ has_inside 85 (codes "pgrade: websocket") p q in
      rw (acc, r)
        (ap some (
          answer-key sha1 base64 returns (message first ls []) key upgrade
            (ws_key-message first before after key nk n k) (IsKey-not_empty key k)))
