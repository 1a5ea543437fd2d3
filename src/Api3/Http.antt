-- ===== src/Api3/Http.antt =====
-- src/api3/ClientServer.cpp. Sockets and TLS are the lists of what `SSL_read` and `SSL_write` return, and
-- `std::stoul` is an argument, with `none` where it throws. The result `none` of a loop stands for a
-- thread that still waits.
use project_viatech_ecids_co.Base.{
  ℕ, zero, suc, ◌+◌, ◌-◌, Bool, true, false, not, ◌&&◌, ◌||◌, List, [], ◌∷◌, ◌++◌, Option, none,
  some, Text, codes, if◌then◌else◌, ltb, leb, ◌==◌, length, take, drop, is_empty, map,
}
use project_viatech_ecids_co.Common.Decimal.{decimal}
pub mod Find
pub mod Parse
pub mod Exchange
pub mod Answer

-- `std::string::find` and `rfind`
abbrev pub starts : Text → Text → Bool
starts [] s = true
starts (a ∷ as') [] = false
starts (a ∷ as') (b ∷ bs) = a == b && starts as' bs

abbrev pub one_on : Option ℕ → Option ℕ
one_on none = none
one_on (some k) = some (suc k)

unfoldable pub find : Text → Text → Option ℕ
find needle [] = if is_empty needle then some 0 else none
find needle (c ∷ s) =
    let later = find needle s in if starts needle (c ∷ s) then some 0 else one_on later

unfoldable pub rfind : ℕ → Text → Option ℕ
rfind c [] = none
rfind c (x ∷ s) = elim (rfind c s) [
  | some k ↦ some (suc k)
  | none ↦ if c == x then some 0 else none
]

abbrev pub crlf2 : Text
crlf2 = 13 ∷ 10 ∷ 13 ∷ 10 ∷ []

unfoldable pub find_end : Text → Option ℕ
unfolding find
find_end s = find crlf2 s

-- `tolower` of a byte
unfoldable pub to_lower : ℕ → ℕ
to_lower c = if leb 65 c && leb c 90 then c + 32 else c

abbrev pub drop_blanks : Text → Text
drop_blanks [] = []
drop_blanks (c ∷ s) = if c == 32 || c == 9 then drop_blanks s else c ∷ s

unfoldable pub content_length : (Text → Option ℕ) → Text → ℕ
unfolding find to_lower
content_length stoul headers = elim (find (codes "content-length:") (map to_lower headers)) [
  | none ↦ 0
  | some pos ↦ elim (stoul (drop_blanks (drop (pos + 15) headers))) [ none ↦ 0 | some n ↦ n ]
]

-- What `SSL_read` gives: bytes, no bytes yet, or an error.
pub data Read : Type 0 where
  got : List ℕ → Read
  want failed : Read

-- The first loop, up to the end of the headers.
unfoldable pub read_headers : Text → List Read → Option (Text × List Read)
unfolding find_end
read_headers buf [] = none
read_headers buf (got tmp ∷ es) = elim (find_end (buf ++ tmp)) [
  | some k ↦ some (buf ++ tmp, es)
  | none ↦ read_headers (buf ++ tmp) es
]
read_headers buf (want ∷ es) = read_headers buf es
read_headers buf (failed ∷ es) = some (buf, es)

-- The second loop, until the body is complete.
unfoldable pub read_body : ℕ → ℕ → Text → List Read → Option Text
read_body start len buf [] = if ltb (length buf - start) len then none else some buf
read_body start len buf (e ∷ es) = elim (ltb (length buf - start) len) [
  | false ↦ some buf
  | true ↦ elim e [
    | got tmp ↦ read_body start len (buf ++ tmp) es
    | want ↦ read_body start len buf es
    | failed ↦ some buf
  ]
]

unfoldable pub read_rest : (Text → Option ℕ) → Text × List Read → Option Text
unfolding find_end content_length read_body
read_rest stoul (buf, es) = elim (find_end buf) [
  | none ↦ some buf
  | some hdr_end ↦ read_body (hdr_end + 4) (content_length stoul (take hdr_end buf)) buf es
]

unfoldable pub read_request : (Text → Option ℕ) → List Read → Option Text
unfolding read_headers read_rest
read_request stoul es = elim (read_headers [] es) [ none ↦ none | some r ↦ read_rest stoul r ]

-- `std::getline` of the headers
abbrev pub get_line : Text → Text
get_line [] = []
get_line (c ∷ s) = if 10 == c then [] else c ∷ get_line s

-- The method and the path. With one space alone the length of the path wraps around, so that it
-- takes the rest of the line.
unfoldable pub request_line : Text → Text × Text
unfolding find rfind
request_line line = split (find (32 ∷ []) line) (rfind 32 line)
  where
    split : Option ℕ → Option ℕ → Text × Text
    split (some sp1) (some sp2) = (
      take sp1 line,
      if leb sp2 sp1 then drop (sp1 + 1) line else take (sp2 - sp1 - 1) (drop (sp1 + 1) line),
    )
    split _ _ = ([], [])

unfoldable pub parse_request : Text → Option (Text × Text × Text)
unfolding find_end request_line
parse_request raw = elim (find_end raw) [
  | none ↦ none
  | some hdr_end ↦
      let (method, path) = request_line (get_line (take hdr_end raw)) in
      some (method, path, drop (hdr_end + 4) raw)
]

abbrev crlf : Text → Text
crlf s = 13 ∷ 10 ∷ s

unfoldable pub http_response : Text → Text
unfolding decimal
http_response body =
    codes "HTTP/1.1 200 OK"
    ++ crlf (
        codes "Content-Type: application/json"
        ++ crlf (
            codes "Content-Length: "
            ++ (decimal (length body) ++ crlf (codes "Connection: close" ++ crlf (crlf body)))))

-- `route_`, with the handler if one is set
unfoldable pub route : Option (Text → Text → Text → Text) → Text → Text → Text → Text
route (some handler) method path body = handler method path body
route none method path body = codes "{\"code\":1,\"message\":\"No handler configured\"}"

-- What a client gets: its connection is closed at once, or after a response.
pub data Served : Type 0 where
  closed : Served
  replied : Text → Served

unfoldable pub serve : Option (Text → Text → Text → Text) → Text → Served
unfolding parse_request http_response route
serve handler raw = elim (parse_request raw) [
  | none ↦ closed
  | some (method, path, body) ↦ replied (http_response (route handler method path body))
]

-- `accepted` stands for a handshake that does not fail. A text with nothing read is closed as well.
unfoldable pub handle_client :
    (Text → Option ℕ) → Option (Text → Text → Text → Text) → Bool → List Read → Option Served
unfolding read_request serve
handle_client stoul handler accepted es =
    if not accepted
    then some closed
    else elim (read_request stoul es) [ none ↦ none | some raw ↦ some (serve handler raw) ]

-- What `SSL_write` gives: bytes taken, none yet, or an error.
pub data Write : Type 0 where
  took : ℕ → Write
  blocked broken : Write

-- What goes out of a response.
unfoldable pub write_response : Text → List Write → Text
write_response response [] = []
write_response [] (w ∷ ws) = []
write_response (c ∷ s) (took n ∷ ws) = take n (c ∷ s) ++ write_response (drop n (c ∷ s)) ws
write_response (c ∷ s) (blocked ∷ ws) = write_response (c ∷ s) ws
write_response (c ∷ s) (broken ∷ ws) = []

pub record ClientServer : Type 0 where
  pub running : Bool
  pub client_queue : List ℕ

-- A connection that is accepted: it is queued, or closed when 64 wait.
unfoldable pub accept_client : ClientServer → ℕ → ClientServer × List ℕ
accept_client s client_fd =
    if leb 64 (length s.client_queue)
    then (s, client_fd ∷ [])
    else (record s { client_queue = s.client_queue ++ client_fd ∷ [] }, [])

-- One round of `worker_loop_`: the connection it handles, if any; `none` when the loop ends. `stopped`
-- tells whether `stop` was called while it waited.
unfoldable pub worker_turn : ClientServer → Bool → Option (List ℕ × ClientServer)
worker_turn s stopped = if s.running then front s.client_queue else none
  where
    front : List ℕ → Option (List ℕ × ClientServer)
    front [] = if stopped then none else some ([], s)
    front (fd ∷ fds) = some (fd ∷ [], record s { running = not stopped; client_queue = fds })
