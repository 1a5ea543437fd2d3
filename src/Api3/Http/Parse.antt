-- ===== src/Api3/Http/Parse.antt =====
-- ClientServer.cpp: a request and a response as lines, and what is read of them.
use project_viatech_ecids_co.Base.{
  ℕ, zero, suc, ◌+◌, ◌-◌, ◌≡◌, refl, sym, ap, ◌∙◌, false, List, [], ◌∷◌, ◌++◌, Option, some, Text,
  length, take, drop, leb, All, All-append, arith, append_assoc, length-append, take-append,
  drop-append, if_false, append-nil,
}
use project_viatech_ecids_co.Api3.Http.{
  rfind, find_end, crlf2, get_line, request_line, parse_request,
}
use project_viatech_ecids_co.Api3.Http.Find.{
  Without, find_end_mark, find_end_line, find_end_break, find_byte, rfind_byte,
}

-- A header line: not empty, and with no carriage return.
abbrev pub IsLine : Text → Type 0
IsLine [] = ⊥
IsLine (c ∷ l) = Without 13 (c ∷ l)

-- The lines after the first one, and behind them the end of the headers and the body.
unfoldable pub ends : List Text → Text → Text
ends [] body = crlf2 ++ body
ends (l ∷ ls) body = 13 ∷ 10 ∷ (l ++ ends ls body)

unfoldable pub joined : List Text → Text
joined [] = []
joined (l ∷ ls) = 13 ∷ 10 ∷ (l ++ joined ls)

-- A message of a first line, more lines and a body.
abbrev pub message : Text → List Text → Text → Text
message first ls body = first ++ ends ls body

abbrev pub headers_of : Text → List Text → Text
headers_of first ls = first ++ joined ls

ends_split : (ls : List Text) (body : Text) → ends ls body ≡ joined ls ++ (crlf2 ++ body)
unfolding ends joined
ends_split [] body = refl
ends_split (l ∷ ls) body =
    ap (λ s. 13 ∷ 10 ∷ s)
      (ap (◌++◌ l) (ends_split ls body) ∙ sym (append_assoc l (joined ls) (crlf2 ++ body)))

pub message_split :
    (first : Text) (ls : List Text) (body : Text)
    → message first ls body ≡ headers_of first ls ++ (crlf2 ++ body)
message_split first ls body =
    ap (◌++◌ first) (ends_split ls body) ∙ sym (append_assoc first (joined ls) (crlf2 ++ body))

find_end-ends :
    (ls : List Text) (body : Text)
    → All IsLine ls
    → find_end (ends ls body) ≡ some (length (joined ls))
unfolding ends joined
find_end-ends [] body h = find_end_mark body
find_end-ends ([] ∷ ls) body (h, hs) = elim h [ ]
find_end-ends ((c ∷ l) ∷ ls) body ((e, w), hs) =
    find_end_break c (l ++ ends ls body) (length (c ∷ l) + length (joined ls)) e
      (find_end_line (c ∷ l) (ends ls body) (length (joined ls)) (e, w) (find_end-ends ls body hs))
    ∙ ap some (omega (arith, length-append l (joined ls)))

pub find_end-message :
    (first : Text) (ls : List Text) (body : Text)
    → Without 13 first
    → All IsLine ls
    → find_end (message first ls body) ≡ some (length (headers_of first ls))
find_end-message first ls body w h =
    find_end_line first (ends ls body) (length (joined ls)) w (find_end-ends ls body h)
    ∙ ap some (omega (arith, length-append first (joined ls)))

pub headers-message :
    (first : Text) (ls : List Text) (body : Text)
    → take (length (headers_of first ls)) (message first ls body) ≡ headers_of first ls
headers-message first ls body =
    ap (take (length (headers_of first ls))) (message_split first ls body)
    ∙ take-append (headers_of first ls) (crlf2 ++ body)

drop_more : (n : ℕ) (xs : Text) → drop (n + 4) xs ≡ drop 4 (drop n xs)
drop_more zero xs = let e : 0 + 4 ≡ 4 = omega arith in ap (λ k. drop k xs) e
drop_more (suc n) [] = let e : suc n + 4 ≡ suc (n + 4) = omega arith in ap (λ k. drop k []) e
drop_more (suc n) (x ∷ xs) =
    let e : suc n + 4 ≡ suc (n + 4) = omega arith in ap (λ k. drop k (x ∷ xs)) e ∙ drop_more n xs

pub body-message :
    (first : Text) (ls : List Text) (body : Text)
    → drop (length (headers_of first ls) + 4) (message first ls body) ≡ body
body-message first ls body =
    drop_more (length (headers_of first ls)) (message first ls body)
    ∙ ap (λ s. drop 4 (drop (length (headers_of first ls)) s)) (message_split first ls body)
    ∙ ap (drop 4) (drop-append (headers_of first ls) (crlf2 ++ body))

get_line_whole : (l : Text) → Without 10 l → get_line l ≡ l
get_line_whole [] w = refl
get_line_whole (c ∷ l) (e, w) = rw e (ap (◌∷◌ c) (get_line_whole l w))

get_line_first : (l s : Text) → Without 10 l → get_line (l ++ 10 ∷ s) ≡ l
get_line_first [] s w = refl
get_line_first (c ∷ l) s (e, w) = rw e (ap (◌∷◌ c) (get_line_first l s w))

abbrev pair : Text → Text → Text × Text
pair a b = (a, b)

pair_eq : {a a' b b' : Text} → a ≡ a' → b ≡ b' → pair a b ≡ pair a' b'
pair_eq p q = rw p (rw q refl)

drop_past : (c : ℕ) (xs ys : Text) → drop (length xs + 1) (xs ++ c ∷ ys) ≡ ys
drop_past c [] ys = let e : 0 + 1 ≡ 1 = omega arith in ap (λ k. drop k (c ∷ ys)) e
drop_past c (x ∷ xs) ys =
    let e : suc (length xs) + 1 ≡ suc (length xs + 1) = omega arith in
    ap (λ k. drop k (x ∷ (xs ++ c ∷ ys))) e ∙ drop_past c xs ys

-- A request line up to its version, or up to the carriage return.
abbrev pub first_line : Text → Text → Text → Text
first_line method path version = method ++ 32 ∷ (path ++ 32 ∷ version)

request_line_lem :
    (method path version : Text)
    → Without 32 method
    → Without 32 version
    → request_line (first_line method path version) ≡ (method, path)
unfolding request_line
request_line_lem method path version m v =
    let line = first_line method path version in
    let n = length method in
    let same : (method ++ 32 ∷ path) ++ 32 ∷ version ≡ line =
      append_assoc method (32 ∷ path) (32 ∷ version) in
    let long : length (method ++ 32 ∷ path) ≡ n + suc (length path) =
      length-append method (32 ∷ path) in
    let last : rfind 32 line ≡ some (n + suc (length path)) =
      ap (rfind 32) (sym same) ∙ rfind_byte 32 (method ++ 32 ∷ path) version v ∙ ap some long in
    let less : leb (n + suc (length path)) n ≡ false = ground arith in
    let size : n + suc (length path) - n - 1 ≡ length path = omega arith in
    rw (find_byte 32 method (path ++ 32 ∷ version) m) (
      rw last (
        pair_eq (take-append method (32 ∷ (path ++ 32 ∷ version))) (
          if_false _ _ (take (n + suc (length path) - n - 1) (drop (n + 1) line)) less
          ∙ ap (λ k. take k (drop (n + 1) line)) size
          ∙ ap (take (length path)) (drop_past 32 method (path ++ 32 ∷ version))
          ∙ take-append path (32 ∷ version))))

-- The first line of the headers, with its carriage return if there are more lines.
line_of :
    (first : Text) (ls : List Text)
    → Without 10 first
    → (cr : Text) × (Without 32 cr) × (get_line (headers_of first ls) ≡ first ++ cr)
unfolding joined
line_of first [] w =
    ([], tt, ap get_line (append-nil first) ∙ get_line_whole first w ∙ sym (append-nil first))
line_of first (l ∷ ls) w = (
  13 ∷ [],
  (refl, tt),
  ap get_line (sym (append_assoc first (13 ∷ []) (10 ∷ (l ++ joined ls))))
      ∙ get_line_first (first ++ 13 ∷ []) (l ++ joined ls)
          (All-append _ first (13 ∷ []) w (refl, tt)),
)

-- A request: its method, path and version, more header lines, and its body.
abbrev pub request : Text → Text → Text → List Text → Text → Text
request method path version ls body = message (first_line method path version) ls body

-- The method and the version have no space, no header line is empty, and none has a line break.
pub record IsRequest (method path version : Text) (ls : List Text) : Type 0 where
  pub method_one : Without 32 method
  pub version_one : Without 32 version
  pub no_feed : Without 10 (first_line method path version)
  pub no_return : Without 13 (first_line method path version)
  pub lines : All IsLine ls

line_parts :
    (method path version cr : Text)
    → first_line method path version ++ cr ≡ first_line method path (version ++ cr)
line_parts method path version cr =
    append_assoc method (32 ∷ (path ++ 32 ∷ version)) cr
    ∙ ap (λ s. method ++ 32 ∷ s) (append_assoc path (32 ∷ version) cr)

abbrev parts : Text × Text → Text → Option (Text × Text × Text)
parts (method, path) body = some (method, path, body)

parse_at :
    (raw : Text) (k : ℕ)
    → find_end raw ≡ some k
    → parse_request raw ≡ parts (request_line (get_line (take k raw))) (drop (k + 4) raw)
unfolding parse_request
parse_at raw k e = rw (parse_request, e) refl

-- The method, the path and the body of a request are read back.
pub parse_request-request :
    (method path version : Text) (ls : List Text) (body : Text)
    → IsRequest method path version ls
    → parse_request (request method path version ls body) ≡ some (method, path, body)
parse_request-request method path version ls body r =
    let first = first_line method path version in
    let (cr, plain, line) = line_of first ls r.no_feed in
    let parsed =
      ap request_line (line ∙ line_parts method path version cr)
      ∙ request_line_lem method path (version ++ cr) r.method_one
          (All-append _ version cr r.version_one plain) in
    parse_at (request method path version ls body) (length (headers_of first ls))
      (find_end-message first ls body r.no_return r.lines)
    ∙ ap
        (λ h.
          parts (request_line (get_line h))
            (drop (length (headers_of first ls) + 4) (message first ls body)))
        (headers-message first ls body)
    ∙ ap (parts (request_line (get_line (headers_of first ls)))) (body-message first ls body)
    ∙ ap (λ l. parts l body) parsed
