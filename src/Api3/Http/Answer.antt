-- ===== src/Api3/Http/Answer.antt =====
-- ClientServer.cpp: the answer to a request, and what a client can read of it.
use project_viatech_ecids_co.Base.{
  ℕ, ◌+◌, ◌≤◌, ◌≡◌, refl, sym, ap, ◌∙◌, true, false, List, [], ◌∷◌, ◌++◌, Option, none, some, Text,
  codes, length, take, drop, All, All-append, arith, length-append, ◌==◌, ◌||◌, if_false,
}
use project_viatech_ecids_co.Common.Decimal.{decimal, decimal_from}
use project_viatech_ecids_co.Api3.Http.{
  Read, drop_blanks, find, to_lower, find_end, crlf2, content_length, read_request, http_response,
  route, replied, serve, handle_client, parse_request,
}
use project_viatech_ecids_co.Api3.Http.Find.{Without}
use project_viatech_ecids_co.Api3.Http.Parse.{
  IsLine, message, headers_of, joined, ends, message_split, find_end-message, headers-message,
  body-message, first_line, request, IsRequest, parse_request-request,
}
use project_viatech_ecids_co.Api3.Http.Exchange.{bytes_of, Arrives, read_request-whole}

length-message :
    (first : Text) (ls : List Text) (body : Text)
    → length (message first ls body) ≡ length (headers_of first ls) + 4 + length body
length-message first ls body =
    ap length (message_split first ls body)
    ∙ omega (arith, length-append (headers_of first ls) (crlf2 ++ body))

-- A message is read whole if its headers give the length of its body.
message-read :
    (stoul : Text → Option ℕ) (es : List Read) (first : Text) (ls : List Text) (body : Text)
    → Without 13 first
    → All IsLine ls
    → Arrives es
    → bytes_of es ≡ message first ls body
    → content_length stoul (headers_of first ls) ≡ length body
    → read_request stoul es ≡ some (message first ls body)
message-read stoul es first ls body w lines a e n =
    let k = length (headers_of first ls) in
    let header = ap (take k) e ∙ headers-message first ls body in
    read_request-whole stoul es k a (ap find_end e ∙ find_end-message first ls body w lines) (
      ap (λ h. k + 4 + content_length stoul h) header
      ∙ ap (λ l. k + 4 + l) n
      ∙ sym (length-message first ls body)
      ∙ ap length (sym e))
    ∙ ap some e

served :
    (handler : Option (Text → Text → Text → Text)) (raw method path body : Text)
    → parse_request raw ≡ some (method, path, body)
    → serve handler raw ≡ replied (http_response (route handler method path body))
unfolding serve
served handler raw method path body e = rw (serve, e) refl

handled :
    (stoul : Text → Option ℕ) (handler : Option (Text → Text → Text → Text)) (es : List Read)
    (raw : Text)
    → read_request stoul es ≡ some raw
    → handle_client stoul handler true es ≡ some (serve handler raw)
unfolding handle_client
handled stoul handler es raw e = rw (handle_client, e) refl

-- A request that announces the length of its body is answered with what the handler gives for its
-- method, path and body, whatever the pieces in which it arrives.
pub handle_client-request :
    (stoul : Text → Option ℕ) (handler : Option (Text → Text → Text → Text)) (es : List Read)
    (method path version : Text) (ls : List Text) (body : Text)
    → IsRequest method path version ls
    → Arrives es
    → bytes_of es ≡ request method path version ls body
    → content_length stoul (headers_of (first_line method path version) ls) ≡ length body
    → handle_client stoul handler true es
      ≡ some (replied (http_response (route handler method path body)))
handle_client-request stoul handler es method path version ls body r a e n =
    handled stoul handler es (request method path version ls body)
      (message-read stoul es (first_line method path version) ls body r.no_return r.lines a e n)
    ∙ ap some (
        served handler (request method path version ls body) method path body
          (parse_request-request method path version ls body r))

-- The lines of a response after its status line.
abbrev response_lines : ℕ → List Text
response_lines n =
    codes "Content-Type: application/json"
    ∷ (codes "Content-Length: " ++ decimal n)
    ∷ codes "Connection: close"
    ∷ []

response-message :
    (body : Text)
    → http_response body ≡ message (codes "HTTP/1.1 200 OK") (response_lines (length body)) body
unfolding http_response ends
response-message body = refl

number_line : (cs : Text) → All (λ c. 48 ≤ c) cs → Without 13 cs
number_line [] h = tt
number_line (c ∷ cs) (h, hs) = (ground arith, number_line cs hs)

response_lines-IsLine : (n : ℕ) → All IsLine (response_lines n)
response_lines-IsLine n =
    let digits = number_line (decimal n) (decimal_from n) in
    (
      ground arith,
      (
        All-append (λ x. (13 == x) ≡ false) (codes "Content-Length: ") (decimal n) (ground arith)
            digits,
        (ground arith, tt),
      ),
    )

-- `std::stoul` reads a number up to the end of its line.
abbrev pub ReadsLines : (Text → Option ℕ) → Type 0
ReadsLines stoul = (n : ℕ) (rest : Text) → stoul (decimal n ++ 13 ∷ rest) ≡ some n

no_blank : (c : ℕ) → 48 ≤ c → (c == 32 || c == 9) ≡ false
no_blank c h = ground arith

digits_kept :
    (cs rest : Text) → All (λ c. 48 ≤ c) cs → drop_blanks (cs ++ 13 ∷ rest) ≡ cs ++ 13 ∷ rest
digits_kept [] rest h = refl
digits_kept (c ∷ cs) rest (h, hs) =
    if_false (c == 32 || c == 9) _ (c ∷ (cs ++ 13 ∷ rest)) (no_blank c h)

response_length :
    (stoul : Text → Option ℕ) (n : ℕ)
    → ReadsLines stoul
    → content_length stoul (headers_of (codes "HTTP/1.1 200 OK") (response_lines n)) ≡ n
unfolding content_length find to_lower joined
response_length stoul n h =
    let rest = 10 ∷ codes "Connection: close" in
    ap (λ o. elim o [ none ↦ 0 | some k ↦ k ])
      (ap stoul (digits_kept (decimal n) rest (decimal_from n)) ∙ h n rest)

-- A response is read whole by the server's own reader, whatever its pieces, and its body is what
-- follows the end of its headers.
read_request-http_response :
    (stoul : Text → Option ℕ) (es : List Read) (body : Text)
    → ReadsLines stoul
    → Arrives es
    → bytes_of es ≡ http_response body
    → (read_request stoul es ≡ some (http_response body))
      × ((k : ℕ) × (find_end (http_response body) ≡ some k)
          × (drop (k + 4) (http_response body) ≡ body))
read_request-http_response stoul es body h a e =
    let first = codes "HTTP/1.1 200 OK" in
    let ls = response_lines (length body) in
    let same = response-message body in
    (
      message-read stoul es first ls body (ground arith) (response_lines-IsLine (length body)) a
            (e ∙ same) (response_length stoul (length body) h)
          ∙ ap some (sym same),
      (
        length (headers_of first ls),
        ap find_end same
            ∙ find_end-message first ls body (ground arith) (response_lines-IsLine (length body)),
        ap (drop (length (headers_of first ls) + 4)) same ∙ body-message first ls body,
      ),
    )
