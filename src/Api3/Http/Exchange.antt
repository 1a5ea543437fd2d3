-- ===== src/Api3/Http/Exchange.antt =====
-- ClientServer.cpp: reading a request from the stream, whatever its pieces are, and answering it.
use project_viatech_ecids_co.Base.{
  ℕ, zero, suc, ◌+◌, ◌-◌, ◌≤◌, ◌≡◌, refl, sym, ap, ◌∙◌, inl, inr, true, false, List, [], ◌∷◌, ◌++◌,
  Option, none, some, Text, length, take, ltb, arith, append_assoc, append-nil, length-append,
  Option-cases, Bool-cases, if_false,
}
use project_viatech_ecids_co.Api3.Http.{
  Read, got, want, failed, find_end, content_length, read_headers, read_body, read_rest,
  read_request,
}
use project_viatech_ecids_co.Api3.Http.Find.{find_end_more, find_end_fits}

-- The bytes that arrive, and that no read fails.
unfoldable pub bytes_of : List Read → Text
bytes_of [] = []
bytes_of (got tmp ∷ es) = tmp ++ bytes_of es
bytes_of (want ∷ es) = bytes_of es
bytes_of (failed ∷ es) = []

unfoldable pub Arrives : List Read → Type 0
Arrives [] = Unit
Arrives (got tmp ∷ es) = Arrives es
Arrives (want ∷ es) = Arrives es
Arrives (failed ∷ es) = ⊥

headers_found :
    (buf tmp : Text) (es : List Read) (k : ℕ)
    → find_end (buf ++ tmp) ≡ some k
    → read_headers buf (got tmp ∷ es) ≡ some (buf ++ tmp, es)
unfolding read_headers
headers_found buf tmp es k e = rw (read_headers, e) refl

headers_open :
    (buf tmp : Text) (es : List Read)
    → find_end (buf ++ tmp) ≡ none
    → read_headers buf (got tmp ∷ es) ≡ read_headers (buf ++ tmp) es
unfolding read_headers
headers_open buf tmp es e = rw (read_headers, e) refl

headers_want : (buf : Text) (es : List Read) → read_headers buf (want ∷ es) ≡ read_headers buf es
unfolding read_headers
headers_want buf es = refl

pub no_end : find_end [] ≡ none
unfolding find_end
no_end = refl

-- What the first loop leaves: the end is found, and no byte is lost.
abbrev pub Found : Text → List Read → ℕ → Type 0
Found buf es k =
    (buf' : Text) × (es' : List Read) × (read_headers buf es ≡ some (buf', es'))
    × (find_end buf' ≡ some k)
    × (buf' ++ bytes_of es' ≡ buf ++ bytes_of es)
    × Arrives es'

pub headers_read :
    (es : List Read) (buf : Text) (k : ℕ)
    → Arrives es
    → find_end buf ≡ none
    → find_end (buf ++ bytes_of es) ≡ some k
    → Found buf es k
unfolding bytes_of Arrives
headers_read [] buf k a n h = ground (arith, append-nil buf)
headers_read (got tmp ∷ es) buf k a n h = elim (Option-cases (find_end (buf ++ tmp))) [
  | inr (j, e) ↦ (
    buf ++ tmp,
    es,
    headers_found buf tmp es j e,
    e
        ∙ sym (find_end_more (buf ++ tmp) (bytes_of es) j e)
        ∙ ap find_end (append_assoc buf tmp (bytes_of es))
        ∙ h,
    append_assoc buf tmp (bytes_of es),
    a,
  )
  | inl e ↦
      let (buf', es', r, f, same, a') =
        headers_read es (buf ++ tmp) k a e (ap find_end (append_assoc buf tmp (bytes_of es)) ∙ h) in
      (buf', es', headers_open buf tmp es e ∙ r, f, same ∙ append_assoc buf tmp (bytes_of es), a')
]
headers_read (want ∷ es) buf k a n h =
    let (buf', es', r, f, same, a') = headers_read es buf k a n h in
    (buf', es', headers_want buf es ∙ r, f, same, a')
headers_read (failed ∷ es) buf k a n h = elim a [ ]

body_done :
    (start len : ℕ) (buf : Text) (e : Read) (es : List Read)
    → ltb (length buf - start) len ≡ false
    → read_body start len buf (e ∷ es) ≡ some buf
unfolding read_body
body_done start len buf e es h = rw (read_body, h) refl

body_got :
    (start len : ℕ) (buf tmp : Text) (es : List Read)
    → ltb (length buf - start) len ≡ true
    → read_body start len buf (got tmp ∷ es) ≡ read_body start len (buf ++ tmp) es
unfolding read_body
body_got start len buf tmp es h = rw (read_body, h) refl

body_want :
    (start len : ℕ) (buf : Text) (es : List Read)
    → ltb (length buf - start) len ≡ true
    → read_body start len buf (want ∷ es) ≡ read_body start len buf es
unfolding read_body
body_want start len buf es h = rw (read_body, h) refl

pub all_there : (buf more : Text) → length (buf ++ more) ≤ length buf → buf ≡ buf ++ more
all_there buf [] h = sym (append-nil buf)
all_there buf (c ∷ more) h = let e = length-append buf (c ∷ more) in ground arith

enough :
    (buf more : Text) (start len : ℕ)
    → start ≤ length buf
    → length (buf ++ more) ≡ start + len
    → ltb (length buf - start) len ≡ false
    → length (buf ++ more) ≤ length buf
enough buf more start len s h done = ground arith

body_end :
    (buf : Text) (start len : ℕ)
    → start ≤ length buf
    → length buf ≡ start + len
    → read_body start len buf [] ≡ some (buf ++ [])
unfolding read_body
body_end buf start len s h =
    if_false (ltb (length buf - start) len) none (some buf) (ground arith)
    ∙ ap some (sym (append-nil buf))

body_read :
    (es : List Read) (buf : Text) (start len : ℕ)
    → Arrives es
    → start ≤ length buf
    → length (buf ++ bytes_of es) ≡ start + len
    → read_body start len buf es ≡ some (buf ++ bytes_of es)
unfolding bytes_of Arrives
body_read [] buf start len a s h = body_end buf start len s (ap length (sym (append-nil buf)) ∙ h)
body_read (got tmp ∷ es) buf start len a s h = elim (Bool-cases (ltb (length buf - start) len)) [
  | inr done ↦
      body_done start len buf (got tmp) es done
      ∙ ap some
          (all_there buf (tmp ++ bytes_of es) (enough buf (tmp ++ bytes_of es) start len s h done))
  | inl short ↦
      let joined = append_assoc buf tmp (bytes_of es) in
      body_got start len buf tmp es short
      ∙ body_read es (buf ++ tmp) start len a (omega (arith, length-append buf tmp))
          (ap length joined ∙ h)
      ∙ ap some joined
]
body_read (want ∷ es) buf start len a s h = elim (Bool-cases (ltb (length buf - start) len)) [
  | inr done ↦
      body_done start len buf want es done
      ∙ ap some (all_there buf (bytes_of es) (enough buf (bytes_of es) start len s h done))
  | inl short ↦ body_want start len buf es short ∙ body_read es buf start len a s h
]
body_read (failed ∷ es) buf start len a s h = elim a [ ]

take_front : (k : ℕ) (xs ys : Text) → k ≤ length xs → take k (xs ++ ys) ≡ take k xs
take_front zero xs ys h = refl
take_front (suc k) [] ys h = ground arith
take_front (suc k) (x ∷ xs) ys h = ap (◌∷◌ x) (take_front k xs ys (omega arith))

rest_read :
    (stoul : Text → Option ℕ) (buf : Text) (es : List Read) (k : ℕ)
    → find_end buf ≡ some k
    → read_rest stoul (buf, es) ≡ read_body (k + 4) (content_length stoul (take k buf)) buf es
unfolding read_rest
rest_read stoul buf es k e = rw (read_rest, e) refl

request_read :
    (stoul : Text → Option ℕ) (buf : Text) (es es' : List Read)
    → read_headers [] es ≡ some (buf, es')
    → read_request stoul es ≡ read_rest stoul (buf, es')
unfolding read_request
request_read stoul buf es es' e = rw (read_request, e) refl

-- A text with headers of which the length is the length of what follows is read whole, whatever the
-- pieces in which it arrives.
pub read_request-whole :
    (stoul : Text → Option ℕ) (es : List Read) (k : ℕ)
    → Arrives es
    → find_end (bytes_of es) ≡ some k
    → k + 4 + content_length stoul (take k (bytes_of es)) ≡ length (bytes_of es)
    → read_request stoul es ≡ some (bytes_of es)
read_request-whole stoul es k a e n =
    let (buf, es', r, f, same, a') = headers_read es [] k a no_end e in
    let fits = find_end_fits buf k f in
    let front = sym (take_front k buf (bytes_of es') (omega arith)) ∙ ap (take k) same in
    let size = ap length same ∙ sym n ∙ ap (λ h. k + 4 + content_length stoul h) (sym front) in
    request_read stoul buf es es' r
    ∙ rest_read stoul buf es' k f
    ∙ body_read es' buf (k + 4) (content_length stoul (take k buf)) a' fits size
    ∙ ap some same
