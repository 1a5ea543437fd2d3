-- ===== src/Api3/Wss/Handshake/Keys.antt =====
-- WSSServer.cpp: the key that is read of the lines of an upgrade request.
use project_viatech_ecids_co.Base.{
  ℕ, ◌+◌, ◌≡◌, refl, ap, ◌∙◌, inl, inr, Bool, true, false, ◌&&◌, ◌||◌, List, [], ◌∷◌, ◌++◌, Option,
  none, some, Text, codes, if◌then◌else◌, ◌==◌, drop, is_empty, All, All-append, arith, if_false,
  Bool-cases,
}
use project_viatech_ecids_co.Api3.Http.{find, starts, one_on, drop_blanks}
use project_viatech_ecids_co.Api3.Http.Find.{Without}
use project_viatech_ecids_co.Api3.Http.Parse.{ends, message, IsLine}
use project_viatech_ecids_co.Api3.Wss.Handshake.{
  has, either, key_name, key_pos, lines_of, strip_end, ws_key,
}

starts_self : (needle s : Text) → starts needle (needle ++ s) ≡ true
starts_self [] s = refl
starts_self (c ∷ needle) s =
    let e : (c == c) ≡ true = ground arith in rw (e, starts_self needle s) refl

has_later : (needle s : Text) (c : ℕ) → has needle s ≡ true → has needle (c ∷ s) ≡ true
unfolding find
has_later needle s c h = elim (Bool-cases (starts needle (c ∷ s))) [
  | inl e ↦ rw (has, find, e) refl
  | inr e ↦ rw (has, find, e) (later (find needle s) h)
]
  where
    later :
        (o : Option ℕ)
        → (elim o [ none ↦ false | some k ↦ true ]) ≡ true
        → (elim (one_on o) [ none ↦ false | some k ↦ true ]) ≡ true
    later none h = h
    later (some k) h = refl

-- A text is found in every text that has it.
pub has_inside : (c : ℕ) (needle p q : Text) → has (c ∷ needle) (p ++ ((c ∷ needle) ++ q)) ≡ true
unfolding find
has_inside c needle [] q = rw (has, find, starts_self (c ∷ needle) q) refl
has_inside c needle (x ∷ p) q =
    has_later (c ∷ needle) (p ++ ((c ∷ needle) ++ q)) x (has_inside c needle p q)

-- What a client sends as a key: not empty, with no blank at the front and no line end.
abbrev pub IsKey : Text → Type 0
IsKey [] = ⊥
IsKey (c ∷ s) = ((c == 32 || c == 9) ≡ false) × (Without 13 (c ∷ s) × Without 10 (c ∷ s))

abbrev pub key_line : Text → Text
key_line key = key_name ++ 32 ∷ key

-- No byte of the name is a line end.
pub key_line-Without : (key : Text) → Without 10 key → Without 10 (key_line key)
key_line-Without key w = All-append _ key_name (32 ∷ key) name (refl, w)
  where
    name : Without 10 key_name
    name = (
      refl,
      (
        refl,
        (
          refl,
          (
            refl,
            (
              refl,
              (
                refl,
                (
                  refl,
                  (
                    refl,
                    (
                      refl,
                      (refl, (refl, (refl, (refl, (refl, (refl, (refl, (refl, (refl, tt))))))))),
                    ),
                  ),
                ),
              ),
            ),
          ),
        ),
      ),
    )

pub IsKey-no_line_end : (key : Text) → IsKey key → Without 13 key × Without 10 key
IsKey-no_line_end [] h = elim h [ ]
IsKey-no_line_end (c ∷ s) (b, w) = w

pub key_line-IsLine : (key : Text) → Without 13 key → IsLine (key_line key)
key_line-IsLine key w = All-append _ key_name (32 ∷ key) name (refl, w)
  where
    name : Without 13 key_name
    name = (
      refl,
      (
        refl,
        (
          refl,
          (
            refl,
            (
              refl,
              (
                refl,
                (
                  refl,
                  (
                    refl,
                    (
                      refl,
                      (refl, (refl, (refl, (refl, (refl, (refl, (refl, (refl, (refl, tt))))))))),
                    ),
                  ),
                ),
              ),
            ),
          ),
        ),
      ),
    )

-- A line in which no spelling of the key's name is found.
abbrev pub NoKey : Text → Type 0
NoKey l = key_pos (l ++ 13 ∷ []) ≡ none

strip_end_line : (s : Text) → Without 13 s → Without 10 s → strip_end (s ++ 13 ∷ []) ≡ s
strip_end_line [] w v = refl
strip_end_line (c ∷ s) (e, w) (f, v) =
    let g : (c == 13 || c == 10) ≡ false = ground arith in
    rw (strip_end_line s w v, g) (keep (is_empty s))
  where
    keep : (b : Bool) → (if b && false then [] else c ∷ s) ≡ c ∷ s
    keep true = refl
    keep false = refl

find_start : (c : ℕ) (needle s : Text) → find (c ∷ needle) ((c ∷ needle) ++ s) ≡ some 0
unfolding find
find_start c needle s = rw (find, starts_self (c ∷ needle) s) refl

key_pos-key_line : (s : Text) → key_pos (key_name ++ s) ≡ some 0
unfolding key_pos
key_pos-key_line s =
    ap (λ (o : Option ℕ). either o (find (codes "sec-websocket-key:") (key_name ++ s)))
      (find_start 83 (codes "ec-WebSocket-Key:") s)

ws_key_at :
    (line : Text) (ls : List Text) (pos : ℕ)
    → key_pos line ≡ some pos
    → ws_key (line ∷ ls) ≡ strip_end (drop_blanks (drop (pos + 18) line))
unfolding ws_key
ws_key_at line ls pos h = rw (ws_key, h) refl

ws_key_here :
    (key : Text) (ls : List Text) → IsKey key → ws_key ((key_line key ++ 13 ∷ []) ∷ ls) ≡ key
ws_key_here [] ls h = elim h [ ]
ws_key_here (c ∷ s) ls (b, (w, v)) =
    ws_key_at (key_line (c ∷ s) ++ 13 ∷ []) ls 0 (key_pos-key_line (32 ∷ ((c ∷ s) ++ 13 ∷ [])))
    ∙ ap strip_end
        (if_false (c == 32 || c == 9) (drop_blanks (s ++ 13 ∷ [])) (c ∷ (s ++ 13 ∷ [])) b)
    ∙ strip_end_line (c ∷ s) w v

ws_key_skip : (l : Text) (ls : List Text) → NoKey l → ws_key ((l ++ 13 ∷ []) ∷ ls) ≡ ws_key ls
unfolding ws_key
ws_key_skip l ls h = rw (ws_key, h) refl

lines_of-line :
    (l s : Text) → Without 10 l → lines_of (l ++ 13 ∷ 10 ∷ s) ≡ (l ++ 13 ∷ []) ∷ lines_of s
lines_of-line [] s w = refl
lines_of-line (c ∷ l) s (e, w) =
    let f : (c == 10) ≡ false = ground arith in rw (f, lines_of-line l s w) refl

-- Behind a line its end comes, and something more.
ends_line : (l : Text) (ls : List Text) → (s : Text) × (message l ls [] ≡ l ++ 13 ∷ 10 ∷ s)
unfolding ends
ends_line l [] = (13 ∷ 10 ∷ [], refl)
ends_line l (x ∷ ls) = (x ++ ends ls [], refl)

pub ws_key-message :
    (first : Text) (before after : List Text) (key : Text)
    → All NoKey (first ∷ before)
    → All (Without 10) (first ∷ before)
    → IsKey key
    → ws_key (lines_of (message first (before ++ key_line key ∷ after) [])) ≡ key
unfolding ends
ws_key-message first [] after key (n, ns) (w, ws) k =
    let v = key_line-Without key (IsKey-no_line_end key k).1 in
    let (s, e) = ends_line (key_line key) after in
    ap ws_key (lines_of-line first (message (key_line key) after []) w)
    ∙ ws_key_skip first (lines_of (message (key_line key) after [])) n
    ∙ ap (λ t. ws_key (lines_of t)) e
    ∙ ap ws_key (lines_of-line (key_line key) s v)
    ∙ ws_key_here key (lines_of s) k
ws_key-message first (l ∷ before) after key (n, ns) (w, ws) k =
    ap ws_key (lines_of-line first (message l (before ++ key_line key ∷ after) []) w)
    ∙ ws_key_skip first (lines_of (message l (before ++ key_line key ∷ after) [])) n
    ∙ ws_key-message l before after key ns ws k
