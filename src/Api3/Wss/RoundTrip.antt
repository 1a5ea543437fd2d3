-- ===== src/Api3/Wss/RoundTrip.antt =====
-- What is sent is what is received.
use Prim.Native.Nat.{bit_xor}
use mathlib.Core.Path.{ap₂}
use project_viatech_ecids_co.Base.{
  ◌-◌, is_empty, if_false, ℕ, zero, suc, ◌+◌, ◌*◌, ◌/◌, ◌%◌, ◌^◌, ◌≤◌, ◌<◌, ◌≡◌, refl, ◌∙◌, sym, ap,
  ◌⊎◌, inl, inr, true, false, List, [], ◌∷◌, ◌++◌, some, arith, ltb, leb, ◌==◌, length, take, drop,
  get_or, All, length-append, take-append, drop-append, Bool-cases, leb→le, append_assoc,
  take-append-drop, ◌≢◌,
}
use project_viatech_ecids_co.Api3.Wss.Bytes.{xor_twice}
use project_viatech_ecids_co.Api3.Wss.{
  byte_at, length_bytes, write_frame, big_endian, unmask, unmasked, put_back, fill, read_payload,
  read_masked, by_length, recv_ws_text,
}

abbrev eight_bytes : ℕ → List ℕ
eight_bytes n =
    byte_at n 7
    ∷ byte_at n 6
    ∷ byte_at n 5
    ∷ byte_at n 4
    ∷ byte_at n 3
    ∷ byte_at n 2
    ∷ byte_at n 1
    ∷ byte_at n 0
    ∷ []

extended_eight : (n : ℕ) → n < 2 ^ 64 → big_endian 0 (eight_bytes n) ≡ n
extended_eight n h = omega arith

extended_two : (n : ℕ) → n < 65536 → big_endian 0 (byte_at n 1 ∷ byte_at n 0 ∷ []) ≡ n
extended_two n h = omega arith

-- The mask bit in the second byte of a frame.
abbrev pub mark : List ℕ → List ℕ
mark [] = []
mark (h ∷ t) = (h + 128) ∷ t

read_short :
    (n : ℕ) (pieces : List (List ℕ))
    → n ≤ 125
    → by_length (n + 128) pieces ≡ some (read_masked true n pieces)
read_short n pieces h =
    let e1 : (n + 128) / 128 % 2 ≡ 1 = omega arith in
    let e2 : (n + 128) % 128 ≡ n = omega arith in rw (e1, e2) (ground arith)

-- A header of `n` bytes with its mask, and what comes with it in one piece, is read as such.
module _ (a b c d : ℕ) (start : List ℕ) (pieces : List (List ℕ)) where
  abbrev behind : List ℕ
  behind = a ∷ b ∷ c ∷ d ∷ start

  abbrev payload_of : ℕ → List ℕ × List (List ℕ)
  payload_of n = read_payload n (a ∷ b ∷ c ∷ d ∷ []) (put_back start pieces)

  short_header :
      (n : ℕ) → n ≤ 125 → recv_ws_text ((0x81 ∷ (n + 128) ∷ behind) ∷ pieces) ≡ some (payload_of n)
  unfolding recv_ws_text
  short_header n h = read_short n (behind ∷ pieces) h

  two_header :
      (x y : ℕ)
      → recv_ws_text ((0x81 ∷ 254 ∷ x ∷ y ∷ behind) ∷ pieces)
        ≡ some (payload_of (big_endian 0 (x ∷ y ∷ [])))
  unfolding recv_ws_text
  two_header x y = refl

  eight_header :
      (s t u v w x y z : ℕ)
      → recv_ws_text ((0x81 ∷ 255 ∷ s ∷ t ∷ u ∷ v ∷ w ∷ x ∷ y ∷ z ∷ behind) ∷ pieces)
        ≡ some (payload_of (big_endian 0 (s ∷ t ∷ u ∷ v ∷ w ∷ x ∷ y ∷ z ∷ [])))
  unfolding recv_ws_text
  eight_header s t u v w x y z = refl

  recv_header :
      (n : ℕ)
      → n < 2 ^ 64
      → recv_ws_text ((0x81 ∷ (mark (length_bytes n) ++ behind)) ∷ pieces) ≡ some (payload_of n)
  unfolding length_bytes
  recv_header n h = elim (Bool-cases (leb n 125)) [
    | inl small ↦ rw small (short_header n (leb→le n 125 small))
    | inr e ↦ elim (Bool-cases (leb n 65535)) [
      | inl medium ↦
          rw (e, medium)
            (two_header (byte_at n 1) (byte_at n 0)
              ∙ ap (λ (k : ℕ). some (payload_of k))
                  (extended_two n (omega (arith, leb→le n 65535 medium))))
      | inr large ↦
          rw (e, large)
            (eight_header (byte_at n 7) (byte_at n 6) (byte_at n 5) (byte_at n 4) (byte_at n 3)
                (byte_at n 2) (byte_at n 1) (byte_at n 0)
              ∙ ap (λ (k : ℕ). some (payload_of k)) (extended_eight n h))
    ]
  ]

get_or_lt : (mask : List ℕ) (i : ℕ) → All (λ m. m < 256) mask → get_or mask i 0 < 256
get_or_lt [] i h = omega arith
get_or_lt (m ∷ mask) zero h = h.0
get_or_lt (m ∷ mask) (suc i) h = get_or_lt mask i h.1

unmask_twice :
    (mask : List ℕ) (i : ℕ) (xs : List ℕ)
    → All (λ m. m < 256) mask
    → All (λ x. x < 256) xs
    → unmask mask i (unmask mask i xs) ≡ xs
unfolding unmask
unmask_twice mask i [] hm hx = refl
unmask_twice mask i (x ∷ xs) hm (h, hx) =
    ap₂ ◌∷◌ (xor_twice x _ h (get_or_lt mask (i % 4) hm)) (unmask_twice mask (suc i) xs hm hx)

length-unmask : (mask : List ℕ) (i : ℕ) (xs : List ℕ) → length (unmask mask i xs) ≡ length xs
unfolding unmask
length-unmask mask i [] = refl
length-unmask mask i (x ∷ xs) = ap suc (length-unmask mask (suc i) xs)

-- All bytes of the pieces.
abbrev pub flat : List (List ℕ) → List ℕ
flat [] = []
flat (piece ∷ pieces) = piece ++ flat pieces

flat-put_back : (s : List ℕ) (pieces : List (List ℕ)) → flat (put_back s pieces) ≡ s ++ flat pieces
flat-put_back [] pieces = refl
flat-put_back (b ∷ bs) pieces = refl

abbrev pub NoneEmpty : List (List ℕ) → Type 0
NoneEmpty pieces = All (λ piece. is_empty piece ≡ false) pieces

NoneEmpty-put_back :
    (s : List ℕ) (pieces : List (List ℕ)) → NoneEmpty pieces → NoneEmpty (put_back s pieces)
NoneEmpty-put_back [] pieces h = h
NoneEmpty-put_back (b ∷ bs) pieces h = (refl, h)

take_front : (n : ℕ) (xs ys : List ℕ) → n ≤ length xs → take n (xs ++ ys) ≡ take n xs
take_front zero xs ys h = refl
take_front (suc n) [] ys h = absurd (omega (arith, h))
take_front (suc n) (x ∷ xs) ys h =
    ap (λ (s : List ℕ). x ∷ s) (take_front n xs ys (omega (arith, h)))

drop_front : (n : ℕ) (xs ys : List ℕ) → n ≤ length xs → drop n (xs ++ ys) ≡ drop n xs ++ ys
drop_front zero xs ys h = refl
drop_front (suc n) [] ys h = absurd (omega (arith, h))
drop_front (suc n) (x ∷ xs) ys h = drop_front n xs ys (omega (arith, h))

take_past :
    (n : ℕ) (xs ys : List ℕ) → length xs ≤ n → take n (xs ++ ys) ≡ xs ++ take (n - length xs) ys
take_past n [] ys h = ap (λ (k : ℕ). take k ys) (omega arith)
take_past zero (x ∷ xs) ys h = absurd (omega (arith, h))
take_past (suc n) (x ∷ xs) ys h =
    let e : suc n - suc (length xs) ≡ n - length xs = omega arith in
    ap (λ (s : List ℕ). x ∷ s) (take_past n xs ys (omega (arith, h)))
    ∙ ap (λ (k : ℕ). x ∷ (xs ++ take k ys)) (sym e)

drop_past : (n : ℕ) (xs ys : List ℕ) → length xs ≤ n → drop n (xs ++ ys) ≡ drop (n - length xs) ys
drop_past n [] ys h = ap (λ (k : ℕ). drop k ys) (omega arith)
drop_past zero (x ∷ xs) ys h = absurd (omega (arith, h))
drop_past (suc n) (x ∷ xs) ys h =
    let e : suc n - suc (length xs) ≡ n - length xs = omega arith in
    drop_past n xs ys (omega (arith, h)) ∙ ap (λ (k : ℕ). drop k ys) (sym e)

fill_here :
    (n b : ℕ) (bs : List ℕ) (pieces : List (List ℕ))
    → leb (suc n) (length (b ∷ bs)) ≡ true
    → fill (suc n) ((b ∷ bs) ∷ pieces)
      ≡ (some (take (suc n) (b ∷ bs)), put_back (drop (suc n) (b ∷ bs)) pieces)
unfolding fill
fill_here n b bs pieces h = rw (fill, h) refl

fill_on :
    (n b : ℕ) (bs : List ℕ) (pieces : List (List ℕ)) (more : List ℕ) (left : List (List ℕ))
    → leb (suc n) (length (b ∷ bs)) ≡ false
    → fill (suc n - length (b ∷ bs)) pieces ≡ (some more, left)
    → fill (suc n) ((b ∷ bs) ∷ pieces) ≡ (some ((b ∷ bs) ++ more), left)
unfolding fill
fill_on n b bs pieces more left h e = rw (fill, h, e) refl

-- The loop gets the bytes that it asks for, in whatever pieces they come.
abbrev Filled : ℕ → List (List ℕ) → Type 0
Filled n pieces =
    (left : List (List ℕ)) × ((fill n pieces ≡ (some (take n (flat pieces)), left))
      × (flat left ≡ drop n (flat pieces)))

fill-flat :
    (n : ℕ) (pieces : List (List ℕ)) → NoneEmpty pieces → n ≤ length (flat pieces) → Filled n pieces
unfolding fill
fill-flat zero pieces h m = (pieces, (refl, refl))
fill-flat (suc n) [] h m = absurd (omega (arith, m))
fill-flat (suc n) ([] ∷ pieces) (h, hs) m = absurd (ground arith)
fill-flat (suc n) ((b ∷ bs) ∷ pieces) (h, hs) m =
    elim (Bool-cases (leb (suc n) (length (b ∷ bs)))) [
      | inl e ↦
          let le = leb→le (suc n) (length (b ∷ bs)) e in
          (
            put_back (drop (suc n) (b ∷ bs)) pieces,
            (
              fill_here n b bs pieces e
                  ∙ ap (λ (s : List ℕ). (some s, put_back (drop (suc n) (b ∷ bs)) pieces))
                      (sym (take_front (suc n) (b ∷ bs) (flat pieces) le)),
              flat-put_back (drop (suc n) (b ∷ bs)) pieces
                  ∙ sym (drop_front (suc n) (b ∷ bs) (flat pieces) le),
            ),
          )
      | inr e ↦
          let le : length (b ∷ bs) ≤ suc n = ground arith in
          let (left, (filled, same)) =
            fill-flat (suc n - length (b ∷ bs)) pieces hs
              (omega (arith, m, length-append (b ∷ bs) (flat pieces))) in
          (
            left,
            (
              fill_on n b bs pieces _ left e filled
                  ∙ ap (λ (s : List ℕ). (some s, left))
                      (sym (take_past (suc n) (b ∷ bs) (flat pieces) le)),
              same ∙ sym (drop_past (suc n) (b ∷ bs) (flat pieces) le),
            ),
          )
    ]

-- The masking as RFC 6455 has it: the four bytes of the mask in turn.
abbrev pub masked : ℕ → ℕ → ℕ → ℕ → List ℕ → List ℕ
masked a b c d [] = []
masked a b c d (x ∷ xs) = bit_xor x a ∷ masked b c d a xs

unmask-masked :
    (m : List ℕ) (i a b c d : ℕ) (xs : List ℕ)
    → get_or m (i % 4) 0 ≡ a
    → get_or m ((i + 1) % 4) 0 ≡ b
    → get_or m ((i + 2) % 4) 0 ≡ c
    → get_or m ((i + 3) % 4) 0 ≡ d
    → unmask m i xs ≡ masked a b c d xs
unfolding unmask
unmask-masked m i a b c d [] ea eb ec ed = refl
unmask-masked m i a b c d (x ∷ xs) ea eb ec ed =
    let at = λ (k : ℕ). get_or m k 0 in
    ap₂ ◌∷◌ (ap (bit_xor x) ea) (
      unmask-masked m (suc i) b c d a xs (ap at (omega arith) ∙ eb) (ap at (omega arith) ∙ ec)
        (ap at (omega arith) ∙ ed) (ap at (omega arith) ∙ ea))

length-masked : (a b c d : ℕ) (xs : List ℕ) → length (masked a b c d xs) ≡ length xs
length-masked a b c d [] = refl
length-masked a b c d (x ∷ xs) = ap suc (length-masked b c d a xs)

-- The header of a frame as RFC 6455 has a client send it: the mask bit, the length and the mask.
abbrev pub client_header : ℕ → ℕ → ℕ → ℕ → ℕ → List ℕ → List ℕ
client_header a b c d n start = 0x81 ∷ (mark (length_bytes n) ++ (a ∷ b ∷ c ∷ d ∷ start))

read_client :
    (a b c d : ℕ) (text rest : List ℕ) (pieces : List (List ℕ))
    → (a < 256) × (b < 256) × (c < 256) × (d < 256)
    → All (λ x. x < 256) text
    → length text ≤ 1024 * 1024
    → NoneEmpty pieces
    → flat pieces ≡ masked a b c d text ++ rest
    → (left : List (List ℕ)) × ((read_payload (length text) (a ∷ b ∷ c ∷ d ∷ []) pieces
          ≡ (text, left))
        × (flat left ≡ rest))
read_client a b c d text rest pieces hm hx h none_empty same =
    let mask : List ℕ = a ∷ b ∷ c ∷ d ∷ [] in
    let n = length text in
    let fits : ltb (1024 * 1024) n ≡ false = ground arith in
    let len = length-masked a b c d text in
    let long : n ≤ length (flat pieces) =
      omega (arith, ap length same, length-append (masked a b c d text) rest, len) in
    let (left, (filled, after)) = fill-flat n pieces none_empty long in
    let got : take n (flat pieces) ≡ masked a b c d text =
      ap (take n) same
      ∙ ap (λ (k : ℕ). take k (masked a b c d text ++ rest)) (sym len)
      ∙ take-append (masked a b c d text) rest in
    let behind : drop n (flat pieces) ≡ rest =
      ap (drop n) same
      ∙ ap (λ (k : ℕ). drop k (masked a b c d text ++ rest)) (sym len)
      ∙ drop-append (masked a b c d text) rest in
    let plain : unmask mask 0 (masked a b c d text) ≡ text =
      ap (unmask mask 0) (sym (unmask-masked mask 0 a b c d text refl refl refl refl))
      ∙ unmask_twice mask 0 text (hm.0, (hm.1, (hm.2, (hm.3, tt)))) hx in
    (
      left,
      (
        if_false (ltb (1024 * 1024) n) _ _ fits
            ∙ ap (unmasked mask) filled
            ∙ ap (λ (s : List ℕ). (unmask mask 0 s, left)) got
            ∙ ap (λ (s : List ℕ). (s, left)) plain,
        after ∙ behind,
      ),
    )

-- A masked text frame of a client, of which the header with its mask comes in one piece, alone or with what
-- follows, and the rest in whatever pieces: the server reads its text, whatever the mask of four bytes, for
-- every text of bytes up to a mebibyte, and leaves what follows the frame.
pub recv_ws_text-client_frame :
    (a b c d : ℕ) (text rest start : List ℕ) (pieces : List (List ℕ))
    → (a < 256) × (b < 256) × (c < 256) × (d < 256)
    → All (λ x. x < 256) text
    → length text ≤ 1024 * 1024
    → NoneEmpty pieces
    → start ++ flat pieces ≡ masked a b c d text ++ rest
    → (left : List (List ℕ)) × ((recv_ws_text (client_header a b c d (length text) start ∷ pieces)
          ≡ some (text, left))
        × (flat left ≡ rest))
recv_ws_text-client_frame a b c d text rest start pieces hm hx h none_empty same =
    let (left, (read, after)) =
      read_client a b c d text rest (put_back start pieces) hm hx h
        (NoneEmpty-put_back start pieces none_empty) (flat-put_back start pieces ∙ same) in
    (left, (recv_header a b c d start pieces (length text) (omega arith) ∙ ap some read, after))

-- What goes out of a frame is a front part of it, and the result is `true` exactly if all of it did,
-- however the library splits the writes.
pub write_frame_lem :
    (returns bytes : List ℕ)
    → (rest : List ℕ) × ((write_frame returns bytes).0 ++ rest ≡ bytes)
      × ((((write_frame returns bytes).1 ≡ some true) × (rest ≡ []))
          ⊎ (((write_frame returns bytes).1 ≢ some true) × (rest ≢ [])))
unfolding write_frame
write_frame_lem returns [] = ([], refl, inl (refl, refl))
write_frame_lem [] (b ∷ bs) = (b ∷ bs, refl, inr (ground arith, ground arith))
write_frame_lem (n ∷ more) (b ∷ bs) = elim (Bool-cases (n == 0)) [
  | inl zero_ ↦ rw zero_ (b ∷ bs, refl, inr (ground arith, ground arith))
  | inr some_ ↦
      let (rest, e, end) = write_frame_lem more (drop n (b ∷ bs)) in
      rw some_ (
        rest,
        append_assoc (take n (b ∷ bs)) _ rest
            ∙ ap (◌++◌ (take n (b ∷ bs))) e
            ∙ take-append-drop n (b ∷ bs),
        end,
      )
]
