-- ===== src/Api3/Wss.antt =====
-- src/api3/WSSServer.cpp: WebSocket frames and the topics of the clients. Bytes are numbers below
-- 256. The TLS library is a parameter: what it delivers is a list of pieces, and what each write accepts is
-- given by a list.
pub mod Bytes
pub mod RoundTrip
pub mod Topics
pub mod Clients
pub mod Handshake
use Prim.Native.Nat.{bit_xor}
use project_viatech_ecids_co.Base.{
  ℕ, zero, suc, ◌+◌, ◌-◌, ◌*◌, ◌/◌, ◌%◌, ◌^◌, Bool, true, false, List, [], ◌∷◌, ◌++◌, Option, none,
  some, ltb, leb, ◌==◌, if◌then◌else◌, length, take, drop, get_or, is_empty,
}

-- `(len >> (8 * i)) & 0xFF`
abbrev pub byte_at : ℕ → ℕ → ℕ
byte_at len i = len / 2 ^ (8 * i) % 256

-- The second byte of a frame with no mask, and the extended length.
unfoldable pub length_bytes : ℕ → List ℕ
length_bytes len =
    if leb len 125
    then len ∷ []
    else if leb len 65535
    then 126 ∷ byte_at len 1 ∷ byte_at len 0 ∷ []
    else 127
      ∷ byte_at len 7
      ∷ byte_at len 6
      ∷ byte_at len 5
      ∷ byte_at len 4
      ∷ byte_at len 3
      ∷ byte_at len 2
      ∷ byte_at len 1
      ∷ byte_at len 0
      ∷ []

-- FIN and the text opcode.
unfoldable pub text_frame : List ℕ → List ℕ
text_frame text = 0x81 ∷ (length_bytes (length text) ++ text)

-- FIN and the binary opcode.
unfoldable pub binary_frame : List ℕ → List ℕ
binary_frame bytes = 0x82 ∷ (length_bytes (length bytes) ++ bytes)

-- The loop that writes a frame. Each entry is what one `SSL_write` returns: it accepts so many of the
-- bytes that are left, at most all, and 0 stands for an error. The result is what went out, and the
-- function's result; with no entry left the loop still waits, and nothing more goes out.
unfoldable pub write_frame : List ℕ → List ℕ → List ℕ × Option Bool
write_frame returns [] = ([], some true)
write_frame [] (b ∷ bs) = ([], none)
write_frame (n ∷ more) (b ∷ bs) =
    let (out, ok) = write_frame more (drop n (b ∷ bs)) in
    if n == 0 then ([], some false) else (take n (b ∷ bs) ++ out, ok)

-- `payload_len = (payload_len << 8) | ext[i]`, for each byte in turn
abbrev pub big_endian : ℕ → List ℕ → ℕ
big_endian n [] = n
big_endian n (b ∷ bs) = big_endian (n * 256 + b) bs

-- `payload[i] ^= mask[i % 4]`, from position `i` on
unfoldable pub unmask : List ℕ → ℕ → List ℕ → List ℕ
unmask mask i [] = []
unmask mask i (b ∷ bs) = bit_xor b (get_or mask (i % 4) 0) ∷ unmask mask (suc i) bs

-- The pieces in which bytes arrive: a read takes of the first one alone what it asks for, and leaves the
-- rest of it. A read of an empty piece, or of none, gets nothing, and fails.
abbrev pub put_back : List ℕ → List (List ℕ) → List (List ℕ)
put_back [] pieces = pieces
put_back (b ∷ bs) pieces = (b ∷ bs) ∷ pieces

abbrev pub ssl_read : ℕ → List (List ℕ) → List ℕ × List (List ℕ)
ssl_read n [] = ([], [])
ssl_read n (piece ∷ pieces) = (take n piece, put_back (drop n piece) pieces)

-- The loop that reads the payload; `none` where a read fails.
unfoldable pub fill : ℕ → List (List ℕ) → Option (List ℕ) × List (List ℕ)
fill zero pieces = (some [], pieces)
fill (suc n) [] = (none, [])
fill (suc n) ([] ∷ pieces) = (none, pieces)
fill (suc n) ((b ∷ bs) ∷ pieces) =
    let (more, left) = fill (suc n - length (b ∷ bs)) pieces in
    if leb (suc n) (length (b ∷ bs))
    then (some (take (suc n) (b ∷ bs)), put_back (drop (suc n) (b ∷ bs)) pieces)
    else (elim more [ none ↦ none | some bytes ↦ some ((b ∷ bs) ++ bytes) ], left)

abbrev pub unmasked : List ℕ → Option (List ℕ) × List (List ℕ) → List ℕ × List (List ℕ)
unmasked mask (none, pieces) = ([], pieces)
unmasked mask (some payload, pieces) = (unmask mask 0 payload, pieces)

-- The payload of a frame whose length and mask are known, and what is left. The empty text stands for a
-- failure too: a frame over a mebibyte, of which nothing is read, and one cut short.
abbrev pub read_payload : ℕ → List ℕ → List (List ℕ) → List ℕ × List (List ℕ)
read_payload len mask pieces =
    if ltb (1024 * 1024) len then ([], pieces) else unmasked mask (fill len pieces)

-- The mask is read only if the frame has one, by one read whose result is not looked at: its bytes that
-- did not come stay 0, as `get_or` has them in `unmask`.
abbrev pub read_masked : Bool → ℕ → List (List ℕ) → List ℕ × List (List ℕ)
read_masked true len pieces = let (mask, left) = ssl_read 4 pieces in read_payload len mask left
read_masked false len pieces = read_payload len (0 ∷ 0 ∷ 0 ∷ 0 ∷ []) pieces

-- With an extended length of `k` bytes, by one read. The code does not test that it got them all: `none`
-- is the use of bytes that were never set.
abbrev pub extended : ℕ → Bool → List (List ℕ) → Option (List ℕ × List (List ℕ))
extended k masked pieces =
    let (ext, left) = ssl_read k pieces in
    if ltb (length ext) k then none else some (read_masked masked (big_endian 0 ext) left)

-- By the second byte of the header. The opcode is not looked at.
abbrev pub by_length : ℕ → List (List ℕ) → Option (List ℕ × List (List ℕ))
by_length h pieces =
    let masked = h / 128 % 2 == 1 in
    if h % 128 == 126
    then extended 2 masked pieces
    else if h % 128 == 127
    then extended 8 masked pieces
    else some (read_masked masked (h % 128) pieces)

-- A header of which less than two bytes came is a failure.
abbrev pub by_header : List ℕ → List (List ℕ) → Option (List ℕ × List (List ℕ))
by_header [] pieces = some ([], pieces)
by_header (h ∷ []) pieces = some ([], pieces)
by_header (h ∷ h' ∷ more) pieces = by_length h' pieces

unfoldable pub recv_ws_text : List (List ℕ) → Option (List ℕ × List (List ℕ))
unfolding unmask fill
recv_ws_text pieces = let (hdr, left) = ssl_read 2 pieces in by_header hdr left
