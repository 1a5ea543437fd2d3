-- ===== src/Api3/Wss/Bytes.antt =====
-- The exclusive or of two bytes, for the masks of src/api3/WSSServer.cpp.
use Prim.Native.Nat.{bit_xor}
use project_viatech_ecids_co.Base.{
  ℕ, zero, suc, ◌+◌, ◌≤◌, ◌<◌, ◌≡◌, refl, inl, inr, Bool, true, ◌&&◌, arith, ◌==◌, ==_iff,
  Bool-cases,
}

-- The test holds of `count` numbers, from `start` on.
passes : ℕ → ℕ → (ℕ → Bool) → Bool
passes start zero test = true
passes start (suc count) test = test start && passes (suc start) count test

passes-holds :
    (start count : ℕ) (test : ℕ → Bool) (x : ℕ)
    → passes start count test ≡ true
    → start ≤ x
    → x < start + count
    → test x ≡ true
unfolding passes
passes-holds start zero test x h low high = absurd (omega arith)
passes-holds start (suc count) test x h low high = elim (Bool-cases (start == x)) [
  | inl same ↦ ground (arith, (==_iff start x).0 same)
  | inr other ↦ ground (arith, passes-holds (suc start) count test x)
]

-- Of two bytes, by trying them all.
unmasks : ℕ → ℕ → Bool
unmasks mask byte = bit_xor (bit_xor byte mask) mask == byte

every_byte_unmasks : passes 0 256 (λ mask. passes 0 256 (unmasks mask)) ≡ true
unfolding passes unmasks
every_byte_unmasks = refl

pub xor_twice : (x m : ℕ) → x < 256 → m < 256 → bit_xor (bit_xor x m) m ≡ x
unfolding unmasks
xor_twice x m hx hm =
    let row : passes 0 256 (unmasks m) ≡ true =
      passes-holds 0 256 (λ mask. passes 0 256 (unmasks mask)) m every_byte_unmasks (omega arith)
        hm in
    (==_iff _ x).0 (passes-holds 0 256 (unmasks m) x row (omega arith) hx)

plain_byte : ℕ → Bool
plain_byte byte = bit_xor byte 0 == byte

every_byte_plain : passes 0 256 plain_byte ≡ true
unfolding passes plain_byte
every_byte_plain = refl

pub xor_zero : (x : ℕ) → x < 256 → bit_xor x 0 ≡ x
unfolding plain_byte
xor_zero x h = (==_iff _ x).0 (passes-holds 0 256 plain_byte x every_byte_plain (omega arith) h)
