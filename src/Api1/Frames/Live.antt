-- ===== src/Api1/Frames/Live.antt =====
-- src/main.cpp: the live image is the upper part of the frame, and lies in it.
use project_viatech_ecids_co.Base.{
  ℕ, ◌*◌, ◌/◌, ◌%◌, ◌^◌, ◌≤◌, ◌<◌, ◌≡◌, ◌≢◌, refl, subst, Bool, true, false, ◌&&◌, List, ◌++◌,
  Option, none, some, if◌then◌else◌, ltb, leb, ◌==◌, length, take, drop, length-take,
  take-append-drop, arith,
}
use project_viatech_ecids_co.Api1.Frames.{LiveImage, live_image, live_request}
use project_viatech_ecids_co.Data.Encoder.{encode, result_of}
use project_viatech_ecids_co.Data.Encoder.Images.{encode_given}

-- The image has whole rows of four bytes for each pixel, and the frame begins with it.
abbrev pub Shows : List ℕ → LiveImage → Type 0
Shows raw img =
    (length img.raw ≡ img.width * img.height * 4)
    × ((img.width ≡ 1920) × ((0 < img.height) × ((rest : List ℕ) × (img.raw ++ rest ≡ raw))))

abbrev pub LiveOf : List ℕ → Option LiveImage → Type 0
LiveOf raw none = (k : ℕ) → 0 < k → k < 2 ^ 31 → length raw ≢ 1920 * k * 4
LiveOf raw (some img) = Shows raw img

live_if :
    (c : Bool) (raw : List ℕ) (img : LiveImage)
    → (c ≡ true → Shows raw img)
    → (c ≡ false → LiveOf raw none)
    → LiveOf raw (if c then some img else none)
live_if true raw img h k = h refl
live_if false raw img h k = k refl

abbrev rows : ℕ → ℕ
rows size = (size / (1920 * 4)) % 2 ^ 32

abbrev upper : ℕ → ℕ
upper h = if leb 2400 h then h / 2 else h

abbrev has_rows : ℕ → Bool
has_rows size =
    ltb 0 size
    && (size % 4 == 0)
    && ltb 0 (rows size)
    && ltb (rows size) (2 ^ 31)
    && (1920 * rows size * 4 == size)

upper_bounds : (h : ℕ) → 0 < h → (0 < upper h) × (upper h ≤ h)
upper_bounds h p = (ground arith, ground arith)

has_rows-true : (size : ℕ) → has_rows size ≡ true → (0 < rows size) × (1920 * rows size * 4 ≡ size)
has_rows-true size h = (ground arith, ground arith)

has_rows-false : (size k : ℕ) → has_rows size ≡ false → 0 < k → k < 2 ^ 31 → size ≢ 1920 * k * 4
has_rows-false size k h p q e = let whole : rows size ≡ k = omega arith in ground arith

upper-Shows :
    (raw : List ℕ) (h : ℕ)
    → 0 < h
    → 1920 * h * 4 ≡ length raw
    → Shows raw (record { raw = take (1920 * upper h * 4) raw; width = 1920; height = upper h })
upper-Shows raw h p e =
    let (low, high) = upper_bounds h p in
    (
      length-take (1920 * upper h * 4) raw (omega arith),
      (refl, (low, (drop (1920 * upper h * 4) raw, take-append-drop (1920 * upper h * 4) raw))),
    )

-- A frame of whole rows of 1920 pixels, at least one and fewer than 2^31, has a live image. A live image is
-- not empty, has whole rows, and is what its frame begins with.
pub live_image-LiveOf : (raw : List ℕ) → LiveOf raw (live_image raw)
unfolding live_image
live_image-LiveOf raw =
    live_if (has_rows (length raw)) raw _
      (λ c. let (p, e) = has_rows-true (length raw) c in upper-Shows raw (rows (length raw)) p e)
      (λ c k. has_rows-false (length raw) k c)

-- Every live image passes the encoder's test of its size: it is handed to the JPEG library whole, with its
-- own width and height, whatever frame it is of.
encode-live_image :
    (compress : List ℕ → ℕ → ℕ → Option (List ℕ)) (raw : List ℕ) (img : LiveImage)
    → live_image raw ≡ some img
    → encode compress (live_request img)
      ≡ result_of (live_request img) (compress img.raw img.width img.height)
encode-live_image compress raw img e =
    let (len, (wide, (high, rest))) = subst (LiveOf raw) e (live_image-LiveOf raw) in
    encode_given compress (live_request img) (omega (arith, wide)) high (omega (arith, len))
