-- ===== src/Data/Encoder.antt =====
-- src/data/ImageEncoder.cpp: the queue of images in front of the encoder, and what a turn of its thread
-- makes of the first one. The JPEG library is an argument: `none` where it fails or gives nothing. A width
-- or a height below one is 0.
use project_viatech_ecids_co.Base.{
  ℕ, ◌*◌, ◌/◌, ◌%◌, ◌^◌, Bool, true, false, not, ◌&&◌, ◌||◌, String, List, [], ◌∷◌, Option, none,
  some, if◌then◌else◌, ltb, ◌==◌, length, is_empty,
}
use project_viatech_ecids_co.Data.Recent.{push_recent}
pub mod Images

pub record EncodeRequest : Type 0 where
  pub raw_data : List ℕ
  pub width : ℕ
  pub height : ℕ
  pub topic : String
  pub header_json : String

pub record EncodeResult : Type 0 where
  pub jpg_data : List ℕ
  pub topic : String
  pub header_json : String

pub record ImageEncoder : Type 0 where
  pub running : Bool
  pub queue : List EncodeRequest

abbrev pub max_queue : ℕ
max_queue = 5

unfoldable pub start : ImageEncoder → ImageEncoder
start e = record e { running = true }

-- What is queued stays.
unfoldable pub stop : ImageEncoder → ImageEncoder
stop e = record e { running = false }

abbrev with_images : ImageEncoder → Option (List EncodeRequest) → Option ImageEncoder
with_images e none = none
with_images e (some q) = some (record e { queue = q })

unfoldable pub enqueue : ImageEncoder → List ℕ → ℕ → ℕ → String → String → Option ImageEncoder
enqueue e raw width height topic header_json =
    if not e.running || is_empty raw
    then some e
    else with_images e (
        push_recent max_queue e.queue (record {
          raw_data = raw;
          width = width;
          height = height;
          topic = topic;
          header_json = header_json;
        }))

-- Of whole pixels: a width of 1920, and the height as an `int`.
abbrev guessed : ℕ → ℕ → ℕ → ℕ × ℕ
guessed size width height =
    let h : ℕ = (size / (1920 * 4)) % 2 ^ 32 in
    if size % 4 == 0 then (1920, if ltb h (2 ^ 31) then h else 0) else (width, height)

unfoldable pub size_of : EncodeRequest → ℕ × ℕ
size_of req =
    if ltb 0 req.width && ltb 0 req.height
    then (req.width, req.height)
    else guessed (length req.raw_data) req.width req.height

abbrev pub result_of : EncodeRequest → Option (List ℕ) → Option EncodeResult
result_of req none = none
result_of req (some jpg) =
    some (record { jpg_data = jpg; topic = req.topic; header_json = req.header_json })

module _ (compress : List ℕ → ℕ → ℕ → Option (List ℕ)) where
  abbrev pub encode_at : EncodeRequest → ℕ × ℕ → Option EncodeResult
  encode_at req (w, h) =
      if not (ltb 0 w) || not (ltb 0 h) || ltb (length req.raw_data) (w * h * 4)
      then none
      else result_of req (compress req.raw_data w h)

  unfoldable pub encode : EncodeRequest → Option EncodeResult
  unfolding size_of
  encode req = encode_at req (size_of req)

  abbrev first_image : ImageEncoder → List EncodeRequest → ImageEncoder × Option EncodeResult
  first_image e [] = (e, none)
  first_image e (req ∷ q) = (record e { queue = q }, encode req)

  -- A turn of the loop: the image it hands to the callback, if any.
  unfoldable pub encode_loop : ImageEncoder → ImageEncoder × Option EncodeResult
  encode_loop e = if e.running then first_image e e.queue else (e, none)
