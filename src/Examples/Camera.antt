-- ===== src/Examples/Camera.antt =====
-- Runs of src/api1/DataSubscriber.cpp, of the subscriber's callback in src/main.cpp, and of
-- src/data/ImageEncoder.cpp.
use project_viatech_ecids_co.Base.{
  ℕ, zero, suc, take, keep, map, ◌*◌, ◌≡◌, refl, true, false, inr, String, str_eq, List, [], ◌∷◌,
  Option, assign, none, some, if◌then◌else◌, ◌==◌,
}
use project_viatech_ecids_co.Data.Buffer.{
  StereoPair, put, put_stereo, enqueue_inspection, new_buffer, try_get_stereo_pair, channel_names,
  inspection_queue_size,
}
use project_viatech_ecids_co.Data.Recent.{latest}
use project_viatech_ecids_co.Data.Encoder.{EncodeRequest, encode}
use project_viatech_ecids_co.Data.Encoder.Images.{
  encoder_with, enqueue_all, has_data, given, after_turns, turns-enqueue_all,
}
use project_viatech_ecids_co.Api1.Subscriber.{HeaderJson}
use project_viatech_ecids_co.Api1.Frames.{LiveImage, live_image, buffer_frame}
use project_viatech_ecids_co.Api1.Frames.Stereo.{Message, receive, receive-no_pair}
use project_viatech_ecids_co.Api1.Frames.Live.{LiveOf, live_image-LiveOf}

-- A header names the side: 1 is left, and all else right.
abbrev side_of : List ℕ → Option String
side_of [] = none
side_of (brace ∷ []) = none
side_of (brace ∷ side ∷ rest) =
    if brace == 123 then some (if side == 1 then "left" else "right") else none

abbrev headers : HeaderJson
headers = record {
  J = String;
  parse = side_of;
  is_object = λ j. true;
  number = λ j key. inr (if str_eq key "pair_id" then 7 else 0);
  text = λ j key def. inr (if str_eq key "part" then j else def);
  parts = λ j. none;
}

abbrev first_key : List (ℕ × StereoPair) → ℕ
first_key [] = 0
first_key ((k, p) ∷ pairs) = k

abbrev messages : List Message
messages =
    ("stereo_image", false, (123 ∷ 1 ∷ []) ∷ (10 ∷ []) ∷ [])
    ∷ ("stereo_image", false, (123 ∷ 2 ∷ []) ∷ (20 ∷ []) ∷ [])
    ∷ ("stereo_image", false, (5 ∷ []) ∷ (30 ∷ []) ∷ [])
    ∷ []

receive-no_pair_example :
    let b = receive first_key headers (new_buffer 30) messages in
    try_get_stereo_pair b 7 ≡ (none, b)
receive-no_pair_example = receive-no_pair first_key headers 30 messages 7

named_by_side :
    channel_names (receive first_key headers (new_buffer 30) messages)
    ≡ "left" ∷ "right" ∷ "stereo_image" ∷ []
unfolding channel_names receive buffer_frame enqueue_inspection put_stereo put assign
named_by_side = refl

one_queued : inspection_queue_size (receive first_key headers (new_buffer 30) messages) ≡ 1
unfolding inspection_queue_size receive buffer_frame enqueue_inspection put_stereo put
one_queued = refl

live_image-LiveOf_example : LiveOf (1 ∷ 2 ∷ 3 ∷ 4 ∷ []) (live_image (1 ∷ 2 ∷ 3 ∷ 4 ∷ []))
live_image-LiveOf_example = live_image-LiveOf (1 ∷ 2 ∷ 3 ∷ 4 ∷ [])

-- A compression that says the size and the first byte.
abbrev compress : List ℕ → ℕ → ℕ → Option (List ℕ)
compress raw w h = some (w ∷ h ∷ take 1 raw)

abbrev grey : ℕ → List ℕ
grey zero = []
grey (suc n) = 128 ∷ grey n

abbrev row : LiveImage
row = record { raw = take (1920 * 1 * 4) (grey 7680); width = 1920; height = 1 }

row_shown : live_image (grey 7680) ≡ some row
unfolding live_image
row_shown = refl

abbrev image : ℕ → EncodeRequest
image w = record {
  raw_data = 1 ∷ 2 ∷ 3 ∷ 4 ∷ [];
  width = w;
  height = 1;
  topic = "core/live_image";
  header_json = "";
}

abbrev images : List EncodeRequest
images = image 1 ∷ image 2 ∷ image 0 ∷ image 1 ∷ image 3 ∷ image 1 ∷ image 1 ∷ []

turns-enqueue_all_example :
    after_turns compress (enqueue_all (encoder_with []) images)
    ≡ some (encoder_with [], given (map (encode compress) (latest 5 (keep has_data images))))
turns-enqueue_all_example = turns-enqueue_all compress images
