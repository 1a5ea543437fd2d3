-- ===== src/Api1/Frames.antt =====
-- src/main.cpp: the callback of the camera's subscriber: the frames go to the buffer, and the live image
-- to the publisher and the encoder. The steady clock counts milliseconds.
use project_viatech_ecids_co.Base.{
  ℕ, ◌+◌, ◌-◌, ◌*◌, ◌/◌, ◌%◌, ◌^◌, Bool, true, false, not, ◌&&◌, ◌||◌, String, str_eq, List, [],
  ◌∷◌, ◌++◌, Option, none, some, if◌then◌else◌, ltb, leb, ◌==◌, length, take,
}
use project_viatech_ecids_co.Common.Frames.{DataBundle}
use project_viatech_ecids_co.Data.Buffer.{
  DataBuffer, StereoPair, put, put_stereo, enqueue_inspection, enqueue_depth,
}
use project_viatech_ecids_co.Data.Encoder.{EncodeRequest}
pub mod Live
pub mod Stereo

-- A BGRA image: what is published, and encoded with this width and height.
pub record LiveImage : Type 0 where
  pub raw : List ℕ
  pub width : ℕ
  pub height : ℕ

-- What the encoder is asked for.
abbrev pub live_request : LiveImage → EncodeRequest
live_request img = record {
  raw_data = img.raw;
  width = img.width;
  height = img.height;
  topic = "core/live_image";
  header_json = "{\"camera\":\"L\"}";
}

-- The buffer, and the time of the last live image: a `static` that the first frame sets.
pub record FrameCallback : Type 0 where
  pub buffer : DataBuffer
  pub last_live_ts : Option ℕ

-- Two images one above the other are cut to the upper one. The height is an `int`: of the number of
-- rows its last 32 bits, of which a negative one is no height.
unfoldable pub live_image : List ℕ → Option LiveImage
live_image raw =
    let size = length raw in
    let w : ℕ = 1920 in
    let h = (size / (1920 * 4)) % 2 ^ 32 in
    let crop_h = if leb 2400 h then h / 2 else h in
    if ltb 0 size && (size % 4 == 0) && ltb 0 h && ltb h (2 ^ 31) && (w * h * 4 == size)
    then some (record { raw = take (w * crop_h * 4) raw; width = w; height = crop_h })
    else none

abbrev pub is_frame_channel : String → Bool
is_frame_channel channel = str_eq channel "stereo_image" || str_eq channel "visual_geometric_2d"

abbrev pub is_live_part : String → Bool
is_live_part part = str_eq part "" || str_eq part "left" || str_eq part "stereo_image"

abbrev pub elapsed : Option ℕ → ℕ → ℕ
elapsed none now = 0
elapsed (some last) now = now - last

-- The first frame only sets the time.
unfoldable pub live_frame : Option ℕ → ℕ → List ℕ → Option ℕ × Option LiveImage
live_frame last now raw =
    if leb 200 (elapsed last now)
    then (some now, live_image raw)
    else elim last [ none ↦ (some now, none) | some t ↦ (some t, none) ]

module _ (begin : List (ℕ × StereoPair) → ℕ) where
  unfoldable pub buffer_frame : Bool → DataBuffer → String → DataBundle → DataBuffer
  buffer_frame processing_paused b channel bundle =
      let put_in = put b channel bundle in
      let p = put_stereo begin put_in bundle.header.pair_id bundle.header.part bundle in
      let paired =
        if is_frame_channel channel
        then if processing_paused then p else enqueue_inspection p bundle
        else put_in in
      if str_eq channel "depth_map" || str_eq channel "visual_geometric_2d"
      then enqueue_depth paired bundle
      else paired

  unfoldable pub on_frame :
      Bool → FrameCallback → ℕ → String → DataBundle → FrameCallback × Option LiveImage
  unfolding buffer_frame live_frame
  on_frame processing_paused c now channel bundle =
      let (last, sent) =
        if is_frame_channel channel && is_live_part bundle.header.part
        then live_frame c.last_live_ts now bundle.bytes
        else (c.last_live_ts, none) in
      (
        record {
          buffer = buffer_frame processing_paused c.buffer channel bundle;
          last_live_ts = last;
        },
        sent,
      )
