-- ===== src/Data/Buffer.antt =====
-- src/data/DataBuffer.cpp. Each method holds the mutex from its first line to its last, so a method
-- is one step. `out` parameters are results; `none` is the result `false`. A wait with a timeout is
-- its last look at the queue. `begin` names the entry that `stereo_pairs_.begin()` points at: the
-- order of an `unordered_map` is not the program's.
pub mod Bounds
pub mod Pairs
pub mod Fifo
pub mod Sides
use project_viatech_ecids_co.Base.{
  ℕ, Bool, true, false, ◌&&◌, String, str_eq, List, [], ◌∷◌, ◌++◌, map, Option, none, some, ltb,
  leb, if◌then◌else◌, length, lookup, assign, erase, nat_eq, string_eq,
}
use project_viatech_ecids_co.Common.Frames.{FrameHeader, DataBundle, blank_bundle}

pub record ChannelEntry : Type 0 where
  pub header : FrameHeader
  pub bytes : List ℕ

pub record StereoPair : Type 0 where
  pub left : DataBundle
  pub right : DataBundle
  pub has_left : Bool
  pub has_right : Bool

abbrev pub blank_pair : StereoPair
blank_pair = record {
  left = blank_bundle;
  right = blank_bundle;
  has_left = false;
  has_right = false;
}

pub record DataBuffer : Type 0 where
  pub channels : List (String × ChannelEntry)
  pub stereo_pairs : List (ℕ × StereoPair)
  pub inspection_queue : List DataBundle
  pub inspection_capacity : ℕ
  pub latest_depth : DataBundle
  pub has_depth : Bool

abbrev pub new_buffer : ℕ → DataBuffer
new_buffer capacity = record {
  channels = [];
  stereo_pairs = [];
  inspection_queue = [];
  inspection_capacity = capacity;
  latest_depth = blank_bundle;
  has_depth = false;
}

unfoldable pub put : DataBuffer → String → DataBundle → DataBuffer
put b channel bundle =
    let entry : ChannelEntry = record { header = bundle.header; bytes = bundle.bytes } in
    record b { channels = assign channel entry b.channels }

abbrev entry_bundle : Option ChannelEntry → Option DataBundle
entry_bundle none = none
entry_bundle (some e) = some (record { header = e.header; bytes = e.bytes })

unfoldable pub get_latest : DataBuffer → String → Option DataBundle
get_latest b channel = entry_bundle (lookup channel b.channels)

abbrev header_and_data : Option ChannelEntry → Option (FrameHeader × List ℕ)
header_and_data none = none
header_and_data (some e) = some (e.header, e.bytes)

unfoldable pub get_latest_copy : DataBuffer → String → Option (FrameHeader × List ℕ)
get_latest_copy b channel = header_and_data (lookup channel b.channels)

-- `stereo_pairs_[pair_id]`
abbrev pair_at : Option StereoPair → StereoPair
pair_at none = blank_pair
pair_at (some p) = p

abbrev pub set_part : StereoPair → String → DataBundle → StereoPair
set_part p part bundle =
    if str_eq part "left"
    then record p { left = bundle; has_left = true }
    else if str_eq part "right"
    then record p { right = bundle; has_right = true }
    else p

module _ (begin : List (ℕ × StereoPair) → ℕ) where
  abbrev pub make_room : List (ℕ × StereoPair) → List (ℕ × StereoPair)
  make_room pairs = if ltb 50 (length pairs) then erase (begin pairs) pairs else pairs

  unfoldable pub put_stereo : DataBuffer → ℕ → String → DataBundle → DataBuffer
  put_stereo b pair_id part bundle =
      let pairs = make_room b.stereo_pairs in
      let pair = set_part (pair_at (lookup pair_id pairs)) part bundle in
      record b { stereo_pairs = assign pair_id pair pairs }

abbrev ready : Option StereoPair → Option (DataBundle × DataBundle)
ready none = none
ready (some p) = if p.has_left && p.has_right then some (p.left, p.right) else none

abbrev take_pair :
    Option (DataBundle × DataBundle)
    → DataBuffer
    → ℕ
    → Option (DataBundle × DataBundle) × DataBuffer
take_pair none b pair_id = (none, b)
take_pair (some lr) b pair_id = (some lr, record b { stereo_pairs = erase pair_id b.stereo_pairs })

unfoldable pub try_get_stereo_pair : DataBuffer → ℕ → Option (DataBundle × DataBundle) × DataBuffer
try_get_stereo_pair b pair_id = take_pair (ready (lookup pair_id b.stereo_pairs)) b pair_id

unfoldable pub enqueue_inspection : DataBuffer → DataBundle → DataBuffer
enqueue_inspection b bundle =
    if leb b.inspection_capacity (length b.inspection_queue)
    then b
    else record b { inspection_queue = b.inspection_queue ++ bundle ∷ [] }

abbrev pop_front : List DataBundle → DataBuffer → Option DataBundle × DataBuffer
pop_front [] b = (none, b)
pop_front (f ∷ rest) b = (some f, record b { inspection_queue = rest })

unfoldable pub dequeue_inspection : DataBuffer → Option DataBundle × DataBuffer
dequeue_inspection b = pop_front b.inspection_queue b

unfoldable pub enqueue_depth : DataBuffer → DataBundle → DataBuffer
enqueue_depth b bundle = record b { latest_depth = bundle; has_depth = true }

-- The entry stays: every reader sees the latest depth map.
unfoldable pub dequeue_depth : DataBuffer → Option DataBundle
dequeue_depth b = if b.has_depth then some b.latest_depth else none

abbrev key_of : String × ChannelEntry → String
key_of (k, e) = k

unfoldable pub channel_names : DataBuffer → List String
channel_names b = map key_of b.channels

unfoldable pub clear : DataBuffer → DataBuffer
clear b = record b { channels = []; stereo_pairs = [] }

unfoldable pub clear_inspection_queue : DataBuffer → DataBuffer
clear_inspection_queue b = record b { inspection_queue = [] }

unfoldable pub inspection_queue_size : DataBuffer → ℕ
inspection_queue_size b = length b.inspection_queue
