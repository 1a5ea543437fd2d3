-- ===== src/Common/Frames.antt =====
-- include/ecids_core/common/Types.h: frames, bundles and database write requests.
-- A `shared_ptr<vector<uint8_t>>` is the list of its bytes: no holder writes through it. Time stamps
-- and ids are natural numbers.
use project_viatech_ecids_co.Base.{ℕ, List, [], String, Text, codes, Option, none}

pub record FrameHeader : Type 0 where
  pub frame_type : ℕ
  pub ts_sec : ℕ
  pub ts_nsec : ℕ
  pub pair_id : ℕ
  pub part : String
  pub channel : String

abbrev pub blank_header : FrameHeader
blank_header = record {
  frame_type = 0;
  ts_sec = 0;
  ts_nsec = 0;
  pair_id = 0;
  part = "";
  channel = "";
}

pub record DataBundle : Type 0 where
  pub header : FrameHeader
  pub bytes : List ℕ

-- `DataBundle()`: a default header and an empty vector.
abbrev pub blank_bundle : DataBundle
blank_bundle = record { header = blank_header; bytes = [] }

pub data WriteType : Type 0 where
  image ai_result stereo_result point_cloud depth_map : WriteType

pub record DbWriteRequest : Type 0 where
  pub write_type : WriteType
  pub record_path : Text
  pub subfolder : Text
  pub camera_id : Text
  pub pair_index : ℕ
  pub bytes : Option (List ℕ)  -- `none` is the null pointer
  pub text_data : Text
  pub format : Text

-- The default member values; `type` is given by every caller.
abbrev pub blank_request : WriteType → DbWriteRequest
blank_request t = record {
  write_type = t;
  record_path = [];
  subfolder = [];
  camera_id = [];
  pair_index = 0;
  bytes = none;
  text_data = [];
  format = codes "jpg";
}
