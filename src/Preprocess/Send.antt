-- ===== src/Preprocess/Send.antt =====
-- src/preprocess/PreprocessModule.cpp, `process_pair_`: a pair of frames goes to the AI and waits.
use project_viatech_ecids_co.Base.{
  ℕ, ◌+◌, ◌≤◌, Bool, true, false, not, ◌&&◌, String, List, [], ◌∷◌, ◌++◌, Text, codes, arith, ltb,
  if◌then◌else◌, length, is_empty, assign, string_eq, length-assign-le, Bool-cases, inl, inr,
}
use project_viatech_ecids_co.Common.Modes.{AiMode, binary, file, http}
use project_viatech_ecids_co.Common.Frames.{DataBundle, blank_header}
use project_viatech_ecids_co.Database.Records.{DiskOp, save_image, ◌/◌}
use project_viatech_ecids_co.Preprocess.{PreprocessModule, PendingRequest, current_subfolder}

-- What the dealer is told to send: the id with the raw left and right bytes, or with the files.
pub data Request : Type 0 where
  no_request : Request
  binary_request : String → List ℕ → List ℕ → Request
  file_request : String → List Text → List Text → Request

pub record Sent (D : Type 0) : Type 0 where
  pub request : Request
  pub disk : List DiskOp
  pub after : PreprocessModule D

abbrev is_binary : AiMode → Bool
is_binary binary = true
is_binary file = false
is_binary http = false

-- The bundles in the table: JPG bytes under a default header.
abbrev pub stored : List ℕ → DataBundle
stored bytes = record { header = blank_header; bytes = bytes }

abbrev pub encoded_right : (List ℕ → List ℕ) → List ℕ → List ℕ
encoded_right encode right = if is_empty right then [] else encode right

module _ {D : Type 0} where
  -- Over 200 requests the table is emptied first.
  unfoldable pub store : PreprocessModule D → String → PendingRequest D → PreprocessModule D
  store p ts request =
      let kept = if ltb 200 (length p.pending) then [] else p.pending in
      record p { pending = assign ts request kept }

  length-store-le :
      (p : PreprocessModule D) (ts : String) (request : PendingRequest D)
      → length p.pending ≤ 201
      → length (store p ts request).pending ≤ 201
  unfolding store
  length-store-le p ts request h = elim (Bool-cases (ltb 200 (length p.pending))) [
    | inl full ↦ rw full (omega (arith, length-assign-le ts request []))
    | inr room ↦ rw room (ground (arith, length-assign-le ts request p.pending))
  ]

  -- File mode: both images are saved, and their paths sent.
  abbrev by_file : PreprocessModule D → String → ℕ → List ℕ → List ℕ → Request × List DiskOp
  by_file p ts idx l_enc r_enc =
      let subfolder = current_subfolder p.sub_task in
      let (lfile, lops) =
        save_image p.active_record_path subfolder (codes "L") idx l_enc (codes "jpg") in
      let (rfile, rops) =
        save_image p.active_record_path subfolder (codes "R") idx r_enc (codes "jpg") in
      let uri = λ (f : Text). p.active_record_path / subfolder / f in
      if is_empty r_enc
      then (file_request ts (uri lfile ∷ []) (lfile ∷ []), lops)
      else (file_request ts (uri lfile ∷ uri rfile ∷ []) (lfile ∷ rfile ∷ []), lops ++ rops)

  abbrev transfer :
      PreprocessModule D → String → ℕ → List ℕ → List ℕ → List ℕ → List ℕ → Request × List DiskOp
  transfer p ts idx left right l_enc r_enc =
      if is_binary p.ai_mode && p.has_dealer
      then (binary_request ts left right, [])
      else if p.has_dealer && (not (is_empty p.active_record_path) && p.has_records)
      then by_file p ts idx l_enc r_enc
      else (no_request, [])

  -- `encode` is `encode_jpeg_for_storage_`, `ts` the time stamp that serves as transaction id.
  module _ (encode : List ℕ → List ℕ) where
    unfoldable pub process_pair :
        PreprocessModule D → String → ℕ → DataBundle → DataBundle → D → Sent D
    unfolding current_subfolder
    process_pair p ts now left right working_distance_mm =
        let idx = p.pair_index in
        let l_enc = encode left.bytes in
        let r_enc = encoded_right encode right.bytes in
        let (req, ops) = transfer p ts idx left.bytes right.bytes l_enc r_enc in
        let request : PendingRequest D = record {
          transaction_id = ts;
          left = stored l_enc;
          right = stored r_enc;
          pair_index = idx;
          sub_task = p.sub_task;
          working_distance_mm = working_distance_mm;
          created_at = now;
        } in
        if is_empty left.bytes
        then record { request = no_request; disk = []; after = p }
        else record {
          request = req;
          disk = ops;
          after = store (record p { pair_index = idx + 1 }) ts request;
        }

    -- The table never holds more than 201 requests, if it did not before.
    length-process_pair-le :
        (p : PreprocessModule D) (ts : String) (now : ℕ) (l r : DataBundle) (wd : D)
        → length p.pending ≤ 201
        → length (process_pair p ts now l r wd).after.pending ≤ 201
    unfolding process_pair
    length-process_pair-le p ts now l r wd h = elim (Bool-cases (is_empty l.bytes)) [
      | inl none_ ↦ rw none_ h
      | inr some_ ↦ rw some_ (length-store-le (record p { pair_index = p.pair_index + 1 }) ts _ h)
    ]
