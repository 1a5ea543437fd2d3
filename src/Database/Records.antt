-- ===== src/Database/Records.antt =====
-- src/database/RecordManager.cpp. What a method does to the disk is the list of its operations: to
-- create a folder with its parents, and to write a file. Reading sizes from the disk is not modelled.
use project_viatech_ecids_co.Base.{
  ℕ, List, [], ◌∷◌, ◌++◌, Text, codes, is_empty, not, if◌then◌else◌,
}
use project_viatech_ecids_co.Common.Decimal.{padded}
use project_viatech_ecids_co.Common.Timestamp.{
  TimeParts, db_date_path_from_parts, db_folder_part_from_parts,
}

pub data DiskOp : Type 0 where
  create_dirs : Text → DiskOp
  write_file : Text → Text → DiskOp

pub record RecordManager : Type 0 where
  pub root_path : Text
  pub active_record : Text

abbrev pub ◌/◌ : Text → Text → Text
a / b = a ++ (codes "/" ++ b)

infixr 60 ◌/◌
unfoldable pub init : RecordManager → Text → RecordManager × List DiskOp
init r root = (record r { root_path = root }, create_dirs root ∷ [])

unfoldable pub set_active_record : RecordManager → Text → RecordManager
set_active_record r path = record r { active_record = path }

unfoldable pub format_pair_index : ℕ → Text
format_pair_index idx = padded 3 idx

ensure_subdirs : Text → List DiskOp
ensure_subdirs path =
    create_dirs (path / codes "installation") ∷ create_dirs (path / codes "inspection") ∷ []

unfoldable pub create_inspection_record :
    RecordManager → TimeParts → Text → Text → Text → (RecordManager × Text) × List DiskOp
unfolding ensure_subdirs
create_inspection_record r parts station_id escalator_id task_id =
    let record_name =
      codes "(Inspection)"
      ++ (db_folder_part_from_parts parts
          ++ (codes "-"
              ++ (station_id ++ (codes "-" ++ (escalator_id ++ (codes "-" ++ task_id)))))) in
    let full_path = r.root_path / db_date_path_from_parts parts / record_name in
    ((record r { active_record = full_path }, full_path), ensure_subdirs full_path)

unfoldable pub ai_test_suffix : Text → Text → Text
ai_test_suffix station_id escalator_id =
    if not (is_empty station_id)
    then codes "-"
      ++ (station_id ++ (if not (is_empty escalator_id) then codes "-" ++ escalator_id else []))
    else []

unfoldable pub create_ai_test_record :
    RecordManager → TimeParts → Text → Text → (RecordManager × Text) × List DiskOp
unfolding ai_test_suffix
create_ai_test_record r parts station_id escalator_id =
    let record_name =
      codes "(AI Test)"
      ++ (db_folder_part_from_parts parts ++ ai_test_suffix station_id escalator_id) in
    let full_path = r.root_path / db_date_path_from_parts parts / record_name in
    ((record r { active_record = full_path }, full_path), create_dirs full_path ∷ [])

abbrev save_in : Text → Text → Text → Text → List DiskOp
save_in record_path subfolder filename content =
    let dir = record_path / subfolder in create_dirs dir ∷ write_file (dir / filename) content ∷ []

unfoldable pub image_name : Text → ℕ → Text → Text
unfolding format_pair_index
image_name camera_id pair_index format =
    camera_id ++ (codes "_" ++ (format_pair_index pair_index ++ (codes "." ++ format)))

-- The result is the file's name.
unfoldable pub save_image : Text → Text → Text → ℕ → Text → Text → Text × List DiskOp
save_image record_path subfolder camera_id pair_index bytes format =
    let filename = image_name camera_id pair_index format in
    (filename, save_in record_path subfolder filename bytes)

unfoldable pub save_ai_result : Text → Text → Text → ℕ → Text → List DiskOp
unfolding format_pair_index
save_ai_result record_path subfolder camera_id pair_index json_str =
    save_in record_path subfolder
      (codes "AI_" ++ (camera_id ++ (codes "_" ++ (format_pair_index pair_index ++ codes ".json"))))
      json_str

unfoldable pub save_stereo_result : Text → Text → ℕ → Text → List DiskOp
unfolding format_pair_index
save_stereo_result record_path subfolder pair_index json_str =
    save_in record_path subfolder
      (codes "Stereo_" ++ (format_pair_index pair_index ++ codes ".json")) json_str

unfoldable pub save_pointcloud : Text → Text → ℕ → Text → List DiskOp
unfolding format_pair_index
save_pointcloud record_path subfolder pair_index bytes =
    save_in record_path subfolder (codes "PC_" ++ (format_pair_index pair_index ++ codes ".pcd"))
      bytes

unfoldable pub save_depth : Text → Text → ℕ → Text → List DiskOp
unfolding format_pair_index
save_depth record_path subfolder pair_index bytes =
    save_in record_path subfolder (codes "Depth_" ++ (format_pair_index pair_index ++ codes ".dat"))
      bytes

-- The file that the operations write.
abbrev pub written : List DiskOp → List Text
written [] = []
written (create_dirs d ∷ os) = written os
written (write_file p c ∷ os) = p ∷ written os
