-- ===== src/Examples/Database.antt =====
-- Runs of src/database.
use project_viatech_ecids_co.Base.{
  ℕ, ◌-◌, ◌*◌, ◌≡◌, ◌≢◌, refl, true, String, List, [], ◌∷◌, codes, none, some, arith, keep,
}
use mathlib.Core.List.{Perm}
use project_viatech_ecids_co.Common.Double.{whole}
use project_viatech_ecids_co.Common.Sorting.{IsSorted}
use project_viatech_ecids_co.Common.Frames.{DbWriteRequest, blank_request, ai_result}
use project_viatech_ecids_co.Base.{text_lt}
use project_viatech_ecids_co.Data.Recent.{latest}
use project_viatech_ecids_co.Database.Records.{written, save_ai_result}
use project_viatech_ecids_co.Database.Writer.{DatabaseWriter, process_request}
use project_viatech_ecids_co.Database.Writer.Files.{
  Enqueue, ai_call, image_call, enqueue_all, requests, enqueue_all-latest,
}
use project_viatech_ecids_co.Database.HouseKeep.{
  Disk, DirEntry, do_housekeep, year_dirs, Cleans, names, is_year, do_housekeep-Cleans,
}

abbrev result_for : ℕ → DbWriteRequest
result_for n = record (blank_request ai_result) {
  record_path = codes "r";
  subfolder = codes "inspection";
  camera_id = codes "L";
  pair_index = n;
  text_data = codes "{}";
}

abbrev busy_writer : DatabaseWriter
busy_writer = record {
  has_manager = true;
  running = true;
  queue = result_for 1 ∷ result_for 2 ∷ [];
  max_queue = 2;
}

abbrev free_writer : ℕ → DatabaseWriter
free_writer max_queue = record {
  has_manager = true;
  running = true;
  queue = [];
  max_queue = max_queue;
}

abbrev calls : List Enqueue
calls =
    ai_call (codes "r") (codes "inspection") (codes "L") 1 (codes "{}")
    ∷ image_call (codes "r") (codes "inspection") (codes "L") 1 none (codes "jpg")
    ∷ ai_call (codes "r") (codes "inspection") (codes "L") 2 (codes "{}")
    ∷ []

enqueue_all-latest_example :
    enqueue_all (free_writer 1) calls
    ≡ some (record (free_writer 1) { queue = latest 1 (requests calls) })
enqueue_all-latest_example = enqueue_all-latest (free_writer 1) calls refl refl (omega arith)

result_saved : written (process_request true (result_for 1)) ≢ []
unfolding process_request save_ai_result
result_saved = ground arith

abbrev year : String → DirEntry
year name = record { is_directory = true; filename = codes name }

-- A disk whose state is the number of folders that are left, of two units each.
abbrev disk : Disk ℕ ℕ
disk = record {
  size_gb = λ n. n * 2;
  root_exists = λ n. true;
  entries = λ n. year "2025" ∷ year "2024" ∷ year "tmp" ∷ [];
  remove_all = λ n name. n - 1;
}

do_housekeep-Cleans_example :
    Cleans whole disk 3 2 (year_dirs whole disk 3 2) (do_housekeep whole disk 3 2)
    × IsSorted text_lt (year_dirs whole disk 3 2)
    × Perm (year_dirs whole disk 3 2) (names (keep is_year (disk.entries 2)))
do_housekeep-Cleans_example = do_housekeep-Cleans whole disk 3 2 refl refl
