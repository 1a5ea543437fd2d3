-- ===== src/Examples/Flow.antt =====
-- Runs of src/logic and of src/preprocess/PreprocessModule.cpp.
use project_viatech_ecids_co.Base.{
  ℕ, ◌≡◌, ◌≢◌, refl, true, false, String, str_eq, List, [], ◌∷◌, none, some, arith, if◌then◌else◌,
  lookup, erase, string_eq,
}
use project_viatech_ecids_co.Common.Modes.{Mode, http, installation}
use project_viatech_ecids_co.Common.Frames.{DataBundle, blank_header}
use project_viatech_ecids_co.Logic.ModeControl.{Board}
use project_viatech_ecids_co.Preprocess.{PreprocessModule, PendingRequest, new_module}
use project_viatech_ecids_co.Preprocess.Send.{process_pair, stored, encoded_right}
use project_viatech_ecids_co.Preprocess.Pending.{
  take_pending, delivery, oldest, is_stale, IsFirst, process_pair-take_pending, take_pending_other,
}

abbrev pub board : Board ℕ
board = record {
  control = record { mode = Mode.none; uploading = false; has_callback = true; changes = [] };
  status = record {
    mode = Mode.none;
    task_active = false;
    sc_connected = false;
    sc_capturing = false;
    ai_connected = false;
    ai_mode = "unknown";
    db_size_gb = 0;
    uploading = false;
    module_id = "ECIDS-Core-01";
  };
}

abbrev frame : ℕ → DataBundle
frame n = record { header = blank_header; bytes = n ∷ [] }

abbrev encode : List ℕ → List ℕ
encode bytes = 255 ∷ bytes

abbrev request : String → PendingRequest ℕ
request tid = record {
  transaction_id = tid;
  left = frame 1;
  right = frame 2;
  pair_index = 4;
  sub_task = installation;
  working_distance_mm = 500;
  created_at = 1000;
}

abbrev waiting : PreprocessModule ℕ
waiting = record (new_module http) { pending = ("b", request "b") ∷ ("a", request "a") ∷ [] }

process_pair-take_pending_example :
    let sent = (process_pair encode waiting "c" 2000 (frame 3) (frame 4) 450).after in
    ((take_pending 0 sent "c" 2500).0
      ≡ some (record {
        left = stored (encode (3 ∷ []));
        right = stored (encoded_right encode (4 ∷ []));
        pair_index = 0;
        sub_task = waiting.sub_task;
        working_distance_mm = 450;
      }))
    × ((k : String)
        → lookup k (take_pending 0 sent "c" 2500).1.pending
          ≡ (if str_eq "c" k then none else lookup k waiting.pending))
process_pair-take_pending_example =
    process_pair-take_pending encode 0 waiting "c" 2000 2500 (frame 3) (frame 4) 450 refl
      (omega arith)

take_pending_other_example :
    let other = oldest ("b", request "b") (("a", request "a") ∷ []) in
    (other.0 ≢ "c")
    × IsFirst other (("b", request "b") ∷ ("a", request "a") ∷ [])
    × ((take_pending 0 waiting "c" 2000).0
        ≡ (if is_stale 2000 other then none else some (delivery other.1)))
    × ((take_pending 0 waiting "c" 2000).1
        ≡ record waiting { pending = erase other.0 waiting.pending })
take_pending_other_example =
    take_pending_other 0 waiting "c" 2000 ("b", request "b") (("a", request "a") ∷ []) refl
      (unfold lookup in refl)
