-- ===== src/Examples/Loops.antt =====
-- Runs of the loop of src/preprocess/PreprocessModule.cpp.
use project_viatech_ecids_co.Base.{ℕ, ◌≡◌, refl, ◌∷◌, [], List, true, false, arith}
use project_viatech_ecids_co.Common.Double.{Double, whole}
use project_viatech_ecids_co.Common.Modes.{InspectionSubTask, AiMode}
use project_viatech_ecids_co.Common.Frames.{DataBundle, blank_header, blank_bundle}
use project_viatech_ecids_co.Preprocess.{PreprocessModule, new_module}
use project_viatech_ecids_co.Preprocess.Loops.{
  Floats, InspectionLoop, Event, frame_arrives, sub_task_set, round,
}
use project_viatech_ecids_co.Preprocess.Loops.Spacing.{IsSpaced, send_times, send_times-IsSpaced}

instance abbrev units : Double ℕ
units = whole

abbrev frame : DataBundle
frame = record { header = blank_header; bytes = 1 ∷ 2 ∷ [] }

abbrev floats : Floats ℕ
floats = record { floats = λ bytes. bytes; is_nan = λ x. false; is_inf = λ x. false }

abbrev pre : PreprocessModule ℕ
pre = record (new_module AiMode.binary) {
  sub_task = InspectionSubTask.installation;
  running = true;
}

abbrev loop : InspectionLoop ℕ
loop = record {
  pre = pre;
  buffer = record {
    channels = [];
    stereo_pairs = [];
    inspection_queue = frame ∷ frame ∷ frame ∷ [];
    inspection_capacity = 30;
    latest_depth = blank_bundle;
    has_depth = false;
  };
  last_ai_send = 1000;
}

abbrev rounds : List Event
rounds =
    round (record { now = 1500; ts = "a"; created_at = 1 })
    ∷ frame_arrives frame
    ∷ round (record { now = 2100; ts = "b"; created_at = 2 })
    ∷ sub_task_set InspectionSubTask.gap_inspection
    ∷ round (record { now = 2200; ts = "c"; created_at = 3 })
    ∷ sub_task_set InspectionSubTask.installation
    ∷ round (record { now = 3100; ts = "d"; created_at = 4 })
    ∷ []

send_times-IsSpaced_example :
    IsSpaced 1000 1000 (send_times (λ bytes. bytes) floats 1000 loop rounds)
send_times-IsSpaced_example =
    send_times-IsSpaced (λ bytes. bytes) floats 1000 loop rounds (ground arith)

two_sent : send_times (λ bytes. bytes) floats 1000 loop rounds ≡ 2100 ∷ 3100 ∷ []
unfolding send_times
two_sent = refl
