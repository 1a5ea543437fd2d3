-- ===== src/Examples/Requests.antt =====
-- Runs of the requests of src/main.cpp.
use project_viatech_ecids_co.Base.{
  ℕ, ◌≡◌, ◌≢◌, refl, inl, inr, true, false, String, str_eq, eq_iff, List, [], ◌∷◌, Option, none,
  some, arith, lookup, Text, codes, if◌then◌else◌, string_eq,
}
use project_viatech_ecids_co.Common.Modes.{Mode, http, mode_eq}
use project_viatech_ecids_co.Common.Double.{Double, whole}
use project_viatech_ecids_co.Common.Json.{Json}
use project_viatech_ecids_co.Common.Response.{code_number}
use project_viatech_ecids_co.Common.Response
use project_viatech_ecids_co.Logic.Task.{idle}
use project_viatech_ecids_co.Preprocess.{new_module}
use project_viatech_ecids_co.App.{no_data, Core, Outside, Reply, response, try_start_inspection}
use project_viatech_ecids_co.App.Requests.{
  Event, requested, test_over, handle, caught, sets_mode, starts_inspection, starts_ai_test,
}
use project_viatech_ecids_co.App.Consistency.{IsConsistent, task_mode}
use project_viatech_ecids_co.App.Runs.{run, run-IsConsistent}
use project_viatech_ecids_co.App.Starts.{
  Started, record_path, busy_unchanged, failed_start_stays_active, start_inspection_succeeds,
}
use project_viatech_ecids_co.Examples.Flow.{board}

instance abbrev units : Double ℕ
units = whole

abbrev or_default : Option String → String → String
or_default none def = def
or_default (some s) def = s

-- Every body but "bad" is one object.
abbrev json : Json
json = record {
  J = List (String × String);
  parse = λ body.
      if str_eq body "bad"
      then inl (codes "parse error")
      else inr (("station_id", "S1") ∷ ("escalator_id", "E2") ∷ ("mode", "ai_test") ∷ []);
  value = λ members key def. inr (or_default (lookup key members) def);
  items = λ members key. [];
  shown = λ members key. or_default (lookup key members) "";
  dumped = λ members key def. or_default (lookup key members) def;
}

abbrev outside : Option Text → Outside
outside e = record {
  parts = record { year = 2025; month = 3; day = 4; hour = 5; min = 6; sec = 7; ms = 8 };
  disk_error = e;
  setting_error = λ settings key. none;
  answer = λ s. codes "{}";
  view = λ path body. response 0 (codes "Status") [];
}

abbrev pub idle_core : Core ℕ
idle_core = record {
  board = board;
  tasks = idle;
  records = record { root_path = codes "/db"; active_record = [] };
  disk = [];
  preprocess = new_module http;
  processing_paused = true;
  ai_mode = http;
  settings = [];
  wd_sum = 0;
  wd_count = 0;
  sent = [];
}

abbrev busy_core : Core ℕ
busy_core = record idle_core {
  board = record board { status = record (board.status) { task_active = true } };
}

idle_core-IsConsistent : IsConsistent idle_core
unfolding mode_eq task_mode
idle_core-IsConsistent = record {
  in_step = record { same_mode = refl; same_uploading = refl; not_uploading = refl };
  clean = ground arith;
  mode_fits = refl;
  active = λ e. ground arith;
  no_task = λ e. refl;
  no_record = λ e. refl;
  no_loop = λ e. refl;
}

abbrev events : List Event
events =
    requested (outside none) "POST" "/StartInspection" "{}"
    ∷ requested (outside none) "POST" "/StartAITest" "bad"
    ∷ test_over
    ∷ []

run-IsConsistent_example :
    (c : Core ℕ) × (run json (some idle_core) events ≡ some c) × IsConsistent c
run-IsConsistent_example = run-IsConsistent json idle_core events idle_core-IsConsistent

busy_unchanged_example :
    ((r : Reply) × (handle json busy_core (outside none) sets_mode "{}" ≡ some (busy_core, r)))
    × ((r : Reply) × (handle json busy_core (outside none) starts_inspection "{}"
          ≡ some (busy_core, r)))
    × ((r : Reply) × (handle json busy_core (outside none) starts_ai_test "{}"
          ≡ some (busy_core, r)))
busy_unchanged_example = busy_unchanged json busy_core (outside none) "{}" refl

station_named : ◌≢◌ {A = String} "S1" ""
station_named = ground (arith, eq_iff "S1" "")

escalator_named : ◌≢◌ {A = String} "E2" ""
escalator_named = ground (arith, eq_iff "E2" "")

failed_start_stays_active_example :
    (c : Core ℕ) × (caught []
        (try_start_inspection idle_core (outside (some (codes "full"))) (inr ("S1", "E2", "T1")))
      ≡ some (c, response (code_number Response.error) (codes "full") no_data))
    × (c.board.status.task_active ≡ true)
    × (c.board.control.mode ≡ Mode.inspection)
    × (c.preprocess.running ≡ false)
    × (c.records.active_record ≡ [])
failed_start_stays_active_example =
    failed_start_stays_active idle_core (outside (some (codes "full"))) "S1" "E2" "T1"
      (codes "full") idle_core-IsConsistent station_named escalator_named refl refl

start_inspection_succeeds_example :
    Started idle_core
      (record_path idle_core (outside none) "S1" "E2" "T1")
      (try_start_inspection idle_core (outside none) (inr ("S1", "E2", "T1")))
start_inspection_succeeds_example =
    start_inspection_succeeds idle_core (outside none) "S1" "E2" "T1" idle_core-IsConsistent
      station_named escalator_named refl refl
