-- ===== src/App.antt =====
-- src/main.cpp: the requests of the client (API 3a) and the event at the end of an AI test, on the
-- state of all parts that they share. A request is answered as a whole before the next one starts:
-- the server's worker threads are not modelled. `D` is the type of doubles.
pub mod Requests
pub mod Consistency
pub mod Runs
pub mod Starts
pub mod Base64
pub mod Publish
pub mod History
pub mod Health
use project_viatech_ecids_co.Base.{
  ℕ, ◌≡◌, Bool, true, false, not, ◌&&◌, ◌||◌, String, str_eq, List, [], ◌∷◌, ◌++◌, Text, codes,
  Option, none, some, if◌then◌else◌, ◌==◌, assign, string_eq, ◌⊎◌, inl, inr,
}
use project_viatech_ecids_co.Common.Modes.{
  Mode, mode_name, mode_from_string, AiMode, ai_mode_from_string, InspectionSubTask, mode_eq,
}
use project_viatech_ecids_co.Common.Modes
use project_viatech_ecids_co.Common.Response.{ResponseCode, code_number, response_code_name}
use project_viatech_ecids_co.Common.Response
use project_viatech_ecids_co.Common.Timestamp.{TimeParts}
use project_viatech_ecids_co.Common.Double.{Double}
use project_viatech_ecids_co.Logic.ModeControl.{Board, set_mode}
use project_viatech_ecids_co.Logic.Status
use project_viatech_ecids_co.Logic.Task.{TaskManager}
use project_viatech_ecids_co.Logic.Task
use project_viatech_ecids_co.Database.Records.{
  RecordManager, DiskOp, create_inspection_record, create_ai_test_record, set_active_record,
}
use project_viatech_ecids_co.Preprocess.{PreprocessModule}
use project_viatech_ecids_co.Preprocess

-- What the handlers send, in order. A camera command `c` is a POST to the path `/c`.
pub data Sent : Type 0 where
  to_camera : String → String → Sent
  to_ai : String → String → Sent
  mode_status : String → Sent
  test_completed : Sent

pub record Core (D : Type 0) : Type 0 where
  pub board : Board D
  pub tasks : TaskManager
  pub records : RecordManager
  pub disk : List DiskOp
  pub preprocess : PreprocessModule D
  pub processing_paused : Bool
  pub ai_mode : AiMode
  pub settings : List (String × String)
  pub wd_sum : D
  pub wd_count : ℕ
  pub sent : List Sent

-- `make_response` with its code, message and data, or the answer of another module.
pub data Reply : Type 0 where
  response : ℕ → Text → Text → Reply
  forwarded : Text → Reply

-- The surroundings of a request: the time, what creating folders throws if it fails, what setting a key
-- throws where a part of it leads through no object of the settings, and what the other modules answer.
pub record Outside : Type 0 where
  pub parts : TimeParts
  pub disk_error : Option Text
  pub setting_error : List (String × String) → String → Option Text
  pub answer : Sent → Text
  pub view : String → String → Reply  -- `/CheckStatus`, `/GetHistory`, `/GetRecord`, `/GetImage`

-- A reply, or what was thrown, with the state at that point. `none` stands for a handler that waits
-- for a thread that runs.
abbrev pub Outcome : Type 0 → Type 0
Outcome D = Option (Core D × (Text ⊎ Reply))

abbrev pub reply : {D : Type 0} → Core D → ResponseCode → Text → Text → Outcome D
reply c code message data_ = some (c, inr (response (code_number code) message data_))

-- The default of `data_json`.
abbrev pub no_data : Text
no_data = codes "{}"

abbrev pub quoted : String → Text → Text
quoted key s = codes "{\"" ++ (codes key ++ (codes "\":\"" ++ (s ++ codes "\"}")))

abbrev pub cam1 : String
cam1 = "{\"camera_id\":\"cam1\"}"

abbrev pub cam1_data : String
cam1_data = "{\"camera_id\":\"cam1\",\"data_types\":[\"stereo_image\",\"depth_map\"]}"

abbrev pub arm : List Sent
arm = to_camera "Init" cam1 ∷ to_camera "Connect" cam1 ∷ to_camera "StartCapture" cam1_data ∷ []

abbrev pub code_eq : ResponseCode → ResponseCode → Bool
code_eq a b = code_number a == code_number b

abbrev sub_task_from : String → Option InspectionSubTask
sub_task_from st =
    if str_eq st "installation"
    then some Modes.installation
    else if str_eq st "marking"
    then some Modes.marking
    else if str_eq st "gap_inspection"
    then some Modes.gap_inspection
    else none

module _ {D : Type 0} ⦃d : Double D⦄ where
  abbrev pub answered : Core D → Outside → Sent → Outcome D
  answered c out s = some (record c { sent = c.sent ++ s ∷ [] }, inr (forwarded (out.answer s)))

  -- `set_task_active`
  abbrev pub with_active : Board D → Bool → Board D
  with_active b active = record b { status = Status.set_task_active b.status active }

  unfoldable pub try_set_mode : Core D → Text ⊎ String → Outcome D
  unfolding mode_from_string set_mode code_number
  try_set_mode c (inl what) = some (c, inl what)
  try_set_mode c (inr mode_str) =
      let new_mode = mode_from_string mode_str in
      let (b, rc) = set_mode c.board new_mode in
      if mode_eq new_mode Mode.none
      then reply c Response.invalid_param (codes "Invalid mode: " ++ codes mode_str) no_data
      else if c.board.status.task_active
      then reply c Response.mode_conflict (codes "ModeConflict: task active, stop first") no_data
      else if code_eq rc Response.success
      then reply (record c { board = b; sent = c.sent ++ mode_status mode_str ∷ [] }) rc
          (codes "Mode set to " ++ codes mode_str) (quoted "mode" (codes mode_str))
      else reply (record c { board = b }) rc (codes (response_code_name rc)) no_data

  unfoldable pub get_mode : Core D → Outcome D
  unfolding mode_name
  get_mode c =
      reply c Response.success (codes "Success")
        (quoted "mode" (codes (mode_name c.board.control.mode)))

  -- One entry of `parameters`, where setting it does not throw.
  unfoldable pub set_core_parameter : Core D → String → String → Core D
  unfolding ai_mode_from_string
  set_core_parameter c name value =
      if str_eq name "ai_mode"
      then record c {
        settings = assign "api2a.ai_mode" value c.settings;
        ai_mode = ai_mode_from_string value;
      }
      else if str_eq name "processing_paused"
      then record c { processing_paused = str_eq value "true" || str_eq value "1" }
      else if str_eq name ""
      then c
      else record c { settings = assign name value c.settings }

  unfoldable pub inspection_started : Core D → Text → Option (PreprocessModule D) → Outcome D
  inspection_started c record_path none = none
  inspection_started c record_path (some p) =
      reply (record c { preprocess = p; wd_sum = d.of_nat 0; wd_count = 0 }) Response.success
        (codes "Inspection started") (quoted "record_path" record_path)

  -- From `create_inspection_record` on. Folders that exist when creating another fails are left out.
  unfoldable pub run_inspection :
      Core D → TimeParts → Option Text → String → String → String → Outcome D
  unfolding create_inspection_record set_active_record
  run_inspection c parts (some what) station escalator task = some (c, inl what)
  run_inspection c parts none station escalator task =
      let ((r, record_path), ops) =
        create_inspection_record c.records parts (codes station) (codes escalator) (codes task) in
      inspection_started
        (record c {
          records = set_active_record r record_path;
          disk = c.disk ++ ops;
          processing_paused = false;
          sent = c.sent ++ arm;
        })
        record_path (Preprocess.start_inspection c.preprocess record_path)

  unfoldable pub try_start_inspection :
      Core D → Outside → Text ⊎ (String × String × String) → Outcome D
  unfolding set_mode code_number run_inspection
  try_start_inspection c out (inl what) = some (c, inl what)
  try_start_inspection c out (inr (station, escalator, task)) =
      let (b, rc) = set_mode c.board Mode.inspection in
      if str_eq station "" || str_eq escalator ""
      then reply c Response.invalid_param (codes "station_id and escalator_id are required") no_data
      else if c.board.status.task_active
      then reply c Response.mode_conflict (codes "TaskConflict: another task is active, stop first")
          no_data
      else if not (code_eq rc Response.success) && not (code_eq rc Response.already_init)
      then reply (record c { board = b }) rc (codes (response_code_name rc)) no_data
      else run_inspection
          (record c {
            board = with_active b true;
            tasks = Task.start_inspection c.tasks station escalator task;
          })
          out.parts out.disk_error station escalator task

  unfoldable pub test_started : Core D → Text → Option (PreprocessModule D) → Outcome D
  test_started c record_path none = none
  test_started c record_path (some p) =
      reply (record c { preprocess = p }) Response.success (codes "AI test started")
        (quoted "record_path" record_path)

  unfoldable pub run_ai_test :
      Core D → TimeParts → Option Text → String → String → String → Outcome D
  unfolding create_ai_test_record set_active_record
  run_ai_test c parts (some what) test_data station escalator = some (c, inl what)
  run_ai_test c parts none test_data station escalator =
      let ((r, record_path), ops) =
        create_ai_test_record c.records parts (codes station) (codes escalator) in
      test_started (record c { records = set_active_record r record_path; disk = c.disk ++ ops })
        record_path (Preprocess.start_ai_test c.preprocess test_data record_path)

  unfoldable pub try_start_ai_test :
      Core D → Outside → Text ⊎ (String × String × String) → Outcome D
  unfolding set_mode code_number run_ai_test
  try_start_ai_test c out (inl what) = some (c, inl what)
  try_start_ai_test c out (inr (test_data, station, escalator)) =
      let (b, rc) = set_mode c.board Mode.ai_test in
      if str_eq test_data ""
      then reply c Response.invalid_param (codes "test_data_path is required") no_data
      else if c.board.status.task_active
      then reply c Response.mode_conflict (codes "TaskConflict: another task is active, stop first")
          no_data
      else if not (code_eq rc Response.success) && not (code_eq rc Response.already_init)
      then reply (record c { board = b }) rc (codes (response_code_name rc)) no_data
      else run_ai_test
          (record c { board = with_active b true; tasks = Task.start_ai_test c.tasks test_data })
          out.parts out.disk_error test_data station escalator

  -- What the two stops and the end of an AI test share.
  abbrev pub stop_task : Core D → PreprocessModule D → Core D
  stop_task c p = record c {
    preprocess = p;
    tasks = Task.stop c.tasks;
    board = (set_mode (with_active c.board false) Mode.none).0;
    records = set_active_record c.records [];
  }

  unfoldable pub stop_inspection : Core D → Outcome D
  unfolding set_mode
  stop_inspection c =
      let c = stop_task c (Preprocess.stop_inspection c.preprocess) in
      reply
        (record c {
          processing_paused = true;
          sent = c.sent ++ to_camera "StopCapture" cam1_data ∷ [];
        })
        Response.success (codes "Inspection stopped") no_data

  unfoldable pub stop_ai_test : Core D → Outcome D
  unfolding set_mode
  stop_ai_test c =
      reply (stop_task c (Preprocess.stop_ai_test c.preprocess)) Response.success
        (codes "AI test stopped") no_data

  -- The completion callback's thread, when its 120 seconds are over.
  unfoldable pub ai_test_completed : Core D → Core D
  unfolding set_mode
  ai_test_completed c =
      let c = stop_task c (Preprocess.stop_ai_test c.preprocess) in
      record c { sent = c.sent ++ test_completed ∷ [] }

  unfoldable pub sub_task_set : Core D → String → Option InspectionSubTask → Outcome D
  sub_task_set c st none =
      reply c Response.invalid_param (codes "Invalid sub_task: " ++ codes st) no_data
  sub_task_set c st (some sub_task) =
      reply (record c { preprocess = Preprocess.set_sub_task c.preprocess sub_task })
        Response.success (codes "Sub-task set to " ++ codes st) no_data

  unfoldable pub try_set_sub_task : Core D → Text ⊎ String → Outcome D
  unfolding sub_task_set
  try_set_sub_task c (inl what) = some (c, inl what)
  try_set_sub_task c (inr st) = sub_task_set c st (sub_task_from st)
