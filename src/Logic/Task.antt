-- ===== src/Logic/Task.antt =====
-- src/logic/TaskManager.cpp: the inspection, installation or AI-test task. Log lines are left out.
use project_viatech_ecids_co.Base.{String, List, [], ◌∷◌, ◌≡◌, ◌≢◌, arith}

pub data TaskType : Type 0 where
  none inspection installation ai_test : TaskType

pub record InspectionTask : Type 0 where
  pub station_id : String
  pub escalator_id : String
  pub task_id : String

pub record AiTestTask : Type 0 where
  pub test_data_path : String

pub record TaskManager : Type 0 where
  pub task_type : TaskType
  pub inspection_ : InspectionTask
  pub ai_test_ : AiTestTask

abbrev pub no_inspection : InspectionTask
no_inspection = record { station_id = ""; escalator_id = ""; task_id = "" }

abbrev pub no_ai_test : AiTestTask
no_ai_test = record { test_data_path = "" }

abbrev pub idle : TaskManager
idle = record { task_type = TaskType.none; inspection_ = no_inspection; ai_test_ = no_ai_test }

unfoldable pub start_inspection : TaskManager → String → String → String → TaskManager
start_inspection t station_id escalator_id task_id = record t {
  task_type = inspection;
  inspection_ = record { station_id = station_id; escalator_id = escalator_id; task_id = task_id };
  ai_test_ = record (t.ai_test_) { test_data_path = "" };
}

unfoldable pub start_installation : TaskManager → String → String → TaskManager
start_installation t station_id escalator_id = record t {
  task_type = installation;
  inspection_ = record { station_id = station_id; escalator_id = escalator_id; task_id = "T1" };
  ai_test_ = record (t.ai_test_) { test_data_path = "" };
}

unfoldable pub start_ai_test : TaskManager → String → TaskManager
start_ai_test t test_data_path = record t {
  task_type = ai_test;
  ai_test_ = record { test_data_path = test_data_path };
  inspection_ = record { station_id = ""; escalator_id = ""; task_id = "" };
}

-- Each case of the `switch` only writes a log line.
unfoldable pub stop : TaskManager → TaskManager
stop t = record t { task_type = TaskType.none; inspection_ = no_inspection; ai_test_ = no_ai_test }

-- The data of a task that does not run are blank.
pub record IsClean (t : TaskManager) : Type 0 where
  pub no_task : t.task_type ≡ TaskType.none → t ≡ idle
  pub test_blank : t.task_type ≢ ai_test → t.ai_test_ ≡ no_ai_test
  pub inspection_blank : t.task_type ≡ ai_test → t.inspection_ ≡ no_inspection

pub data Command : Type 0 where
  starts_inspection : String → String → String → Command
  starts_installation : String → String → Command
  starts_ai_test : String → Command
  stops : Command

unfoldable pub step : TaskManager → Command → TaskManager
unfolding start_inspection start_installation start_ai_test stop
step t (starts_inspection s e k) = start_inspection t s e k
step t (starts_installation s e) = start_installation t s e
step t (starts_ai_test p) = start_ai_test t p
step t stops = stop t

unfoldable pub run : TaskManager → List Command → TaskManager
run t [] = t
run t (c ∷ cs) = run (step t c) cs

pub step-IsClean : (t : TaskManager) (c : Command) → IsClean (step t c)
unfolding step
step-IsClean t (starts_inspection s e k) = ground arith
step-IsClean t (starts_installation s e) = ground arith
step-IsClean t (starts_ai_test p) = ground arith
step-IsClean t stops = ground arith

run-IsClean : (t : TaskManager) (cs : List Command) → IsClean t → IsClean (run t cs)
unfolding run
run-IsClean t [] h = h
run-IsClean t (c ∷ cs) h = run-IsClean (step t c) cs (step-IsClean t c)

-- After any commands on a new manager, the data of the tasks that do not run are blank: an AI test
-- keeps no inspection ids, another task keeps no test path, and with no task the manager is as new.
run-idle-IsClean : (cs : List Command) → IsClean (run idle cs)
run-idle-IsClean cs = run-IsClean idle cs (ground arith)
