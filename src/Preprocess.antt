-- ===== src/Preprocess.antt =====
-- src/preprocess/PreprocessModule.cpp: the life of its thread, the requests that wait for an AI
-- result, and the frames on their way. `D` is the type of doubles; a time is in milliseconds.
pub mod AiTest
pub mod Send
pub mod Pending
pub mod Loops
use project_viatech_ecids_co.Base.{
  ℕ, ◌+◌, ◌-◌, ◌≡◌, Bool, true, false, not, ◌||◌, String, List, [], ◌∷◌, ◌++◌, Text, codes, text_lt,
  Option, none, some, ltb, if◌then◌else◌, length, is_empty, lookup, assign, erase, string_eq,
}
use project_viatech_ecids_co.Common.Modes.{
  InspectionSubTask, AiMode, installation, marking, gap_inspection,
}
use project_viatech_ecids_co.Common.Frames.{DataBundle, blank_bundle}

pub record PendingRequest (D : Type 0) : Type 0 where
  pub transaction_id : String
  pub left : DataBundle
  pub right : DataBundle
  pub pair_index : ℕ
  pub sub_task : InspectionSubTask
  pub working_distance_mm : D
  pub created_at : ℕ

pub data Loop : Type 0 where
  inspection_loop ai_test_loop : Loop

-- `thread_`: not joinable, or a loop, with whether that has returned.
pub data Thread : Type 0 where
  no_thread : Thread
  thread : Loop → Bool → Thread

pub record PreprocessModule (D : Type 0) : Type 0 where
  pub ai_mode : AiMode
  pub has_dealer : Bool  -- `dealer_` is not null; so for the record manager and the writer
  pub has_records : Bool
  pub has_writer : Bool
  pub thread_ : Thread
  pub running : Bool
  pub ai_test_mode : Bool
  pub active_record_path : Text
  pub test_data_path : String
  pub sub_task : InspectionSubTask
  pub pair_index : ℕ
  pub pending : List (String × PendingRequest D)

-- As `main` sets it up.
abbrev pub new_module : {D : Type 0} → AiMode → PreprocessModule D
new_module mode = record {
  ai_mode = mode;
  has_dealer = true;
  has_records = true;
  has_writer = true;
  thread_ = no_thread;
  running = false;
  ai_test_mode = false;
  active_record_path = [];
  test_data_path = "";
  sub_task = InspectionSubTask.none;
  pair_index = 0;
  pending = [];
}

module _ {D : Type 0} where
  -- `if (thread_.joinable()) thread_.join();`. A loop returns once it sees `running_` fall. `none`: the
  -- caller waits for a loop that runs.
  abbrev join_thread : Thread → PreprocessModule D → Option (PreprocessModule D)
  join_thread no_thread p = some p
  join_thread (thread l done) p =
      if done || not p.running then some (record p { thread_ = no_thread }) else none

  unfoldable pub join : PreprocessModule D → Option (PreprocessModule D)
  join p = join_thread p.thread_ p

  unfoldable pub clear_pending : PreprocessModule D → PreprocessModule D
  clear_pending p = record p { pending = [] }

  abbrev begin_inspection : Option (PreprocessModule D) → Text → Option (PreprocessModule D)
  begin_inspection none record_path = none
  begin_inspection (some p) record_path = some (record p {
    pending = [];
    active_record_path = record_path;
    ai_test_mode = false;
    pair_index = 0;
    sub_task = installation;
    running = true;
    thread_ = thread inspection_loop false;
  })

  unfoldable pub start_inspection : PreprocessModule D → Text → Option (PreprocessModule D)
  unfolding join
  start_inspection p record_path = begin_inspection (join p) record_path

  -- With `running_` down the join always ends.
  unfoldable pub stop_inspection : PreprocessModule D → PreprocessModule D
  stop_inspection p = record p {
    running = false;
    thread_ = no_thread;
    active_record_path = [];
    sub_task = InspectionSubTask.none;
  }

  unfoldable pub set_sub_task : PreprocessModule D → InspectionSubTask → PreprocessModule D
  set_sub_task p st = record p { sub_task = st }

  abbrev begin_ai_test : Option (PreprocessModule D) → String → Text → Option (PreprocessModule D)
  begin_ai_test none test_data_path record_path = none
  begin_ai_test (some p) test_data_path record_path = some (record p {
    pending = [];
    test_data_path = test_data_path;
    active_record_path = record_path;
    ai_test_mode = true;
    pair_index = 0;
    running = true;
    thread_ = thread ai_test_loop false;
  })

  unfoldable pub start_ai_test : PreprocessModule D → String → Text → Option (PreprocessModule D)
  unfolding join
  start_ai_test p test_data_path record_path = begin_ai_test (join p) test_data_path record_path

  -- The record path and the sub-task stay.
  unfoldable pub stop_ai_test : PreprocessModule D → PreprocessModule D
  stop_ai_test p = record p { running = false; thread_ = no_thread; ai_test_mode = false }

  unfoldable pub stop : PreprocessModule D → PreprocessModule D
  stop p = record p { running = false; thread_ = no_thread }

-- `current_subfolder_`
unfoldable pub current_subfolder : InspectionSubTask → Text
current_subfolder installation = codes "installation"
current_subfolder gap_inspection = codes "inspection"
current_subfolder marking = codes "marking"
current_subfolder InspectionSubTask.none = codes "inspection"
