-- ===== src/Logic/Status.antt =====
-- src/data/StatusTracker.cpp. The singleton is a record; each setter takes the mutex and writes one
-- field. `D` is the type of doubles.
use project_viatech_ecids_co.Base.{Bool, String}
use project_viatech_ecids_co.Common.Modes.{Mode}

pub record StatusTracker (D : Type 0) : Type 0 where
  pub mode : Mode
  pub task_active : Bool
  pub sc_connected : Bool
  pub sc_capturing : Bool
  pub ai_connected : Bool
  pub ai_mode : String
  pub db_size_gb : D
  pub uploading : Bool
  pub module_id : String

module _ {D : Type 0} where
  unfoldable pub set_mode : StatusTracker D → Mode → StatusTracker D
  set_mode s m = record s { mode = m }

  unfoldable pub set_task_active : StatusTracker D → Bool → StatusTracker D
  set_task_active s active = record s { task_active = active }

  unfoldable pub set_stereo_camera_connected : StatusTracker D → Bool → StatusTracker D
  set_stereo_camera_connected s v = record s { sc_connected = v }

  unfoldable pub set_stereo_camera_capturing : StatusTracker D → Bool → StatusTracker D
  set_stereo_camera_capturing s v = record s { sc_capturing = v }

  unfoldable pub set_ai_dealer_connected : StatusTracker D → Bool → StatusTracker D
  set_ai_dealer_connected s v = record s { ai_connected = v }

  unfoldable pub set_ai_dealer_mode : StatusTracker D → String → StatusTracker D
  set_ai_dealer_mode s mode = record s { ai_mode = mode }

  unfoldable pub set_database_size_gb : StatusTracker D → D → StatusTracker D
  set_database_size_gb s gb = record s { db_size_gb = gb }

  unfoldable pub set_uploading : StatusTracker D → Bool → StatusTracker D
  set_uploading s v = record s { uploading = v }

  unfoldable pub set_module_id : StatusTracker D → String → StatusTracker D
  set_module_id s id = record s { module_id = id }
