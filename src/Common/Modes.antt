-- ===== src/Common/Modes.antt =====
-- include/ecids_core/common/Types.h: the mode enumerations and their names.
use project_viatech_ecids_co.Base.{
  Bool, true, false, not, ◌&&◌, String, str_eq, eq_iff, ◌≡◌, refl, ◌≢◌, arith, if◌then◌else◌,
}

pub data Mode : Type 0 where
  none config inspection data_mode calibration uploading historical ai_test : Mode

-- The numbers are those of `enum class Mode`; only equality is used.
unfoldable pub mode_eq : Mode → Mode → Bool
mode_eq none none = true
mode_eq config config = true
mode_eq inspection inspection = true
mode_eq data_mode data_mode = true
mode_eq calibration calibration = true
mode_eq uploading uploading = true
mode_eq historical historical = true
mode_eq ai_test ai_test = true
mode_eq _ _ = false

unfoldable pub mode_name : Mode → String
mode_name none = "none"
mode_name config = "config"
mode_name inspection = "inspection"
mode_name data_mode = "data"
mode_name calibration = "calibration"
mode_name uploading = "uploading"
mode_name historical = "historical"
mode_name ai_test = "ai_test"

unfoldable pub mode_from_string : String → Mode
mode_from_string s =
    if str_eq s "config"
    then config
    else if str_eq s "inspection"
    then inspection
    else if str_eq s "data"
    then data_mode
    else if str_eq s "calibration"
    then calibration
    else if str_eq s "uploading"
    then uploading
    else if str_eq s "historical"
    then historical
    else if str_eq s "ai_test"
    then ai_test
    else none

unfoldable pub mode_is_exclusive : Mode → Bool
unfolding mode_eq
mode_is_exclusive m = not (mode_eq m none) && not (mode_eq m uploading)

pub data AiMode : Type 0 where
  file http binary : AiMode

unfoldable pub ai_mode_name : AiMode → String
ai_mode_name file = "file"
ai_mode_name http = "http"
ai_mode_name binary = "binary"

unfoldable pub ai_mode_from_string : String → AiMode
ai_mode_from_string s = if str_eq s "http" then http else if str_eq s "binary" then binary else file

pub data InspectionSubTask : Type 0 where
  none installation marking gap_inspection : InspectionSubTask

unfoldable pub subtask_name : InspectionSubTask → String
subtask_name none = "none"
subtask_name installation = "installation"
subtask_name marking = "marking"
subtask_name gap_inspection = "gap_inspection"

pub mode_eq_iff : (m n : Mode) → mode_eq m n ≡ true → m ≡ n
unfolding mode_eq
mode_eq_iff none none e = refl
mode_eq_iff config config e = refl
mode_eq_iff inspection inspection e = refl
mode_eq_iff data_mode data_mode e = refl
mode_eq_iff calibration calibration e = refl
mode_eq_iff uploading uploading e = refl
mode_eq_iff historical historical e = refl
mode_eq_iff ai_test ai_test e = refl
mode_eq_iff _ _ e = cc

pub mode_eq_self : (m : Mode) → mode_eq m m ≡ true
unfolding mode_eq
mode_eq_self m = ground arith

pub mode_from_string-mode_name : (m : Mode) → mode_from_string (mode_name m) ≡ m
unfolding mode_from_string mode_name
mode_from_string-mode_name none = refl
mode_from_string-mode_name config = refl
mode_from_string-mode_name inspection = refl
mode_from_string-mode_name data_mode = refl
mode_from_string-mode_name calibration = refl
mode_from_string-mode_name uploading = refl
mode_from_string-mode_name historical = refl
mode_from_string-mode_name ai_test = refl

-- A text that is read as a mode other than `none` is the name of that mode.
pub mode_name-mode_from_string :
    (s : String) → mode_from_string s ≢ Mode.none → mode_name (mode_from_string s) ≡ s
unfolding mode_from_string mode_name
mode_name-mode_from_string s h = ground (
  arith,
  eq_iff s "config",
  eq_iff s "inspection",
  eq_iff s "data",
  eq_iff s "calibration",
  eq_iff s "uploading",
  eq_iff s "historical",
  eq_iff s "ai_test",
)
