-- ===== src/Logic/ModeControl.antt =====
-- src/logic/ModeController.cpp, with the status board that it writes. The log of mode changes stands
-- for the calls of the registered callback: a call is made only if there is one.
use project_viatech_ecids_co.Base.{
  Bool, true, false, List, [], ◌∷◌, ◌++◌, ◌≡◌, ◌≢◌, ◌⊎◌, arith, if◌then◌else◌,
}
use project_viatech_ecids_co.Common.Modes.{Mode, mode_eq, mode_eq_iff, mode_eq_self}
use project_viatech_ecids_co.Common.Response.{ResponseCode, success, already_init, invalid_param}
use project_viatech_ecids_co.Logic.Status.{StatusTracker}
use project_viatech_ecids_co.Logic.Status

pub record ModeController : Type 0 where
  pub mode : Mode
  pub uploading : Bool
  pub has_callback : Bool
  pub changes : List (Mode × Mode)

-- The controller and the status board.
pub record Board (D : Type 0) : Type 0 where
  pub control : ModeController
  pub status : StatusTracker D

abbrev notify : ModeController → Mode → Mode → ModeController
notify c old new = if c.has_callback then record c { changes = c.changes ++ (old, new) ∷ [] } else c

module _ {D : Type 0} where
  unfoldable pub set_mode : Board D → Mode → Board D × ResponseCode
  unfolding mode_eq Status.set_mode
  set_mode b new_mode =
      if mode_eq new_mode Mode.uploading
      then (b, invalid_param)
      else if mode_eq b.control.mode new_mode
      then (b, already_init)
      else let c = record (b.control) { mode = new_mode } in
        (
          record {
            control = notify c b.control.mode new_mode;
            status = Status.set_mode b.status new_mode;
          },
          success,
        )

  unfoldable pub set_uploading : Board D → Bool → Board D
  unfolding Status.set_uploading
  set_uploading b enabled = record {
    control = record (b.control) { uploading = enabled };
    status = Status.set_uploading b.status enabled;
  }

  unfoldable pub on_mode_change : Board D → Board D
  on_mode_change b = record b { control = record (b.control) { has_callback = true } }

  -- The board shows what the controller holds, and the controller never holds `uploading`.
  pub record InStep (b : Board D) : Type 0 where
    pub same_mode : b.status.mode ≡ b.control.mode
    pub same_uploading : b.status.uploading ≡ b.control.uploading
    pub not_uploading : mode_eq b.control.mode Mode.uploading ≡ false

  pub set_mode-InStep : (b : Board D) (m : Mode) → InStep b → InStep (set_mode b m).0
  unfolding set_mode
  set_mode-InStep b m h = ground arith

  pub set_uploading-InStep : (b : Board D) (v : Bool) → InStep b → InStep (set_uploading b v)
  unfolding set_uploading
  set_uploading-InStep b v h = ground arith

  pub on_mode_change-InStep : (b : Board D) → InStep b → InStep (on_mode_change b)
  unfolding on_mode_change
  on_mode_change-InStep b h = ground arith

  -- After a call that is not refused the controller is in the mode that was asked for.
  pub mode-set_mode :
      (b : Board D) (m : Mode) → m ≢ Mode.uploading → (set_mode b m).0.control.mode ≡ m
  unfolding set_mode
  mode-set_mode b m h = ground (arith, mode_eq_iff m Mode.uploading, mode_eq_iff b.control.mode m)

  -- What `set_mode` does to the rest of the status board: nothing.
  pub set_mode-keeps :
      (b : Board D) (m : Mode)
      → ((set_mode b m).0.status.task_active ≡ b.status.task_active)
        × ((set_mode b m).0.control.uploading ≡ b.control.uploading)
  unfolding set_mode
  set_mode-keeps b m = ground arith

  -- Three outcomes. `invalid_param` answers exactly `uploading`; `already_init` answers exactly the
  -- mode that is set; both leave the board as it was. Any other mode is set on the controller and on
  -- the board, and the callback is called once, with the old and the new mode.
  set_mode_cases :
      (b : Board D) (m : Mode)
      → (((set_mode b m).1 ≡ invalid_param) × (m ≡ Mode.uploading) × ((set_mode b m).0 ≡ b))
        ⊎ ((((set_mode b m).1 ≡ already_init) × (m ≡ b.control.mode) × ((set_mode b m).0 ≡ b))
            ⊎ (((set_mode b m).1 ≡ success)
                × (m ≢ Mode.uploading)
                × (m ≢ b.control.mode)
                × ((set_mode b m).0.control.mode ≡ m)
                × ((set_mode b m).0.status.mode ≡ m)
                × ((set_mode b m).0.control.changes ≡ (
                    if b.control.has_callback
                    then b.control.changes ++ (b.control.mode, m) ∷ []
                    else b.control.changes))))
  unfolding set_mode
  set_mode_cases b m =
      ground (arith, mode_eq_iff m Mode.uploading, mode_eq_iff b.control.mode m, mode_eq_self m)
