-- ===== src/App/Consistency.antt =====
-- src/main.cpp: what every request keeps of the state that the parts share.
use project_viatech_ecids_co.Base.{
  ◌≡◌, ap, ◌∙◌, ◌≢◌, ◌⊎◌, inl, inr, Bool, true, false, not, ◌&&◌, ◌||◌, String, str_eq, [], Text,
  Option, none, some, refl, arith, if◌then◌else◌,
}
use project_viatech_ecids_co.Common.Modes.{InspectionSubTask, Mode, mode_from_string, mode_eq}
use project_viatech_ecids_co.Common.Response
use project_viatech_ecids_co.Common.Response.{code_number}
use project_viatech_ecids_co.Common.Double.{Double}
use project_viatech_ecids_co.Logic.Status
use project_viatech_ecids_co.Database.Records.{set_active_record}
use project_viatech_ecids_co.Logic.ModeControl.{
  Board, InStep, set_mode, set_mode-InStep, set_mode-keeps, mode-set_mode,
}
use project_viatech_ecids_co.Logic.Task.{TaskType, TaskManager, IsClean, step-IsClean}
use project_viatech_ecids_co.Logic.Task
use project_viatech_ecids_co.Common.Timestamp.{TimeParts}
use project_viatech_ecids_co.Preprocess.{PreprocessModule}
use project_viatech_ecids_co.Preprocess
use project_viatech_ecids_co.App.{
  Core, code_eq, sub_task_set, inspection_started, test_started, with_active, stop_task, Outside,
  Outcome, Reply, try_set_mode, try_start_inspection, try_start_ai_test, run_inspection,
  run_ai_test, set_core_parameter,
}

-- The mode that goes with the task.
unfoldable pub task_mode : TaskType → Mode → Bool
unfolding mode_eq
task_mode Task.inspection m = mode_eq m Mode.inspection
task_mode Task.installation m = mode_eq m Mode.inspection
task_mode Task.ai_test m = mode_eq m Mode.ai_test
task_mode TaskType.none m = true

module _ {D : Type 0} where
  pub record IsConsistentParts (b : Board D) (t : TaskManager) (record_ : Text) (running : Bool)
      : Type 0 where
    pub in_step : InStep b
    pub clean : IsClean t
    pub mode_fits : task_mode t.task_type b.control.mode ≡ true
    pub active : b.status.task_active ≡ true → t.task_type ≢ TaskType.none
    pub no_task : b.status.task_active ≡ false → t.task_type ≡ TaskType.none
    pub no_record : b.status.task_active ≡ false → record_ ≡ []
    pub no_loop : b.status.task_active ≡ false → running ≡ false

  -- The controller and the status board agree; a task is active exactly if the task manager has one, and
  -- then the mode is that of the task; with no task there is no active record and no loop runs.
  abbrev pub IsConsistent : Core D → Type 0
  IsConsistent c = IsConsistentParts c.board c.tasks c.records.active_record c.preprocess.running

  -- The handler comes to an end, in a state with the property.
  pub record Ends (o : Outcome D) (P : Core D → Type 0) : Type 0 where
    pub core : Core D
    pub result : Text ⊎ Reply
    pub is_result : o ≡ some (core, result)
    pub holds : P core

  pub ended : {P : Core D → Type 0} {c : Core D} {r : Text ⊎ Reply} → P c → Ends (some (c, r)) P
  ended h = record { core = _; result = _; is_result = refl; holds = h }

module _ {D : Type 0} ⦃d : Double D⦄ where
  -- With the loop stopped nothing is waited for.
  pub idle_starts :
      (p : PreprocessModule D) (r : Text)
      → p.running ≡ false
      → Preprocess.start_inspection p r ≢ none
  unfolding Preprocess.start_inspection
  idle_starts p r h = ground arith

  idle_tests :
      (p : PreprocessModule D) (t : String) (r : Text)
      → p.running ≡ false
      → Preprocess.start_ai_test p t r ≢ none
  unfolding Preprocess.start_ai_test
  idle_tests p t r h = ground arith

  -- With a task only the board and the tasks count.
  busy_parts :
      {b : Board D} {t : TaskManager} {r : Text} {l : Bool}
      → InStep b
      → IsClean t
      → task_mode t.task_type b.control.mode ≡ true
      → b.status.task_active ≡ true
      → t.task_type ≢ TaskType.none
      → IsConsistentParts b t r l
  busy_parts s t m a n = record {
    in_step = s;
    clean = t;
    mode_fits = m;
    active = λ e. n;
    no_task = ground arith;
    no_record = ground arith;
    no_loop = ground arith;
  }

  -- Without a task no task runs, there is no record, and the loop is stopped.
  idle_parts :
      {b : Board D} {t : TaskManager} {r : Text} {l : Bool}
      → InStep b
      → IsClean t
      → b.status.task_active ≡ false
      → t.task_type ≡ TaskType.none
      → r ≡ []
      → l ≡ false
      → IsConsistentParts b t r l
  unfolding task_mode
  idle_parts s t a n r l = record {
    in_step = s;
    clean = t;
    mode_fits = ground arith;
    active = ground arith;
    no_task = λ e. n;
    no_record = λ e. r;
    no_loop = λ e. l;
  }

  active_kept :
      (b : Board D) (m : Mode) → (set_mode b m).0.status.task_active ≡ b.status.task_active
  active_kept b m = (set_mode-keeps b m).0

  with_mode-IsConsistent :
      (c : Core D) (m : Mode)
      → IsConsistent c
      → c.board.status.task_active ≡ false
      → IsConsistent (record c { board = (set_mode c.board m).0 })
  with_mode-IsConsistent c m h a =
      idle_parts (set_mode-InStep c.board m h.in_step) h.clean (active_kept c.board m ∙ a)
        (h.no_task a) (h.no_record a) (h.no_loop a)

  -- A branch is taken or the other.
  pub Ends-if :
      (P : Core D → Type 0) (b : Bool) (x y : Outcome D)
      → (b ≡ true → Ends x P)
      → (b ≡ false → Ends y P)
      → Ends (if b then x else y) P
  Ends-if P true x y f g = f refl
  Ends-if P false x y f g = g refl

  pub try_set_mode-IsConsistent :
      (c : Core D) (m : Text ⊎ String) → IsConsistent c → Ends (try_set_mode c m) IsConsistent
  unfolding try_set_mode
  try_set_mode-IsConsistent c (inl what) h = ended h
  try_set_mode-IsConsistent c (inr m) h =
      Ends-if _ (mode_eq (mode_from_string m) Mode.none) _ _ (λ e. ended h)
        (λ e.
          Ends-if _ c.board.status.task_active _ _ (λ e. ended h)
            (λ idle.
              Ends-if _ (code_eq (set_mode c.board (mode_from_string m)).1 Response.success) _ _
                (λ e. ended (with_mode-IsConsistent c (mode_from_string m) h idle))
                (λ e. ended (with_mode-IsConsistent c (mode_from_string m) h idle))))

  inspection_started-IsConsistent :
      (c : Core D) (r : Text) (o : Option (PreprocessModule D))
      → o ≢ none
      → IsConsistent c
      → c.board.status.task_active ≡ true
      → Ends (inspection_started c r o) IsConsistent
  unfolding inspection_started
  inspection_started-IsConsistent c r none w h a = absurd (w refl)
  inspection_started-IsConsistent c r (some p) w h a =
      ended (busy_parts h.in_step h.clean h.mode_fits a (h.active a))

  run_inspection-IsConsistent :
      (c : Core D) (parts : TimeParts) (e : Option Text) (s k t : String)
      → IsConsistent c
      → c.board.status.task_active ≡ true
      → c.preprocess.running ≡ false
      → Ends (run_inspection c parts e s k t) IsConsistent
  unfolding run_inspection
  run_inspection-IsConsistent c parts (some what) s k t h a l = ended h
  run_inspection-IsConsistent c parts none s k t h a l =
      inspection_started-IsConsistent _ _ _ (idle_starts c.preprocess _ l)
        (busy_parts h.in_step h.clean h.mode_fits a (h.active a)) a

  set_task_active-InStep : (b : Board D) (v : Bool) → InStep b → InStep (with_active b v)
  unfolding Status.set_task_active
  set_task_active-InStep b v h = record {
    same_mode = h.same_mode;
    same_uploading = h.same_uploading;
    not_uploading = h.not_uploading;
  }

  -- The board of a task that starts.
  started-IsConsistent :
      (c : Core D) (m : Mode) (t : TaskManager)
      → IsConsistent c
      → m ≢ Mode.uploading
      → IsClean t
      → task_mode t.task_type m ≡ true
      → t.task_type ≢ TaskType.none
      → IsConsistent (record c { board = with_active (set_mode c.board m).0 true; tasks = t })
  unfolding Status.set_task_active
  started-IsConsistent c m t h u k f n =
      busy_parts (set_task_active-InStep _ true (set_mode-InStep c.board m h.in_step)) k
        (ap (task_mode t.task_type) (mode-set_mode c.board m u) ∙ f) refl n

  pub try_start_inspection-IsConsistent :
      (c : Core D) (out : Outside) (x : Text ⊎ (String × String × String))
      → IsConsistent c
      → Ends (try_start_inspection c out x) IsConsistent
  unfolding try_start_inspection task_mode Task.step Status.set_task_active
  try_start_inspection-IsConsistent c out (inl what) h = ended h
  try_start_inspection-IsConsistent c out (inr (s, k, t)) h =
      Ends-if _ (str_eq s "" || str_eq k "") _ _ (λ e. ended h)
        (λ e.
          Ends-if _ c.board.status.task_active _ _ (λ e. ended h)
            (λ idle.
              Ends-if _
                (not (code_eq (set_mode c.board Mode.inspection).1 Response.success)
                  && not (code_eq (set_mode c.board Mode.inspection).1 Response.already_init))
                _ _ (λ e. ended (with_mode-IsConsistent c Mode.inspection h idle))
                (λ e.
                  run_inspection-IsConsistent _ _ _ _ _ _
                    (started-IsConsistent c Mode.inspection _ h (ground arith)
                      (step-IsClean c.tasks (Task.starts_inspection s k t)) refl (ground arith))
                    refl (h.no_loop idle))))

  test_started-IsConsistent :
      (c : Core D) (r : Text) (o : Option (PreprocessModule D))
      → o ≢ none
      → IsConsistent c
      → c.board.status.task_active ≡ true
      → Ends (test_started c r o) IsConsistent
  unfolding test_started
  test_started-IsConsistent c r none w h a = absurd (w refl)
  test_started-IsConsistent c r (some p) w h a =
      ended (busy_parts h.in_step h.clean h.mode_fits a (h.active a))

  run_ai_test-IsConsistent :
      (c : Core D) (parts : TimeParts) (e : Option Text) (t s k : String)
      → IsConsistent c
      → c.board.status.task_active ≡ true
      → c.preprocess.running ≡ false
      → Ends (run_ai_test c parts e t s k) IsConsistent
  unfolding run_ai_test
  run_ai_test-IsConsistent c parts (some what) t s k h a l = ended h
  run_ai_test-IsConsistent c parts none t s k h a l =
      test_started-IsConsistent _ _ _ (idle_tests c.preprocess _ _ l)
        (busy_parts h.in_step h.clean h.mode_fits a (h.active a)) a

  pub try_start_ai_test-IsConsistent :
      (c : Core D) (out : Outside) (x : Text ⊎ (String × String × String))
      → IsConsistent c
      → Ends (try_start_ai_test c out x) IsConsistent
  unfolding try_start_ai_test task_mode Task.step Status.set_task_active
  try_start_ai_test-IsConsistent c out (inl what) h = ended h
  try_start_ai_test-IsConsistent c out (inr (t, s, k)) h =
      Ends-if _ (str_eq t "") _ _ (λ e. ended h)
        (λ e.
          Ends-if _ c.board.status.task_active _ _ (λ e. ended h)
            (λ idle.
              Ends-if _
                (not (code_eq (set_mode c.board Mode.ai_test).1 Response.success)
                  && not (code_eq (set_mode c.board Mode.ai_test).1 Response.already_init))
                _ _ (λ e. ended (with_mode-IsConsistent c Mode.ai_test h idle))
                (λ e.
                  run_ai_test-IsConsistent _ _ _ _ _ _
                    (started-IsConsistent c Mode.ai_test _ h (ground arith)
                      (step-IsClean c.tasks (Task.starts_ai_test t)) refl (ground arith))
                    refl (h.no_loop idle))))

  -- Whatever stops the task, if the loop is stopped with it.
  pub stop_task-IsConsistent :
      (c : Core D) (p : PreprocessModule D)
      → IsConsistent c
      → p.running ≡ false
      → IsConsistent (stop_task c p)
  unfolding Task.step Status.set_task_active Task.stop set_active_record
  stop_task-IsConsistent c p h l =
      idle_parts (set_mode-InStep _ Mode.none (set_task_active-InStep c.board false h.in_step))
        (step-IsClean c.tasks Task.stops) (active_kept _ Mode.none) refl refl l

  pub sub_task_set-IsConsistent :
      (c : Core D) (st : String) (o : Option InspectionSubTask)
      → IsConsistent c
      → Ends (sub_task_set c st o) IsConsistent
  unfolding Preprocess.set_sub_task sub_task_set
  sub_task_set-IsConsistent c st none h = ended h
  sub_task_set-IsConsistent c st (some t) h = ended h

  if_holds : (P : Core D → Type 0) (b : Bool) (x y : Core D) → P x → P y → P (if b then x else y)
  if_holds P true x y f g = f
  if_holds P false x y f g = g

  pub set_core_parameter-IsConsistent :
      (c : Core D) (n v : String) → IsConsistent c → IsConsistent (set_core_parameter c n v)
  unfolding set_core_parameter
  set_core_parameter-IsConsistent c n v h = if_holds IsConsistent (str_eq n "ai_mode") _ _ h (
      if_holds IsConsistent (str_eq n "processing_paused") _ _ h
        (if_holds IsConsistent (str_eq n "") _ _ h h))
