-- ===== src/App/Starts.antt =====
-- src/main.cpp: what a start does, when it is refused, and how a task ends.
use project_viatech_ecids_co.Base.{
  ◌≡◌, ◌≢◌, refl, ap, subst, ◌∙◌, sym, inl, inr, ◌⊎◌, Bool, true, false, not, ◌&&◌, ◌||◌, String,
  str_eq, eq_iff, [], ◌∷◌, ◌++◌, Text, codes, Option, none, some, if◌then◌else◌, arith,
}
use project_viatech_ecids_co.Common.Modes.{Mode}
use project_viatech_ecids_co.Common.Response
use project_viatech_ecids_co.Common.Response.{code_number}
use project_viatech_ecids_co.Common.Double.{Double}
use project_viatech_ecids_co.Common.Json.{Json}
use project_viatech_ecids_co.Logic.ModeControl.{Board, set_mode, mode-set_mode, set_mode-keeps}
use project_viatech_ecids_co.Logic.Task.{TaskType, idle}
use project_viatech_ecids_co.Logic.Task
use project_viatech_ecids_co.Logic.Status
use project_viatech_ecids_co.Database.Records.{create_inspection_record, set_active_record}
use project_viatech_ecids_co.Preprocess
use project_viatech_ecids_co.App.{
  no_data, Core, Outside, Outcome, Reply, response, reply, arm, test_completed, code_eq,
  with_active, try_set_mode, try_start_inspection, try_start_ai_test, run_inspection,
  inspection_started, ai_test_completed,
}
use project_viatech_ecids_co.App.Requests.{
  handle, caught, sets_mode, starts_inspection, starts_ai_test,
}
use project_viatech_ecids_co.App.Consistency.{IsConsistent, idle_starts}

both_there : (s k : String) → s ≢ "" → k ≢ "" → (str_eq s "" || str_eq k "") ≡ false
both_there s k hs hk = ground (arith, eq_iff s "", eq_iff k "")

module _ {D : Type 0} ⦃d : Double D⦄ where
  -- Nothing is changed by the outcome.
  abbrev Unchanged : Core D → Outcome D → Type 0
  Unchanged c o = (r : Text ⊎ Reply) × (o ≡ some (c, r))

  if-Unchanged :
      (c : Core D) (b : Bool) (x y : Outcome D)
      → Unchanged c x
      → Unchanged c y
      → Unchanged c (if b then x else y)
  if-Unchanged c true x y f g = f
  if-Unchanged c false x y f g = g

  if_true-Unchanged :
      (c : Core D) (b : Bool) (x y : Outcome D)
      → b ≡ true
      → Unchanged c x
      → Unchanged c (if b then x else y)
  if_true-Unchanged c true x y e f = f
  if_true-Unchanged c false x y e f = ground arith

  busy_set_mode :
      (c : Core D) (x : Text ⊎ String)
      → c.board.status.task_active ≡ true
      → Unchanged c (try_set_mode c x)
  unfolding try_set_mode
  busy_set_mode c (inl what) a = (_, refl)
  busy_set_mode c (inr m) a = if-Unchanged c _ _ _ (_, refl) (if_true-Unchanged c _ _ _ a (_, refl))

  busy_start_inspection :
      (c : Core D) (out : Outside) (x : Text ⊎ (String × String × String))
      → c.board.status.task_active ≡ true
      → Unchanged c (try_start_inspection c out x)
  unfolding try_start_inspection
  busy_start_inspection c out (inl what) a = (_, refl)
  busy_start_inspection c out (inr (s, k, t)) a =
      if-Unchanged c _ _ _ (_, refl) (if_true-Unchanged c _ _ _ a (_, refl))

  busy_start_ai_test :
      (c : Core D) (out : Outside) (x : Text ⊎ (String × String × String))
      → c.board.status.task_active ≡ true
      → Unchanged c (try_start_ai_test c out x)
  unfolding try_start_ai_test
  busy_start_ai_test c out (inl what) a = (_, refl)
  busy_start_ai_test c out (inr (t, s, k)) a =
      if-Unchanged c _ _ _ (_, refl) (if_true-Unchanged c _ _ _ a (_, refl))

  caught-Unchanged :
      (c : Core D) (prefix : Text) (o : Outcome D)
      → Unchanged c o
      → (r : Reply) × (caught prefix o ≡ some (c, r))
  unfolding caught
  caught-Unchanged c prefix o (inl what, e) = (_, ap (caught prefix) e)
  caught-Unchanged c prefix o (inr r, e) = (_, ap (caught prefix) e)

  -- While a task is active, a request that sets the mode or starts a task is answered and changes nothing,
  -- whatever its body.
  pub busy_unchanged :
      (js : Json) (c : Core D) (out : Outside) (body : String)
      → c.board.status.task_active ≡ true
      → ((r : Reply) × (handle js c out sets_mode body ≡ some (c, r)))
        × ((r : Reply) × (handle js c out starts_inspection body ≡ some (c, r)))
        × ((r : Reply) × (handle js c out starts_ai_test body ≡ some (c, r)))
  unfolding handle
  busy_unchanged js c out body a = (
    caught-Unchanged c _ _ (busy_set_mode c _ a),
    caught-Unchanged c _ _ (busy_start_inspection c out _ a),
    caught-Unchanged c _ _ (busy_start_ai_test c out _ a),
  )

  -- When the 120 seconds after an AI test are over, the task that runs then is ended, be it an inspection:
  -- no task is active, the loop is stopped and the mode is left. Frames are still taken, and the camera is
  -- not told to stop.
  ai_test_completed_lem :
      (c : Core D)
      → ((ai_test_completed c).board.status.task_active ≡ false)
        × ((ai_test_completed c).board.control.mode ≡ Mode.none)
        × ((ai_test_completed c).tasks ≡ idle)
        × ((ai_test_completed c).preprocess.running ≡ false)
        × ((ai_test_completed c).records.active_record ≡ [])
        × ((ai_test_completed c).processing_paused ≡ c.processing_paused)
        × ((ai_test_completed c).sent ≡ c.sent ++ test_completed ∷ [])
  unfolding ai_test_completed Preprocess.stop_ai_test Task.stop set_active_record
      Status.set_task_active
  ai_test_completed_lem c = (
    (set_mode-keeps (with_active c.board false) Mode.none).0,
    mode-set_mode (with_active c.board false) Mode.none (ground arith),
    refl,
    refl,
    refl,
    refl,
    refl,
  )

  -- The board and the tasks that a start hands on.
  abbrev begun : Core D → String → String → String → Core D
  begun c s k t = record c {
    board = with_active (set_mode c.board Mode.inspection).0 true;
    tasks = Task.start_inspection c.tasks s k t;
  }

  code_fits :
      (b : Board D)
      → (not (code_eq (set_mode b Mode.inspection).1 Response.success)
          && not (code_eq (set_mode b Mode.inspection).1 Response.already_init))
        ≡ false
  unfolding set_mode code_number
  code_fits b = ground arith

  if_false : (b : Bool) (x y : Outcome D) → b ≡ false → (if b then x else y) ≡ y
  if_false true x y e = ground arith
  if_false false x y e = refl

  -- With both ids and no task, a start goes on to create the record.
  start_begins :
      (c : Core D) (out : Outside) (s k t : String)
      → s ≢ ""
      → k ≢ ""
      → c.board.status.task_active ≡ false
      → try_start_inspection c out (inr (s, k, t))
        ≡ run_inspection (begun c s k t) out.parts out.disk_error s k t
  unfolding try_start_inspection
  start_begins c out s k t hs hk a =
      if_false _ _ _ (both_there s k hs hk)
      ∙ (if_false _ _ _ a ∙ if_false _ _ _ (code_fits c.board))

  -- If creating the record's folders fails, the reply is an error, but the task stays active and the mode
  -- is `inspection`, though no loop was started: a further start is refused until a stop.
  pub failed_start_stays_active :
      (c : Core D) (out : Outside) (s k t : String) (what : Text)
      → IsConsistent c
      → s ≢ ""
      → k ≢ ""
      → c.board.status.task_active ≡ false
      → out.disk_error ≡ some what
      → (c' : Core D) × (caught [] (try_start_inspection c out (inr (s, k, t)))
          ≡ some (c', response (code_number Response.error) what no_data))
        × (c'.board.status.task_active ≡ true)
        × (c'.board.control.mode ≡ Mode.inspection)
        × (c'.preprocess.running ≡ false)
        × (c'.records.active_record ≡ [])
  unfolding caught run_inspection Status.set_task_active
  failed_start_stays_active c out s k t what h hs hk a e = (
    begun c s k t,
    ap (caught []) (
        start_begins c out s k t hs hk a
        ∙ ap (λ o. run_inspection (begun c s k t) out.parts o s k t) e),
    refl,
    mode-set_mode c.board Mode.inspection (ground arith),
    h.no_loop a,
    h.no_record a,
  )

  -- The state of an inspection that was started from another state, saved under a path.
  pub record IsInspecting (c b : Core D) (path : Text) : Type 0 where
    pub mode : c.board.control.mode ≡ Mode.inspection
    pub active : c.board.status.task_active ≡ true
    pub task : c.tasks.task_type ≡ Task.inspection
    pub record_ : c.records.active_record ≡ path
    pub saved_in : c.preprocess.active_record_path ≡ path
    pub running : c.preprocess.running ≡ true
    pub blank : c.preprocess.pending ≡ []
    pub taking : c.processing_paused ≡ false
    pub armed : c.sent ≡ b.sent ++ arm

  pub record Started (b : Core D) (path : Text) (o : Outcome D) : Type 0 where
    pub core : Core D
    pub message : Text
    pub data_ : Text
    pub is_outcome : o ≡ reply core Response.success message data_
    pub inspecting : IsInspecting core b path

  abbrev pub record_path : Core D → Outside → String → String → String → Text
  record_path c out s k t =
      (create_inspection_record c.records out.parts (codes s) (codes k) (codes t)).0.1

  loop-Started :
      (c b : Core D) (path : Text) (o : Option (Preprocess.PreprocessModule D))
      → o ≡ Preprocess.start_inspection c.preprocess path
      → c.preprocess.running ≡ false
      → c.board.control.mode ≡ Mode.inspection
      → c.board.status.task_active ≡ true
      → c.tasks.task_type ≡ Task.inspection
      → c.records.active_record ≡ path
      → c.processing_paused ≡ false
      → c.sent ≡ b.sent ++ arm
      → Started b path (inspection_started c path o)
  unfolding inspection_started Preprocess.start_inspection
  loop-Started c b path none e l m a t r q w = absurd (idle_starts c.preprocess path l (sym e))
  loop-Started c b path (some p) e l m a t r q w = record {
    core = record c { preprocess = p; wd_sum = d.of_nat 0; wd_count = 0 };
    message = _;
    data_ = _;
    is_outcome = refl;
    inspecting = record {
      mode = m;
      active = a;
      task = t;
      record_ = r;
      saved_in = ground arith;
      running = ground arith;
      blank = ground arith;
      taking = q;
      armed = w;
    };
  }

  -- From a consistent state with no task, a start with both ids and a disk that works succeeds: the mode is
  -- `inspection`, the task is active, the loop runs with no pending request, frames are taken, the camera
  -- got its three commands, and results are saved under the record that was created.
  pub start_inspection_succeeds :
      (c : Core D) (out : Outside) (s k t : String)
      → IsConsistent c
      → s ≢ ""
      → k ≢ ""
      → c.board.status.task_active ≡ false
      → out.disk_error ≡ none
      → Started c (record_path c out s k t) (try_start_inspection c out (inr (s, k, t)))
  unfolding run_inspection Status.set_task_active set_active_record Task.start_inspection
  start_inspection_succeeds c out s k t h hs hk a e =
      subst (Started c (record_path c out s k t))
        (sym (
          start_begins c out s k t hs hk a
          ∙ ap (λ o. run_inspection (begun c s k t) out.parts o s k t) e))
        (loop-Started _ c _ _ refl (h.no_loop a)
          (mode-set_mode c.board Mode.inspection (ground arith)) refl refl refl refl refl)
