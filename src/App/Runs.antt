-- ===== src/App/Runs.antt =====
-- src/main.cpp: any sequence of requests and of ends of AI tests.
use project_viatech_ecids_co.Base.{
  ◌≡◌, refl, ap, ◌∙◌, inl, inr, ◌⊎◌, String, str_eq, List, [], ◌∷◌, Text, Option, none, some,
}
use project_viatech_ecids_co.Common.Double.{Double}
use project_viatech_ecids_co.Common.Json.{Json, then_}
use project_viatech_ecids_co.App.{
  Core, Outside, Outcome, Reply, Sent, stop_inspection, stop_ai_test, try_set_sub_task, get_mode,
  ai_test_completed,
}
use project_viatech_ecids_co.Preprocess
use project_viatech_ecids_co.App.Requests.{
  Route, Event, requested, test_over, route, handle, step, caught, settable, set_core_parameters,
  try_set_parameter, try_get_parameter, sets_mode, gets_mode, sets_parameter, gets_parameter,
  starts_inspection, stops_inspection, stops_ai_test, sets_sub_task, starts_ai_test, camera_command,
  ai_command, views, unknown, state_of, target, with_parameter, unless_thrown, forwards,
}
use project_viatech_ecids_co.App.Consistency.{
  IsConsistent, Ends, ended, Ends-if, try_set_mode-IsConsistent, try_start_inspection-IsConsistent,
  try_start_ai_test-IsConsistent, stop_task-IsConsistent, sub_task_set-IsConsistent,
  set_core_parameter-IsConsistent,
}

module _ {D : Type 0} ⦃d : Double D⦄ (js : Json) where
  unfoldable pub run : Option (Core D) → List Event → Option (Core D)
  unfolding step
  run none es = none
  run (some c) [] = some c
  run (some c) (e ∷ es) = run (step js c e) es

  -- The state is there, and consistent.
  record Continues (o : Option (Core D)) : Type 0 where
    core : Core D
    is_core : o ≡ some core
    consistent : IsConsistent core

  caught-Continues :
      (prefix : Text) (c : Core D) (r : Text ⊎ Reply)
      → IsConsistent c
      → Continues (state_of (caught prefix (some (c, r))))
  unfolding caught state_of
  caught-Continues prefix c (inl what) h = record { core = c; is_core = refl; consistent = h }
  caught-Continues prefix c (inr r) h = record { core = c; is_core = refl; consistent = h }

  Ends-Continues :
      (prefix : Text) (o : Outcome D) → Ends o IsConsistent → Continues (state_of (caught prefix o))
  Ends-Continues prefix o e =
      let k = caught-Continues prefix e.core e.result e.holds in
      record {
        core = k.core;
        is_core = ap (λ x. state_of (caught prefix x)) e.is_result ∙ k.is_core;
        consistent = k.consistent;
      }

  with_parameter-IsConsistent :
      (c : Core D) (key : Text ⊎ String) (value : String)
      → IsConsistent c
      → IsConsistent (with_parameter c key value)
  unfolding with_parameter
  with_parameter-IsConsistent c (inl what) value h = h
  with_parameter-IsConsistent c (inr name) value h = set_core_parameter-IsConsistent c name value h

  unless_thrown-Ends :
      (c : Core D) (key : Text ⊎ String) (rest : Outcome D)
      → Ends rest IsConsistent
      → IsConsistent c
      → Ends (unless_thrown c key rest) IsConsistent
  unfolding unless_thrown
  unless_thrown-Ends c (inl what) rest r h = ended h
  unless_thrown-Ends c (inr name) rest r h = r

  set_core_parameters-IsConsistent :
      (c : Core D) (out : Outside) (ps : List js.J)
      → IsConsistent c
      → Ends (set_core_parameters js c out ps) IsConsistent
  unfolding set_core_parameters
  set_core_parameters-IsConsistent c out [] h = ended h
  set_core_parameters-IsConsistent c out (p ∷ ps) h =
      let key = then_ (js.value p "name" "") (λ name. js.value p "key" name) in
      let name = settable out c key in
      let value = js.shown p "value" in
      unless_thrown-Ends c name _
        (set_core_parameters-IsConsistent (with_parameter c name value) out ps
          (with_parameter-IsConsistent c name value h))
        h

  try_set_parameter-IsConsistent :
      (c : Core D) (out : Outside) (body : String) (x : Text ⊎ (js.J × String))
      → IsConsistent c
      → Ends (try_set_parameter js c out body x) IsConsistent
  unfolding try_set_parameter
  try_set_parameter-IsConsistent c out body (inl what) h = ended h
  try_set_parameter-IsConsistent c out body (inr (req, t)) h =
      Ends-if _ (str_eq t "core") _ _ (λ e. set_core_parameters-IsConsistent c out _ h)
        (λ e.
          Ends-if _ (str_eq t "stereo_camera") _ _ (λ e. ended h)
            (λ e. Ends-if _ (str_eq t "ai") _ _ (λ e. ended h) (λ e. ended h)))

  try_get_parameter-IsConsistent :
      (c : Core D) (out : Outside) (body : String) (x : Text ⊎ (js.J × String))
      → IsConsistent c
      → Ends (try_get_parameter js c out body x) IsConsistent
  unfolding try_get_parameter
  try_get_parameter-IsConsistent c out body (inl what) h = ended h
  try_get_parameter-IsConsistent c out body (inr (req, t)) h =
      Ends-if _ (str_eq t "core") _ _ (λ e. ended h)
        (λ e.
          Ends-if _ (str_eq t "stereo_camera") _ _ (λ e. ended h)
            (λ e. Ends-if _ (str_eq t "ai") _ _ (λ e. ended h) (λ e. ended h)))

  forwards-IsConsistent :
      (c : Core D) (out : Outside) (x : Text ⊎ Sent)
      → IsConsistent c
      → Ends (forwards c out x) IsConsistent
  unfolding forwards
  forwards-IsConsistent c out (inl what) h = ended h
  forwards-IsConsistent c out (inr s) h = ended h

  try_set_sub_task-IsConsistent :
      (c : Core D) (x : Text ⊎ String) → IsConsistent c → Ends (try_set_sub_task c x) IsConsistent
  unfolding try_set_sub_task
  try_set_sub_task-IsConsistent c (inl what) h = ended h
  try_set_sub_task-IsConsistent c (inr st) h = sub_task_set-IsConsistent c st _ h

  get_mode-IsConsistent : (c : Core D) → IsConsistent c → Ends (get_mode c) IsConsistent
  unfolding get_mode
  get_mode-IsConsistent c h = ended h

  stop_inspection-IsConsistent :
      (c : Core D) → IsConsistent c → Ends (stop_inspection c) IsConsistent
  unfolding stop_inspection Preprocess.stop_inspection
  stop_inspection-IsConsistent c h =
      ended (stop_task-IsConsistent c (Preprocess.stop_inspection c.preprocess) h refl)

  stop_ai_test-IsConsistent : (c : Core D) → IsConsistent c → Ends (stop_ai_test c) IsConsistent
  unfolding stop_ai_test Preprocess.stop_ai_test
  stop_ai_test-IsConsistent c h =
      ended (stop_task-IsConsistent c (Preprocess.stop_ai_test c.preprocess) h refl)

  handle-Continues :
      (c : Core D) (out : Outside) (r : Route) (body : String)
      → IsConsistent c
      → Continues (state_of (handle js c out r body))
  unfolding handle state_of
  handle-Continues c out (views m p) body h = record { core = c; is_core = refl; consistent = h }
  handle-Continues c out (unknown m p) body h = record { core = c; is_core = refl; consistent = h }
  handle-Continues c out sets_mode body h = Ends-Continues _ _ (try_set_mode-IsConsistent c _ h)
  handle-Continues c out gets_mode body h = Ends-Continues _ _ (get_mode-IsConsistent c h)
  handle-Continues c out sets_parameter body h =
      Ends-Continues _ _ (try_set_parameter-IsConsistent c out body (target js body) h)
  handle-Continues c out gets_parameter body h =
      Ends-Continues _ _ (try_get_parameter-IsConsistent c out body (target js body) h)
  handle-Continues c out starts_inspection body h =
      Ends-Continues _ _ (try_start_inspection-IsConsistent c out _ h)
  handle-Continues c out stops_inspection body h =
      Ends-Continues _ _ (stop_inspection-IsConsistent c h)
  handle-Continues c out stops_ai_test body h = Ends-Continues _ _ (stop_ai_test-IsConsistent c h)
  handle-Continues c out sets_sub_task body h =
      Ends-Continues _ _ (try_set_sub_task-IsConsistent c _ h)
  handle-Continues c out starts_ai_test body h =
      Ends-Continues _ _ (try_start_ai_test-IsConsistent c out _ h)
  handle-Continues c out camera_command body h =
      Ends-Continues _ _ (forwards-IsConsistent c out _ h)
  handle-Continues c out ai_command body h = Ends-Continues _ _ (forwards-IsConsistent c out _ h)

  step-Continues : (c : Core D) (e : Event) → IsConsistent c → Continues (step js c e)
  unfolding step ai_test_completed Preprocess.stop_ai_test
  step-Continues c (requested out m p body) h = handle-Continues c out (route m p) body h
  step-Continues c test_over h = record {
    core = _;
    is_core = refl;
    consistent = stop_task-IsConsistent c (Preprocess.stop_ai_test c.preprocess) h refl;
  }

  run_at-Continues : (c : Core D) (es : List Event) → IsConsistent c → Continues (run (some c) es)
  unfolding run
  run_at-Continues c [] h = record { core = c; is_core = refl; consistent = h }
  run_at-Continues c (e ∷ es) h =
      let s = step-Continues c e h in
      let k = run_at-Continues s.core es s.consistent in
      record {
        core = k.core;
        is_core = ap (λ o. run o es) s.is_core ∙ k.is_core;
        consistent = k.consistent;
      }

  -- From a consistent state every sequence of requests and of ends of AI tests is worked off: no handler
  -- waits for a thread that runs. The state that it ends in is consistent.
  pub run-IsConsistent :
      (c : Core D) (es : List Event)
      → IsConsistent c
      → (c' : Core D) × (run (some c) es ≡ some c') × IsConsistent c'
  run-IsConsistent c es h = let k = run_at-Continues c es h in (k.core, k.is_core, k.consistent)
