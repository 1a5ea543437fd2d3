-- ===== src/App/Requests.antt =====
-- src/main.cpp: the handler of API 3a, from the method, path and body of a request to its answer.
use project_viatech_ecids_co.Base.{
  ◌&&◌, ◌||◌, String, str_eq, List, [], ◌∷◌, ◌++◌, Text, codes, Option, none, some, if◌then◌else◌,
  ◌⊎◌, inl, inr,
}
use project_viatech_ecids_co.Common.Modes.{mode_name, ai_mode_name}
use project_viatech_ecids_co.Common.Response
use project_viatech_ecids_co.Common.Response.{code_number}
use project_viatech_ecids_co.Common.Double.{Double}
use project_viatech_ecids_co.Common.Json.{Json, then_}
use project_viatech_ecids_co.App.{
  no_data, Core, Sent, Reply, Outside, Outcome, reply, answered, response, to_camera, to_ai,
  set_core_parameter, try_set_mode, try_start_inspection, try_start_ai_test, try_set_sub_task,
  get_mode, stop_inspection, stop_ai_test, ai_test_completed,
}

pub data Route : Type 0 where
  sets_mode gets_mode sets_parameter gets_parameter starts_inspection : Route
  stops_inspection stops_ai_test sets_sub_task starts_ai_test : Route
  camera_command ai_command : Route
  views unknown : String → String → Route

unfoldable pub route : String → String → Route
route method path =
    if str_eq method "GET" && str_eq path "/CheckStatus"
    then views method path
    else if str_eq method "GET" && str_eq path "/GetHistory"
    then views method path
    else if str_eq method "POST" && str_eq path "/GetImage"
    then views method path
    else if str_eq method "POST" && str_eq path "/GetRecord"
    then views method path
    else if str_eq method "POST" && str_eq path "/SetMode"
    then sets_mode
    else if str_eq method "GET" && str_eq path "/GetMode"
    then gets_mode
    else if str_eq method "POST" && str_eq path "/SetParameter"
    then sets_parameter
    else if str_eq method "POST" && str_eq path "/GetParameter"
    then gets_parameter
    else if str_eq method "POST" && str_eq path "/StartInspection"
    then starts_inspection
    else if str_eq method "POST" && str_eq path "/StopInspection"
    then stops_inspection
    else if str_eq method "POST" && str_eq path "/StopAITest"
    then stops_ai_test
    else if str_eq method "POST" && str_eq path "/SetSubTask"
    then sets_sub_task
    else if str_eq method "POST" && str_eq path "/StartAITest"
    then starts_ai_test
    else if str_eq method "POST" && str_eq path "/StereoCameraCommand"
    then camera_command
    else if str_eq method "POST" && str_eq path "/AICommand"
    then ai_command
    else unknown method path

-- The `catch` clauses: what was thrown becomes the message of an error reply.
unfoldable pub caught : {D : Type 0} → Text → Outcome D → Option (Core D × Reply)
caught prefix none = none
caught prefix (some (c, inl what)) =
    some (c, response (code_number Response.error) (prefix ++ what) no_data)
caught prefix (some (c, inr r)) = some (c, r)

pub data Event : Type 0 where
  requested : Outside → String → String → String → Event
  test_over : Event

unfoldable pub state_of : {D : Type 0} → Option (Core D × Reply) → Option (Core D)
state_of none = none
state_of (some (c, r)) = some c

-- A parsed body and its members that a handler reads first.
module _ (js : Json) where
  abbrev member : String → String → String → Text ⊎ String
  member body key default = then_ (js.parse body) (λ req. js.value req key default)

  abbrev members :
      String
      → String × String
      → String × String
      → String × String
      → Text ⊎ (String × String × String)
  members body (k, u) (l, v) (m, w) = then_ (js.parse body) (λ req.
      then_ (js.value req k u)
        (λ a. then_ (js.value req l v) (λ b. then_ (js.value req m w) (λ e. inr (a, b, e)))))

  abbrev pub target : String → Text ⊎ (js.J × String)
  target body =
      then_ (js.parse body) (λ req. then_ (js.value req "module" "core") (λ m. inr (req, m)))

  abbrev camera_request : String → Text ⊎ Sent
  camera_request body = then_ (js.parse body) (λ req.
      then_ (js.value req "command" "CheckStatus")
        (λ cmd. inr (to_camera cmd (js.dumped req "params" "{}"))))

  abbrev ai_request : String → Text ⊎ Sent
  ai_request body = then_ (js.parse body) (λ req.
      then_ (js.value req "action" "CheckStatus")
        (λ action. inr (to_ai action (js.dumped req "params" ""))))

abbrev thrown_or : Option Text → String → Text ⊎ String
thrown_or none name = inr name
thrown_or (some what) name = inl what

module _ {D : Type 0} ⦃d : Double D⦄ where
  -- `cfg.set_string` may throw, for a name that stands for a setting.
  unfoldable pub settable : Outside → Core D → Text ⊎ String → Text ⊎ String
  settable out c (inl what) = inl what
  settable out c (inr name) =
      if str_eq name "processing_paused" || str_eq name ""
      then inr name
      else thrown_or
          (out.setting_error c.settings (if str_eq name "ai_mode" then "api2a.ai_mode" else name))
          name

  unfoldable pub with_parameter : Core D → Text ⊎ String → String → Core D
  unfolding set_core_parameter
  with_parameter c (inl what) value = c
  with_parameter c (inr name) value = set_core_parameter c name value

  unfoldable pub unless_thrown : Core D → Text ⊎ String → Outcome D → Outcome D
  unless_thrown c (inl what) rest = some (c, inl what)
  unless_thrown c (inr name) rest = rest

  unfoldable pub forwards : Core D → Outside → Text ⊎ Sent → Outcome D
  forwards c out (inl what) = some (c, inl what)
  forwards c out (inr s) = answered c out s

module _ {D : Type 0} ⦃d : Double D⦄ (js : Json) where
  -- The loop over `parameters`. What comes before an entry that throws stays set.
  unfoldable pub set_core_parameters : Core D → Outside → List js.J → Outcome D
  unfolding settable
  set_core_parameters c out [] = reply c Response.success (codes "Core parameters updated") no_data
  set_core_parameters c out (p ∷ ps) =
      let key = then_ (js.value p "name" "") (λ name. js.value p "key" name) in
      let name = settable out c key in
      let rest = set_core_parameters (with_parameter c name (js.shown p "value")) out ps in
      unless_thrown c name rest

  unfoldable pub try_set_parameter : Core D → Outside → String → Text ⊎ (js.J × String) → Outcome D
  unfolding set_core_parameters
  try_set_parameter c out body (inl what) = some (c, inl what)
  try_set_parameter c out body (inr (req, target)) =
      if str_eq target "core"
      then set_core_parameters c out (js.items req "parameters")
      else if str_eq target "stereo_camera"
      then answered c out (to_camera "SetParameter" body)
      else if str_eq target "ai"
      then answered c out (to_ai "SetParameter" (js.dumped req "parameters" ""))
      else reply c Response.invalid_param (codes "Unknown module: " ++ codes target) no_data

  abbrev core_parameters : Core D → Text
  core_parameters c =
      codes "{\"active_mode\":\""
      ++ (codes (mode_name c.board.control.mode)
          ++ (codes "\",\"ai_mode\":\""
              ++ (codes (ai_mode_name c.ai_mode)
                  ++ (codes "\",\"processing_paused\":"
                      ++ (codes (if c.processing_paused then "true" else "false") ++ codes "}")))))

  unfoldable pub try_get_parameter : Core D → Outside → String → Text ⊎ (js.J × String) → Outcome D
  unfolding mode_name ai_mode_name
  try_get_parameter c out body (inl what) = some (c, inl what)
  try_get_parameter c out body (inr (req, target)) =
      if str_eq target "core"
      then reply c Response.success (codes "Success") (core_parameters c)
      else if str_eq target "stereo_camera"
      then answered c out (to_camera "GetParameter" body)
      else if str_eq target "ai"
      then answered c out (to_ai "GetParameter" (js.dumped req "parameters" ""))
      else reply c Response.invalid_param (codes "Unknown module: " ++ codes target) no_data

  unfoldable pub handle : Core D → Outside → Route → String → Option (Core D × Reply)
  unfolding try_set_parameter try_get_parameter
  handle c out (views method path) body = some (c, out.view path body)
  handle c out sets_mode body =
      caught (codes "Parse error: ") (try_set_mode c (member js body "mode" ""))
  handle c out gets_mode body = caught [] (get_mode c)
  handle c out sets_parameter body = caught [] (try_set_parameter c out body (target js body))
  handle c out gets_parameter body = caught [] (try_get_parameter c out body (target js body))
  handle c out starts_inspection body = caught [] (
      try_start_inspection c out
        (members js body ("station_id", "") ("escalator_id", "") ("task_id", "T1")))
  handle c out stops_inspection body = caught [] (stop_inspection c)
  handle c out stops_ai_test body = caught [] (stop_ai_test c)
  handle c out sets_sub_task body = caught [] (try_set_sub_task c (member js body "sub_task" ""))
  handle c out starts_ai_test body = caught [] (
      try_start_ai_test c out
        (members js body ("test_data_path", "") ("station_id", "") ("escalator_id", "")))
  handle c out camera_command body = caught [] (forwards c out (camera_request js body))
  handle c out ai_command body = caught [] (forwards c out (ai_request js body))
  handle c out (unknown method path) body = some (
    c,
    response (code_number Response.unavailable)
        (codes "Unavailable: " ++ (codes method ++ (codes " " ++ codes path))) no_data,
  )

  -- A request, or the end of an AI test.
  unfoldable pub step : Core D → Event → Option (Core D)
  unfolding route ai_test_completed
  step c (requested out method path body) = state_of (handle c out (route method path) body)
  step c test_over = some (ai_test_completed c)
