-- ===== src/Api1/CameraClient.antt =====
-- src/api1/StereoCameraClient.cpp. The transfer library is an argument, which answers a request, and so is
-- the JSON library.
use project_viatech_ecids_co.Base.{
  ℕ, Bool, true, false, String, str_eq, List, [], ◌∷◌, ◌++◌, Text, codes,
}
use project_viatech_ecids_co.Common.Decimal.{decimal}
use project_viatech_ecids_co.Common.Json.{JsonBuilder}

-- The body of a request that is no POST is not sent.
pub data Request : Type 0 where
  post : Text → Text → Request
  get : Text → Request

-- There is no handle, the transfer fails with the text of its error, or there is a response.
pub data Performed : Type 0 where
  no_handle : Performed
  failed responded : Text → Performed

pub record StereoCameraClient : Type 0 where
  pub host : Text
  pub port : ℕ

-- The error's text is put between quotes as it is.
abbrev pub curl_answer : Performed → Text
curl_answer no_handle = codes "{\"code\":1,\"message\":\"curl init failed\"}"
curl_answer (failed what) = codes "{\"code\":1,\"message\":\"" ++ (what ++ codes "\"}")
curl_answer (responded response) = response

module _ (perform : Request → Performed) (client : StereoCameraClient) where
  unfoldable pub send_command : String → Text → Text → Text
  unfolding decimal
  send_command method path body =
      let url = codes "https://" ++ (client.host ++ (codes ":" ++ (decimal client.port ++ path))) in
      curl_answer (perform (request (str_eq method "POST") url body))
    where
      request : Bool → Text → Text → Request
      request true url body = post url body
      request false url body = get url

  unfoldable pub check_status : Text
  unfolding send_command
  check_status = send_command "GET" (codes "/CheckStatus") []

  unfoldable pub connect : Text
  unfolding send_command
  connect = send_command "POST" (codes "/Connect") []

  unfoldable pub disconnect : Text
  unfolding send_command
  disconnect = send_command "POST" (codes "/Disconnect") []

  unfoldable pub start_capture : Text → Text
  unfolding send_command
  start_capture data_types_json = send_command "POST" (codes "/StartCapture") data_types_json

  unfoldable pub stop_capture : Text → Text
  unfolding send_command
  stop_capture data_types_json = send_command "POST" (codes "/StopCapture") data_types_json

  module _ {D : Type 0} (b : JsonBuilder D) where
    -- The body of a command with its parameters.
    abbrev command_body : String → List (String × b.J) → Text
    command_body command params =
        b.dump (b.object (("command", b.of_string command) ∷ ("params", b.object params) ∷ []))

    unfoldable pub set_parameter : String → String → Text
    unfolding send_command
    set_parameter name value = send_command "POST" (codes "/SetParameter") (
        command_body "set_parameter"
          (("name", b.of_string name) ∷ ("value", b.of_string value) ∷ []))

    unfoldable pub get_parameter : String → Text
    unfolding send_command
    get_parameter name =
        send_command "POST" (codes "/GetParameter")
          (command_body "get_parameter" (("name", b.of_string name) ∷ []))

    unfoldable pub activate_channel : String → Text
    unfolding send_command
    activate_channel channel =
        send_command "POST" (codes "/SetParameter")
          (command_body "activate_channel" (("channel", b.of_string channel) ∷ []))

    unfoldable pub deactivate_channel : String → Text
    unfolding send_command
    deactivate_channel channel =
        send_command "POST" (codes "/SetParameter")
          (command_body "deactivate_channel" (("channel", b.of_string channel) ∷ []))
