-- ===== src/Common/Response.antt =====
-- include/ecids_core/common/Response.h, and `make_response` of src/main.cpp without its JSON text.
use project_viatech_ecids_co.Base.{ℕ, String}

pub data ResponseCode : Type 0 where
  success error not_ready already_init invalid_param unavailable mode_conflict : ResponseCode

-- `static_cast<int>(rc)`
unfoldable pub code_number : ResponseCode → ℕ
code_number success = 0
code_number error = 1
code_number not_ready = 2
code_number already_init = 3
code_number invalid_param = 4
code_number unavailable = 5
code_number mode_conflict = 6

unfoldable pub response_code_name : ResponseCode → String
response_code_name success = "Success"
response_code_name error = "Error"
response_code_name not_ready = "NotReady"
response_code_name already_init = "AlreadyInit"
response_code_name invalid_param = "InvalidParam"
response_code_name unavailable = "Unavailable"
response_code_name mode_conflict = "ModeConflict"
