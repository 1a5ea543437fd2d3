-- ===== src/Examples/Base64.antt =====
-- Five bytes through `base64_encode` of src/main.cpp.
use project_viatech_ecids_co.Base.{◌≡◌, codes, arith}
use project_viatech_ecids_co.App.Base64.{base64, base64_encode, base64_encode-base64}

base64_encode-base64_example : base64_encode (codes "gap!?") ≡ base64 (codes "gap!?")
base64_encode-base64_example = base64_encode-base64 (codes "gap!?") (ground arith)
