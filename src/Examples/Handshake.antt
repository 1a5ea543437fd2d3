-- ===== src/Examples/Handshake.antt =====
-- An upgrade request to src/api3/WSSServer.cpp, in three pieces.
use project_viatech_ecids_co.Base.{◌≡◌, refl, arith, List, [], ◌∷◌, ◌++◌, some, Text, codes, take}
use project_viatech_ecids_co.Api3.Http.{Read, got, want}
use project_viatech_ecids_co.Api3.Http.Parse.{ends}
use project_viatech_ecids_co.Api3.Http.Exchange.{bytes_of, Arrives}
use project_viatech_ecids_co.Api3.Wss.{write_frame}
use project_viatech_ecids_co.Api3.Wss.Handshake.{
  accepted, retry, compute_accept_key, do_handshake, key_pos, upgrade_response,
}
use project_viatech_ecids_co.Api3.Wss.Handshake.Upgraded.{do_handshake-key}

abbrev first_line : Text
first_line = codes "GET / HTTP/1.1"

abbrev key : Text
key = codes "c2FtcGxl"

abbrev pieces : List Read
pieces =
    got (codes "GET / HTTP/1.1")
    ∷ want
    ∷ got (13 ∷ 10 ∷ (codes "Upgrade: websocket" ++ 13 ∷ []))
    ∷ got (10 ∷ (codes "Sec-WebSocket-Key: c2FtcGxl" ++ 13 ∷ 10 ∷ 13 ∷ 10 ∷ []))
    ∷ []

abbrev cut : Text → Text
cut s = take 20 s

abbrev same : Text → Text
same s = s

do_handshake-key_example :
    do_handshake cut same retry accepted pieces (100 ∷ 100 ∷ [])
    ≡ some (write_frame (100 ∷ 100 ∷ []) (upgrade_response (compute_accept_key cut same key)))
unfolding Arrives bytes_of ends key_pos
do_handshake-key_example =
    do_handshake-key cut same first_line (codes "Upgrade: websocket" ∷ []) [] key
      (first_line ++ 13 ∷ 10 ∷ [])
      (13 ∷ 10 ∷ (codes "Sec-WebSocket-Key: c2FtcGxl" ++ 13 ∷ 10 ∷ 13 ∷ 10 ∷ [])) retry accepted
      pieces (100 ∷ 100 ∷ []) (ground arith) (ground arith) tt (ground arith) (ground arith)
      (ground arith) refl refl tt refl
