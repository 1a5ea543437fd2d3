-- ===== src/Examples/Wss.antt =====
-- Runs of src/api3/WSSServer.cpp.
use project_viatech_ecids_co.Base.{
  ℕ, ◌≡◌, ◌≢◌, ◌⊎◌, true, List, [], ◌∷◌, ◌++◌, some, none, refl, arith, codes,
}
use project_viatech_ecids_co.Api3.Wss.{recv_ws_text, write_frame}
use project_viatech_ecids_co.Api3.Wss.RoundTrip.{
  client_header, flat, recv_ws_text-client_frame, write_frame_lem,
}
use project_viatech_ecids_co.Api3.Wss.Topics.{ClientConn}

recv_ws_text-client_frame_example :
    (left : List (List ℕ)) × ((recv_ws_text
          (client_header 1 2 3 4 2 [] ∷ (105 ∷ []) ∷ (107 ∷ 9 ∷ []) ∷ [])
        ≡ some (codes "hi", left))
      × (flat left ≡ 9 ∷ []))
recv_ws_text-client_frame_example =
    recv_ws_text-client_frame 1 2 3 4 (codes "hi") (9 ∷ []) [] ((105 ∷ []) ∷ (107 ∷ 9 ∷ []) ∷ [])
      (omega arith, omega arith, omega arith, omega arith) (omega arith, (omega arith, tt))
      (omega arith) (refl, (refl, tt)) refl

-- An extended length of which one byte alone comes with the header is used unset.
split_length : recv_ws_text ((0x81 ∷ 254 ∷ 1 ∷ []) ∷ (0 ∷ 1 ∷ 2 ∷ 3 ∷ 4 ∷ []) ∷ []) ≡ none
unfolding recv_ws_text
split_length = refl

write_frame_lem_example :
    (rest : List ℕ) × ((write_frame (2 ∷ 1 ∷ []) (7 ∷ 8 ∷ 9 ∷ [])).0 ++ rest ≡ 7 ∷ 8 ∷ 9 ∷ [])
    × ((((write_frame (2 ∷ 1 ∷ []) (7 ∷ 8 ∷ 9 ∷ [])).1 ≡ some true) × (rest ≡ []))
        ⊎ (((write_frame (2 ∷ 1 ∷ []) (7 ∷ 8 ∷ 9 ∷ [])).1 ≢ some true) × (rest ≢ [])))
write_frame_lem_example = write_frame_lem (2 ∷ 1 ∷ []) (7 ∷ 8 ∷ 9 ∷ [])

abbrev client : ClientConn
client = record { fd = 4; has_ssl = true; topics = "core/*" ∷ "core/status" ∷ []; alive = true }
