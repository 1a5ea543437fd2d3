-- ===== src/Examples/Clients.antt =====
-- A client of src/api3/WSSServer.cpp, and the end of the server.
use project_viatech_ecids_co.Base.{◌≡◌, refl, true, false}
use project_viatech_ecids_co.Api3.Wss.Clients.{
  Server, accept, find, Reach, here, next, Touches, by_loop, started, new_conn, in_phase, with_conn,
  looping, delete_clients,
}
use project_viatech_ecids_co.Api3.Wss.Clients.Alive.{Reach-not_deleted}
use project_viatech_ecids_co.Api3.Wss.Clients.Stopped.{stop-deleted}

abbrev connected : Server
connected = record (with_conn started 0 (new_conn 7)) { accepted = 1 }

abbrev served : Server
served = in_phase connected 0 (looping 0)

way : Reach started served
way = next (next here (accept 7 refl (λ n e. cc))) (find 0 0 refl refl refl)

Reach-not_deleted_example : (served.conn 0).deleted ≡ false
Reach-not_deleted_example = Reach-not_deleted served 0 way (by_loop 0 0 refl)

stop-deleted_example :
    (t : Server) × (Reach served t
      × (t.running ≡ false)
      × (t.accepting ≡ false)
      × Touches (delete_clients t) 0
      × (((delete_clients t).conn 0).deleted ≡ true))
stop-deleted_example = stop-deleted served 0 0 way refl refl
