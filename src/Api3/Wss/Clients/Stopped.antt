-- ===== src/Api3/Wss/Clients/Stopped.antt =====
-- WSSServer.cpp: `stop` does not wait for the clients' threads.
use project_viatech_ecids_co.Base.{ℕ, ◌≡◌, ◌∙◌, refl, ap, Bool, true, false, if_true, if◌then◌else◌}
use project_viatech_ecids_co.Api3.Wss.Clients.{
  looping, Conn, Server, clear_running, join_accept, Reach, here, next, Touches, by_loop, started,
  delete_clients,
}
use project_viatech_ecids_co.Api3.Wss.Clients.Alive.{Reach-listed}

same_phase :
    (c : Conn) (b : Bool)
    → (if b
        then record c { fd_open = false; alive = false; deleted = true; in_clients = false }
        else c).phase
      ≡ c.phase
same_phase c true = refl
same_phase c false = refl

-- The locked part deletes the connection of a client's thread that is in its loop.
delete_clients-looping :
    (s : Server) (n c : ℕ)
    → Reach started s
    → (s.conn n).phase ≡ looping c
    → Touches (delete_clients s) c × (((delete_clients s).conn c).deleted ≡ true)
unfolding delete_clients
delete_clients-looping s n c r e = (
  by_loop n c (same_phase (s.conn n) (s.conn n).in_clients ∙ e),
  ap (λ (x : Conn). x.deleted) (if_true (s.conn c).in_clients _ _ (Reach-listed s n c r e)),
)

-- From every state of the running server in which a client's thread is in its loop, `stop` can come to its
-- locked part, behind the join, which then deletes the connection that the thread accesses next.
pub stop-deleted :
    (s : Server) (n c : ℕ)
    → Reach started s
    → s.running ≡ true
    → (s.conn n).phase ≡ looping c
    → (t : Server) × (Reach s t
        × (t.running ≡ false)
        × (t.accepting ≡ false)
        × Touches (delete_clients t) c
        × (((delete_clients t).conn c).deleted ≡ true))
stop-deleted s n c r run e =
    let cleared = record s { running = false } in
    let t = record cleared { accepting = false } in
    let way : Reach s t = next (next here (clear_running run)) (join_accept refl) in
    let from_start : Reach started t = next (next r (clear_running run)) (join_accept refl) in
    let (touches, gone) = delete_clients-looping t n c from_start e in
    (t, (way, refl, refl, touches, gone))
