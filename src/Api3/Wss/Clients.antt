-- ===== src/Api3/Wss/Clients.antt =====
-- src/api3/WSSServer.cpp: the life of the connections, which the accept thread, a detached thread for each
-- client, the broadcasts and `stop` share. What a thread does under `clients_mutex_` is one step. A pointer
-- to a `ClientConn` is the number of its connection, from 0 in the order of their acceptance.
use project_viatech_ecids_co.Base.{ℕ, suc, ◌+◌, ◌≡◌, ◌≢◌, Bool, true, false, if◌then◌else◌, ◌==◌}
pub mod Alive
pub mod Stopped

-- Where the thread of a connection stands in `client_loop_`, with the pointer that it found.
pub data Phase : Type 0 where
  starting : Phase
  looping leaving erased closed : ℕ → Phase
  ended : Phase

-- A `ClientConn`, whether `clients_` has it and whether it was deleted; its socket, and its thread.
pub record Conn : Type 0 where
  pub fd : ℕ
  pub fd_open : Bool
  pub in_clients : Bool
  pub alive : Bool
  pub deleted : Bool
  pub phase : Phase

pub record Server : Type 0 where
  pub running : Bool
  pub accepting : Bool  -- the accept thread was not joined
  pub accepted : ℕ
  pub conn : ℕ → Conn

abbrev pub update {ℓ} : {A : Type ℓ} → (ℕ → A) → ℕ → A → ℕ → A
update f i a j = if j == i then a else f j

abbrev pub with_conn : Server → ℕ → Conn → Server
with_conn s n c = record s { conn = update s.conn n c }

abbrev pub in_phase : Server → ℕ → Phase → Server
in_phase s n p = with_conn s n (record (s.conn n) { phase = p })

abbrev pub no_conn : Conn
no_conn = record {
  fd = 0;
  fd_open = false;
  in_clients = false;
  alive = false;
  deleted = false;
  phase = ended;
}

-- `start`, where it succeeds.
abbrev pub started : Server
started = record { running = true; accepting = true; accepted = 0; conn = λ n. no_conn }

abbrev pub new_conn : ℕ → Conn
new_conn fd = record {
  fd = fd;
  fd_open = true;
  in_clients = true;
  alive = true;
  deleted = false;
  phase = starting;
}

-- The steps of the accept thread, of the clients' threads, and of `stop` up to its locked part. The socket of
-- a new connection is one that is not open. The accept thread may have tested `running_` before it falls, so
-- that it can accept until it is joined.
pub data Step (s : Server) : Server → Type 0 where
  accept :
      (fd : ℕ)
      → s.accepting ≡ true
      → ((n : ℕ) → (s.conn n).fd_open ≡ true → (s.conn n).fd ≢ fd)
      → Step s (record (with_conn s s.accepted (new_conn fd)) { accepted = s.accepted + 1 })
  -- The loop over `clients_` finds a connection with the thread's socket.
  find :
      (n c : ℕ)
      → (s.conn n).phase ≡ starting
      → (s.conn c).in_clients ≡ true
      → (s.conn c).fd ≡ (s.conn n).fd
      → Step s (in_phase s n (looping c))
  -- It finds none: the thread returns.
  lose :
      (n : ℕ)
      → (s.conn n).phase ≡ starting
      → ((c : ℕ) → (s.conn c).in_clients ≡ true → (s.conn c).fd ≢ (s.conn n).fd)
      → Step s (in_phase s n ended)
  -- The loop ends, and `conn->alive` is cleared.
  leave :
      (n c : ℕ)
      → (s.conn n).phase ≡ looping c
      → Step s (in_phase (with_conn s c (record (s.conn c) { alive = false })) n (leaving c))
  erase_client :
      (n c : ℕ)
      → (s.conn n).phase ≡ leaving c
      → Step s (in_phase (with_conn s c (record (s.conn c) { in_clients = false })) n (erased c))
  -- `close(fd)`
  close_client :
      (n c : ℕ)
      → (s.conn n).phase ≡ erased c
      → Step s (with_conn s n (record (s.conn n) { phase = closed c; fd_open = false }))
  -- `delete conn`, with which the thread ends.
  delete_client :
      (n c : ℕ)
      → (s.conn n).phase ≡ closed c
      → Step s (in_phase (with_conn s c (record (s.conn c) { deleted = true })) n ended)
  -- `stop` begins, unless the server does not run.
  clear_running : s.running ≡ true → Step s (record s { running = false })
  -- `accept_thread_.join()`
  join_accept : s.running ≡ false → Step s (record s { accepting = false })

pub data Reach (s : Server) : Server → Type 0 where
  here : Reach s s
  next : {t u : Server} → Reach s t → Step t u → Reach s u

-- The connections that the next access of a thread goes to: the pointer that a client's thread has found,
-- and, in the search of a thread and in a broadcast, all that `clients_` has.
pub data Touches (s : Server) : ℕ → Type 0 where
  by_loop : (n c : ℕ) → (s.conn n).phase ≡ looping c → Touches s c
  by_delete : (n c : ℕ) → (s.conn n).phase ≡ closed c → Touches s c
  by_list : (c : ℕ) → (s.conn c).in_clients ≡ true → Touches s c

-- The locked part of `stop`, behind the join: what `clients_` has is deleted. The clients' threads are not
-- waited for.
abbrev pub stopped_conn : Conn → Conn
stopped_conn c =
    if c.in_clients
    then record c { fd_open = false; alive = false; deleted = true; in_clients = false }
    else c

unfoldable pub delete_clients : Server → Server
delete_clients s = record s { conn = λ n. stopped_conn (s.conn n) }
