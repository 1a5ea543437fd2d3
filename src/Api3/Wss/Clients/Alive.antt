-- ===== src/Api3/Wss/Clients/Alive.antt =====
-- WSSServer.cpp: until `stop` no thread accesses a connection that was deleted.
use project_viatech_ecids_co.Base.{
  ℕ, ◌≡◌, ◌≢◌, refl, sym, subst, ap, ◌∙◌, true, false, ◌==◌, arith, Bool-cases, inl, inr, if_true,
}
use project_viatech_ecids_co.Api3.Wss.Clients.{
  Phase, starting, looping, leaving, erased, closed, ended, Conn, Server, Step, accept, find, lose,
  leave, erase_client, close_client, delete_client, clear_running, join_accept, Reach, here, next,
  Touches, by_loop, by_delete, by_list, update, with_conn, in_phase, started, new_conn,
}

-- A connection is its own thread's alone, and not deleted while the thread has it.
abbrev GoodIn : Phase → ℕ → Conn → Type 0
GoodIn starting n c = (c.in_clients ≡ true) × ((c.deleted ≡ false) × (c.fd_open ≡ true))
GoodIn (looping k) n c =
    (k ≡ n) × ((c.in_clients ≡ true) × ((c.deleted ≡ false) × (c.fd_open ≡ true)))
GoodIn (leaving k) n c =
    (k ≡ n) × ((c.in_clients ≡ true) × ((c.deleted ≡ false) × (c.fd_open ≡ true)))
GoodIn (erased k) n c =
    (k ≡ n) × ((c.in_clients ≡ false) × ((c.deleted ≡ false) × (c.fd_open ≡ true)))
GoodIn (closed k) n c = (k ≡ n) × ((c.in_clients ≡ false) × (c.deleted ≡ false))
GoodIn ended n c = c.in_clients ≡ false

abbrev Good : ℕ → Conn → Type 0
Good n c = GoodIn c.phase n c

-- No two open sockets are the same.
abbrev Own : (ℕ → Conn) → Type 0
Own f = (m n : ℕ) → (f m).fd_open ≡ true → (f n).fd_open ≡ true → (f m).fd ≡ (f n).fd → m ≡ n

record IsSafe (s : Server) : Type 0 where
  good : (n : ℕ) → Good n (s.conn n)
  own_fd : Own s.conn

good_in : (s : Server) (n : ℕ) (p : Phase) → IsSafe s → (s.conn n).phase ≡ p → GoodIn p n (s.conn n)
good_in s n p h e = subst (λ q. GoodIn q n (s.conn n)) e (h.good n)

Good-update :
    (f : ℕ → Conn) (n : ℕ) (c : Conn)
    → ((m : ℕ) → Good m (f m))
    → Good n c
    → (m : ℕ) → Good m (update f n c m)
Good-update f n c h g m = elim (Bool-cases (m == n)) [
  | inl same ↦ let e : m ≡ n = ground arith in rw same (subst (λ k. Good k c) (sym e) g)
  | inr other ↦ rw other (h m)
]

update_same : {A : Type 0} (f : ℕ → A) (n : ℕ) (a : A) → update f n a n ≡ a
update_same f n a = if_true (n == n) a (f n) (ground arith)

-- Two updates at one place, of which the second counts.
Good-update_twice :
    (f : ℕ → Conn) (n : ℕ) (a c : Conn)
    → ((m : ℕ) → Good m (f m))
    → Good n c
    → (m : ℕ) → Good m (update (update f n a) n c m)
Good-update_twice f n a c h g m = elim (Bool-cases (m == n)) [
  | inl same ↦ let e : m ≡ n = ground arith in rw same (subst (λ k. Good k c) (sym e) g)
  | inr other ↦ rw other (h m)
]

-- A connection that keeps its socket, or closes it.
Own-update :
    (f : ℕ → Conn) (n : ℕ) (c : Conn)
    → c.fd ≡ (f n).fd
    → (c.fd_open ≡ true → (f n).fd_open ≡ true)
    → Own f
    → Own (update f n c)
Own-update f n c e o own i j = elim (Bool-cases (i == n)) [
  | inl i_n ↦ elim (Bool-cases (j == n)) [
    | inl j_n ↦ λ p q r. ground arith
    | inr j_o ↦ rw (i_n, j_o) (λ p q r. let same = own n j (o p) q (sym e ∙ r) in ground arith)
  ]
  | inr i_o ↦ elim (Bool-cases (j == n)) [
    | inl j_n ↦ rw (i_o, j_n) (λ p q r. let same = own i n p (o q) (r ∙ e) in ground arith)
    | inr j_o ↦ rw (i_o, j_o) (own i j)
  ]
]

Own-new :
    (f : ℕ → Conn) (n fd : ℕ)
    → ((m : ℕ) → (f m).fd_open ≡ true → (f m).fd ≢ fd)
    → Own f
    → Own (update f n (new_conn fd))
Own-new f n fd other own i j = elim (Bool-cases (i == n)) [
  | inl i_n ↦ elim (Bool-cases (j == n)) [
    | inl j_n ↦ λ p q r. ground arith
    | inr j_o ↦ rw (i_n, j_o) (λ p q r. absurd (other j q (sym r)))
  ]
  | inr i_o ↦ elim (Bool-cases (j == n)) [
    | inl j_n ↦ rw (i_o, j_n) (λ p q r. absurd (other i p r))
    | inr j_o ↦ rw (i_o, j_o) (own i j)
  ]
]

started-IsSafe : IsSafe started
started-IsSafe = record { good = λ n. refl; own_fd = λ m n p. cc }

-- What `clients_` has is open and not deleted.
listed :
    (p : Phase) (n : ℕ) (c : Conn)
    → GoodIn p n c
    → c.in_clients ≡ true
    → (c.deleted ≡ false) × (c.fd_open ≡ true)
listed starting n c (i, g) e = g
listed (looping k) n c (q, (i, g)) e = g
listed (leaving k) n c (q, (i, g)) e = g
listed (erased k) n c (q, (i, g)) e = cc
listed (closed k) n c (q, (i, g)) e = cc
listed ended n c i e = cc

any_phase : (p q : Phase) (n : ℕ) (a : Conn) → GoodIn p n a → GoodIn p n (record a { phase = q })
any_phase starting q n a g = g
any_phase (looping k) q n a g = g
any_phase (leaving k) q n a g = g
any_phase (erased k) q n a g = g
any_phase (closed k) q n a g = g
any_phase ended q n a g = g

-- A thread changes its own connection, and then its phase.
module _ (s : Server) (h : IsSafe s) (n : ℕ) (a : Conn) (same : a.fd ≡ (s.conn n).fd)
    (kept : a.fd_open ≡ true → (s.conn n).fd_open ≡ true) where
  own_step :
      (c : Conn)
      → c.fd ≡ a.fd
      → (c.fd_open ≡ true → a.fd_open ≡ true)
      → Good n c
      → IsSafe (with_conn (with_conn s n a) n c)
  own_step c e o g = record {
    good = Good-update_twice s.conn n a c h.good g;
    own_fd =
        Own-update (update s.conn n a) n c
          (e ∙ sym (ap (λ (x : Conn). x.fd) (update_same s.conn n a)))
          (λ p. subst (λ (x : Conn). x.fd_open ≡ true) (sym (update_same s.conn n a)) (o p))
          (Own-update s.conn n a same kept h.own_fd);
  }

  own_phase : (p : Phase) → GoodIn p n a → IsSafe (in_phase (with_conn s n a) n p)
  own_phase p g =
      subst (λ (x : Conn). IsSafe (with_conn (with_conn s n a) n (record x { phase = p })))
        (sym (update_same s.conn n a))
        (own_step (record a { phase = p }) refl (λ q. q) (any_phase p p n a g))

found-IsSafe :
    (s : Server) (n c : ℕ)
    → IsSafe s
    → (s.conn n).phase ≡ starting
    → (s.conn c).in_clients ≡ true
    → (s.conn c).fd ≡ (s.conn n).fd
    → IsSafe (in_phase s n (looping c))
found-IsSafe s n c h e i f =
    let (inside, (kept, open_)) = good_in s n starting h e in
    let (whole, open_c) = listed (s.conn c).phase c (s.conn c) (h.good c) i in
    record {
      good =
          Good-update s.conn n (record (s.conn n) { phase = looping c }) h.good
            (h.own_fd c n open_c open_ f, (inside, (kept, open_)));
      own_fd = Own-update s.conn n (record (s.conn n) { phase = looping c }) refl (λ p. p) h.own_fd;
    }

Step-IsSafe : {s t : Server} → Step s t → IsSafe s → IsSafe t
Step-IsSafe {s} (accept fd r other) h = record {
  good = Good-update s.conn s.accepted (new_conn fd) h.good (refl, (refl, refl));
  own_fd = Own-new s.conn s.accepted fd other h.own_fd;
}
Step-IsSafe {s} (find n c e i f) h = found-IsSafe s n c h e i f
Step-IsSafe {s} (lose n e none_) h = absurd (none_ n (good_in s n starting h e).0 refl)
Step-IsSafe {s} (leave n c e) h =
    let (own, (inside, (kept, open_))) = good_in s n (looping c) h e in
    subst
      (λ k. IsSafe (in_phase (with_conn s k (record (s.conn k) { alive = false })) n (leaving k)))
      (sym own)
      (own_phase s h n (record (s.conn n) { alive = false }) refl (λ p. p) (leaving n)
        (refl, (inside, (kept, open_))))
Step-IsSafe {s} (erase_client n c e) h =
    let (own, (inside, (kept, open_))) = good_in s n (leaving c) h e in
    subst
      (λ k.
        IsSafe (in_phase (with_conn s k (record (s.conn k) { in_clients = false })) n (erased k)))
      (sym own)
      (own_phase s h n (record (s.conn n) { in_clients = false }) refl (λ p. p) (erased n)
        (refl, (refl, (kept, open_))))
Step-IsSafe {s} (close_client n c e) h =
    let (own, (outside, (kept, open_))) = good_in s n (erased c) h e in
    let a = record (s.conn n) { phase = closed c; fd_open = false } in
    record {
      good = Good-update s.conn n a h.good (own, (outside, kept));
      own_fd = Own-update s.conn n a refl (λ q. open_) h.own_fd;
    }
Step-IsSafe {s} (delete_client n c e) h =
    let (own, (outside, kept)) = good_in s n (closed c) h e in
    subst (λ k. IsSafe (in_phase (with_conn s k (record (s.conn k) { deleted = true })) n ended))
      (sym own) (own_phase s h n (record (s.conn n) { deleted = true }) refl (λ p. p) ended outside)
Step-IsSafe {s} (clear_running e) h = record { good = h.good; own_fd = h.own_fd }
Step-IsSafe {s} (join_accept e) h = record { good = h.good; own_fd = h.own_fd }

Reach-IsSafe : {s t : Server} → Reach s t → IsSafe s → IsSafe t
Reach-IsSafe here h = h
Reach-IsSafe (next r st) h = Step-IsSafe st (Reach-IsSafe r h)

touched : (s : Server) → IsSafe s → {c : ℕ} → Touches s c → (s.conn c).deleted ≡ false
touched s h (by_loop n c e) =
    let (own, (inside, (kept, open_))) = good_in s n (looping c) h e in
    subst (λ k. (s.conn k).deleted ≡ false) (sym own) kept
touched s h (by_delete n c e) =
    let (own, (outside, kept)) = good_in s n (closed c) h e in
    subst (λ k. (s.conn k).deleted ≡ false) (sym own) kept
touched s h (by_list c i) = (listed (s.conn c).phase c (s.conn c) (h.good c) i).0

-- From the start of the server, and until `stop` comes to its locked part, whatever the order in which the threads take their steps:
-- the connections that a thread, a search or a broadcast accesses next are not deleted.
pub Reach-not_deleted :
    (s : Server) (c : ℕ) → Reach started s → Touches s c → (s.conn c).deleted ≡ false
Reach-not_deleted s c r t = touched s (Reach-IsSafe r started-IsSafe) t

-- The connection of a thread that is in its loop is one of `clients_`.
pub Reach-listed :
    (s : Server) (n c : ℕ)
    → Reach started s
    → (s.conn n).phase ≡ looping c
    → (s.conn c).in_clients ≡ true
Reach-listed s n c r e =
    let (own, (inside, rest)) = good_in s n (looping c) (Reach-IsSafe r started-IsSafe) e in
    subst (λ k. (s.conn k).in_clients ≡ true) (sym own) inside
