-- ===== src/Api2/Dealer/Sockets/Open.antt =====
-- DetectionDealer.cpp: no socket is left open.
use project_viatech_ecids_co.Base.{ℕ, ◌≡◌, refl, Bool, List, [], ◌∷◌, if◌then◌else◌, arith}
use project_viatech_ecids_co.Api2.Dealer.Sockets.{
  DetectionDealer, Library, new_dealer, start, stop, Call, starts, stops, run,
}

abbrev one_if : Bool → ℕ
one_if t = if t then 1 else 0

-- The pointers are those of the open sockets, and are set exactly while the thread runs.
pub record IsTidy (d : DetectionDealer) : Type 0 where
  pub both_pub : d.pub_sock ≡ d.running
  pub both_sub : d.sub_sock ≡ d.running
  pub pub_count : d.pub_open ≡ one_if d.running
  pub sub_count : d.sub_open ≡ one_if d.running

start-IsTidy : (lib : Library) (d : DetectionDealer) → IsTidy d → IsTidy (start lib d)
unfolding start
start-IsTidy lib d h = record {
  both_pub = ground arith;
  both_sub = ground arith;
  pub_count = ground arith;
  sub_count = ground arith;
}

stop-IsTidy : (d : DetectionDealer) → IsTidy d → IsTidy (stop d)
unfolding stop
stop-IsTidy d h = record {
  both_pub = ground arith;
  both_sub = ground arith;
  pub_count = ground arith;
  sub_count = ground arith;
}

run-from : (d : DetectionDealer) (cs : List Call) → IsTidy d → IsTidy (run d cs)
unfolding run
run-from d [] h = h
run-from d (starts lib ∷ cs) h = run-from (start lib d) cs (start-IsTidy lib d h)
run-from d (stops ∷ cs) h = run-from (stop d) cs (stop-IsTidy d h)

-- After any calls of start and stop on a new dealer, whatever the message library answers: the sockets that
-- are open are the two of a thread that runs, or none.
pub run-IsTidy : (cs : List Call) → IsTidy (run new_dealer cs)
run-IsTidy cs =
    run-from new_dealer cs
      (record { both_pub = refl; both_sub = refl; pub_count = refl; sub_count = refl })
