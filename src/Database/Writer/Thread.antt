-- ===== src/Database/Writer/Thread.antt =====
-- What the writer thread saves, and what is lost when it is stopped.
use project_viatech_ecids_co.Base.{
  ℕ, zero, suc, ◌≡◌, refl, Bool, true, false, List, [], ◌∷◌, ◌++◌, arith, take, drop, append-nil,
}
use project_viatech_ecids_co.Common.Frames.{DbWriteRequest}
use project_viatech_ecids_co.Database.Records.{DiskOp}
use project_viatech_ecids_co.Database.Writer.{DatabaseWriter, stop, process_request, writer_loop}

abbrev pub save_each : Bool → List DbWriteRequest → List DiskOp
save_each m [] = []
save_each m (r ∷ rs) = process_request m r ++ save_each m rs

abbrev pub replicate : ℕ → Bool → List Bool
replicate zero b = []
replicate (suc n) b = b ∷ replicate n b

take_none : (n : ℕ) → take {A = DbWriteRequest} n [] ≡ []
take_none zero = refl
take_none (suc n) = refl

drop_none : (n : ℕ) → drop {A = DbWriteRequest} n [] ≡ []
drop_none zero = refl
drop_none (suc n) = refl

run_queue :
    (n : ℕ) (q : List DbWriteRequest) (w : DatabaseWriter)
    → w.running ≡ true
    → w.queue ≡ q
    → ((writer_loop w (replicate n false)).0 ≡ save_each w.has_manager (take n q))
      × ((writer_loop w (replicate n false)).1 ≡ record w { queue = drop n q })
unfolding writer_loop
run_queue zero q w h e = ground arith
run_queue (suc n) [] w h e = ground (arith, run_queue n [] w h e, take_none n, drop_none n)
run_queue (suc n) (r ∷ q) w h e =
    ground (arith, run_queue n q (record w { queue = q; running = true }))

-- While it runs, `n` turns save the `n` oldest requests, in their order, and keep the rest queued.
pub writer_loop_saves :
    (w : DatabaseWriter) (n : ℕ)
    → w.running ≡ true
    → ((writer_loop w (replicate n false)).0 ≡ save_each w.has_manager (take n w.queue))
      × ((writer_loop w (replicate n false)).1 ≡ record w { queue = drop n w.queue })
writer_loop_saves w n h = run_queue n w.queue w h refl

-- Once `stop` has been called the thread saves nothing more, however many turns it would take: all
-- that is queued then is lost.
stop-loses :
    (w : DatabaseWriter) (turns : List Bool)
    → ((writer_loop (stop w) turns).0 ≡ []) × ((writer_loop (stop w) turns).1.queue ≡ w.queue)
unfolding writer_loop stop
stop-loses w [] = ground arith
stop-loses w (b ∷ bs) = ground arith

ended : (w : DatabaseWriter) (turns : List Bool) → w.running ≡ false → writer_loop w turns ≡ ([], w)
unfolding writer_loop
ended w [] h = refl
ended w (b ∷ bs) h = ground arith

-- If the flag falls while the thread waits, it saves the request in front and no other.
pub stopped_in_wait_saves_one :
    (w : DatabaseWriter) (r : DbWriteRequest) (rest : List DbWriteRequest) (turns : List Bool)
    → w.running ≡ true
    → w.queue ≡ r ∷ rest
    → ((writer_loop w (true ∷ turns)).0 ≡ process_request w.has_manager r)
      × ((writer_loop w (true ∷ turns)).1.queue ≡ rest)
unfolding writer_loop
stopped_in_wait_saves_one w r rest turns h e = ground (
  arith,
  ended (record w { queue = rest; running = false }) turns,
  append-nil (process_request w.has_manager r),
)
