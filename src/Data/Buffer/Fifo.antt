-- ===== src/Data/Buffer/Fifo.antt =====
-- The inspection queue as a first-in first-out queue that drops the newest frame when it is full.
use project_viatech_ecids_co.Base.{
  ℕ, suc, ◌-◌, ◌≡◌, refl, List, [], ◌∷◌, ◌++◌, Option, none, some, arith, leb, if◌then◌else◌,
  length, length-append, append_assoc, append-nil,
}
use project_viatech_ecids_co.Common.Frames.{DataBundle}
use project_viatech_ecids_co.Data.Buffer.{DataBuffer, enqueue_inspection, dequeue_inspection}

pub data QueueOp : Type 0 where
  enqueues : DataBundle → QueueOp
  dequeues : QueueOp

abbrev cons_some : Option DataBundle → List DataBundle → List DataBundle
cons_some none ds = ds
cons_some (some d) ds = d ∷ ds

-- The frames that a history hands out, and the buffer after it.
unfoldable pub play : DataBuffer → List QueueOp → List DataBundle × DataBuffer
unfolding enqueue_inspection dequeue_inspection
play b [] = ([], b)
play b (enqueues d ∷ os) = play (enqueue_inspection b d) os
play b (dequeues ∷ os) =
    let (out, b') = dequeue_inspection b in
    let (outs, b'') = play b' os in (cons_some out outs, b'')

-- The frames that a queue of `n` frames lets in: those that come while it holds fewer than `cap`.
unfoldable pub admitted : ℕ → ℕ → List QueueOp → List DataBundle
admitted cap n [] = []
admitted cap n (enqueues d ∷ os) =
    let refused = admitted cap n os in
    let taken = d ∷ admitted cap (suc n) os in if leb cap n then refused else taken
admitted cap n (dequeues ∷ os) = admitted cap (n - 1) os

play_queue :
    (cap : ℕ) (q : List DataBundle) (b : DataBuffer) (os : List QueueOp)
    → b.inspection_queue ≡ q
    → b.inspection_capacity ≡ cap
    → (play b os).0 ++ (play b os).1.inspection_queue ≡ q ++ admitted cap (length q) os
unfolding play admitted
play_queue cap q b [] e c = ground (arith, append-nil q)
play_queue cap q b (enqueues d ∷ os) e c = ground (
  arith,
  play_queue cap q b os,
  play_queue cap (q ++ d ∷ []) (record b { inspection_queue = q ++ d ∷ [] }) os,
  length-append q (d ∷ []),
  append_assoc q (d ∷ []) (admitted cap (suc (length q)) os),
)
play_queue cap [] b (dequeues ∷ os) e c = ground (arith, play_queue cap [] b os)
play_queue cap (f ∷ q) b (dequeues ∷ os) e c =
    ground (arith, play_queue cap q (record b { inspection_queue = q }) os)

-- Over any history of calls, the frames handed out, followed by the frames still queued, are the
-- frames that were queued at the start and then those that came while the queue held fewer than its
-- capacity, in their order: no frame is lost, doubled or reordered, and a full queue drops the newest.
pub play_fifo :
    (b : DataBuffer) (os : List QueueOp)
    → (play b os).0 ++ (play b os).1.inspection_queue
      ≡ b.inspection_queue ++ admitted b.inspection_capacity (length b.inspection_queue) os
play_fifo b os = play_queue b.inspection_capacity b.inspection_queue b os refl refl
