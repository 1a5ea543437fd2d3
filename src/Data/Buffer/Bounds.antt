-- ===== src/Data/Buffer/Bounds.antt =====
-- What bounds the memory of the buffer: 51 stereo pairs and the capacity of the inspection queue.
use project_viatech_ecids_co.Base.{
  ℕ, ◌≤◌, ◌<◌, ◌≡◌, String, List, [], ◌∷◌, some, arith, ltb, length, lookup, length-append,
  length-assign-le, length-erase-lt, length-erase-le, Bool-cases, inl, inr, nat_eq,
}
use project_viatech_ecids_co.Common.Frames.{DataBundle}
use project_viatech_ecids_co.Data.Buffer.{
  DataBuffer, StereoPair, make_room, put, put_stereo, try_get_stereo_pair, enqueue_inspection,
  dequeue_inspection, enqueue_depth, clear, clear_inspection_queue, new_buffer,
}

pub data Op : Type 0 where
  puts : String → DataBundle → Op
  puts_stereo : ℕ → String → DataBundle → Op
  takes_pair : ℕ → Op
  enqueues enqueues_depth : DataBundle → Op
  dequeues clears clears_queue : Op

-- `begin()` of a map that is not empty points at one of its entries.
abbrev pub PointsInto : (List (ℕ × StereoPair) → ℕ) → Type 0
PointsInto begin =
    (m : List (ℕ × StereoPair)) → 0 < length m → (p : StereoPair) × (lookup (begin m) m ≡ some p)

pub record IsBounded (b : DataBuffer) : Type 0 where
  pub pairs_bounded : length b.stereo_pairs ≤ 51
  pub queue_bounded : length b.inspection_queue ≤ b.inspection_capacity

module _ (begin : List (ℕ × StereoPair) → ℕ) where
  unfoldable pub step : DataBuffer → Op → DataBuffer
  unfolding put put_stereo try_get_stereo_pair enqueue_inspection dequeue_inspection enqueue_depth
      clear clear_inspection_queue
  step b (puts c d) = put b c d
  step b (puts_stereo i part d) = put_stereo begin b i part d
  step b (takes_pair i) = (try_get_stereo_pair b i).1
  step b (enqueues d) = enqueue_inspection b d
  step b (enqueues_depth d) = enqueue_depth b d
  step b dequeues = (dequeue_inspection b).1
  step b clears = clear b
  step b clears_queue = clear_inspection_queue b

  unfoldable pub run : DataBuffer → List Op → DataBuffer
  run b [] = b
  run b (o ∷ os) = run (step b o) os

  length-make_room :
      PointsInto begin
      → (m : List (ℕ × StereoPair)) → length m ≤ 51
      → length (make_room begin m) ≤ 50
  length-make_room pts m h = elim (Bool-cases (ltb 50 (length m))) [
    | inl full ↦
        let (p, e) = pts m (ground arith) in
        rw full (omega (arith, length-erase-lt (begin m) m p e))
    | inr free ↦ rw free (ground arith)
  ]

  queue_pop_le : (b : DataBuffer) → IsBounded b → IsBounded (dequeue_inspection b).1
  unfolding dequeue_inspection
  queue_pop_le b h = ground arith

  take_pair_le : (b : DataBuffer) (i : ℕ) → IsBounded b → IsBounded (try_get_stereo_pair b i).1
  unfolding try_get_stereo_pair
  take_pair_le b i h = ground (arith, length-erase-le i b.stereo_pairs)

  step-IsBounded : PointsInto begin → (b : DataBuffer) (o : Op) → IsBounded b → IsBounded (step b o)
  unfolding step
  step-IsBounded pts b (puts c d) h = ground arith
  step-IsBounded pts b (puts_stereo i part d) h = record {
    pairs_bounded = omega (
      arith,
      length-make_room pts b.stereo_pairs h.pairs_bounded,
      length-assign-le i _ (make_room begin b.stereo_pairs),
    );
    queue_bounded = h.queue_bounded;
  }
  step-IsBounded pts b (takes_pair i) h = take_pair_le b i h
  step-IsBounded pts b (enqueues d) h = ground (arith, length-append b.inspection_queue (d ∷ []))
  step-IsBounded pts b (enqueues_depth d) h = ground arith
  step-IsBounded pts b dequeues h = queue_pop_le b h
  step-IsBounded pts b clears h = record {
    pairs_bounded = omega arith;
    queue_bounded = h.queue_bounded;
  }
  step-IsBounded pts b clears_queue h = record {
    pairs_bounded = h.pairs_bounded;
    queue_bounded = omega arith;
  }

  run_keeps :
      PointsInto begin → (b : DataBuffer) (os : List Op) → IsBounded b → IsBounded (run b os)
  unfolding run
  run_keeps pts b [] h = h
  run_keeps pts b (o ∷ os) h = run_keeps pts (step b o) os (step-IsBounded pts b o h)

  -- Whatever calls are made on a new buffer, it never holds more than 51 stereo pairs nor more
  -- frames in the inspection queue than its capacity, if `begin()` points at an entry of the map.
  pub run-IsBounded :
      PointsInto begin → (capacity : ℕ) (os : List Op) → IsBounded (run (new_buffer capacity) os)
  run-IsBounded pts capacity os =
      run_keeps pts (new_buffer capacity) os
        (record { pairs_bounded = omega arith; queue_bounded = omega arith })
