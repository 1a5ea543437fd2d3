-- ===== src/Examples/Data.antt =====
-- Runs of src/data/DataBuffer.cpp and of the tables of common/Types.h.
use project_viatech_ecids_co.Base.{ℕ, zero, suc, ◌≡◌, List, [], ◌∷◌, ◌++◌, arith, lookup, nat_eq}
use project_viatech_ecids_co.Common.Frames.{DataBundle, blank_header}
use project_viatech_ecids_co.Data.Buffer.{DataBuffer, StereoPair, new_buffer, blank_pair}
use project_viatech_ecids_co.Data.Buffer.Bounds.{IsBounded, PointsInto, run, run-IsBounded}
use project_viatech_ecids_co.Data.Buffer.Bounds
use project_viatech_ecids_co.Data.Buffer.Pairs.{
  put_stereo-try_get_stereo_pair, left_then_right, right_then_left, Gives,
}
use project_viatech_ecids_co.Data.Buffer.Fifo.{play, admitted, play_fifo}
use project_viatech_ecids_co.Data.Buffer.Fifo

abbrev frame : ℕ → DataBundle
frame n = record { header = blank_header; bytes = n ∷ [] }

-- `begin()` at the entry that came first.
abbrev first_key : List (ℕ × StereoPair) → ℕ
first_key [] = 0
first_key ((k, p) ∷ m) = k

first_key-PointsInto : PointsInto first_key
unfolding lookup
first_key-PointsInto [] h = absurd (omega (arith, h))
first_key-PointsInto ((k, p) ∷ m) h = (p, ground arith)

abbrev half_pairs : ℕ → List (ℕ × StereoPair)
half_pairs zero = []
half_pairs (suc n) = (n, blank_pair) ∷ half_pairs n

abbrev full_buffer : DataBuffer
full_buffer = record (new_buffer 5) { stereo_pairs = half_pairs 51 }

abbrev calls : List Bounds.Op
calls =
    Bounds.puts_stereo 1 "left" (frame 1)
    ∷ Bounds.enqueues (frame 2)
    ∷ Bounds.enqueues (frame 3)
    ∷ Bounds.takes_pair 1
    ∷ Bounds.dequeues
    ∷ []

run-IsBounded_example : IsBounded (run first_key (new_buffer 1) calls)
run-IsBounded_example = run-IsBounded first_key first_key-PointsInto 1 calls

put_stereo-try_get_stereo_pair_example :
    Gives first_key
      (new_buffer 5)
      (left_then_right first_key (new_buffer 5) 7 (frame 1) (frame 2))
      7
      (frame 1)
      (frame 2)
    × Gives first_key
        (new_buffer 5)
        (right_then_left first_key (new_buffer 5) 7 (frame 1) (frame 2))
        7
        (frame 1)
        (frame 2)
put_stereo-try_get_stereo_pair_example =
    put_stereo-try_get_stereo_pair first_key (new_buffer 5) 7 (frame 1) (frame 2) (omega arith)

abbrev history : List Fifo.QueueOp
history =
    Fifo.enqueues (frame 1) ∷ Fifo.enqueues (frame 2) ∷ Fifo.dequeues ∷ Fifo.enqueues (frame 3) ∷ []

play_fifo_example :
    (play (new_buffer 1) history).0 ++ (play (new_buffer 1) history).1.inspection_queue
    ≡ [] ++ admitted 1 0 history
play_fifo_example = play_fifo (new_buffer 1) history
