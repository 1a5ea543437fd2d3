-- ===== src/Postprocess/Process/Written.antt =====
-- PostprocessModule.cpp with DatabaseWriter.cpp: what `process` queues is written.
use project_viatech_ecids_co.Base.{
  ℕ, zero, suc, ◌≤◌, ◌<◌, ◌-◌, ◌≡◌, refl, ap, ◌∙◌, true, false, String, List, [], ◌∷◌, some, length,
  take, drop, arith,
}
use project_viatech_ecids_co.Common.Modes.{InspectionSubTask}
use project_viatech_ecids_co.Common.Double.{Double}
use project_viatech_ecids_co.Common.Geometry.{DetectionResponse}
use project_viatech_ecids_co.Data.Recent.{latest}
use project_viatech_ecids_co.Database.Writer.{DatabaseWriter, writer_loop}
use project_viatech_ecids_co.Database.Writer.Thread.{save_each, replicate, writer_loop_saves}
use project_viatech_ecids_co.Database.Writer.Files.{
  Enqueue, requests, enqueue_all, enqueue_all-latest,
}
use project_viatech_ecids_co.Postprocess.Pipeline.{Images, Vision}
use project_viatech_ecids_co.Common.Json.{JsonBuilder}
use project_viatech_ecids_co.Postprocess.Process.{Drawing, PostprocessModule, process}
use project_viatech_ecids_co.Postprocess.Process.Saved.{calls_of, process-IsFew}

take_all : {A : Type 0} (n : ℕ) (xs : List A) → length xs ≤ n → take n xs ≡ xs
take_all zero [] h = refl
take_all zero (x ∷ xs) h = ground arith
take_all (suc n) [] h = refl
take_all (suc n) (x ∷ xs) h = ap (◌∷◌ x) (take_all n xs (omega arith))

drop_all : {A : Type 0} (n : ℕ) (xs : List A) → length xs ≤ n → drop n xs ≡ []
drop_all zero [] h = refl
drop_all zero (x ∷ xs) h = ground arith
drop_all (suc n) [] h = refl
drop_all (suc n) (x ∷ xs) h = drop_all n xs (omega arith)

latest_all : {A : Type 0} (n : ℕ) (xs : List A) → length xs ≤ n → latest n xs ≡ xs
latest_all n xs h = let z : length xs - n ≡ 0 = omega arith in ap (λ k. drop k xs) z

-- The calls queue their requests, and `n` turns of the thread save each, in their order.
abbrev pub AllWritten : DatabaseWriter → List Enqueue → ℕ → Type 0
AllWritten w es n =
    (w' : DatabaseWriter) × (enqueue_all w es ≡ some w')
    × (((writer_loop w' (replicate n false)).0 ≡ save_each w.has_manager (requests es))
        × ((writer_loop w' (replicate n false)).1.queue ≡ []))

all_written :
    (w : DatabaseWriter) (es : List Enqueue) (n : ℕ)
    → w.running ≡ true
    → w.queue ≡ []
    → 0 < n
    → n ≤ w.max_queue
    → length (requests es) ≤ n
    → AllWritten w es n
all_written w es n run idle some_ room few =
    let q = requests es in
    let w' : DatabaseWriter = record w { queue = q } in
    let (saved, left) = writer_loop_saves w' n run in
    (
      w',
      enqueue_all-latest w es run idle (omega arith)
          ∙ ap (λ l. some (record w { queue = l })) (latest_all w.max_queue q (omega arith)),
      (
        saved ∙ ap (save_each w.has_manager) (take_all n q few),
        ap (λ s. s.queue) left ∙ drop_all n q few,
      ),
    )

module _ {D : Type 0} ⦃d : Double D⦄ (b : JsonBuilder D) (v : Vision D) (w : Drawing D)
    (m : PostprocessModule D) (response : DetectionResponse D) (images : Images) where
  -- With a running writer that has room for five requests and none waiting, five turns of its thread
  -- save all that one `process` queues.
  pub process-AllWritten :
      (writer : DatabaseWriter)
      → writer.running ≡ true
      → writer.queue ≡ []
      → 5 ≤ writer.max_queue
      → (station_id escalator_id : String) (i : ℕ) (sub_task : InspectionSubTask) (wd : D)
      → AllWritten writer
          (calls_of (process b v w m response station_id escalator_id images i sub_task wd).saves)
          5
  process-AllWritten writer run idle room station_id escalator_id i sub_task wd =
      all_written writer
        (calls_of (process b v w m response station_id escalator_id images i sub_task wd).saves) 5
        run idle (omega arith) room
        (process-IsFew b v w m response images station_id escalator_id i sub_task wd)
