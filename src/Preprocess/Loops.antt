-- ===== src/Preprocess/Loops.antt =====
-- src/preprocess/PreprocessModule.cpp: the rounds of `inspection_loop_` and the working distance, over a
-- type `D` of doubles. The steady clock counts milliseconds. What the code takes from the machine, the
-- floats of a depth map and the conversion of a double to an int, is an argument.
use project_viatech_ecids_co.Base.{
  ℕ, zero, suc, ◌+◌, ◌-◌, ◌*◌, ◌/◌, ◌≤◌, ◌<◌, ◌≡◌, Bool, true, false, not, ◌&&◌, ◌||◌, String, List,
  [], ◌∷◌, ◌++◌, Option, none, some, if◌then◌else◌, ltb, ◌==◌, length, take, drop, is_empty, get_or,
  arith, Bool-cases, inl, inr,
}
use project_viatech_ecids_co.Common.Modes.{InspectionSubTask}
use project_viatech_ecids_co.Common.Double.{Double}
use project_viatech_ecids_co.Common.Frames.{DataBundle, blank_bundle}
use project_viatech_ecids_co.Data.Buffer.{
  DataBuffer, enqueue_inspection, dequeue_inspection, enqueue_depth, dequeue_depth,
}
use project_viatech_ecids_co.Preprocess.{PreprocessModule, set_sub_task}
use project_viatech_ecids_co.Preprocess.Send.{Sent, process_pair}
pub mod Spacing

-- A frame of the size of two images is cut in two; any other frame is the left one.
unfoldable pub split_frame : DataBundle → DataBundle × DataBundle
split_frame frame =
    let half = length frame.bytes / 2 in
    if length frame.bytes == 1920 * 2400 * 4
    then (
      record { header = frame.header; bytes = take half frame.bytes },
      record { header = frame.header; bytes = drop half frame.bytes },
    )
    else (frame, blank_bundle)

unfoldable pub is_installation : InspectionSubTask → Bool
is_installation InspectionSubTask.installation = true
is_installation _ = false

-- What a depth map's bytes are as floats.
pub record Floats (D : Type 0) : Type 0 where
  pub floats : List ℕ → List D
  pub is_nan : D → Bool
  pub is_inf : D → Bool

-- What a round of `inspection_loop_` works on.
pub record InspectionLoop (D : Type 0) : Type 0 where
  pub pre : PreprocessModule D
  pub buffer : DataBuffer
  pub last_ai_send : ℕ

-- A round's readings of the clocks: the steady one, the time stamp, and the time for the table.
pub record Clock : Type 0 where
  pub now : ℕ
  pub ts : String
  pub created_at : ℕ

-- What happens to the shared state: other threads add frames and set the sub-task, and the loop
-- makes its rounds.
pub data Event : Type 0 where
  frame_arrives depth_arrives : DataBundle → Event
  sub_task_set : InspectionSubTask → Event
  round : Clock → Event

module _ {D : Type 0} ⦃d : Double D⦄ where
  -- The depths that count: finite, not zero, and between 100 and 5000 millimetres.
  unfoldable pub add_depth : Floats D → D × ℕ → D → D × ℕ
  add_depth f (sum, valid) depth =
      let d_mm = d.mul depth (d.of_nat 1000) in
      if f.is_nan depth || (f.is_inf depth || d.eq depth (d.of_nat 0))
      then (sum, valid)
      else if d.lt (d.of_nat 100) d_mm && d.lt d_mm (d.of_nat 5000)
      then (d.add sum d_mm, valid + 1)
      else (sum, valid)

  unfoldable pub add_depths : Floats D → D × ℕ → List D → D × ℕ
  unfolding add_depth
  add_depths f s [] = s
  add_depths f s (depth ∷ ds) = add_depths f (add_depth f s depth) ds

  -- The rows from `y` on, `n` in number, each from `cx_start` to `cx_end`.
  unfoldable pub add_rows : Floats D → List D → ℕ → ℕ → D × ℕ → D × ℕ
  unfolding add_depths
  add_rows f all y zero s = s
  add_rows f all y (suc n) s =
      let w : ℕ = 1920 in
      let cx_start = w * 3 / 10 in
      let cx_end = w * 7 / 10 in
      let row = take (cx_end - cx_start) (drop (y * w + cx_start) all) in
      add_rows f all (suc y) n (add_depths f s row)

  -- The mean of the valid depths in the middle of the map; 0 if there is none, or for another size.
  unfoldable pub calculate_working_distance : Floats D → List ℕ → D
  unfolding add_rows
  calculate_working_distance f depth_data =
      let all = f.floats depth_data in
      let count = length depth_data / 4 in
      let w : ℕ = 1920 in
      let h = count / w in
      let cy_start = h * 3 / 10 in
      let cy_end = h * 7 / 10 in
      let (sum, valid) = add_rows f all cy_start (cy_end - cy_start) (d.of_nat 0, 0) in
      if ltb (length depth_data) 4
      then d.of_nat 0
      else if h == 0 || not (w * h == count)
      then d.of_nat 0
      else if valid == 0
      then d.of_nat 0
      else d.div sum (d.of_nat valid)

  unfoldable pub depth_distance : Floats D → Option DataBundle → D
  unfolding calculate_working_distance
  depth_distance f none = d.of_nat 0
  depth_distance f (some depth) =
      if not (is_empty depth.bytes) then calculate_working_distance f depth.bytes else d.of_nat 0

  -- `static_cast<int>(1000.0 / installation_fps_)`
  unfoldable pub min_interval_ms : (D → ℕ) → D → ℕ
  min_interval_ms to_int installation_fps = to_int (d.div (d.of_nat 1000) installation_fps)

  -- `encode` is `encode_jpeg_for_storage_`.
  module _ (encode : List ℕ → List ℕ) (f : Floats D) (interval_ms : ℕ) where
    -- The installation throttle: too soon after the last pair that was sent.
    unfoldable pub is_throttled : InspectionLoop D → Clock → Bool
    unfolding is_installation
    is_throttled l c = is_installation l.pre.sub_task && ltb (c.now - l.last_ai_send) interval_ms

    -- The end of a round that sends.
    unfoldable pub send_frame : InspectionLoop D → Clock → DataBundle → InspectionLoop D × Sent D
    unfolding split_frame is_installation depth_distance process_pair dequeue_depth
    send_frame l c frame =
        let (left, right) = split_frame frame in
        let installing = is_installation l.pre.sub_task in
        let working_dist =
          if installing then depth_distance f (dequeue_depth l.buffer) else d.of_nat 0 in
        let sent = process_pair encode l.pre c.ts c.created_at left right working_dist in
        (
          record l {
            pre = sent.after;
            last_ai_send = if installing then c.now else l.last_ai_send;
          },
          sent,
        )

    unfoldable pub take_frame :
        InspectionLoop D → Clock → Option DataBundle → InspectionLoop D × Option (Sent D)
    unfolding is_throttled send_frame
    take_frame l c none = (l, none)
    take_frame l c (some frame) =
        let (after, sent) = send_frame l c frame in
        if is_empty frame.bytes
        then (l, none)
        else if is_throttled l c
        then (l, none)
        else (after, some sent)

    unfoldable pub inspection_round : InspectionLoop D → Clock → InspectionLoop D × Option (Sent D)
    unfolding take_frame dequeue_inspection
    inspection_round l c =
        let (frame, b) = dequeue_inspection l.buffer in take_frame (record l { buffer = b }) c frame

    unfoldable pub happen : InspectionLoop D → Event → InspectionLoop D × Option (Sent D)
    unfolding enqueue_inspection enqueue_depth set_sub_task inspection_round
    happen l (frame_arrives b) = (record l { buffer = enqueue_inspection l.buffer b }, none)
    happen l (depth_arrives b) = (record l { buffer = enqueue_depth l.buffer b }, none)
    happen l (sub_task_set s) = (record l { pre = set_sub_task l.pre s }, none)
    happen l (round c) = inspection_round l c
