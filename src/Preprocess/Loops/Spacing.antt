-- ===== src/Preprocess/Loops/Spacing.antt =====
-- PreprocessModule.cpp: how often the loop sends during the installation, and what is sent of a frame.
use project_viatech_ecids_co.Base.{
  ℕ, ◌+◌, ◌-◌, ◌*◌, ◌/◌, ◌≤◌, ◌<◌, ◌≡◌, refl, sym, subst, Bool, true, false, ◌&&◌, ◌⊎◌, List, [],
  ◌∷◌, ◌++◌, Option, none, some, if◌then◌else◌, ltb, ◌==◌, length, is_empty, arith, Bool-cases, inl,
  inr, take-append-drop, append-nil,
}
use project_viatech_ecids_co.Common.Double.{Double}
use project_viatech_ecids_co.Common.Frames.{DataBundle}
use project_viatech_ecids_co.Data.Buffer.{dequeue_inspection}
use project_viatech_ecids_co.Preprocess.Send.{Sent}
use project_viatech_ecids_co.Preprocess.Loops.{
  Floats, InspectionLoop, Clock, Event, frame_arrives, depth_arrives, sub_task_set, round,
  split_frame, is_installation, is_throttled, send_frame, take_frame, inspection_round, happen,
}

one_of :
    {A : Type 0} (P : A → Type 0) (a b : Bool) (x y : A)
    → P x
    → (b ≡ false → P y)
    → P (if a then x else if b then x else y)
one_of P true b x y p q = p
one_of P false true x y p q = p
one_of P false false x y p q = q refl

-- Each time is at least `gap` after the one before it, the first after `last`.
abbrev pub IsSpaced : ℕ → ℕ → List ℕ → Type 0
IsSpaced gap last [] = Unit
IsSpaced gap last (t ∷ ts) = (last + gap ≤ t) × IsSpaced gap t ts

module _ {D : Type 0} ⦃d : Double D⦄ (encode : List ℕ → List ℕ) (f : Floats D)
    (interval_ms : ℕ) where
  -- The time of an event that sends a pair during the installation.
  abbrev sent_at : InspectionLoop D → Event → Option (Sent D) → List ℕ
  sent_at l (round c) (some sent) = if is_installation l.pre.sub_task then c.now ∷ [] else []
  sent_at l _ _ = []

  unfoldable pub send_times : InspectionLoop D → List Event → List ℕ
  unfolding happen
  send_times l [] = []
  send_times l (e ∷ es) =
      let (l', sent) = happen encode f interval_ms l e in sent_at l e sent ++ send_times l' es

  -- Nothing is sent and the time is kept, or one pair is sent late enough and its time is kept.
  abbrev Waits : ℕ → List ℕ → ℕ → Type 0
  Waits last times last' =
      ((times ≡ []) × (last' ≡ last))
      ⊎ ((t : ℕ) × ((times ≡ t ∷ []) × ((last' ≡ t) × (last + interval_ms ≤ t))))

  abbrev Waited : InspectionLoop D → Event → InspectionLoop D × Option (Sent D) → Type 0
  Waited l e r = Waits l.last_ai_send (sent_at l e r.1) r.0.last_ai_send

  late_or_kept :
      (last now : ℕ) (installing : Bool)
      → 0 < interval_ms
      → (installing && ltb (now - last) interval_ms) ≡ false
      → Waits last (if installing then now ∷ [] else []) (if installing then now else last)
  late_or_kept last now true p h = inr (now, (refl, (refl, ground arith)))
  late_or_kept last now false p h = inl (refl, refl)

  send_frame-Waited :
      (l : InspectionLoop D) (c : Clock) (frame : DataBundle)
      → 0 < interval_ms
      → is_throttled encode f interval_ms l c ≡ false
      → Waited l (round c) (
        (send_frame encode f interval_ms l c frame).0,
        some (send_frame encode f interval_ms l c frame).1,
      )
  unfolding is_throttled send_frame
  send_frame-Waited l c frame p h =
      late_or_kept l.last_ai_send c.now (is_installation l.pre.sub_task) p h

  take_frame-Waited :
      (l : InspectionLoop D) (c : Clock) (frame : Option DataBundle)
      → 0 < interval_ms
      → Waited l (round c) (take_frame encode f interval_ms l c frame)
  unfolding take_frame
  take_frame-Waited l c none p = inl (refl, refl)
  take_frame-Waited l c (some frame) p =
      one_of (Waited l (round c)) (is_empty frame.bytes) (is_throttled encode f interval_ms l c)
        (l, none)
        (
          (send_frame encode f interval_ms l c frame).0,
          some (send_frame encode f interval_ms l c frame).1,
        )
        (inl (refl, refl)) (λ h. send_frame-Waited l c frame p h)

  happen-Waited :
      (l : InspectionLoop D) (e : Event)
      → 0 < interval_ms
      → Waited l e (happen encode f interval_ms l e)
  unfolding happen inspection_round
  happen-Waited l (frame_arrives b) p = inl (refl, refl)
  happen-Waited l (depth_arrives b) p = inl (refl, refl)
  happen-Waited l (sub_task_set s) p = inl (refl, refl)
  happen-Waited l (round c) p =
      let (frame, b) = dequeue_inspection l.buffer in
      take_frame-Waited (record l { buffer = b }) c frame p

  put_in_front :
      (last last' : ℕ) (times more : List ℕ)
      → Waits last times last'
      → IsSpaced interval_ms last' more
      → IsSpaced interval_ms last (times ++ more)
  put_in_front last last' times more (inl (e, same)) h =
      subst (λ ts. IsSpaced interval_ms last (ts ++ more)) (sym e)
        (subst (λ n. IsSpaced interval_ms n more) same h)
  put_in_front last last' times more (inr (t, (e, (same, late)))) h =
      subst (λ ts. IsSpaced interval_ms last (ts ++ more)) (sym e)
        (late, subst (λ n. IsSpaced interval_ms n more) same h)

  -- Pairs sent during the installation are at least the interval apart, the first from the start of the
  -- loop, whatever frames arrive and however the sub-task changes.
  pub send_times-IsSpaced :
      (l : InspectionLoop D) (es : List Event)
      → 0 < interval_ms
      → IsSpaced interval_ms l.last_ai_send (send_times l es)
  unfolding send_times
  send_times-IsSpaced l [] p = tt
  send_times-IsSpaced l (e ∷ es) p =
      let l' = (happen encode f interval_ms l e).0 in
      put_in_front l.last_ai_send l'.last_ai_send (sent_at l e (happen encode f interval_ms l e).1)
        (send_times l' es) (happen-Waited l e p) (send_times-IsSpaced l' es p)

-- No byte of a frame is lost or moved when it is cut.
split_frame_lem :
    (frame : DataBundle) → (split_frame frame).0.bytes ++ (split_frame frame).1.bytes ≡ frame.bytes
unfolding split_frame
split_frame_lem frame = elim (Bool-cases (length frame.bytes == 1920 * 2400 * 4)) [
  | inl e ↦ rw e (take-append-drop (length frame.bytes / 2) frame.bytes)
  | inr e ↦ rw e (append-nil frame.bytes)
]
