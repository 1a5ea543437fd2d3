-- ===== src/Postprocess/Process/Saved.antt =====
-- PostprocessModule.cpp: what `process` and `process_ai_test` hand to the database.
use project_viatech_ecids_co.Base.{
  ℕ, suc, ◌≤◌, ◌≡◌, refl, Bool, true, false, String, List, [], ◌∷◌, ◌++◌, Option, none, some, Text,
  codes, if◌then◌else◌, is_empty, All, not, length, arith,
}
use project_viatech_ecids_co.Common.Modes.{InspectionSubTask}
use project_viatech_ecids_co.Common.Frames.{DbWriteRequest}
use project_viatech_ecids_co.Common.Double.{Double}
use project_viatech_ecids_co.Common.Geometry.{DetectionResponse, InspectionResult}
use project_viatech_ecids_co.Database.Records.{RecordManager, save_stereo_result}
use project_viatech_ecids_co.Database.Writer.Files.{Enqueue, requests}
use project_viatech_ecids_co.Postprocess.Pipeline.{Images, Vision}
use project_viatech_ecids_co.Postprocess.Extract.{extract}
use project_viatech_ecids_co.Common.Json.{JsonBuilder}
use project_viatech_ecids_co.Postprocess.Messages.{ai_test_json}
use project_viatech_ecids_co.Postprocess.Process.{
  Drawing, PostprocessModule, Processed, Saves, nothing, queued, direct, subfolder_of, save_to,
  save_picture, save_result, save_ai_test, repeated, finished, start_result, process,
  process_ai_test,
}

abbrev pub active_of : Option RecordManager → Text
active_of none = []
active_of (some mgr) = mgr.active_record

save_to_each :
    (P : Saves → Type 0) (mgr : Option RecordManager) (f : Text → Saves)
    → P nothing
    → P (f (active_of mgr))
    → P (save_to mgr f)
unfolding save_to
save_to_each P none f p q = p
save_to_each P (some mgr) f p q = choose (not (is_empty mgr.active_record))
  where
    choose : (a : Bool) → P (if a then f mgr.active_record else nothing)
    choose true = q
    choose false = p

-- A request for the pair: its record, its folder and its number.
abbrev pub IsFor : Text → Text → ℕ → DbWriteRequest → Type 0
IsFor path folder pair_index r =
    (r.record_path ≡ path) × (r.subfolder ≡ folder) × (r.pair_index ≡ pair_index)

-- What must be saved, for a module with or without a writer and the text of the result: with a writer
-- requests for the pair; without, the one file of the result, with the text; and nothing exactly where it
-- is idle.
abbrev pub SavesFor : Bool → Bool → Text → Text → Text → ℕ → Saves → Type 0
SavesFor idle writer text path folder pair_index nothing = idle ≡ true
SavesFor idle writer text path folder pair_index (queued es) =
    (idle ≡ false) × (writer ≡ true) × All (IsFor path folder pair_index) (requests es)
SavesFor idle writer text path folder pair_index (direct ops) =
    (idle ≡ false) × (writer ≡ false) × (ops ≡ save_stereo_result path folder pair_index text)

-- No record manager, or no record.
abbrev pub no_record : Option RecordManager → Bool
no_record mgr = is_empty (active_of mgr)

save_to-SavesFor :
    (writer : Bool) (text path folder : Text) (i : ℕ) (mgr : Option RecordManager)
    (f : Text → Saves)
    → SavesFor false writer text path folder i (f (active_of mgr))
    → SavesFor (no_record mgr) writer text path folder i (save_to mgr f)
unfolding save_to
save_to-SavesFor writer text path folder i none f h = refl
save_to-SavesFor writer text path folder i (some mgr) f h = choose (is_empty mgr.active_record)
  where
    choose :
        (e : Bool)
        → SavesFor e writer text path folder i (if not e then f mgr.active_record else nothing)
    choose true = refl
    choose false = h

by_writer :
    (writer : Bool) (text path folder : Text) (i : ℕ) (es : List Enqueue)
    → All (IsFor path folder i) (requests es)
    → SavesFor false writer text path folder i
        (if writer then queued es else direct (save_stereo_result path folder i text))
by_writer true text path folder i es h = (refl, refl, h)
by_writer false text path folder i es h = (refl, refl, refl)

save_picture-IsFor :
    (path folder camera : Text) (pair_index : ℕ) (bytes : List ℕ) (es : List Enqueue)
    → All (IsFor path folder pair_index) (requests es)
    → All
        (IsFor path folder pair_index)
        (requests (save_picture path folder camera pair_index bytes ++ es))
unfolding save_picture
save_picture-IsFor path folder camera i [] es h = h
save_picture-IsFor path folder camera i (x ∷ xs) es h = ((refl, refl, refl), h)

last_picture-IsFor :
    (path folder camera : Text) (pair_index : ℕ) (bytes : List ℕ)
    → All
        (IsFor path folder pair_index)
        (requests (save_picture path folder camera pair_index bytes))
unfolding save_picture
last_picture-IsFor path folder camera i [] = tt
last_picture-IsFor path folder camera i (x ∷ xs) = ((refl, refl, refl), tt)

saved_by : (P : Saves → Type 0) (a : Bool) (x y : Saves) → P x → P y → P (if a then x else y)
saved_by P true x y p q = p
saved_by P false x y p q = q

module _ {D : Type 0} ⦃d : Double D⦄ (b : JsonBuilder D) (m : PostprocessModule D) where
  save_ai_test-SavesFor :
      (r : InspectionResult D) (i : ℕ)
      → SavesFor
          (no_record m.record_mgr)
          m.has_db_writer
          (ai_test_json b i r)
          (active_of m.record_mgr)
          []
          i
          (save_ai_test b m r i)
  unfolding save_ai_test
  save_ai_test-SavesFor r i =
      let path = active_of m.record_mgr in
      save_to-SavesFor m.has_db_writer (ai_test_json b i r) path [] i m.record_mgr _ (
        by_writer m.has_db_writer (ai_test_json b i r) path [] i _ (
          (refl, refl, refl),
          save_picture-IsFor path [] (codes "AL") i r.annotated_left _ (
              save_picture-IsFor path [] (codes "AR") i r.annotated_right _ (
                save_picture-IsFor path [] (codes "AL2") i r.ai_annotated_left _
                  (last_picture-IsFor path [] (codes "AR2") i r.ai_annotated_right))),
        ))

abbrev pub calls_of : Saves → List Enqueue
calls_of (queued es) = es
calls_of _ = []

abbrev IsFew : ℕ → Saves → Type 0
IsFew n saves = length (requests (calls_of saves)) ≤ n

save_picture-IsFew :
    (path folder camera : Text) (i : ℕ) (bytes : List ℕ) (es : List Enqueue) (n : ℕ)
    → length (requests es) ≤ n
    → length (requests (save_picture path folder camera i bytes ++ es)) ≤ suc n
unfolding save_picture
save_picture-IsFew path folder camera i [] es n h = omega arith
save_picture-IsFew path folder camera i (x ∷ xs) es n h = omega arith

last_picture-IsFew :
    (path folder camera : Text) (i : ℕ) (bytes : List ℕ)
    → length (requests (save_picture path folder camera i bytes)) ≤ 1
unfolding save_picture
last_picture-IsFew path folder camera i [] = omega arith
last_picture-IsFew path folder camera i (x ∷ xs) = omega arith

module _ {D : Type 0} ⦃d : Double D⦄ (b : JsonBuilder D) (m : PostprocessModule D) where
  save_result-IsFew :
      (response : DetectionResponse D) (r : InspectionResult D) (folder : Text) (i : ℕ)
      → IsFew 5 (save_result b m response r folder i)
  unfolding save_result
  save_result-IsFew response r folder i =
      let path = active_of m.record_mgr in
      save_to_each (IsFew 5) m.record_mgr _ (ground arith) (
        saved_by (IsFew 5) m.has_db_writer _ _
          (omega (
            arith,
            save_picture-IsFew path folder (codes "AL") i r.annotated_left
                (save_picture path folder (codes "AR") i r.annotated_right) 1
                (last_picture-IsFew path folder (codes "AR") i r.annotated_right),
          ))
          (ground arith))

saves_of :
    {D : Type 0} (P : Saves → Type 0) (a : Bool) (x y : Processed D)
    → P x.saves
    → P y.saves
    → P (if a then x else y).saves
saves_of P true x y p q = p
saves_of P false x y p q = q

module _ {D : Type 0} ⦃d : Double D⦄ (b : JsonBuilder D) (v : Vision D) (w : Drawing D)
    (m : PostprocessModule D) (response : DetectionResponse D) (images : Images) where
  saves_each :
      (P : Saves → Type 0) (station_id escalator_id : String) (i : ℕ) (sub_task : InspectionSubTask)
      (wd : D)
      → P nothing
      → ((r : InspectionResult D) → P (save_result b m response r (subfolder_of sub_task) i))
      → P (process b v w m response station_id escalator_id images i sub_task wd).saves
  unfolding process
  saves_each P station_id escalator_id i sub_task wd idle saved =
      let e = extract response.results m.min_confidence in
      saves_of P (repeated m sub_task e.gaps).0 _ _ idle (
        saved
          (finished v w m images sub_task e (start_result response e station_id escalator_id wd)))

  -- Whether the result is of the gap before.
  abbrev pub is_repeated : InspectionSubTask → Bool
  is_repeated sub_task = (repeated m sub_task (extract response.results m.min_confidence).gaps).0

  -- What `process_ai_test` saves is for the pair, in the active record itself.
  process_ai_test-SavesFor :
      (i : ℕ)
      → let p = process_ai_test b v w m response images i in
        SavesFor
          (no_record m.record_mgr)
          m.has_db_writer
          (ai_test_json b i p.result)
          (active_of m.record_mgr)
          []
          i
          p.saves
  unfolding process_ai_test
  process_ai_test-SavesFor i =
      save_ai_test-SavesFor b m (process_ai_test b v w m response images i).result i

  pub process-IsFew :
      (station_id escalator_id : String) (i : ℕ) (sub_task : InspectionSubTask) (wd : D)
      → length (
          requests (
            calls_of (process b v w m response station_id escalator_id images i sub_task wd).saves))
        ≤ 5
  process-IsFew station_id escalator_id i sub_task wd =
      saves_each (IsFew 5) station_id escalator_id i sub_task wd (ground arith)
        (λ r. save_result-IsFew b m response r (subfolder_of sub_task) i)
