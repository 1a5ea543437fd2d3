-- ===== src/App/Publish/Averages.antt =====
-- src/main.cpp: the average of the working distances that the result callback publishes.
use project_viatech_ecids_co.Base.{
  subst, String, str_eq, ◌&&◌, ◌||◌, ℕ, suc, ◌+◌, ◌≡◌, refl, sym, ap, ◌∙◌, Bool, true, false, List,
  [], ◌∷◌, ◌++◌, if◌then◌else◌, ltb, length, arith, if_true,
}
use project_viatech_ecids_co.Common.Double.{Double}
use project_viatech_ecids_co.Common.Geometry.{InspectionResult}
use project_viatech_ecids_co.Common.Modes.{InspectionSubTask}
use project_viatech_ecids_co.Common.Json.{JsonBuilder}
use project_viatech_ecids_co.App.{Core}
use project_viatech_ecids_co.App.Publish.{
  Published, visual_2d, core_result, message, installation_json, installation_of, average,
  count_distance, count_result, publish,
}

-- A result with its sub-task and its index.
abbrev pub Taken : Type 0 → Type 0
Taken D = InspectionSubTask × (ℕ × InspectionResult D)

module _ {D : Type 0} ⦃d : Double D⦄ where
  -- The working distances above zero of the results of an installation.
  abbrev pub measured : List (Taken D) → List D
  measured [] = []
  measured ((InspectionSubTask.installation, (i, r)) ∷ rs) =
      let more = measured rs in
      if d.lt (d.of_nat 0) r.working_distance_mm then r.working_distance_mm ∷ more else more
  measured (x ∷ rs) = measured rs

  abbrev pub sum_from : D → List D → D
  sum_from acc [] = acc
  sum_from acc (x ∷ xs) = sum_from (d.add acc x) xs

  -- The sum in the order of the list, by the length; with nothing measured, the default.
  abbrev pub mean_or : D → List D → D
  mean_or def [] = def
  mean_or def (x ∷ xs) = d.div (sum_from (d.of_nat 0) (x ∷ xs)) (d.of_nat (length (x ∷ xs)))

module _ {D : Type 0} ⦃d : Double D⦄ (b : JsonBuilder D) (of_bool : Bool → b.J)
    (round : D → D) where
  abbrev pub after_all : Core D → List (Taken D) → Core D
  after_all c [] = c
  after_all c ((sub_task, (i, r)) ∷ rs) = after_all (publish b of_bool round c sub_task i r).0 rs

  after_all-append :
      (c : Core D) (rs ss : List (Taken D)) → after_all c (rs ++ ss) ≡ after_all (after_all c rs) ss
  after_all-append c [] ss = refl
  after_all-append c ((t, (i, r)) ∷ rs) ss =
      after_all-append (publish b of_bool round c t i r).0 rs ss

  -- The state's sum and count go on with what is measured.
  abbrev Counts : Core D → List (Taken D) → Core D → Type 0
  Counts c rs after =
      (after.wd_sum ≡ sum_from c.wd_sum (measured rs))
      × (after.wd_count ≡ c.wd_count + length (measured rs))

  counts_next :
      (c : Core D) (wd : D) (xs : List D) (t : Bool) (after : Core D)
      → let next =
          if t then record c { wd_sum = d.add c.wd_sum wd; wd_count = c.wd_count + 1 } else c in
        (after.wd_sum ≡ sum_from next.wd_sum xs) × (after.wd_count ≡ next.wd_count + length xs)
        → (after.wd_sum ≡ sum_from c.wd_sum (if t then wd ∷ xs else xs))
          × (after.wd_count ≡ c.wd_count + length (if t then wd ∷ xs else xs))
  counts_next c wd xs true after (s, n) = (s, omega (arith, n))
  counts_next c wd xs false after h = h

  after_all-Counts : (c : Core D) (rs : List (Taken D)) → Counts c rs (after_all c rs)
  unfolding publish count_result count_distance
  after_all-Counts c [] = (refl, omega arith)
  after_all-Counts c ((InspectionSubTask.installation, (i, r)) ∷ rs) =
      let c' = count_distance c r.working_distance_mm in
      counts_next c r.working_distance_mm (measured rs) (d.lt (d.of_nat 0) r.working_distance_mm)
        (after_all c' rs) (after_all-Counts c' rs)
  after_all-Counts c ((InspectionSubTask.none, (i, r)) ∷ rs) = after_all-Counts c rs
  after_all-Counts c ((InspectionSubTask.marking, (i, r)) ∷ rs) = after_all-Counts c rs
  after_all-Counts c ((InspectionSubTask.gap_inspection, (i, r)) ∷ rs) = after_all-Counts c rs

  average-mean_or :
      (c after : Core D) (wd : D) (xs : List D)
      → after.wd_sum ≡ sum_from (d.of_nat 0) xs
      → after.wd_count ≡ length xs
      → average after wd ≡ mean_or wd xs
  unfolding average
  average-mean_or c after wd [] s n = rw n refl
  average-mean_or c after wd (x ∷ xs) s n =
      rw (n, s) (if_true (ltb 0 (suc (length xs))) _ wd (ground arith))

  average-all :
      (c : Core D) (rs : List (Taken D)) (i : ℕ) (r : InspectionResult D)
      → c.wd_sum ≡ d.of_nat 0
      → c.wd_count ≡ 0
      → average
          (count_result (after_all c rs) InspectionSubTask.installation r)
          r.working_distance_mm
        ≡ mean_or r.working_distance_mm
            (measured (rs ++ (InspectionSubTask.installation, (i, r)) ∷ []))
  unfolding publish
  average-all c rs i r s n =
      let x : Taken D = (InspectionSubTask.installation, (i, r)) in
      let all = rs ++ x ∷ [] in
      let (t, m) = after_all-Counts c all in
      let sum : (after_all c all).wd_sum ≡ sum_from (d.of_nat 0) (measured all) =
        t ∙ ap (λ a. sum_from a (measured all)) s in
      let count : (after_all c all).wd_count ≡ length (measured all) = ground arith in
      ap (λ after. average after r.working_distance_mm) (sym (after_all-append c rs (x ∷ [])))
      ∙ average-mean_or c (after_all c all) r.working_distance_mm (measured all) sum count

  -- The members that only the message of an installation has, for an average.
  abbrev pub average_members : D → InspectionResult D → List (String × b.J)
  average_members avg r =
      let in_range = d.le (d.of_nat 300) avg && d.le avg (d.of_nat 1000) in
      let detected = str_eq r.task_id "T1" || str_eq r.task_id "T2" in
      (
        "avg_working_distance_mm",
        b.of_double (d.div (round (d.mul avg (d.of_nat 10))) (d.of_nat 10)),
      )
      ∷ ("installation_ready", of_bool (in_range && detected))
      ∷ ("working_distance_ok", of_bool in_range)
      ∷ ("task_detected", of_bool detected)
      ∷ []

  -- One text goes out on the channel and under the topic, an object that has these members.
  abbrev pub SendsWith : List (String × b.J) → List Published → Type 0
  SendsWith members out =
      (front : List (String × b.J)) × (back : List (String × b.J)) × (pictures : List Published)
      × (out
          ≡ visual_2d (b.dump (b.object (front ++ (members ++ back))))
            ∷ core_result (b.dump (b.object (front ++ (members ++ back))))
            ∷ pictures)

  sends_installation :
      (c : Core D) (i : ℕ) (r : InspectionResult D)
      → SendsWith
          (average_members
            (average (count_result c InspectionSubTask.installation r) r.working_distance_mm)
            r)
          (publish b of_bool round c InspectionSubTask.installation i r).1
  unfolding publish message installation_json installation_of
  sends_installation c i r = (_ ∷ _ ∷ _ ∷ _ ∷ _ ∷ _ ∷ _ ∷ _ ∷ _ ∷ _ ∷ [], _, _, refl)

  -- From a state in which nothing has been counted, as a start of an inspection leaves it, and after whatever
  -- results: the message that goes out with a result of an installation has, rounded to a tenth, the mean of
  -- all distances above zero that were measured in the installation, this one with them, or if there are none
  -- the result's own; and that the installation is ready exactly if this mean is from 300 to 1000 and the task
  -- is T1 or T2.
  pub publish-average :
      (c : Core D) (rs : List (Taken D)) (i : ℕ) (r : InspectionResult D)
      → c.wd_sum ≡ d.of_nat 0
      → c.wd_count ≡ 0
      → SendsWith
          (average_members
            (mean_or r.working_distance_mm
              (measured (rs ++ (InspectionSubTask.installation, (i, r)) ∷ [])))
            r)
          (publish b of_bool round (after_all c rs) InspectionSubTask.installation i r).1
  publish-average c rs i r s n =
      subst
        (λ (avg : D).
          SendsWith (average_members avg r)
            (publish b of_bool round (after_all c rs) InspectionSubTask.installation i r).1)
        (average-all c rs i r s n) (sends_installation (after_all c rs) i r)
