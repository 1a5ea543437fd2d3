-- ===== src/Examples/Published.antt =====
-- Three results of an installation, as src/main.cpp publishes them.
use project_viatech_ecids_co.Base.{ℕ, ◌≡◌, refl, Bool, if◌then◌else◌, List, [], ◌∷◌, ◌++◌}
use project_viatech_ecids_co.Common.Double.{Double, whole}
use project_viatech_ecids_co.Common.Modes.{InspectionSubTask}
use project_viatech_ecids_co.Common.Geometry.{InspectionResult}
use project_viatech_ecids_co.Postprocess.Process.{blank_result}
use project_viatech_ecids_co.App.Publish.{publish}
use project_viatech_ecids_co.App.Publish.Averages.{
  Taken, measured, mean_or, after_all, SendsWith, average_members, publish-average,
}
use project_viatech_ecids_co.Examples.Gaps.{counting}
use project_viatech_ecids_co.Examples.Requests.{idle_core}

instance abbrev units : Double ℕ
units = whole

abbrev at : ℕ → InspectionResult ℕ
at wd = record (blank_result) { working_distance_mm = wd }

abbrev earlier : List (Taken ℕ)
earlier =
    (InspectionSubTask.installation, (0, at 400))
    ∷ (InspectionSubTask.gap_inspection, (1, at 900))
    ∷ (InspectionSubTask.installation, (2, at 0))
    ∷ []

abbrev of_bool : Bool → ℕ
of_bool t = if t then 1 else 0

publish-average_example :
    SendsWith counting of_bool
      (λ x. x)
      (average_members counting of_bool
        (λ x. x)
        (mean_or 500 (measured (earlier ++ (InspectionSubTask.installation, (3, at 500)) ∷ [])))
        (at 500))
      (publish counting of_bool
        (λ x. x)
        (after_all counting of_bool (λ x. x) idle_core earlier)
        InspectionSubTask.installation
        3
        (at 500)).1
unfolding blank_result
publish-average_example =
    publish-average counting of_bool (λ x. x) idle_core earlier 3 (at 500) refl refl

three : mean_or 500 (measured (earlier ++ (InspectionSubTask.installation, (3, at 500)) ∷ [])) ≡ 450
unfolding blank_result
three = refl
