-- ===== src/Examples/Health.antt =====
-- A camera that goes away during an inspection and comes back, for src/main.cpp.
use project_viatech_ecids_co.Base.{◌≡◌, refl, false, not, List, [], ◌∷◌, Text, codes}
use project_viatech_ecids_co.Common.Modes.{Mode, mode_eq}
use project_viatech_ecids_co.Api3.Http.{find}
use project_viatech_ecids_co.App.{arm}
use project_viatech_ecids_co.App.Health.{health_check, back_online, health_check-back_online}

abbrev answers : List (Text × Mode)
answers =
    (codes "{\"code\":0}", Mode.inspection)
    ∷ (codes "{\"code\":1}", Mode.inspection)
    ∷ (codes "{\"code\":0}", Mode.inspection)
    ∷ (codes "{\"code\":0}", Mode.inspection)
    ∷ []

health_check-back_online_example : health_check false answers ≡ back_online (not false) answers
health_check-back_online_example = health_check-back_online false answers

armed_once : back_online (not false) answers ≡ [] ∷ [] ∷ arm ∷ [] ∷ []
unfolding mode_eq find
armed_once = refl
