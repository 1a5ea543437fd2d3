-- ===== src/App/Health.antt =====
-- src/main.cpp: the thread that asks the camera for its state every five seconds, and arms it again after an
-- outage. Each turn is given what the camera answers to `/CheckStatus`, and the mode at that time.
use project_viatech_ecids_co.Base.{
  ◌≡◌, refl, ap, ◌∙◌, Bool, true, false, not, ◌&&◌, List, [], ◌∷◌, Text, codes, if◌then◌else◌,
}
use project_viatech_ecids_co.Common.Modes.{Mode, mode_eq}
use project_viatech_ecids_co.Api3.Wss.Handshake.{has}
use project_viatech_ecids_co.App.{Sent, arm}

abbrev pub sc_up : Text → Bool
sc_up resp = has (codes "\"code\":0") resp

-- One turn: whether the camera was down, and what is sent to it.
unfoldable pub health_turn : Bool → Text × Mode → Bool × List Sent
unfolding mode_eq
health_turn sc_was_down (resp, mode) =
    if not (sc_up resp)
    then (true, [])
    else if sc_was_down
    then (false, if mode_eq mode Mode.inspection then arm else [])
    else (false, [])

-- What each turn sends.
unfoldable pub health_check : Bool → List (Text × Mode) → List (List Sent)
unfolding health_turn
health_check sc_was_down [] = []
health_check sc_was_down (t ∷ ts) =
    let (down, sent) = health_turn sc_was_down t in sent ∷ health_check down ts

-- In terms of the answers alone: a turn arms the camera when it is back after the turn before, in the mode
-- inspection.
abbrev pub back_online : Bool → List (Text × Mode) → List (List Sent)
back_online before [] = []
back_online before ((resp, mode) ∷ ts) =
    (if not before && sc_up resp && mode_eq mode Mode.inspection then arm else [])
    ∷ back_online (sc_up resp) ts

turn_sent :
    (down : Bool) (resp : Text) (mode : Mode)
    → health_turn down (resp, mode) ≡ (
      not (sc_up resp),
      if not (not down) && sc_up resp && mode_eq mode Mode.inspection then arm else [],
    )
unfolding health_turn
turn_sent down resp mode = cases (sc_up resp) down (mode_eq mode Mode.inspection)
  where
    cases :
        (up was inspected : Bool)
        → ◌≡◌ {A = Bool × List Sent}
            (if not up
              then (true, [])
              else if was
              then (false, if inspected then arm else [])
              else (false, []))
            (not up, if not (not was) && up && inspected then arm else [])
    cases true true inspected = refl
    cases true false inspected = refl
    cases false true inspected = refl
    cases false false inspected = refl

involutive : (t : Bool) → not (not t) ≡ t
involutive true = refl
involutive false = refl

-- Whatever the camera answers and whatever the mode is: the turns that arm the camera are those in which it
-- is back after the turn before, while the mode is inspection, and in the other turns nothing is sent.
pub health_check-back_online :
    (sc_was_down : Bool) (ts : List (Text × Mode))
    → health_check sc_was_down ts ≡ back_online (not sc_was_down) ts
unfolding health_check
health_check-back_online down [] = refl
health_check-back_online down ((resp, mode) ∷ ts) = rw (turn_sent down resp mode) (
    ap
      (λ more.
        (if not (not down) && sc_up resp && mode_eq mode Mode.inspection then arm else []) ∷ more)
      (health_check-back_online (not (sc_up resp)) ts
        ∙ ap (λ t. back_online t ts) (involutive (sc_up resp))))
