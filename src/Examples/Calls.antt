-- ===== src/Examples/Calls.antt =====
-- Runs of the call engine.
use apime.Common.{◌≤◌, true, false, none, some, List, [], ◌∷◌, All}
use apime.Calls.{VideoState, ringing, active, kind_accepted, kind_ended}
use apime.Calls.Trace.{
  Op, attaches, comes_in, answers, changes_state, changes_video, ends, steps, new_manager,
}
use apime.Calls.Once.{reported, reported_once}
use apime.Calls.Reasons.{Told, ends_have_reasons}

abbrev camera_on : VideoState
camera_on = record { upgrade = false; active = true }

-- A call that comes in, is answered twice over, shows its camera twice and ends twice.
abbrev busy_line : List Op
busy_line =
    attaches (some true) "one"
    ∷ comes_in 5 "one" 0 "call" "peer" ringing
    ∷ answers none "one" "call"
    ∷ changes_state 0 active
    ∷ changes_video 0 active camera_on
    ∷ changes_video 0 active camera_on
    ∷ ends 0 "timeout"
    ∷ ends 0 "timeout"
    ∷ []

reported_once_example :
    (reported kind_accepted 0 (steps busy_line (new_manager true)).emitted ≤ 1)
    × (reported kind_ended 0 (steps busy_line (new_manager true)).emitted ≤ 1)
reported_once_example = reported_once true busy_line 0

ends_have_reasons_example : All Told (steps busy_line (new_manager true)).emitted
ends_have_reasons_example = ends_have_reasons true busy_line
