-- ===== src/Calls/Trace.antt =====
-- Histories of a manager's calls: the operations of the API, the callbacks of the engine and what
-- whatsmeow tells, in any order.
use apime.Common.{ℕ, String, Bool, Option, List, [], ◌∷◌, Result}
use apime.Calls.{
  CallPhase, incoming, Manager, VideoState, CallError, track_call, on_state_change, on_video_state,
  on_end,
}
use apime.Calls.Api.{
  Placed, CallOffer, attach_calls, detach_calls, start_call, answer_call, hangup_call, reject_call,
  video_call, note_offer, on_call_reject,
}

pub data Op : Type 0 where
  attaches : Option Bool → String → Op
  detaches : String → Op
  comes_in : ℕ → String → ℕ → String → String → CallPhase → Op
  starts : ℕ → Result CallError Placed → (ℕ → CallPhase) → String → Bool → Op
  answers : Option String → String → String → Op
  hangs_up : Option String → String → String → Op
  rejects :
      (String → Result String String)
      → Option String
      → Option String
      → String
      → String
      → String
      → Op
  videos : Option String → String → String → String → Op
  offers : ℕ → CallOffer → Op
  rejected : ℕ → Option String → String → String → Op
  changes_state : ℕ → CallPhase → Op
  changes_video : ℕ → CallPhase → VideoState → Op
  ends : ℕ → String → Op

unfoldable pub step : Op → Manager → Manager
unfolding track_call start_call attach_calls detach_calls answer_call hangup_call reject_call
    video_call
step (attaches calls_enabled i) m = (attach_calls calls_enabled i m).1
step (detaches i) m = (detach_calls i m).1
step (comes_in now i e id peer phase) m = track_call now i e id peer phase incoming m
step (starts now placed phases i video) m = (start_call now placed phases i video m).1
step (answers fault i id) m = (answer_call fault i id m).1
step (hangs_up fault i id) m = (hangup_call fault i id m).1
step (rejects parse_jid client fault i id from) m =
    (reject_call parse_jid client fault i id from m).1
step (videos fault i id action) m = (video_call fault i id action m).1
step (offers e ev) m = note_offer e ev m
step (rejected e own from_user id) m = on_call_reject e own from_user id m
step (changes_state h phase) m = on_state_change h phase m
step (changes_video h phase v) m = on_video_state h phase v m
step (ends h raw) m = on_end h raw m

unfoldable pub steps : List Op → Manager → Manager
unfolding step
steps [] m = m
steps (op ∷ ops) m = steps ops (step op m)

-- A manager that has tracked nothing.
unfoldable pub new_manager : Bool → Manager
new_manager handling = record {
  handling = handling;
  voip = [];
  engines = [];
  heap = [];
  emitted = [];
}
