-- ===== src/Calls.antt =====
-- internal/session/whatsmeow/calls.go: the calls that the manager tracks over the VoIP engine, with
-- the call types of internal/voip/voip.go. A tracked call and an engine are shared by pointer, so
-- both live on a heap. What the engine itself answers is an argument of each operation; its callbacks
-- are operations. A webhook is started by `emit`, in the order of `emitted`, newest first.
pub mod Api
pub mod Trace
pub mod Moves
pub mod Once
pub mod Video
pub mod Reasons
use apime.Common.{
  ℕ, String, Bool, true, false, not, ◌&&◌, ◌||◌, Option, none, some, List, [], ◌∷◌, ◌++◌, ◌==◌, map,
  length, Result, ok, err, if◌then◌else◌,
}
use apime.Common.Map.{Map, get, put, delete}
use apime.Common.Heap.{get_elem?, modify}

pub data CallPhase : Type 0 where
  idle calling ringing connecting active ended : CallPhase

pub data Direction : Type 0 where
  incoming outgoing : Direction

-- voip.Call
pub record Call : Type 0 where
  pub id : String
  pub peer : String
  pub direction : Direction
  pub state : String
  pub started_at : ℕ
  pub is_video : Bool
  pub group_jid : String

pub data Kind : Type 0 where
  kind_state kind_ended kind_accepted kind_video : Kind

pub record StateEvent : Type 0 where
  pub call : Call
  pub kind : Kind
  pub reason : String

pub record OfferMeta : Type 0 where
  pub video : Bool
  pub group : String

-- The fields of meowcaller.Call that are read, `id` and `peer`, stand beside the tracked call's own;
-- `instance_id` and `engine` are what the callbacks of trackCall capture.
pub record TrackedCall : Type 0 where
  pub instance_id : String
  pub engine : ℕ
  pub id : String
  pub peer : String
  pub direction : Direction
  pub started_at : ℕ
  pub is_video : Bool
  pub group_jid : String
  pub active : Bool
  pub local_end : Bool
  pub ended : Bool
  pub last_video : String

pub record CallEngine : Type 0 where
  pub calls : Map ℕ
  pub end_hints : Map String
  pub offers : Map OfferMeta

-- A webhook, and the pointer of the call it is about.
pub record Emission : Type 0 where
  pub of : ℕ
  pub event : StateEvent

-- The manager's part: `handling` says whether an event handler is set.
pub record Manager : Type 0 where
  pub handling : Bool
  pub voip : Map ℕ
  pub engines : List CallEngine
  pub heap : List TrackedCall
  pub emitted : List Emission

pub data CallError : Type 0 where
  calls_disabled call_not_found invalid_video_action : CallError
  other : String → CallError

unfoldable pub phase_name : CallPhase → String
phase_name calling = "calling"
phase_name ringing = "ringing"
phase_name connecting = "connecting"
phase_name active = "active"
phase_name ended = "ended"
phase_name idle = "idle"

unfoldable pub snapshot : TrackedCall → String → Call
snapshot tc state = record {
  id = tc.id;
  peer = tc.peer;
  direction = tc.direction;
  state = state;
  started_at = tc.started_at;
  is_video = tc.is_video;
  group_jid = tc.group_jid;
}

-- `none`: no such pointer, which the code never holds.
unfoldable pub emit_of : Option TrackedCall → ℕ → Kind → String → String → Manager → Manager
unfolding snapshot
emit_of none h kind state reason m = m
emit_of (some tc) h kind state reason m =
    if m.handling
    then record m {
      emitted =
          record {
            of = h;
            event = record { call = snapshot tc state; kind = kind; reason = reason };
          }
          ∷ m.emitted;
    }
    else m

unfoldable pub emit_call_state : ℕ → Kind → String → String → Manager → Manager
unfolding emit_of
emit_call_state h kind state reason m = emit_of (get_elem? m.heap h) h kind state reason m

unfoldable pub write_call : ℕ → (TrackedCall → TrackedCall) → Manager → Manager
write_call h f m = record m { heap = modify h f m.heap }

unfoldable pub write_engine : ℕ → (CallEngine → CallEngine) → Manager → Manager
write_engine e f m = record m { engines = modify e f m.engines }

unfoldable pub offer_of : Option OfferMeta → Bool × String
offer_of none = (false, "")
offer_of (some meta) = (meta.video, meta.group)

abbrev pub offers_of : Option CallEngine → Map OfferMeta
offers_of none = []
offers_of (some eng) = eng.offers

unfoldable pub offer_info : ℕ → String → Manager → Bool × String
unfolding offer_of
offer_info e call_id m = offer_of (get call_id (offers_of (get_elem? m.engines e)))

-- `phase` is what call.State() answers at once.
unfoldable pub track_call :
    ℕ → String → ℕ → String → String → CallPhase → Direction → Manager → Manager
unfolding write_engine offer_info emit_call_state phase_name
track_call now instance_id e id peer phase direction m =
    let h = length m.heap in
    let (video, group) = offer_info e id m in
    let tc : TrackedCall = record {
      instance_id = instance_id;
      engine = e;
      id = id;
      peer = peer;
      direction = direction;
      started_at = now;
      is_video = video;
      group_jid = group;
      active = false;
      local_end = false;
      ended = false;
      last_video = "";
    } in
    emit_call_state h kind_state (phase_name phase) ""
      (record (write_engine e (λ eng. record eng { calls = put id h eng.calls }) m) {
        heap = m.heap ++ (tc ∷ []);
      })

-- The callback of OnStateChange.
unfoldable pub accept_of : Option TrackedCall → ℕ → Manager → Manager
unfolding emit_call_state write_call
accept_of none h m = m
accept_of (some tc) h m =
    let m' = write_call h (λ c. record c { active = true }) m in
    if not tc.active then emit_call_state h kind_accepted "active" "" m' else m'

unfoldable pub on_state_change : ℕ → CallPhase → Manager → Manager
unfolding emit_call_state phase_name accept_of
on_state_change h ended m = m
on_state_change h active m =
    let m' = emit_call_state h kind_state (phase_name active) "" m in
    accept_of (get_elem? m'.heap h) h m'
on_state_change h phase m = emit_call_state h kind_state (phase_name phase) "" m

-- meowcaller.VideoState, and the call's phase at that moment.
pub record VideoState : Type 0 where
  pub upgrade : Bool
  pub active : Bool

unfoldable pub video_name : VideoState → String
video_name v = if v.upgrade then "upgrade_requested" else if v.active then "on" else "off"

unfoldable pub video_of : Option TrackedCall → ℕ → CallPhase → VideoState → Manager → Manager
unfolding emit_call_state write_call phase_name video_name
video_of none h phase v m = m
video_of (some tc) h phase v m =
    let m' = write_call h (λ c. record c { last_video = video_name v }) m in
    if tc.last_video == video_name v
    then m'
    else emit_call_state h kind_video (phase_name phase) (video_name v) m'

unfoldable pub emit_video_state : ℕ → CallPhase → VideoState → Manager → Manager
unfolding video_of
emit_video_state h phase v m = video_of (get_elem? m.heap h) h phase v m

-- The callback of OnVideoState.
unfoldable pub on_video_state : ℕ → CallPhase → VideoState → Manager → Manager
unfolding emit_video_state write_call
on_video_state h phase v m =
    emit_video_state h phase v
      (if v.active then write_call h (λ c. record c { is_video = true }) m else m)

unfoldable pub is_normalized_raw : String → Bool
is_normalized_raw raw =
    raw == "accepted_elsewhere"
    || raw == "rejected_elsewhere"
    || raw == "group_call_ended"
    || raw == "rejected"

unfoldable pub end_reason : TrackedCall → String → String → String
unfolding is_normalized_raw
end_reason tc raw hint =
    if not (hint == "")
    then hint
    else if is_normalized_raw raw
    then raw
    else if tc.active
    then "hangup"
    else if tc.local_end
    then "cancelled"
    else "missed"

abbrev pub hint_of : Option String → String
hint_of none = ""
hint_of (some hint) = hint

abbrev pub hints_of : Option CallEngine → Map String
hints_of none = []
hints_of (some eng) = eng.end_hints

unfoldable pub forget_call : String → CallEngine → CallEngine
forget_call id eng = record {
  calls = delete id eng.calls;
  end_hints = delete id eng.end_hints;
  offers = delete id eng.offers;
}

unfoldable pub end_of : Option TrackedCall → ℕ → String → Manager → Manager
unfolding write_call write_engine forget_call end_reason emit_call_state
end_of none h raw m = m
end_of (some tc) h raw m =
    if tc.ended
    then m
    else (let hint = hint_of (get tc.id (hints_of (get_elem? m.engines tc.engine))) in
        let reason = end_reason tc raw hint in
        emit_call_state h kind_ended "ended" reason (
          emit_call_state h kind_state "ended" reason (
            write_engine tc.engine (forget_call tc.id)
              (write_call h (λ c. record c { ended = true }) m))))

-- The callback of OnEnd.
unfoldable pub on_end : ℕ → String → Manager → Manager
unfolding end_of
on_end h raw m = end_of (get_elem? m.heap h) h raw m
