-- ===== src/Calls/Api.antt =====
-- internal/session/whatsmeow/calls.go: attaching the engine to an instance, the calls' operations that
-- the HTTP handlers use, and what whatsmeow tells of calls before the engine does.
use apime.Common.{
  ℕ, String, Bool, true, false, not, ◌||◌, Option, none, some, List, [], ◌∷◌, ◌++◌, ◌==◌, length,
  Result, ok, err, if◌then◌else◌,
}
use apime.Common.Text.{trim_space}
use apime.Common.Map.{Map, get, put, delete}
use apime.Common.Heap.{get_elem?}
use apime.Calls.{
  CallPhase, outgoing, Call, kind_accepted, OfferMeta, TrackedCall, CallEngine, Manager, CallError,
  calls_disabled, call_not_found, invalid_video_action, other, phase_name, snapshot,
  emit_call_state, write_call, write_engine, track_call,
}

abbrev pointers : Map ℕ → List ℕ
pointers [] = []
pointers ((id, h) ∷ calls) = h ∷ pointers calls

abbrev calls_of : Option CallEngine → Map ℕ
calls_of none = []
calls_of (some eng) = eng.calls

-- The calls that the engine is told to hang up, one after the other.
abbrev hung_up : Option ℕ → Manager → List ℕ
hung_up none m = []
hung_up (some e) m = pointers (calls_of (get_elem? m.engines e))

unfoldable pub detach_calls : String → Manager → List ℕ × Manager
detach_calls instance_id m =
    (hung_up (get instance_id m.voip) m, record m { voip = delete instance_id m.voip })

-- `calls_enabled`: what the instance found says; `none` where it is not found or the manager has no
-- repository.
unfoldable pub attach_calls : Option Bool → String → Manager → List ℕ × Manager
unfolding detach_calls
attach_calls calls_enabled instance_id m =
    let (ends, m') = detach_calls instance_id m in
    elim calls_enabled [
      | none ↦ (ends, m')
      | some enabled ↦
          if enabled
          then (
            ends,
            record m' {
              engines = m'.engines ++ (record { calls = []; end_hints = []; offers = [] } ∷ []);
              voip = put instance_id (length m'.engines) m'.voip;
            },
          )
          else (ends, m')
    ]

unfoldable pub call_engine_for : String → Manager → Result CallError ℕ
call_engine_for instance_id m = elim (get instance_id m.voip) [
  | none ↦ err calls_disabled
  | some e ↦ ok e
]

abbrev pointer_of : Option ℕ → Result CallError ℕ
pointer_of none = err call_not_found
pointer_of (some h) = ok h

unfoldable pub lookup_call : String → String → Manager → Result CallError ℕ
lookup_call instance_id call_id m = elim (call_engine_for instance_id m) [
  | err e ↦ err e
  | ok e ↦ pointer_of (get call_id (calls_of (get_elem? m.engines e)))
]

abbrev snapshot_of : Option TrackedCall → CallPhase → Result CallError Call
snapshot_of none phase = err call_not_found
snapshot_of (some tc) phase = ok (snapshot tc (phase_name phase))

-- `phases` is what call.State() answers for each call.
unfoldable pub get_call : (ℕ → CallPhase) → String → String → Manager → Result CallError Call
get_call phases instance_id call_id m = elim (lookup_call instance_id call_id m) [
  | err e ↦ err e
  | ok h ↦ snapshot_of (get_elem? m.heap h) (phases h)
]

abbrev add_snapshot : Option TrackedCall → CallPhase → List Call → List Call
add_snapshot none phase out = out
add_snapshot (some tc) phase out = snapshot tc (phase_name phase) ∷ out

unfoldable pub snapshots : (ℕ → CallPhase) → Manager → List ℕ → List Call
snapshots phases m [] = []
snapshots phases m (h ∷ hs) = add_snapshot (get_elem? m.heap h) (phases h) (snapshots phases m hs)

unfoldable pub list_calls : (ℕ → CallPhase) → String → Manager → Result CallError (List Call)
unfolding snapshots
list_calls phases instance_id m = elim (call_engine_for instance_id m) [
  | err e ↦ err e
  | ok e ↦ ok (snapshots phases m (pointers (calls_of (get_elem? m.engines e))))
]

-- What the engine's CallWithOptions returns: the call's id, peer and phase.
pub record Placed : Type 0 where
  pub id : String
  pub peer : String
  pub phase : CallPhase

-- `video` is the request's; `phases` is asked once the call is tracked.
unfoldable pub start_call :
    ℕ
    → Result CallError Placed
    → (ℕ → CallPhase)
    → String
    → Bool
    → Manager
    → Result CallError Call × Manager
start_call now placed phases instance_id video m = elim (call_engine_for instance_id m) [
  | err e ↦ (err e, m)
  | ok e ↦ elim placed [
    | err failure ↦ (err failure, m)
    | ok call ↦
        let offered =
          write_engine e
            (λ eng. record eng {
              offers = put call.id (record { video = video; group = "" }) eng.offers;
            })
            m in
        let tracked = track_call now instance_id e call.id call.peer call.phase outgoing offered in
        (get_call phases instance_id call.id tracked, tracked)
  ]
]

abbrev pub answered : Option TrackedCall → String → ℕ → Manager → Manager
answered none instance_id h m = m
answered (some tc) instance_id h m =
    let m' = write_call h (λ c. record c { active = true }) m in
    elim (call_engine_for instance_id m') [
      | err e ↦ m'
      | ok e ↦ if not tc.active then emit_call_state h kind_accepted "active" "" m' else m'
    ]

-- `fault`: the engine's Answer fails.
unfoldable pub answer_call : Option String → String → String → Manager → Option CallError × Manager
answer_call fault instance_id call_id m = elim (lookup_call instance_id call_id m) [
  | err e ↦ (some e, m)
  | ok h ↦ elim fault [
    | some message ↦ (some (other message), m)
    | none ↦ (none, answered (get_elem? m.heap h) instance_id h m)
  ]
]

abbrev error_of : Option String → Option CallError
error_of none = none
error_of (some message) = some (other message)

unfoldable pub mark_local_end : ℕ → Manager → Manager
mark_local_end h m = write_call h (λ c. record c { local_end = true }) m

-- The engine is asked to hang up whatever it then answers.
unfoldable pub hangup_call : Option String → String → String → Manager → Option CallError × Manager
hangup_call fault instance_id call_id m = elim (lookup_call instance_id call_id m) [
  | err e ↦ (some e, m)
  | ok h ↦ (error_of fault, mark_local_end h m)
]

-- Which way a rejection goes: the engine's call, or whatsmeow's reject for that JID.
pub data Route : Type 0 where
  by_engine : ℕ → Route
  by_client : String → Route
  nowhere : Route

-- `parse_jid` is types.ParseJID; `client` fails where the instance has no client; `fault` is the
-- error of the chosen reject.
unfoldable pub reject_call :
    (String → Result String String)
    → Option String
    → Option String
    → String
    → String
    → String
    → Manager
    → (Route × Option CallError) × Manager
reject_call parse_jid client fault instance_id call_id from m =
    elim (lookup_call instance_id call_id m) [
      | ok h ↦ ((by_engine h, error_of fault), mark_local_end h m)
      | err _ ↦
          if trim_space from == ""
          then ((nowhere, some call_not_found), m)
          else elim (parse_jid from) [
            | err message ↦ ((nowhere, some (other message)), m)
            | ok jid ↦ elim client [
              | some message ↦ ((nowhere, some (other message)), m)
              | none ↦ ((by_client jid, error_of fault), m)
            ]
          ]
    ]

unfoldable pub is_video_action : String → Bool
is_video_action action =
    action == "start"
    || action == "accept"
    || action == "stop"
    || action == "pause"
    || action == "resume"

unfoldable pub video_call :
    Option String → String → String → String → Manager → Option CallError × Manager
unfolding is_video_action
video_call fault instance_id call_id action m = elim (lookup_call instance_id call_id m) [
  | err e ↦ (some e, m)
  | ok h ↦ if not (is_video_action action) then (some invalid_video_action, m) else elim fault [
    | some message ↦ (some (other message), m)
    | none ↦
        if action == "start" || action == "accept"
        then (none, write_call h (λ c. record c { is_video = true }) m)
        else (none, m)
  ]
]

unfoldable pub hint : ℕ → String → String → Manager → Manager
hint e call_id reason m =
    write_engine e (λ eng. record eng { end_hints = put call_id reason eng.end_hints }) m

-- What events.CallOffer says; a JID is its text, and an empty JID the empty text. `node` holds
-- whether Data has a child `video`, and its `group-jid`.
pub record CallOffer : Type 0 where
  pub call_id : String
  pub group_jid : String
  pub node : Option (Bool × String)

unfoldable pub meta_of : CallOffer → OfferMeta
meta_of ev = elim ev.node [
  | none ↦ record { video = false; group = ev.group_jid }
  | some (video, group) ↦ record {
    video = video;
    group = if ev.group_jid == "" then group else ev.group_jid;
  }
]

unfoldable pub note_offer : ℕ → CallOffer → Manager → Manager
unfolding meta_of
note_offer e ev m =
    write_engine e (λ eng. record eng { offers = put ev.call_id (meta_of ev) eng.offers }) m

-- The handler of whatsmeow's events that attachCalls adds. `own` is the LID user of the account, if
-- it has one.
unfoldable pub on_call_reject : ℕ → Option String → String → String → Manager → Manager
unfolding hint
on_call_reject e own from_user call_id m = elim own [
  | none ↦ m
  | some user ↦ if from_user == user then hint e call_id "rejected_elsewhere" m else m
]

-- Which event whatsmeow reports; an offer says whether its data marks the call as ended.
pub data CallNews : Type 0 where
  terminates rejects other_news : CallNews
  offers : Option (String × String) → CallNews

unfoldable pub ended_offer : Option (String × String) → Bool
ended_offer none = false
ended_offer (some (is_call_ended, terminate_reason)) =
    is_call_ended == "1" || not (terminate_reason == "")

unfoldable pub engine_ends_call : String → CallNews → Manager → Bool
unfolding ended_offer
engine_ends_call instance_id evt m = elim (get instance_id m.voip) [
  | none ↦ false
  | some _ ↦ elim evt [
    | terminates ↦ true
    | rejects ↦ true
    | other_news ↦ false
    | offers node ↦ ended_offer node
  ]
]
