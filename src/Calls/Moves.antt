-- ===== src/Calls/Moves.antt =====
-- Every operation on calls is a sequence of few kinds of moves; an invariant is proved for the moves.
use mathlib.Core.Path.{subst}
use apime.Common.{
  ℕ, String, ◌≡◌, refl, Bool, true, false, ◌||◌, Option, none, some, [], ◌∷◌, ◌++◌, ◌==◌, length,
  arith, if◌then◌else◌, Option-cases, Bool-cases, inl, inr, ◌⊎◌, Result, ok, err, Result-cases,
}
use apime.Common.Map.{Map, get, put, delete, get-put}
use apime.Common.Heap.{get_elem?}
use apime.Calls.{
  CallPhase, idle, calling, ringing, connecting, active, ended, kind_state, TrackedCall, CallEngine,
  Manager, VideoState, CallError, hint_of, phase_name, emit_call_state, write_call, write_engine,
  track_call, accept_of, on_state_change, emit_video_state, on_video_state, on_end, Direction,
  outgoing,
}
use apime.Calls.Api.{
  lookup_call, call_engine_for, attach_calls, detach_calls, start_call, answer_call, hangup_call,
  reject_call, video_call, note_offer, on_call_reject, hint, mark_local_end, Placed, CallOffer,
  answered,
}
use apime.Calls.Trace.{
  Op, attaches, detaches, comes_in, starts, answers, hangs_up, rejects, videos, offers, rejected,
  changes_state, changes_video, ends, step,
}

-- The end reasons of internal/voip/voip.go.
unfoldable pub is_reason : String → Bool
is_reason s =
    s == "missed"
    || s == "rejected"
    || s == "rejected_elsewhere"
    || s == "accepted_elsewhere"
    || s == "cancelled"
    || s == "hangup"
    || s == "group_call_ended"

unfoldable pub is_hint : String → Bool
unfolding is_reason
is_hint s = s == "" || is_reason s

abbrev pub Hints : CallEngine → Type 0
Hints eng = (id : String) → is_hint (hint_of (get id eng.end_hints)) ≡ true

-- A write that keeps what the reports depend on.
abbrev Same : (TrackedCall → TrackedCall) → Type 0
Same f =
    (tc : TrackedCall)
    → ((f tc).ended ≡ tc.ended) × ((f tc).active ≡ tc.active) × ((f tc).last_video ≡ tc.last_video)

pub record Fresh (tc : TrackedCall) : Type 0 where
  pub active : tc.active ≡ false
  pub ended : tc.ended ≡ false
  pub last_video : tc.last_video ≡ ""

pub data Move : Manager → Manager → Type 0 where
  stays : (m : Manager) → Move m m
  joins : {m n o : Manager} → Move m n → Move n o → Move m o
  talks :
      (g : ℕ) (state reason : String) (m : Manager)
      → Move m (emit_call_state g kind_state state reason m)
  writes :
      (g : ℕ) (f : TrackedCall → TrackedCall) (m : Manager) → Same f → Move m (write_call g f m)
  activates : (g : ℕ) (m : Manager) → Move m (write_call g (λ c. record c { active = true }) m)
  accepts : (g : ℕ) (m : Manager) → Move m (accept_of (get_elem? m.heap g) g m)
  shows :
      (g : ℕ) (phase : CallPhase) (v : VideoState) (m : Manager)
      → Move m (emit_video_state g phase v m)
  finishes : (g : ℕ) (raw : String) (m : Manager) → Move m (on_end g raw m)
  rewires : (voip : Map ℕ) (m : Manager) → Move m (record m { voip = voip })
  notes :
      (e : ℕ) (f : CallEngine → CallEngine) (m : Manager)
      → ((eng : CallEngine) → Hints eng → Hints (f eng))
      → Move m (write_engine e f m)
  adds_engine :
      (eng : CallEngine) (m : Manager)
      → Hints eng
      → Move m (record m { engines = m.engines ++ (eng ∷ []) })
  adds_call :
      (tc : TrackedCall) (m : Manager) → Fresh tc → Move m (record m { heap = m.heap ++ (tc ∷ []) })

track_call_moves :
    (now : ℕ) (i : String) (e : ℕ) (id peer : String) (phase : CallPhase) (d : Direction)
    (m : Manager)
    → Move m (track_call now i e id peer phase d m)
unfolding track_call
track_call_moves now i e id peer phase d m =
    joins
      (joins
        (notes e (λ eng. record eng { calls = put id (length m.heap) eng.calls }) m (λ eng h. h))
        (unfold write_engine in
          adds_call _ _ (record { active = refl; ended = refl; last_video = refl })))
      (talks _ _ _ _)

start_call_moves :
    (now : ℕ) (placed : Result CallError Placed) (phases : ℕ → CallPhase) (i : String)
    (video : Bool) (m : Manager)
    → Move m (start_call now placed phases i video m).1
unfolding start_call
start_call_moves now (err failure) phases i video m = elim (Result-cases (call_engine_for i m)) [
  | inl (_, off) ↦ rw (off, start_call) (stays m)
  | inr (_, on) ↦ rw (on, start_call) (stays m)
]
start_call_moves now (ok call) phases i video m = elim (Result-cases (call_engine_for i m)) [
  | inl (_, off) ↦ rw (off, start_call) (stays m)
  | inr (e, on) ↦
      rw (on, start_call)
        (joins
          (notes e
            (λ eng. record eng {
              offers = put call.id (record { video = video; group = "" }) eng.offers;
            })
            m (λ eng h. h))
          (track_call_moves now i e call.id call.peer call.phase outgoing _))
]

empty-Hints : Hints (record { calls = []; end_hints = []; offers = [] })
unfolding get is_hint
empty-Hints id = refl

attach_calls_moves :
    (calls_enabled : Option Bool) (i : String) (m : Manager)
    → Move m (attach_calls calls_enabled i m).1
unfolding attach_calls detach_calls
attach_calls_moves none i m = rewires (delete i m.voip) m
attach_calls_moves (some false) i m = rewires (delete i m.voip) m
attach_calls_moves (some true) i m =
    joins (rewires (delete i m.voip) m)
      (joins (adds_engine _ _ empty-Hints) (rewires (put i (length m.engines) (delete i m.voip)) _))

accepted_moves :
    (h : ℕ) (m : Manager) (tc : TrackedCall)
    → get_elem? m.heap h ≡ some tc
    → Move m (accept_of (some tc) h m)
accepted_moves h m tc there = subst (λ o. Move m (accept_of o h m)) there (accepts h m)

answered_moves : (i : String) (h : ℕ) (m : Manager) → Move m (answered (get_elem? m.heap h) i h m)
unfolding accept_of
answered_moves i h m = elim (Option-cases (get_elem? m.heap h)) [
  | inl gone ↦ rw gone (stays m)
  | inr (tc, there) ↦
      elim (Result-cases (call_engine_for i (write_call h (λ c. record c { active = true }) m))) [
        | inl (_, off) ↦ rw (there, off, answered) (activates h m)
        | inr (e, on) ↦ rw (there, on, answered) (accepted_moves h m tc there)
      ]
]

answer_call_moves :
    (fault : Option String) (i id : String) (m : Manager) → Move m (answer_call fault i id m).1
unfolding answer_call
answer_call_moves (some message) i id m = elim (Result-cases (lookup_call i id m)) [
  | inl (_, unknown) ↦ rw (unknown, answer_call) (stays m)
  | inr (h, known) ↦ rw (known, answer_call) (stays m)
]
answer_call_moves none i id m = elim (Result-cases (lookup_call i id m)) [
  | inl (_, unknown) ↦ rw (unknown, answer_call) (stays m)
  | inr (h, known) ↦ rw (known, answer_call) (answered_moves i h m)
]

mark_local_end_moves : (h : ℕ) (m : Manager) → Move m (mark_local_end h m)
unfolding mark_local_end
mark_local_end_moves h m = writes h _ m (λ tc. (refl, refl, refl))

hangup_call_moves :
    (fault : Option String) (i id : String) (m : Manager) → Move m (hangup_call fault i id m).1
unfolding hangup_call
hangup_call_moves fault i id m = elim (Result-cases (lookup_call i id m)) [
  | inl (_, unknown) ↦ rw (unknown, hangup_call) (stays m)
  | inr (h, known) ↦ rw (known, hangup_call) (mark_local_end_moves h m)
]

reject_call_moves :
    (parse_jid : String → Result String String) (client fault : Option String) (i id from : String)
    (m : Manager)
    → Move m (reject_call parse_jid client fault i id from m).1
unfolding reject_call
reject_call_moves parse_jid client fault i id from m = elim (Result-cases (lookup_call i id m)) [
  | inr (h, known) ↦ rw (known, reject_call) (mark_local_end_moves h m)
  | inl (_, unknown) ↦
      let same : (reject_call parse_jid client fault i id from m).1 ≡ m = ground (arith, unknown) in
      rw same (stays m)
]

is_video_write : (h : ℕ) (m : Manager) → Move m (write_call h (λ c. record c { is_video = true }) m)
is_video_write h m = writes h _ m (λ tc. (refl, refl, refl))

video_call_moves :
    (fault : Option String) (i id action : String) (m : Manager)
    → Move m (video_call fault i id action m).1
unfolding video_call
video_call_moves fault i id action m = elim (Result-cases (lookup_call i id m)) [
  | inl (_, unknown) ↦ rw (unknown, video_call) (stays m)
  | inr (h, known) ↦
      let result : ((video_call fault i id action m).1 ≡ m)
          ⊎ ((video_call fault i id action m).1
              ≡ write_call h (λ c. record c { is_video = true }) m) =
        ground (arith, known) in
      elim result [ inl same ↦ rw same (stays m) | inr set ↦ rw set (is_video_write h m) ]
]

note_offer_moves : (e : ℕ) (ev : CallOffer) (m : Manager) → Move m (note_offer e ev m)
unfolding note_offer
note_offer_moves e ev m = notes e _ m (λ eng h. h)

hint_Hints :
    (id : String) (eng : CallEngine)
    → Hints eng
    → Hints (record eng { end_hints = put id "rejected_elsewhere" eng.end_hints })
unfolding is_hint is_reason
hint_Hints id eng known j = elim (Bool-cases (id == j)) [
  | inl same ↦ rw (get-put id j "rejected_elsewhere" eng.end_hints, same) refl
  | inr other ↦ rw (get-put id j "rejected_elsewhere" eng.end_hints, other) (known j)
]

on_call_reject_moves :
    (e : ℕ) (own : Option String) (from_user id : String) (m : Manager)
    → Move m (on_call_reject e own from_user id m)
unfolding on_call_reject hint
on_call_reject_moves e none from_user id m = stays m
on_call_reject_moves e (some user) from_user id m = elim (Bool-cases (from_user == user)) [
  | inl own ↦ rw own (notes e _ m (hint_Hints id))
  | inr other ↦ rw other (stays m)
]

on_state_change_moves :
    (h : ℕ) (phase : CallPhase) (m : Manager) → Move m (on_state_change h phase m)
unfolding on_state_change
on_state_change_moves h ended m = stays m
on_state_change_moves h active m = joins (talks h (phase_name active) "" m) (accepts h _)
on_state_change_moves h idle m = talks h _ "" m
on_state_change_moves h calling m = talks h _ "" m
on_state_change_moves h ringing m = talks h _ "" m
on_state_change_moves h connecting m = talks h _ "" m

video_mark_moves :
    (b : Bool) (h : ℕ) (m : Manager)
    → Move m (if b then write_call h (λ c. record c { is_video = true }) m else m)
video_mark_moves true h m = is_video_write h m
video_mark_moves false h m = stays m

on_video_state_moves :
    (h : ℕ) (phase : CallPhase) (v : VideoState) (m : Manager) → Move m (on_video_state h phase v m)
unfolding on_video_state
on_video_state_moves h phase v m = joins (video_mark_moves v.active h m) (shows h phase v _)

pub step_moves : (op : Op) (m : Manager) → Move m (step op m)
unfolding step
step_moves (attaches calls_enabled i) m = attach_calls_moves calls_enabled i m
step_moves (detaches i) m = attach_calls_moves none i m
step_moves (comes_in now i e id peer phase) m = track_call_moves now i e id peer phase _ m
step_moves (starts now placed phases i video) m = start_call_moves now placed phases i video m
step_moves (answers fault i id) m = answer_call_moves fault i id m
step_moves (hangs_up fault i id) m = hangup_call_moves fault i id m
step_moves (rejects parse_jid client fault i id from) m =
    reject_call_moves parse_jid client fault i id from m
step_moves (videos fault i id action) m = video_call_moves fault i id action m
step_moves (offers e ev) m = note_offer_moves e ev m
step_moves (rejected e own from_user id) m = on_call_reject_moves e own from_user id m
step_moves (changes_state h phase) m = on_state_change_moves h phase m
step_moves (changes_video h phase v) m = on_video_state_moves h phase v m
step_moves (ends h raw) m = finishes h raw m
