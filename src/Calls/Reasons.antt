-- ===== src/Calls/Reasons.antt =====
-- The reasons with which internal/session/whatsmeow/calls.go reports the end of a call.
use apime.Common.{
  ℕ, zero, suc, ◌||◌, String, ◌≡◌, refl, Bool, true, false, not, List, [], ◌∷◌, ◌==◌, arith,
  if◌then◌else◌, Option-cases, Bool-cases, inl, inr, All, All-append,
}
use apime.Common.Map.{get, get-delete}
use apime.Common.Heap.{get_elem?, modify}
use apime.Calls.{
  Kind, kind_state, kind_ended, kind_accepted, kind_video, TrackedCall, CallEngine, Emission,
  Manager, hint_of, hints_of, end_reason, is_normalized_raw, emit_of, emit_call_state, write_call,
  write_engine, forget_call, accept_of, emit_video_state, video_of, on_end, end_of, CallPhase,
  VideoState, video_name,
}
use apime.Calls.Moves.{
  Move, stays, joins, talks, writes, activates, accepts, shows, finishes, rewires, notes,
  adds_engine, adds_call, is_reason, is_hint, Hints, step_moves,
}
use apime.Calls.Trace.{Op, step, steps, new_manager}

-- An end carries a known reason.
abbrev pub Told : Emission → Type 0
Told e = e.event.kind ≡ kind_ended → is_reason e.event.reason ≡ true

record Known (m : Manager) : Type 0 where
  hints : All Hints m.engines
  told : All Told m.emitted

Known-if : (b : Bool) (m n : Manager) → Known m → Known n → Known (if b then m else n)
Known-if true m n v w = v
Known-if false m n v w = w

Known-emit :
    (g : ℕ) (kind : Kind) (state reason : String) (m : Manager)
    → (kind ≡ kind_ended → is_reason reason ≡ true)
    → Known m
    → Known (emit_call_state g kind state reason m)
unfolding emit_call_state emit_of
Known-emit g kind state reason m good v = elim (Option-cases (get_elem? m.heap g)) [
  | inl gone ↦ rw gone v
  | inr (tc, there) ↦
      rw there (Known-if m.handling _ m (record { hints = v.hints; told = (good, v.told) }) v)
]

All-modify {ℓ κ} :
    {A : Type ℓ} (P : A → Type κ) (e : ℕ) (f : A → A) (l : List A)
    → ((x : A) → P x → P (f x))
    → All P l
    → All P (modify e f l)
unfolding modify
All-modify P e f [] keeps all = tt
All-modify P zero f (x ∷ l) keeps all = (keeps x all.0, all.1)
All-modify P (suc e) f (x ∷ l) keeps all = (all.0, All-modify P e f l keeps all.1)

Hints-forget : (id : String) (eng : CallEngine) → Hints eng → Hints (forget_call id eng)
unfolding forget_call is_hint
Hints-forget id eng known j = elim (Bool-cases (id == j)) [
  | inl same ↦ rw (get-delete id j eng.end_hints, same) refl
  | inr other ↦ rw (get-delete id j eng.end_hints, other) (known j)
]

-- A hint on a call is a reason, or there is none.
hint_of_known :
    (e : ℕ) (id : String) (engines : List CallEngine)
    → All Hints engines
    → is_hint (hint_of (get id (hints_of (get_elem? engines e)))) ≡ true
unfolding get_elem? is_hint
hint_of_known e id [] known = unfold get in refl
hint_of_known zero id (eng ∷ engines) known = known.0 id
hint_of_known (suc e) id (eng ∷ engines) known = hint_of_known e id engines known.1

among :
    (a b c d x y z : Bool) → (a || b || c || d) ≡ true → (x || d || b || a || y || z || c) ≡ true
among a b c d x y z h = ground (arith, h)

by_flags :
    (active local : Bool)
    → is_reason (if active then "hangup" else if local then "cancelled" else "missed") ≡ true
unfolding is_reason
by_flags true local = refl
by_flags false true = refl
by_flags false false = refl

normalized_is_reason : (raw : String) → is_normalized_raw raw ≡ true → is_reason raw ≡ true
unfolding is_normalized_raw is_reason
normalized_is_reason raw h =
    among (raw == "accepted_elsewhere") (raw == "rejected_elsewhere") (raw == "group_call_ended")
      (raw == "rejected") (raw == "missed") (raw == "cancelled") (raw == "hangup") h

or_right : (a b : Bool) → (a || b) ≡ true → a ≡ false → b ≡ true
or_right a b h k = ground (arith, h, k)

hint_is_reason :
    (hint : String) → is_hint hint ≡ true → (hint == "") ≡ false → is_reason hint ≡ true
unfolding is_hint
hint_is_reason hint h some_hint = or_right (hint == "") (is_reason hint) h some_hint

end_reason-is_reason :
    (tc : TrackedCall) (raw hint : String)
    → is_hint hint ≡ true
    → is_reason (end_reason tc raw hint) ≡ true
unfolding end_reason is_reason
end_reason-is_reason tc raw hint h = elim (Bool-cases (hint == "")) [
  | inr hinted ↦ rw hinted (hint_is_reason hint h hinted)
  | inl plain ↦ rw plain (elim (Bool-cases (is_normalized_raw raw)) [
    | inl known ↦ rw known (normalized_is_reason raw known)
    | inr other ↦ rw other (by_flags tc.active tc.local_end)
  ])
]

Known-finish : (g : ℕ) (raw : String) (m : Manager) → Known m → Known (on_end g raw m)
unfolding on_end end_of
Known-finish g raw m v = elim (Option-cases (get_elem? m.heap g)) [
  | inl gone ↦ rw gone v
  | inr (tc, there) ↦
      let hint = hint_of (get tc.id (hints_of (get_elem? m.engines tc.engine))) in
      let good =
        end_reason-is_reason tc raw hint (hint_of_known tc.engine tc.id m.engines v.hints) in
      let forgotten : Known (
          write_engine tc.engine (forget_call tc.id)
            (write_call g (λ c. record c { ended = true }) m)) =
        record {
          hints =
              unfold write_engine write_call in
              All-modify Hints tc.engine (forget_call tc.id) m.engines (Hints-forget tc.id) v.hints;
          told = unfold write_engine write_call in v.told;
        } in
      rw there (
        Known-if tc.ended m _ v (
          Known-emit g kind_ended "ended" _ _ (λ _. good)
            (Known-emit g kind_state "ended" _ _ (λ _. good) forgotten)))
]

Known-accept : (g : ℕ) (m : Manager) → Known m → Known (accept_of (get_elem? m.heap g) g m)
unfolding accept_of write_call
Known-accept g m v = elim (Option-cases (get_elem? m.heap g)) [
  | inl gone ↦ rw gone v
  | inr (tc, there) ↦
      let w : Known (write_call g (λ c. record c { active = true }) m) = record {
        hints = v.hints;
        told = v.told;
      } in
      rw there (
        Known-if (not tc.active) _ _
          (Known-emit g kind_accepted "active" "" _ (λ e. absurd (ground (arith, e))) w) w)
]

Known-show :
    (g : ℕ) (phase : CallPhase) (s : VideoState) (m : Manager)
    → Known m
    → Known (emit_video_state g phase s m)
unfolding emit_video_state video_of write_call
Known-show g phase s m v = elim (Option-cases (get_elem? m.heap g)) [
  | inl gone ↦ rw gone v
  | inr (tc, there) ↦
      let w : Known (write_call g (λ c. record c { last_video = video_name s }) m) = record {
        hints = v.hints;
        told = v.told;
      } in
      rw there (
        Known-if (tc.last_video == video_name s) _ _ w
          (Known-emit g kind_video _ _ _ (λ e. absurd (ground (arith, e))) w))
]

Known-move : {m n : Manager} → Move m n → Known m → Known n
unfolding write_call write_engine
Known-move (stays m) v = v
Known-move (joins p q) v = Known-move q (Known-move p v)
Known-move (talks g state reason m) v =
    Known-emit g kind_state state reason m (λ e. absurd (ground (arith, e))) v
Known-move (writes g f m same) v = record { hints = v.hints; told = v.told }
Known-move (activates g m) v = record { hints = v.hints; told = v.told }
Known-move (accepts g m) v = Known-accept g m v
Known-move (shows g phase s m) v = Known-show g phase s m v
Known-move (finishes g raw m) v = Known-finish g raw m v
Known-move (rewires voip m) v = record { hints = v.hints; told = v.told }
Known-move (notes e f m keeps) v = record {
  hints = All-modify Hints e f m.engines keeps v.hints;
  told = v.told;
}
Known-move (adds_engine eng m hints) v = record {
  hints = All-append Hints m.engines (eng ∷ []) v.hints (hints, tt);
  told = v.told;
}
Known-move (adds_call tc m fresh) v = record { hints = v.hints; told = v.told }

Known-steps : (ops : List Op) (m : Manager) → Known m → Known (steps ops m)
unfolding steps
Known-steps [] m v = v
Known-steps (op ∷ ops) m v = Known-steps ops (step op m) (Known-move (step_moves op m) v)

-- Whatever is called and whatever the engine reports, in any order: every end that is reported
-- carries one of the seven reasons of the package voip, never WhatsApp's own text.
pub ends_have_reasons :
    (handling : Bool) (ops : List Op) → All Told (steps ops (new_manager handling)).emitted
unfolding new_manager
ends_have_reasons handling ops =
    let start : Known (new_manager handling) = record { hints = tt; told = tt } in
    (Known-steps ops (new_manager handling) start).told
