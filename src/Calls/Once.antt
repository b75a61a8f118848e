-- ===== src/Calls/Once.antt =====
-- How often internal/session/whatsmeow/calls.go reports a tracked call as answered and as ended.
use mathlib.Core.Path.{subst}
use apime.Common.{
  ℕ, suc, ◌≤◌, String, ◌≡◌, refl, sym, ◌∙◌, Bool, true, false, ◌&&◌, Option, none, some, List, [],
  ◌∷◌, ◌==◌, if_false, ◌++◌, length, eqb, arith, if◌then◌else◌, Option-cases, Bool-cases, inl, inr,
  eqb_iff,
}
use apime.Common.Heap.{get_elem?, get_elem?-modify, get_elem?-append, get_elem?-length}
use apime.Calls.{
  CallPhase, Kind, kind_state, kind_ended, kind_accepted, kind_video, TrackedCall, CallEngine,
  Emission, Manager, VideoState, emit_of, emit_call_state, write_call, write_engine, accept_of,
  video_name, video_of, emit_video_state, end_of, on_end, forget_call,
}
use apime.Calls.Moves.{
  Move, stays, joins, talks, writes, activates, accepts, shows, finishes, rewires, notes,
  adds_engine, adds_call, Fresh, step_moves,
}
use apime.Calls.Trace.{Op, step, steps, new_manager}

unfoldable pub is_kind : Kind → Kind → Bool
is_kind kind_state kind_state = true
is_kind kind_ended kind_ended = true
is_kind kind_accepted kind_accepted = true
is_kind kind_video kind_video = true
is_kind _ _ = false

-- How many webhooks of that kind were started for the call.
unfoldable pub reported : Kind → ℕ → List Emission → ℕ
unfolding is_kind
reported kind h [] = 0
reported kind h (e ∷ es) =
    let rest = reported kind h es in
    if is_kind kind e.event.kind && eqb e.of h then suc rest else rest

unfoldable ended_bit : Option TrackedCall → ℕ
ended_bit none = 0
ended_bit (some tc) = if tc.ended then 1 else 0

unfoldable active_bit : Option TrackedCall → ℕ
active_bit none = 0
active_bit (some tc) = if tc.active then 1 else 0

record Fits (h : ℕ) (m : Manager) : Type 0 where
  ends : reported kind_ended h m.emitted ≤ ended_bit (get_elem? m.heap h)
  accepts : reported kind_accepted h m.emitted ≤ active_bit (get_elem? m.heap h)

heap-emit :
    (g : ℕ) (kind : Kind) (state reason : String) (m : Manager)
    → (emit_call_state g kind state reason m).heap ≡ m.heap
unfolding emit_call_state emit_of
heap-emit g kind state reason m = ground arith

reported-emit :
    (k : Kind) (h g : ℕ) (kind : Kind) (state reason : String) (m : Manager)
    → reported k h (emit_call_state g kind state reason m).emitted
      ≤ (if is_kind k kind && eqb g h then suc (reported k h m.emitted) else reported k h m.emitted)
unfolding emit_call_state emit_of reported
reported-emit k h g kind state reason m = ground arith

-- A webhook of another kind changes nothing.
Fits-emit :
    (h g : ℕ) (kind : Kind) (state reason : String) (m : Manager)
    → is_kind kind_ended kind ≡ false
    → is_kind kind_accepted kind ≡ false
    → Fits h m
    → Fits h (emit_call_state g kind state reason m)
Fits-emit h g kind state reason m not_end not_accept v = record {
  ends = ground (
    arith,
    v.ends,
    heap-emit g kind state reason m,
    reported-emit kind_ended h g kind state reason m,
  );
  accepts = ground (
    arith,
    v.accepts,
    heap-emit g kind state reason m,
    reported-emit kind_accepted h g kind state reason m,
  );
}

-- A write that clears neither flag.
Fits-write :
    (h g : ℕ) (f : TrackedCall → TrackedCall) (m : Manager)
    → ((tc : TrackedCall) → ended_bit (some tc) ≤ ended_bit (some (f tc)))
    → ((tc : TrackedCall) → active_bit (some tc) ≤ active_bit (some (f tc)))
    → Fits h m
    → Fits h (write_call g f m)
unfolding write_call
Fits-write h g f m keeps_end keeps_active v = elim (Option-cases (get_elem? m.heap h)) [
  | inl e ↦ record {
    ends = ground (arith, v.ends, get_elem?-modify g h f m.heap, e);
    accepts = ground (arith, v.accepts, get_elem?-modify g h f m.heap, e);
  }
  | inr (tc, e) ↦ record {
    ends = ground (arith, v.ends, get_elem?-modify g h f m.heap, e, keeps_end tc);
    accepts = ground (arith, v.accepts, get_elem?-modify g h f m.heap, e, keeps_active tc);
  }
]

Fits-same : (h : ℕ) (m n : Manager) → n.heap ≡ m.heap → n.emitted ≡ m.emitted → Fits h m → Fits h n
Fits-same h m n same_heap same_log v = record {
  ends = rw (same_heap, same_log) v.ends;
  accepts = rw (same_heap, same_log) v.accepts;
}

Fits-add :
    (h : ℕ) (tc : TrackedCall) (m : Manager)
    → Fresh tc
    → Fits h m
    → Fits h (record m { heap = m.heap ++ (tc ∷ []) })
unfolding ended_bit active_bit
Fits-add h tc m fresh v = elim (Bool-cases (eqb h (length m.heap))) [
  | inl last ↦
      let new : get_elem? m.heap h ≡ none =
        rw ((eqb_iff h (length m.heap)).0 last) (get_elem?-length m.heap) in
      record { ends = ground (arith, v.ends, new); accepts = ground (arith, v.accepts, new) }
  | inr old ↦
      let kept : get_elem? (m.heap ++ (tc ∷ [])) h ≡ get_elem? m.heap h =
        get_elem?-append h m.heap tc ∙ rw old refl in
      record { ends = rw kept v.ends; accepts = rw kept v.accepts }
]

-- The first answer: the flag is set, and its webhook started.
Fits-first :
    (h g : ℕ) (m : Manager) (tc : TrackedCall)
    → get_elem? m.heap g ≡ some tc
    → tc.active ≡ false
    → Fits h m
    → Fits h (
        emit_call_state g kind_accepted "active" ""
          (write_call g (λ c. record c { active = true }) m))
unfolding write_call is_kind ended_bit active_bit
Fits-first h g m tc there first v =
    let w = write_call g (λ c. record c { active = true }) m in
    let log = λ (k : Kind). reported-emit k h g kind_accepted "active" "" w in
    let at = get_elem?-modify g h (λ c. record c { active = true }) m.heap in
    let same = heap-emit g kind_accepted "active" "" w in
    elim (Bool-cases (eqb g h)) [
      | inl it ↦
          let found : get_elem? m.heap h ≡ some tc = rw⁻¹ ((eqb_iff g h).0 it) there in
          record {
            ends = ground (arith, v.ends, same, log kind_ended, at, found);
            accepts = ground (arith, v.accepts, same, log kind_accepted, at, found);
          }
      | inr other ↦ record {
        ends = ground (arith, v.ends, same, log kind_ended, at, other);
        accepts = ground (arith, v.accepts, same, log kind_accepted, at, other);
      }
    ]

Fits-activate :
    (h g : ℕ) (m : Manager) → Fits h m → Fits h (write_call g (λ c. record c { active = true }) m)
unfolding ended_bit active_bit
Fits-activate h g m v = Fits-write h g _ m (λ tc. omega arith) (λ tc. ground arith) v

Fits-accept : (h g : ℕ) (m : Manager) → Fits h m → Fits h (accept_of (get_elem? m.heap g) g m)
unfolding accept_of
Fits-accept h g m v = elim (Option-cases (get_elem? m.heap g)) [
  | inl gone ↦ rw gone v
  | inr (tc, there) ↦ elim (Bool-cases tc.active) [
    | inl again ↦
        let same : accept_of (get_elem? m.heap g) g m
            ≡ write_call g (λ c. record c { active = true }) m =
          rw there (ground (arith, again)) in
        rw same (Fits-activate h g m v)
    | inr first ↦
        let said : accept_of (get_elem? m.heap g) g m
            ≡ emit_call_state g kind_accepted "active" ""
                (write_call g (λ c. record c { active = true }) m) =
          rw there (ground (arith, first)) in
        rw said (Fits-first h g m tc there first v)
  ]
]

Fits-show :
    (h g : ℕ) (phase : CallPhase) (s : VideoState) (m : Manager)
    → Fits h m
    → Fits h (emit_video_state g phase s m)
unfolding emit_video_state video_of is_kind ended_bit active_bit
Fits-show h g phase s m v = elim (Option-cases (get_elem? m.heap g)) [
  | inl gone ↦ rw gone v
  | inr (tc, there) ↦
      let w =
        Fits-write h g (λ c. record c { last_video = video_name s }) m (λ tc. omega arith)
          (λ tc. omega arith) v in
      elim (Bool-cases (tc.last_video == video_name s)) [
        | inl same ↦ rw (there, same) w
        | inr new ↦ rw (there, new) (Fits-emit h g kind_video _ _ _ refl refl w)
      ]
]

-- The first end: the flag is set, then the last state and the end are reported.
Fits-last :
    (h g e : ℕ) (f : CallEngine → CallEngine) (reason : String) (m : Manager) (tc : TrackedCall)
    → get_elem? m.heap g ≡ some tc
    → tc.ended ≡ false
    → Fits h m
    → Fits h (
        emit_call_state g kind_ended "ended" reason (
          emit_call_state g kind_state "ended" reason
            (write_engine e f (write_call g (λ c. record c { ended = true }) m))))
unfolding write_call write_engine is_kind ended_bit active_bit
Fits-last h g e f reason m tc there first v =
    let w = write_engine e f (write_call g (λ c. record c { ended = true }) m) in
    let x = emit_call_state g kind_state "ended" reason w in
    let log = λ (k : Kind). reported-emit k h g kind_state "ended" reason w in
    let log' = λ (k : Kind). reported-emit k h g kind_ended "ended" reason x in
    let at = get_elem?-modify g h (λ c. record c { ended = true }) m.heap in
    let same = heap-emit g kind_state "ended" reason w in
    let same' = heap-emit g kind_ended "ended" reason x in
    elim (Bool-cases (eqb g h)) [
      | inl it ↦
          let found : get_elem? m.heap h ≡ some tc = rw⁻¹ ((eqb_iff g h).0 it) there in
          record {
            ends = ground (arith, v.ends, same, same', log kind_ended, log' kind_ended, at, found);
            accepts =
                ground
                  (arith, v.accepts, same, same', log kind_accepted, log' kind_accepted, at, found);
          }
      | inr other ↦ record {
        ends = ground (arith, v.ends, same, same', log kind_ended, log' kind_ended, at, other);
        accepts =
            ground
              (arith, v.accepts, same, same', log kind_accepted, log' kind_accepted, at, other);
      }
    ]

Fits-finish : (h g : ℕ) (raw : String) (m : Manager) → Fits h m → Fits h (on_end g raw m)
unfolding on_end end_of
Fits-finish h g raw m v = elim (Option-cases (get_elem? m.heap g)) [
  | inl gone ↦ rw gone v
  | inr (tc, there) ↦ elim (Bool-cases tc.ended) [
    | inl again ↦ let same : on_end g raw m ≡ m = rw there (ground (arith, again)) in rw same v
    | inr first ↦ rw there (
        subst (Fits h) (sym (if_false tc.ended m _ first))
          (Fits-last h g tc.engine (forget_call tc.id) _ m tc there first v))
  ]
]

Fits-move : (h : ℕ) {m n : Manager} → Move m n → Fits h m → Fits h n
unfolding is_kind ended_bit active_bit
Fits-move h (stays m) v = v
Fits-move h (joins p q) v = Fits-move h q (Fits-move h p v)
Fits-move h (talks g state reason m) v = Fits-emit h g kind_state state reason m refl refl v
Fits-move h (writes g f m same) v =
    Fits-write h g f m (λ tc. ground (arith, (same tc).0)) (λ tc. ground (arith, (same tc).1)) v
Fits-move h (activates g m) v = Fits-activate h g m v
Fits-move h (accepts g m) v = Fits-accept h g m v
Fits-move h (shows g phase s m) v = Fits-show h g phase s m v
Fits-move h (finishes g raw m) v = Fits-finish h g raw m v
Fits-move h (rewires voip m) v = Fits-same h m _ refl refl v
Fits-move h (notes e f m keeps) v = unfold write_engine in Fits-same h m _ refl refl v
Fits-move h (adds_engine eng m hints) v = Fits-same h m _ refl refl v
Fits-move h (adds_call tc m fresh) v = Fits-add h tc m fresh v

Fits-steps : (h : ℕ) (ops : List Op) (m : Manager) → Fits h m → Fits h (steps ops m)
unfolding steps
Fits-steps h [] m v = v
Fits-steps h (op ∷ ops) m v = Fits-steps h ops (step op m) (Fits-move h (step_moves op m) v)

Fits-new : (handling : Bool) (h : ℕ) → Fits h (new_manager handling)
unfolding new_manager reported ended_bit
Fits-new handling h = record { ends = omega arith; accepts = omega arith }

bits_le : (o : Option TrackedCall) → (active_bit o ≤ 1) × (ended_bit o ≤ 1)
unfolding active_bit ended_bit
bits_le none = (omega arith, omega arith)
bits_le (some tc) = (ground arith, ground arith)

-- Whatever is called and whatever the engine reports, in any order: for each call that a new manager
-- tracks, its answer is reported at most once, and its end at most once.
pub reported_once :
    (handling : Bool) (ops : List Op) (h : ℕ)
    → (reported kind_accepted h (steps ops (new_manager handling)).emitted ≤ 1)
      × (reported kind_ended h (steps ops (new_manager handling)).emitted ≤ 1)
reported_once handling ops h =
    let v = Fits-steps h ops (new_manager handling) (Fits-new handling h) in
    (
      ground (arith, v.accepts, bits_le (get_elem? (steps ops (new_manager handling)).heap h)),
      ground (arith, v.ends, bits_le (get_elem? (steps ops (new_manager handling)).heap h)),
    )
