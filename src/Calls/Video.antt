-- ===== src/Calls/Video.antt =====
-- What internal/session/whatsmeow/calls.go reports of the peer's camera.
use apime.Common.{
  ℕ, String, ◌≡◌, refl, sym, ap, ◌∙◌, Bool, true, false, not, ◌&&◌, Option, none, some, List, [],
  ◌∷◌, ◌++◌, ◌==◌, length, arith, eqb, eqb_iff, eq_iff, if◌then◌else◌, Option-cases, Bool-cases,
  inl, inr,
}
use apime.Common.Heap.{
  modify, get_elem?-modify_self, get_elem?-modify_ne, changed, get_elem?, get_elem?-modify,
  get_elem?-append, get_elem?-length,
}
use apime.Calls.{
  CallPhase, VideoState, Kind, kind_state, kind_ended, kind_accepted, kind_video, TrackedCall,
  Emission, Manager, video_name, emit_of, emit_call_state, write_call, write_engine, accept_of,
  emit_video_state, video_of, on_end, end_of, phase_name,
}
use apime.Calls.Moves.{
  Move, stays, joins, talks, writes, activates, accepts, shows, finishes, rewires, notes,
  adds_engine, adds_call, Fresh, step_moves,
}
use apime.Calls.Trace.{Op, step, steps, new_manager}
use apime.Calls.Once.{is_kind}

-- What the video webhooks of a call said, newest first.
unfoldable pub shown : ℕ → List Emission → List String
unfolding is_kind
shown h [] = []
shown h (e ∷ es) =
    let rest = shown h es in
    if is_kind kind_video e.event.kind && eqb e.of h then e.event.reason ∷ rest else rest

abbrev newest : List String → String
newest [] = ""
newest (v ∷ vs) = v

abbrev pub Changes : List String → Type 0
Changes [] = Unit {0}
Changes (v ∷ vs) = ((newest vs == v) ≡ false) × Changes vs

abbrev last_of : Option TrackedCall → String
last_of none = ""
last_of (some tc) = tc.last_video

record Follows (h : ℕ) (m : Manager) : Type 0 where
  changes : Changes (shown h m.emitted)
  last : m.handling ≡ true → newest (shown h m.emitted) ≡ last_of (get_elem? m.heap h)

-- Nothing that matters changed.
record Quiet (h : ℕ) (m n : Manager) : Type 0 where
  handles : n.handling ≡ m.handling
  same_last : last_of (get_elem? n.heap h) ≡ last_of (get_elem? m.heap h)
  same_log : shown h n.emitted ≡ shown h m.emitted

Follows-Quiet : (h : ℕ) {m n : Manager} → Quiet h m n → Follows h m → Follows h n
Follows-Quiet h {m} {n} q v = record {
  changes = rw q.same_log v.changes;
  last = λ on. rw (q.same_last, q.same_log) (v.last (sym q.handles ∙ on));
}

Quiet-refl : (h : ℕ) (m : Manager) → Quiet h m m
Quiet-refl h m = record { handles = refl; same_last = refl; same_log = refl }

Quiet-if :
    (b : Bool) (h : ℕ) (m n o : Manager)
    → Quiet h m n
    → Quiet h m o
    → Quiet h m (if b then n else o)
Quiet-if true h m n o p q = p
Quiet-if false h m n o p q = q

Quiet-emit :
    (h g : ℕ) (kind : Kind) (state reason : String) (m : Manager)
    → is_kind kind_video kind ≡ false
    → Quiet h m (emit_call_state g kind state reason m)
unfolding emit_call_state emit_of shown
Quiet-emit h g kind state reason m other = elim (Option-cases (get_elem? m.heap g)) [
  | inl gone ↦ rw gone (Quiet-refl h m)
  | inr (tc, there) ↦ rw there (
      Quiet-if m.handling h m _ m
        (record { handles = refl; same_last = refl; same_log = rw other refl }) (Quiet-refl h m))
]

last_changed :
    (b : Bool) (f : TrackedCall → TrackedCall) (o : Option TrackedCall)
    → ((tc : TrackedCall) → (f tc).last_video ≡ tc.last_video)
    → last_of (if b then changed o f else o) ≡ last_of o
last_changed true f none keeps = refl
last_changed true f (some tc) keeps = keeps tc
last_changed false f o keeps = refl

Quiet-write :
    (h g : ℕ) (f : TrackedCall → TrackedCall) (m : Manager)
    → ((tc : TrackedCall) → (f tc).last_video ≡ tc.last_video)
    → Quiet h m (write_call g f m)
unfolding write_call
Quiet-write h g f m keeps = record {
  handles = refl;
  same_last =
      ap last_of (get_elem?-modify g h f m.heap)
      ∙ last_changed (eqb g h) f (get_elem? m.heap h) keeps;
  same_log = refl;
}

Follows-add :
    (h : ℕ) (tc : TrackedCall) (m : Manager)
    → Fresh tc
    → Follows h m
    → Follows h (record m { heap = m.heap ++ (tc ∷ []) })
Follows-add h tc m fresh v =
    let grown : last_of (get_elem? (m.heap ++ (tc ∷ [])) h) ≡ last_of (get_elem? m.heap h) =
      elim (Bool-cases (eqb h (length m.heap))) [
        | inl last ↦
            let new : get_elem? m.heap h ≡ none =
              rw ((eqb_iff h (length m.heap)).0 last) (get_elem?-length m.heap) in
            ap last_of (get_elem?-append h m.heap tc) ∙ rw (last, new) fresh.last_video
        | inr old ↦ ap last_of (get_elem?-append h m.heap tc) ∙ rw old refl
      ] in
    Follows-Quiet h (record { handles = refl; same_last = grown; same_log = refl }) v

Follows-if :
    (b : Bool) (h : ℕ) (m n : Manager)
    → (b ≡ true → Follows h m)
    → (b ≡ false → Follows h n)
    → Follows h (if b then m else n)
Follows-if true h m n v w = v refl
Follows-if false h m n v w = w refl

last_self :
    (h g : ℕ) (name : String) (m : Manager) {tc : TrackedCall}
    → eqb g h ≡ true
    → get_elem? m.heap g ≡ some tc
    → last_of (get_elem? (modify g (λ c. record c { last_video = name }) m.heap) h) ≡ name
last_self h g name m it there = ap last_of (get_elem?-modify_self g h _ m.heap it there)

-- A state of the camera that is new for the call `g`, with an event handler.
Follows-told :
    (h g : ℕ) (name : String) (e : Emission) (m : Manager) (tc : TrackedCall)
    → e.of ≡ g
    → e.event.kind ≡ kind_video
    → e.event.reason ≡ name
    → m.handling ≡ true
    → get_elem? m.heap g ≡ some tc
    → (tc.last_video == name) ≡ false
    → Follows h m
    → Follows h
        (record (write_call g (λ c. record c { last_video = name }) m) { emitted = e ∷ m.emitted })
unfolding shown write_call is_kind
Follows-told h g name e m tc of kind reason on there new v = elim (Bool-cases (eqb g h)) [
  | inl it ↦
      let at : get_elem? m.heap h ≡ some tc = rw⁻¹ ((eqb_iff g h).0 it) there in
      let was : newest (shown h m.emitted) ≡ tc.last_video = v.last on ∙ rw at refl in
      record {
        changes = rw (of, kind, reason, it, was) (new, v.changes);
        last = λ _. rw (of, kind, reason, it) (sym (last_self h g name m it there));
      }
  | inr other ↦ record {
    changes = rw (of, kind, other) v.changes;
    last = λ on.
        rw (of, kind, other)
          (v.last on ∙ ap last_of (sym (get_elem?-modify_ne g h _ m.heap other)));
  }
]

Follows-new :
    (h g : ℕ) (phase name : String) (m : Manager) (tc : TrackedCall)
    → get_elem? m.heap g ≡ some tc
    → (tc.last_video == name) ≡ false
    → Follows h m
    → Follows h (
        emit_call_state g kind_video phase name
          (write_call g (λ c. record c { last_video = name }) m))
unfolding emit_call_state emit_of write_call
Follows-new h g phase name m tc there new v =
    rw (get_elem?-modify_self g g (λ c. record c { last_video = name }) m.heap (ground arith) there)
      (Follows-if m.handling h _ _
        (λ on. Follows-told h g name _ m tc refl refl refl on there new v)
        (λ off. record { changes = v.changes; last = λ on. absurd (ground (arith, on, off)) }))

-- The same state again.
last_kept :
    (h g : ℕ) (name : String) (m : Manager) {tc : TrackedCall}
    → get_elem? m.heap g ≡ some tc
    → (tc.last_video == name) ≡ true
    → last_of (get_elem? (modify g (λ c. record c { last_video = name }) m.heap) h)
      ≡ last_of (get_elem? m.heap h)
last_kept h g name m {tc} there same = elim (Bool-cases (eqb g h)) [
  | inl it ↦
      let at : get_elem? m.heap h ≡ some tc = rw⁻¹ ((eqb_iff g h).0 it) there in
      last_self h g name m it there ∙ sym ((eq_iff tc.last_video name).0 same) ∙ rw at refl
  | inr other ↦ ap last_of (get_elem?-modify_ne g h _ m.heap other)
]

Follows-show :
    (h g : ℕ) (phase : CallPhase) (s : VideoState) (m : Manager)
    → Follows h m
    → Follows h (emit_video_state g phase s m)
unfolding emit_video_state video_of write_call
Follows-show h g phase s m v = elim (Option-cases (get_elem? m.heap g)) [
  | inl gone ↦ rw gone v
  | inr (tc, there) ↦ rw there (
      Follows-if (tc.last_video == video_name s) h _ _
        (λ same.
          Follows-Quiet h
            (record {
              handles = refl;
              same_log = refl;
              same_last = last_kept h g (video_name s) m there same;
            })
            v)
        (λ new. Follows-new h g (phase_name phase) (video_name s) m tc there new v))
]

Follows-finish : (h g : ℕ) (raw : String) (m : Manager) → Follows h m → Follows h (on_end g raw m)
unfolding on_end end_of write_engine is_kind
Follows-finish h g raw m v = elim (Option-cases (get_elem? m.heap g)) [
  | inl gone ↦ rw gone v
  | inr (tc, there) ↦ rw there (
      Follows-if tc.ended h m _ (λ again. v)
        (λ first. Follows-Quiet h (Quiet-emit h g kind_ended "ended" _ _ refl) (
          Follows-Quiet h (Quiet-emit h g kind_state "ended" _ _ refl) (
            Follows-Quiet h (record { handles = refl; same_last = refl; same_log = refl })
              (Follows-Quiet h (Quiet-write h g (λ c. record c { ended = true }) m (λ c. refl))
                v)))))
]

Follows-accept :
    (h g : ℕ) (m : Manager) → Follows h m → Follows h (accept_of (get_elem? m.heap g) g m)
unfolding accept_of is_kind
Follows-accept h g m v = elim (Option-cases (get_elem? m.heap g)) [
  | inl gone ↦ rw gone v
  | inr (tc, there) ↦
      let w = Follows-Quiet h (Quiet-write h g (λ c. record c { active = true }) m (λ c. refl)) v in
      rw there (
        Follows-if (not tc.active) h _ _
          (λ first. Follows-Quiet h (Quiet-emit h g kind_accepted "active" "" _ refl) w)
          (λ again. w))
]

Follows-move : (h : ℕ) {m n : Manager} → Move m n → Follows h m → Follows h n
unfolding is_kind write_engine
Follows-move h (stays m) v = v
Follows-move h (joins p q) v = Follows-move h q (Follows-move h p v)
Follows-move h (talks g state reason m) v =
    Follows-Quiet h (Quiet-emit h g kind_state state reason m refl) v
Follows-move h (writes g f m same) v = Follows-Quiet h (Quiet-write h g f m (λ tc. (same tc).2)) v
Follows-move h (activates g m) v = Follows-Quiet h (Quiet-write h g _ m (λ tc. refl)) v
Follows-move h (accepts g m) v = Follows-accept h g m v
Follows-move h (shows g phase s m) v = Follows-show h g phase s m v
Follows-move h (finishes g raw m) v = Follows-finish h g raw m v
Follows-move h (rewires voip m) v = record { changes = v.changes; last = v.last }
Follows-move h (notes e f m keeps) v = record { changes = v.changes; last = v.last }
Follows-move h (adds_engine eng m hints) v = record { changes = v.changes; last = v.last }
Follows-move h (adds_call tc m fresh) v = Follows-add h tc m fresh v

Follows-steps : (h : ℕ) (ops : List Op) (m : Manager) → Follows h m → Follows h (steps ops m)
unfolding steps
Follows-steps h [] m v = v
Follows-steps h (op ∷ ops) m v =
    Follows-steps h ops (step op m) (Follows-move h (step_moves op m) v)

-- Whatever is called and whatever the engine reports, in any order: of the webhooks on the peer's
-- camera in one call, no two that follow each other say the same.
pub camera_webhooks_differ :
    (handling : Bool) (ops : List Op) (h : ℕ)
    → Changes (shown h (steps ops (new_manager handling)).emitted)
unfolding new_manager
camera_webhooks_differ handling ops h =
    let start : Follows h (new_manager handling) = record {
      changes = unfold shown in tt;
      last = λ on. unfold shown get_elem? in refl;
    } in
    (Follows-steps h ops (new_manager handling) start).changes
