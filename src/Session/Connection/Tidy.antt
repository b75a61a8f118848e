-- ===== src/Session/Connection/Tidy.antt =====
-- The pending timers after each event of handleEvent and each end of a timer.
use mathlib.Core.Path.{subst}
use apime.Common.{
  ℕ, ◌+◌, String, ◌≡◌, refl, ap, ◌∙◌, sym, Bool, true, false, not, Option, none, some, List, [],
  ◌∷◌, ◌++◌, length, leb, eqb, eqb_iff, ◌⊎◌, arith, if◌then◌else◌, Bool-cases, inl, inr,
}
use apime.Common.Heap.{get_elem?, modify, changed, get_elem?-modify, length-modify}
use apime.Session.Connection.{
  TimerState, armed, running, stopped, done, SessionEvent, connected, pair_success, disconnected,
  stream_error, pair_error, client_outdated, logged_out, temporary_ban, connect_failure,
  app_state_sync_complete, Report, Connection, report, hand_over, call_back, stop, stop_timer,
  on_connected, on_disconnected, on_logged_out, fails, handle_event, fired, fire, confirm,
  confirm_if, is_critical, disconnect_debounce_delay, logs,
}
use apime.Session.Connection.Timers.{
  is_armed, is_running, Quiet, Tidy, Quiet-Tidy, pointer_or, Quiet-stop_timer, Tidy-arm,
}

pub record IsTidy (c : Connection) : Type 0 where
  pub tidy : Tidy c.disconnect_debounce c.timers

IsTidy-as :
    {c : Connection} (d : Connection)
    → d.timers ≡ c.timers
    → d.disconnect_debounce ≡ c.disconnect_debounce
    → IsTidy c
    → IsTidy d
IsTidy-as d timers debounce v = record { tidy = rw (debounce, timers) v.tidy }

IsTidy-report : (r : Report) (c : Connection) → IsTidy c → IsTidy (report r c)
unfolding report
IsTidy-report r c v = record { tidy = v.tidy }

IsTidy-hand_over : (evt : SessionEvent) (c : Connection) → IsTidy c → IsTidy (hand_over evt c)
unfolding hand_over report
IsTidy-hand_over evt c v = IsTidy-as (hand_over evt c) (ground arith) (ground arith) v

IsTidy-call_back : (status : String) (c : Connection) → IsTidy c → IsTidy (call_back status c)
unfolding call_back report
IsTidy-call_back status c v = IsTidy-as (call_back status c) (ground arith) (ground arith) v

IsTidy-fails : (c : Connection) → IsTidy c → IsTidy (fails c)
unfolding fails
IsTidy-fails c v = IsTidy-call_back "error" _ (IsTidy-report _ c v)

IsTidy-if : (b : Bool) (c d : Connection) → IsTidy c → IsTidy d → IsTidy (if b then c else d)
IsTidy-if true c d v w = v
IsTidy-if false c d v w = w

length-stop_timer :
    (debounce : Option ℕ) (timers : List TimerState)
    → length (stop_timer debounce timers) ≡ length timers
unfolding stop_timer
length-stop_timer none timers = refl
length-stop_timer (some h) timers = length-modify h stop timers

IsTidy-on_connected : (now : ℕ) (c : Connection) → IsTidy c → IsTidy (on_connected now c)
unfolding on_connected
IsTidy-on_connected now c v =
    let q = Quiet-stop_timer c.disconnect_debounce c.timers v.tidy in
    IsTidy-call_back "active" _
      (IsTidy-report _ _ (IsTidy-hand_over connected _ (record { tidy = Quiet-Tidy none _ q })))

IsTidy-on_disconnected : (now : ℕ) (c : Connection) → IsTidy c → IsTidy (on_disconnected now c)
unfolding on_disconnected
IsTidy-on_disconnected now c v =
    let q = Quiet-stop_timer c.disconnect_debounce c.timers v.tidy in
    let timers =
      stop_timer c.disconnect_debounce c.timers ++ (armed (now + disconnect_debounce_delay) ∷ []) in
    let armed_last : Tidy (some (length c.timers)) timers =
      subst (λ n. Tidy (some n) timers) (length-stop_timer c.disconnect_debounce c.timers)
        (Tidy-arm (now + disconnect_debounce_delay) (stop_timer c.disconnect_debounce c.timers)
          q) in
    IsTidy-if c.expected_disconnect _ _
      (IsTidy-call_back "error" _
        (IsTidy-report _ _ (IsTidy-hand_over disconnected _ (record { tidy = v.tidy }))))
      (record { tidy = armed_last })

IsTidy-on_logged_out :
    (reason : String) (c : Connection) → IsTidy c → IsTidy (on_logged_out reason c)
unfolding on_logged_out
IsTidy-on_logged_out reason c v =
    let q = Quiet-stop_timer c.disconnect_debounce c.timers v.tidy in
    IsTidy-report _ _ (
      IsTidy-call_back "disconnected" _ (
        IsTidy-report _ _ (
          IsTidy-hand_over (logged_out reason) _ (
            IsTidy-if (not c.expected_disconnect) _ _
              (IsTidy-report _ _ (record { tidy = Quiet-Tidy none _ q }))
              (record { tidy = Quiet-Tidy none _ q })))))

pub IsTidy-handle_event :
    (now : ℕ) (evt : SessionEvent) (c : Connection) → IsTidy c → IsTidy (handle_event now evt c)
unfolding handle_event
IsTidy-handle_event now connected c v = IsTidy-on_connected now c v
IsTidy-handle_event now pair_success c v = IsTidy-call_back "active" c v
IsTidy-handle_event now disconnected c v = IsTidy-on_disconnected now c v
IsTidy-handle_event now (logged_out reason) c v = IsTidy-on_logged_out reason c v
IsTidy-handle_event now (temporary_ban expire) c v = IsTidy-call_back "error" _ (
    IsTidy-report _ _
      (IsTidy-report _ _ (IsTidy-hand_over (temporary_ban expire) _ (IsTidy-report _ c v))))
IsTidy-handle_event now (connect_failure temp_banned) c v =
    let failed = IsTidy-report _ _ (IsTidy-report _ c v) in
    IsTidy-call_back "error" _ (IsTidy-if temp_banned _ _ (IsTidy-report _ _ failed) failed)
IsTidy-handle_event now stream_error c v = IsTidy-fails _ (IsTidy-report _ c v)
IsTidy-handle_event now pair_error c v = IsTidy-fails c v
IsTidy-handle_event now client_outdated c v = IsTidy-fails c v
IsTidy-handle_event now (app_state_sync_complete name) c v =
    IsTidy-if (is_critical name) _ c (record { tidy = v.tidy }) v

fired_flags :
    (now : ℕ) (o : Option TimerState)
    → is_running o ≡ false
    → (changed o (fired now) ≡ o) ⊎ ((changed o (fired now) ≡ some running) × (is_armed o ≡ true))
unfolding fired
fired_flags now none h = inl refl
fired_flags now (some (armed due)) h = elim (Bool-cases (leb due now)) [
  | inl over ↦ inr (rw over refl, refl)
  | inr early ↦ inl (rw early refl)
]
fired_flags now (some running) h = absurd (ground (arith, h))
fired_flags now (some stopped) h = inl refl
fired_flags now (some done) h = inl refl

-- A timer's function, from its start to its end.
unfoldable pub expire : ℕ → ℕ → Connection → Connection
expire now h c = confirm h (fire now h c)

data Expiry (now h : ℕ) (c : Connection) : Type 0 where
  not_due :
      (expire now h c).reports ≡ c.reports
      → (expire now h c).disconnect_debounce ≡ c.disconnect_debounce
      → ((j : ℕ) → get_elem? (expire now h c).timers j ≡ get_elem? c.timers j)
      → Expiry now h c
  is_due :
      is_armed (get_elem? c.timers h) ≡ true
      → expire now h c
        ≡ hand_over disconnected (
            fails (
              report (logs "disconnected") (record c {
                timers = modify h (λ t. done) (modify h (fired now) c.timers);
                disconnect_debounce = none;
              })))
      → Expiry now h c

confirm_idle :
    (o : Option TimerState) (h : ℕ) (c : Connection) → is_running o ≡ false → confirm_if o h c ≡ c
confirm_idle none h c e = refl
confirm_idle (some (armed due)) h c e = refl
confirm_idle (some running) h c e = absurd (ground (arith, e))
confirm_idle (some stopped) h c e = refl
confirm_idle (some done) h c e = refl

eqb_self : (h : ℕ) → eqb h h ≡ true
eqb_self h = ground arith

unchanged :
    (now h j : ℕ) (timers : List TimerState)
    → changed (get_elem? timers h) (fired now) ≡ get_elem? timers h
    → get_elem? (modify h (fired now) timers) j ≡ get_elem? timers j
unchanged now h j timers same = elim (Bool-cases (eqb h j)) [
  | inl it ↦
      let is_h : h ≡ j = (eqb_iff h j).0 it in
      get_elem?-modify h j (fired now) timers
      ∙ rw it (subst (λ k. changed (get_elem? timers k) (fired now) ≡ get_elem? timers k) is_h same)
  | inr other ↦ get_elem?-modify h j (fired now) timers ∙ rw other refl
]

expiry : (now h : ℕ) (c : Connection) → is_running (get_elem? c.timers h) ≡ false → Expiry now h c
unfolding expire confirm fire
expiry now h c e =
    let self : get_elem? (modify h (fired now) c.timers) h
        ≡ changed (get_elem? c.timers h) (fired now) =
      get_elem?-modify h h (fired now) c.timers ∙ rw (eqb_self h) refl in
    elim (fired_flags now (get_elem? c.timers h) e) [
      | inl same ↦
          let stays : confirm_if (get_elem? (modify h (fired now) c.timers) h) h (fire now h c)
              ≡ fire now h c =
            confirm_idle _ h (fire now h c) (ap is_running (self ∙ same) ∙ e) in
          not_due (ap (λ d. d.reports) stays) (ap (λ d. d.disconnect_debounce) stays) (λ j.
            ap (λ (d : Connection). get_elem? d.timers j) stays ∙ unchanged now h j c.timers same)
      | inr (runs, was_armed) ↦
          is_due was_armed (ap (λ o. confirm_if o h (fire now h c)) (self ∙ runs))
    ]

same_due :
    (c : Connection) (h j : ℕ)
    → c.disconnect_debounce ≡ some h
    → c.disconnect_debounce ≡ some j
    → eqb h j ≡ true
same_due c h j e k = ground (arith, ap (pointer_or 0) (sym e ∙ k), eqb_iff h j)

done_flags :
    (o : Option TimerState)
    → (is_running (changed o (λ t. done)) ≡ false) × (is_armed (changed o (λ t. done)) ≡ false)
done_flags none = (refl, refl)
done_flags (some t) = (refl, refl)

-- Once the only armed timer is done, none is pending.
Quiet-done :
    (now h : ℕ) (timers : List TimerState)
    → ((j : ℕ) → is_running (get_elem? timers j) ≡ false)
    → ((j : ℕ) → is_armed (get_elem? timers j) ≡ true → eqb h j ≡ true)
    → Quiet (modify h (λ t. done) (modify h (fired now) timers))
Quiet-done now h timers still only j = elim (Bool-cases (eqb h j)) [
  | inl it ↦
      let e : get_elem? (modify h (λ t. done) (modify h (fired now) timers)) j
          ≡ changed (get_elem? (modify h (fired now) timers) j) (λ t. done) =
        get_elem?-modify h j (λ t. done) (modify h (fired now) timers) ∙ rw it refl in
      rw e (done_flags (get_elem? (modify h (fired now) timers) j))
  | inr other ↦
      let e : get_elem? (modify h (λ t. done) (modify h (fired now) timers)) j
          ≡ get_elem? timers j =
        get_elem?-modify h j (λ t. done) (modify h (fired now) timers)
        ∙ rw other (get_elem?-modify h j (fired now) timers ∙ rw other refl) in
      rw e (
        still j,
        elim (Bool-cases (is_armed (get_elem? timers j))) [
          | inl a ↦ absurd (ground (arith, only j a, other))
          | inr calm ↦ calm
        ],
      )
]

pub IsTidy-expire : (now h : ℕ) (c : Connection) → IsTidy c → IsTidy (expire now h c)
IsTidy-expire now h c v = elim (expiry now h c (v.tidy h).0) [
  | not_due reports debounce timers ↦ record {
    tidy = λ j. (
      ap is_running (timers j) ∙ (v.tidy j).0,
      λ a. debounce ∙ (v.tidy j).1 (ap is_armed (sym (timers j)) ∙ a),
    );
  }
  | is_due was_armed e ↦
      subst (λ d. IsTidy d) (sym e)
        (IsTidy-hand_over disconnected _ (
          IsTidy-fails _ (
            IsTidy-report _ _ (record {
              tidy = Quiet-Tidy none _ (
                  Quiet-done now h c.timers (λ j. (v.tidy j).0)
                    (λ j a. same_due c h j ((v.tidy h).1 was_armed) ((v.tidy j).1 a)));
            }))))
]

pub Quiet-expire :
    (now h : ℕ) (c : Connection)
    → Quiet c.timers
    → ((expire now h c).reports ≡ c.reports) × Quiet (expire now h c).timers
Quiet-expire now h c q = elim (expiry now h c (q h).0) [
  | not_due reports debounce timers ↦
      (reports, λ j. (ap is_running (timers j) ∙ (q j).0, ap is_armed (timers j) ∙ (q j).1))
  | is_due was_armed e ↦ absurd (ground (arith, was_armed, (q h).1))
]
