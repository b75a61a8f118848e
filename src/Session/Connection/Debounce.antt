-- ===== src/Session/Connection/Debounce.antt =====
-- What is reported of a connection that is lost and comes back, in handleEvent.
use apime.Common.{
  ℕ, String, ◌≡◌, refl, ◌∙◌, Bool, false, none, some, List, [], ◌∷◌, arith, Option, eqb, Bool-cases,
  inl, inr,
}
use apime.Common.Heap.{get_elem?, get_elem?-modify}
use apime.Session.Connection.{
  TimerState, running, SessionEvent, connected, Report, Connection, report, hand_over, call_back,
  stop, stop_timer, on_connected, fails, handle_event, confirm, sets_status,
}
use apime.Session.Connection.Timers.{Quiet, Quiet-stop_timer}
use apime.Session.Connection.Tidy.{IsTidy, IsTidy-handle_event, expire, IsTidy-expire, Quiet-expire}

-- What happens to the connection: an event at an instant, or the end of a timer.
pub data Op : Type 0 where
  event : ℕ → SessionEvent → Op
  expires : ℕ → ℕ → Op

unfoldable pub step : Op → Connection → Connection
unfolding expire
step (event now evt) c = handle_event now evt c
step (expires now h) c = expire now h c

unfoldable pub steps : List Op → Connection → Connection
unfolding step
steps [] c = c
steps (op ∷ ops) c = steps ops (step op c)

unfoldable pub expire_all : List (ℕ × ℕ) → Connection → Connection
unfolding expire
expire_all [] c = c
expire_all ((now, h) ∷ es) c = expire_all es (expire now h c)

unfoldable pub new_connection : Bool → Bool → Connection
new_connection handling calling_back = record {
  handling = handling;
  calling_back = calling_back;
  expected_disconnect = false;
  connected_at = none;
  session_ready = false;
  disconnect_debounce = none;
  timers = [];
  reports = [];
}

IsTidy-steps : (ops : List Op) (c : Connection) → IsTidy c → IsTidy (steps ops c)
unfolding steps step
IsTidy-steps [] c v = v
IsTidy-steps (event now evt ∷ ops) c v =
    IsTidy-steps ops (handle_event now evt c) (IsTidy-handle_event now evt c v)
IsTidy-steps (expires now h ∷ ops) c v = IsTidy-steps ops (expire now h c) (IsTidy-expire now h c v)

IsTidy-new : (handling calling_back : Bool) → IsTidy (new_connection handling calling_back)
unfolding new_connection get_elem?
IsTidy-new handling calling_back = record { tidy = λ h. (refl, λ a. absurd (ground (arith, a))) }

expire_all-reports :
    (es : List (ℕ × ℕ)) (c : Connection) → Quiet c.timers → (expire_all es c).reports ≡ c.reports
unfolding expire_all
expire_all-reports [] c q = refl
expire_all-reports ((now, h) ∷ es) c q =
    let (same, later) = Quiet-expire now h c q in
    expire_all-reports es (expire now h c) later ∙ same

Quiet-on_connected : (now : ℕ) (c : Connection) → IsTidy c → Quiet (on_connected now c).timers
unfolding on_connected call_back report hand_over
Quiet-on_connected now c v =
    let e : (on_connected now c).timers ≡ stop_timer c.disconnect_debounce c.timers =
      ground arith in
    rw e (Quiet-stop_timer c.disconnect_debounce c.timers v.tidy)

-- Whatever events came and whichever timers ran out before, each timer's function being run through at
-- once: after Connected no timer that was left reports a disconnection, however late it would be due.
pub nothing_after_connected :
    (handling calling_back : Bool) (ops : List Op) (now : ℕ) (es : List (ℕ × ℕ))
    → (expire_all es
        (handle_event now connected (steps ops (new_connection handling calling_back)))).reports
      ≡ (handle_event now connected (steps ops (new_connection handling calling_back))).reports
unfolding handle_event
nothing_after_connected handling calling_back ops now es =
    let c = steps ops (new_connection handling calling_back) in
    let v =
      IsTidy-steps ops (new_connection handling calling_back) (IsTidy-new handling calling_back) in
    expire_all-reports es (on_connected now c) (Quiet-on_connected now c v)

-- The status that the repository was last told.
unfoldable pub last_status : List Report → String
last_status [] = ""
last_status (sets_status status ∷ _) = status
last_status (_ ∷ reports) = last_status reports

running-stop_timer :
    (debounce : Option ℕ) (timers : List TimerState) (h : ℕ)
    → get_elem? timers h ≡ some running
    → get_elem? (stop_timer debounce timers) h ≡ some running
unfolding stop_timer stop
running-stop_timer none timers h started = started
running-stop_timer (some j) timers h started =
    get_elem?-modify j h stop timers ∙ elim (Bool-cases (eqb j h)) [
      | inl same ↦ rw (same, started) refl
      | inr other ↦ rw other started
    ]

-- What handling Connected leaves, but for the reports.
on_connected-timers :
    (now : ℕ) (c : Connection)
    → ((on_connected now c).timers ≡ stop_timer c.disconnect_debounce c.timers)
      × ((on_connected now c).connected_at ≡ some now)
unfolding on_connected call_back report hand_over
on_connected-timers now c = (ground arith, ground arith)

confirm-running :
    (h : ℕ) (c : Connection)
    → get_elem? c.timers h ≡ some running
    → ((confirm h c).connected_at ≡ c.connected_at) × (last_status (confirm h c).reports ≡ "error")
unfolding confirm fails call_back report hand_over last_status
confirm-running h c started = rw (started, confirm) (ground arith, ground arith)

-- Any connection, whatever came before, with a timer whose function has started and waits for the lock
-- when Connected comes: Stop is too late. If the function gets the lock once Connected has been handled,
-- it reports the connection as lost, and the last status told to the repository is `error` although the
-- instance is connected.
pub connected_in_error :
    (c : Connection) (back h : ℕ)
    → get_elem? c.timers h ≡ some running
    → ((confirm h (handle_event back connected c)).connected_at ≡ some back)
      × (last_status (confirm h (handle_event back connected c)).reports ≡ "error")
unfolding handle_event
connected_in_error c back h started =
    let (timers, at) = on_connected-timers back c in
    let still : get_elem? (on_connected back c).timers h ≡ some running =
      rw timers (running-stop_timer c.disconnect_debounce c.timers h started) in
    let (kept, status) = confirm-running h (on_connected back c) still in (kept ∙ at, status)
