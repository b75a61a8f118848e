-- ===== src/Session/Connection.antt =====
-- handleEvent of internal/session/whatsmeow/events.go, as far as it follows the connection of one
-- instance: the entries of the manager's maps for that instance. A timer of time.AfterFunc is shared by
-- pointer; its function starts when it is due and waits for the lock, so `fire` and `confirm` are two
-- steps. `reports` is what is told to the repository, the log, the callback and the event handler,
-- newest first.
pub mod Timers
pub mod Tidy
pub mod Debounce
use apime.Common.{
  ℕ, ◌+◌, ◌*◌, String, Bool, true, false, not, ◌||◌, ◌==◌, Option, none, some, List, [], ◌∷◌, ◌++◌,
  length, leb, if◌then◌else◌,
}
use apime.Common.Heap.{get_elem?, modify}
use apime.Common.Time.{second, minute}

abbrev pub disconnect_debounce_delay : ℕ
disconnect_debounce_delay = 30 * second

abbrev pub default_cooldown : ℕ
default_cooldown = 30 * minute

pub data TimerState : Type 0 where
  armed : ℕ → TimerState
  running stopped done : TimerState

-- The events of whatsmeow that change the connection; `logged_out` carries its reason, `temporary_ban`
-- how long it lasts, `connect_failure` whether the reason is a temporary ban.
pub data SessionEvent : Type 0 where
  connected pair_success disconnected stream_error pair_error client_outdated : SessionEvent
  logged_out : String → SessionEvent
  temporary_ban : ℕ → SessionEvent
  connect_failure : Bool → SessionEvent
  app_state_sync_complete : String → SessionEvent

pub data Report : Type 0 where
  logs : String → Report
  sets_status : String → Report
  calls_back : String → Report
  hands_over : SessionEvent → Report
  cools_down : ℕ → Report
  deletes_session : Report

pub record Connection : Type 0 where
  pub handling : Bool
  pub calling_back : Bool
  pub expected_disconnect : Bool
  pub connected_at : Option ℕ
  pub session_ready : Bool
  pub disconnect_debounce : Option ℕ
  pub timers : List TimerState
  pub reports : List Report

unfoldable pub report : Report → Connection → Connection
report r c = record c { reports = r ∷ c.reports }

unfoldable pub hand_over : SessionEvent → Connection → Connection
hand_over evt c = if c.handling then report (hands_over evt) c else c

unfoldable pub call_back : String → Connection → Connection
call_back status c = if c.calling_back then report (calls_back status) c else c

unfoldable pub stop : TimerState → TimerState
stop (armed due) = stopped
stop running = running
stop stopped = stopped
stop done = done

-- Stop has no effect on a timer whose function has started.
unfoldable pub stop_timer : Option ℕ → List TimerState → List TimerState
stop_timer none timers = timers
stop_timer (some h) timers = modify h stop timers

unfoldable pub cooldown_of : ℕ → ℕ
cooldown_of expire = if leb expire 0 then default_cooldown else expire

unfoldable pub on_connected : ℕ → Connection → Connection
on_connected now c = call_back "active" (
    report (logs "connected") (
      hand_over connected (record c {
        timers = stop_timer c.disconnect_debounce c.timers;
        disconnect_debounce = none;
        expected_disconnect = false;
        connected_at = some now;
      })))

unfoldable pub on_disconnected : ℕ → Connection → Connection
on_disconnected now c =
    if c.expected_disconnect
    then call_back "error" (
        report (sets_status "error")
          (hand_over disconnected (record c { connected_at = none; expected_disconnect = false })))
    else record c {
      connected_at = none;
      timers =
          stop_timer c.disconnect_debounce c.timers
          ++ (armed (now + disconnect_debounce_delay) ∷ []);
      disconnect_debounce = some (length c.timers);
    }

unfoldable pub on_logged_out : String → Connection → Connection
on_logged_out reason c =
    let c' = record c {
      timers = stop_timer c.disconnect_debounce c.timers;
      disconnect_debounce = none;
    } in
    report deletes_session (
      call_back "disconnected" (
        report (sets_status "disconnected") (
          hand_over (logged_out reason)
            (if not c.expected_disconnect then report (logs "logged_out") c' else c'))))

unfoldable pub fails : Connection → Connection
fails c = call_back "error" (report (sets_status "error") c)

unfoldable pub is_critical : String → Bool
is_critical name = name == "critical_block" || name == "critical_unblock_low"

unfoldable pub handle_event : ℕ → SessionEvent → Connection → Connection
handle_event now connected c = on_connected now c
handle_event now pair_success c = call_back "active" c
handle_event now disconnected c = on_disconnected now c
handle_event now (logged_out reason) c = on_logged_out reason c
handle_event now (temporary_ban expire) c = call_back "error" (
    report (cools_down (cooldown_of expire)) (
      report (sets_status "error")
        (hand_over (temporary_ban expire) (report (logs "temporary_ban") c))))
handle_event now (connect_failure temp_banned) c =
    let c' = report (sets_status "error") (report (logs "connect_failure") c) in
    call_back "error" (if temp_banned then report (cools_down (cooldown_of 0)) c' else c')
handle_event now stream_error c = fails (report (logs "stream_error") c)
handle_event now pair_error c = fails c
handle_event now client_outdated c = fails c
handle_event now (app_state_sync_complete name) c =
    if is_critical name then record c { session_ready = true } else c

-- The time of an armed timer has come: its function starts.
unfoldable pub fired : ℕ → TimerState → TimerState
fired now (armed due) = if leb due now then running else armed due
fired now running = running
fired now stopped = stopped
fired now done = done

unfoldable pub fire : ℕ → ℕ → Connection → Connection
fire now h c = record c { timers = modify h (fired now) c.timers }

abbrev pub confirm_if : Option TimerState → ℕ → Connection → Connection
confirm_if (some running) h c = hand_over disconnected (
    fails (
      report (logs "disconnected")
        (record c { timers = modify h (λ t. done) c.timers; disconnect_debounce = none })))
confirm_if _ h c = c

-- The timer's function.
unfoldable pub confirm : ℕ → Connection → Connection
confirm h c = confirm_if (get_elem? c.timers h) h c
