-- ===== src/Send/Attempts.antt =====
-- The attempts of Send in internal/service/message/send.go: the loop over SendMessage, and what is
-- recorded of its outcome. The answers of the library and of the socket come from an environment.
pub mod Safety
pub mod Outcomes
use text.Mathlib.Text.{◌==◌ as str_eq}
use apime.Common.{
  ℕ, zero, suc, ◌+◌, ◌*◌, ◌^◌, String, ◌≡◌, Bool, true, false, not, ◌&&◌, ◌||◌, Option, none, some,
  List, [], ◌∷◌, ◌++◌, ◌==◌, ltb, leb, min, if◌then◌else◌,
}
use apime.Common.Text.{contains}
use apime.Common.Map.{Map}
use apime.Common.Time.{second}
use apime.Send.Outage.{Outage, deadline, clear, reconnect_wait_budget}

-- An error of SendMessage: its text and what errors.Is finds in it.
pub record Failure : Type 0 where
  pub text : String
  pub socket_down : Bool
  pub not_on_whatsapp : Bool

pub data Answer : Type 0 where
  accepted : String → Answer
  refused : Failure → Answer

-- What the loop does to the world outside, in order.
pub data Effect : Type 0 where
  sleeps : ℕ → Effect
  shows_typing : Effect
  sends : ℕ → String → Effect
  caches : String → Effect
  waits_until : ℕ → Effect
  deletes_identity : Effect
  warms_up : Effect
  blocks_contact : Effect
  marks_disconnected : Effect

-- `answers n`: SendMessage at attempt n. `now n`: the clock after its failure. `reconnects n d`:
-- whether waitUntilConnected with the deadline d finds the socket back.
pub record Env : Type 0 where
  pub instance_id : String
  pub send_id : String
  pub has_presence : Bool
  pub answers : ℕ → Answer
  pub now : ℕ → ℕ
  pub reconnects : ℕ → ℕ → Bool

pub record Loop : Type 0 where
  pub error : Option Failure
  pub sent_id : String
  pub only_socket_down : Bool
  pub reachout_locked : Bool
  pub wait_deadline : Option ℕ
  pub outages : Map Outage
  pub effects : List Effect

abbrev pub max_retries : ℕ
max_retries = 3

abbrev pub empty_id_error : Failure
empty_id_error = record {
  text = "WhatsApp não confirmou envio (ID vazio)";
  socket_down = false;
  not_on_whatsapp = false;
}

-- How a round of the loop ends.
pub data Round : Type 0 where
  breaks continues : Loop → Round

unfoldable pub log : List Effect → Loop → Loop
log es s = record s { effects = s.effects ++ es }

-- Before every attempt but the first: the exponential backoff, and typing where there is any.
unfoldable pub back_off : Env → ℕ → Loop → Loop
unfolding log
back_off env zero s = s
back_off env (suc n) s =
    log (sleeps (2 ^ suc n * second) ∷ (if env.has_presence then shows_typing ∷ [] else [])) s

unfoldable pub wait_limit : Option ℕ → ℕ → ℕ
wait_limit none now = now + reconnect_wait_budget
wait_limit (some d) now = d

-- The socket was down and attempts are left: wait for it up to the nearer of the two deadlines.
unfoldable pub wait_for_socket : Env → ℕ → Loop → Round
unfolding deadline clear wait_limit log
wait_for_socket env n s =
    let (shared, outages) = deadline env.instance_id (env.now n) s.outages in
    let own = wait_limit s.wait_deadline (env.now n) in
    let until = if ltb own shared then own else shared in
    let s' =
      log (waits_until until ∷ []) (record s { wait_deadline = some own; outages = outages }) in
    if env.reconnects n until
    then continues (record s' { outages = clear env.instance_id outages })
    else breaks s'

unfoldable pub is_disconnected : String → Bool
unfolding contains
is_disconnected text = contains text "not logged in" || contains text "device JID"

-- Any other failure, told apart by its text.
unfoldable pub judge : Failure → Loop → Round
unfolding contains log
judge e s =
    if e.not_on_whatsapp
    then breaks s
    else if contains e.text "untrusted identity"
    then continues (log (deletes_identity ∷ []) s)
    else if contains e.text "no signal session"
    then continues (log (warms_up ∷ []) s)
    else if contains e.text "error 463"
    then breaks (log (blocks_contact ∷ []) (record s { reachout_locked = true }))
    else if contains e.text "not logged in"
    then breaks (log (marks_disconnected ∷ []) s)
    else if contains e.text "device JID"
    then breaks (log (marks_disconnected ∷ []) s)
    else continues s

unfoldable pub after_failure : Env → ℕ → Failure → Loop → Round
unfolding wait_for_socket judge
after_failure env n e s =
    if e.socket_down
    then (if ltb n max_retries then wait_for_socket env n s else judge e s)
    else judge e (record s { only_socket_down = false })

unfoldable pub after_answer : Env → ℕ → Answer → Loop → Round
unfolding after_failure log
after_answer env n (accepted id) s =
    if id == ""
    then continues (record s { error = some empty_id_error; only_socket_down = false })
    else breaks (log (caches id ∷ []) (record s { error = none; sent_id = id }))
after_answer env n (refused e) s = after_failure env n e (record s { error = some e })

unfoldable pub attempt : Env → ℕ → Loop → Round
unfolding back_off after_answer log
attempt env n s =
    after_answer env n (env.answers n) (log (sends n env.send_id ∷ []) (back_off env n s))

-- The attempts from number `n` on, `left` of them.
unfoldable pub attempts : Env → ℕ → ℕ → Loop → Loop
unfolding attempt
attempts env zero n s = s
attempts env (suc left) n s = elim (attempt env n s) [
  | breaks s' ↦ s'
  | continues s' ↦ attempts env left (suc n) s'
]

unfoldable pub start : Map Outage → Loop
start outages = record {
  error = none;
  sent_id = "";
  only_socket_down = true;
  reachout_locked = false;
  wait_deadline = none;
  outages = outages;
  effects = [];
}

unfoldable pub run_attempts : Env → Map Outage → Loop
unfolding attempts start
run_attempts env outages = attempts env (suc max_retries) 0 (start outages)

pub data SendError : Type 0 where
  disconnected invalid_jid contact_reachout_locked session_unavailable failed_after_retries :
      SendError

-- The status and id recorded for the message, whether the recipient's cached JID is dropped, the
-- outages known afterwards, and what the caller gets.
pub record Report : Type 0 where
  pub status : String
  pub whatsapp_id : String
  pub forgets_jid : Bool
  pub outages : Map Outage
  pub error : Option SendError

unfoldable pub is_transient : String → Bool
unfolding contains is_disconnected
is_transient text =
    is_disconnected text
    || contains text "connection"
    || contains text "not connected"
    || contains text "websocket"
    || contains text "timeout"
    || contains text "error 463"
    || contains text "server returned error"
    || contains text "untrusted identity"
    || contains text "no signal session"

unfoldable pub send_error : Failure → Loop → SendError
unfolding is_disconnected
send_error e s =
    if is_disconnected e.text
    then disconnected
    else if e.not_on_whatsapp
    then invalid_jid
    else if s.reachout_locked
    then contact_reachout_locked
    else if s.only_socket_down && e.socket_down
    then session_unavailable
    else failed_after_retries

-- `whatsapp_id` is the one the message had before.
unfoldable pub report : Env → String → Loop → Report
unfolding send_error is_transient clear
report env whatsapp_id s = elim s.error [
  | none ↦ record {
    status = "sent";
    whatsapp_id = s.sent_id;
    forgets_jid = false;
    outages = clear env.instance_id s.outages;
    error = none;
  }
  | some e ↦ record {
    status = "failed";
    whatsapp_id = whatsapp_id;
    forgets_jid = not (is_transient e.text);
    outages = s.outages;
    error = some (send_error e s);
  }
]
