-- ===== src/Send/Flow.antt =====
-- Send in internal/service/message/send.go as a whole: its guards, the signals to the contact, the row of
-- the message, the attempts and what is recorded of them. The parts are those of the other modules.
-- What the clock, the session and the database answer during one send is an environment.

pub mod Contact
pub mod Row
pub mod Whole
pub mod Settled
pub mod Blocked
pub mod Replay
use mathlib.Core.List.{◌++◌ as append}
use apime.Common.{
  ℕ, ◌+◌, ◌-◌, String, Bool, true, false, not, ◌&&◌, ◌||◌, Option, none, some, List, [], ◌∷◌, ◌==◌,
  Result, ok, err, if◌then◌else◌, leb, length,
}
use apime.Common.Text.{codes}
use apime.Common.Map.{Map, delete}
use apime.Message.Repo.{Message, RepoError, create, update, get_by_whatsapp_id_for_instance}
use apime.Send.Resolver.{
  Jid, LookupError, OnWhatsApp, ContactFaults, Config, Resolver, ResolveError, resolve_jid, upsert,
}
use apime.Send.Saver.{ClientStore, Saver, auto_save_contact}
use apime.Send.Reachout.{NegCache, reachout_blocked, reachout_store}
use apime.Send.Inbound.{Tracker, InboundEntry, pop_last_inbound}
use apime.Send.PresenceState.{Presence, needs_available, needs_composing, forget_composing}
use apime.Send.Outage.{Outage}
use apime.Send.Attempts.{
  Answer, Effect, marks_disconnected, Env, Loop, SendError, Report, run_attempts, report,
}
use apime.Send.Ready.{ReadyPoll, is_cold_start, min_pre_keys, wait_ready}
use apime.Send.Content.{SendInput, Client, has_chat_presence}
use apime.Send.Content.Build.{Content, ContentError, build_content}

pub record ClientState : Type 0 where
  pub logged_in : Bool
  pub connected : Bool

-- What the session and the clock answer. `stored_status`: none where GetByID fails; `client`: none
-- where GetClient fails; `logged_in_later`: of the client that the session has after the waits.
pub record Session : Type 0 where
  pub has_manager : Bool
  pub stored_status : Option String
  pub client : Option ClientState
  pub since_connected : ℕ
  pub polls : List ReadyPoll
  pub logged_in_later : Bool

-- Which statements on the messages the database refuses.
pub record RowFaults : Type 0 where
  pub reads : Bool
  pub updates : Bool
  pub creates : Bool
  pub finishes : Bool

pub record SendEnv (F : Type 0) : Type 0 where
  pub session : Session
  pub client : Client F
  pub is_on_whatsapp : String → Result LookupError (List OnWhatsApp)
  pub contact_faults : ContactFaults
  pub config : Config
  pub store : ClientStore
  pub save_disabled : Bool
  pub save_refused : Bool
  pub save_jitter : ℕ
  pub normalize : String → String
  pub now : ℕ
  pub later : ℕ
  pub row_faults : RowFaults
  pub fresh_id : String
  pub generated_id : String
  pub answers : ℕ → Answer
  pub clock : ℕ → ℕ
  pub reconnects : ℕ → ℕ → Bool

-- What the client is made to signal to the contact.
pub data Signal : Type 0 where
  goes_online : Signal
  marks_read : String → String → Signal
  shows_composing shows_paused : Jid → Signal

-- The state that sends share; `statuses` are the statuses written for the instance, newest first.
pub record Service : Type 0 where
  pub messages : List Message
  pub statuses : List String
  pub resolver : Resolver
  pub saver : Saver
  pub blocks : NegCache
  pub tracker : Tracker
  pub presence : Presence
  pub outages : Map Outage
  pub signals : List Signal
  pub effects : List Effect

pub data Refusal : Type 0 where
  no_session_manager empty_destination invalid_whatsapp_id instance_not_found : Refusal
  instance_not_connected client_not_found session_not_ready still_waiting : Refusal
  bad_recipient : ResolveError → Refusal
  contact_reachout_locked : Refusal
  bad_content : ContentError → Refusal
  not_saved : Refusal

pub data Outcome : Type 0 where
  refused : Refusal → Outcome
  failed : Message → SendError → Outcome
  sent replayed : Message → Outcome

-- The checks of the instance and its session: the status that is written, and what refuses the send.
unfoldable pub admit : Session → Option String × Option Refusal
admit ss = elim ss.stored_status [
  | none ↦ (none, some instance_not_found)
  | some status ↦ elim ss.client [
    | none ↦
        if not (status == "active")
        then (none, some instance_not_connected)
        else (some "error", some client_not_found)
    | some c ↦
        if not (status == "active")
        then (if not c.logged_in || not c.connected
            then (none, some instance_not_connected)
            else (some "active", none))
        else if not c.logged_in
        then (some "disconnected", some instance_not_connected)
        else (none, none)
  ]
]

unfoldable pub write_status : Option String → Service → Service
write_status none s = s
write_status (some status) s = record s { statuses = status ∷ s.statuses }

-- The wait for the session, and the check of the client that it has then.
unfoldable pub ready : Session → Option Refusal
unfolding wait_ready min_pre_keys
ready ss = elim (wait_ready (min_pre_keys ss.since_connected) false ss.polls) [
  | none ↦ some still_waiting
  | some (is_ready, pokes) ↦
      if not is_ready
      then some session_not_ready
      else if not ss.logged_in_later
      then some instance_not_connected
      else none
]

unfoldable pub is_upper_hex : ℕ → Bool
is_upper_hex c = (leb 48 c && leb c 57) || (leb 65 c && leb c 70)

unfoldable pub all_codes : (ℕ → Bool) → List ℕ → Bool
all_codes p [] = true
all_codes p (c ∷ cs) = p c && all_codes p cs

-- The pattern ^[0-9A-F]{16,32}$
unfoldable pub valid_whatsapp_id : String → Bool
unfolding is_upper_hex all_codes
valid_whatsapp_id id =
    all_codes is_upper_hex (codes id) && leb 16 (length (codes id)) && leb (length (codes id)) 32

unfoldable pub resolve_send_id : String → String → String
resolve_send_id caller_id generated = if not (caller_id == "") then caller_id else generated

unfoldable pub signal : Signal → Service → Service
signal e s = record s { signals = append s.signals (e ∷ []) }
