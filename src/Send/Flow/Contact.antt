-- ===== src/Send/Flow/Contact.antt =====
-- What Send in internal/service/message/send.go signals to the contact.
use apime.Common.{String, not, none, some, ◌==◌, if◌then◌else◌}
use apime.Send.Resolver.{Jid}
use apime.Send.Inbound.{pop_last_inbound}
use apime.Send.PresenceState.{needs_available, needs_composing, forget_composing}
use apime.Send.Content.{SendInput, has_chat_presence}
use apime.Send.Flow.{
  SendEnv, goes_online, marks_read, shows_composing, shows_paused, Service, signal,
}

module _ {F : Type 0} (env : SendEnv F) (input : SendInput F) where
  abbrev pub chat : Jid → String
  chat to = env.client.jids.text to

  -- Reading a message: the one given, or the last of the contact.
  unfoldable pub mark_read : Jid → Service → Service
  unfolding pop_last_inbound signal
  mark_read to s =
      if not (input.mark_read_message_id == "")
      then signal (marks_read input.mark_read_message_id input.mark_read_sender) s
      else (let (entry, tracker) =
            pop_last_inbound env.normalize env.now input.instance_id (chat to) s.tracker in
          let s' = record s { tracker = tracker } in
          elim entry [
            | none ↦ s'
            | some e ↦
                if not (e.message_id == "")
                then signal (marks_read e.message_id e.sender_jid) s'
                else s'
          ])

  unfoldable pub go_online : Service → Service
  unfolding needs_available signal
  go_online s =
      let (needed, presence) = needs_available env.now input.instance_id s.presence in
      let s' = record s { presence = presence } in if needed then signal goes_online s' else s'

  unfoldable pub open_composing : Jid → Service → Service
  unfolding needs_composing signal
  open_composing to s =
      let (needed, presence) = needs_composing env.later input.instance_id (chat to) s.presence in
      let s' = record s { presence = presence } in
      if needed then signal (shows_composing to) s' else s'

  unfoldable pub prepare_contact : Jid → Service → Service
  unfolding go_online mark_read open_composing
  prepare_contact to s =
      if has_chat_presence to then open_composing to (mark_read to (go_online s)) else s

  -- stopPresence, on an early return after the simulation has begun.
  unfoldable pub stop_presence : Jid → Service → Service
  stop_presence to s =
      if has_chat_presence to
      then record s { presence = forget_composing input.instance_id (chat to) s.presence }
      else s

  unfoldable pub close_composing : Jid → Service → Service
  unfolding signal
  close_composing to s =
      let s' = record s { presence = forget_composing input.instance_id (chat to) s.presence } in
      if has_chat_presence to then signal (shows_paused to) s' else s'
