-- ===== src/Send/Flow/Whole.antt =====
-- Send of internal/service/message/send.go from its first guard on.
use apime.Common.{not, ◌&&◌, ◌||◌, Option, none, some, List, ◌==◌, ok, err, if◌then◌else◌}
use apime.Message.Repo.{Message, get_by_whatsapp_id_for_instance}
use apime.Send.Resolver.{resolve_jid}
use apime.Send.Saver.{auto_save_contact}
use apime.Send.Content.{SendInput}
use apime.Send.Flow.{
  SendEnv, Service, no_session_manager, empty_destination, invalid_whatsapp_id, bad_recipient,
  Outcome, refused, replayed, admit, write_status, ready, valid_whatsapp_id,
}
use apime.Send.Flow.Row.{guard_contact}

module _ {F : Type 0} (env : SendEnv F) (input : SendInput F) where
  -- From the recipient on.
  unfoldable pub send_to : Service → Outcome × Service
  send_to s =
      let found =
        resolve_jid env.client.jids env.is_on_whatsapp env.contact_faults env.config env.now
          env.later input.to s.resolver in
      let s' = record s { resolver = found.1.1 } in
      elim found.1.0 [
        | err e ↦ (refused (bad_recipient e), s')
        | ok to ↦ guard_contact env input to (record s' {
          saver =
              auto_save_contact env.client.jids env.store env.save_disabled env.now env.later
                env.save_jitter env.save_refused input.instance_id to input.display_name s'.saver;
        })
      ]

  unfoldable pub send_ready : Service → Outcome × Service
  send_ready s = elim (ready env.session) [ some why ↦ (refused why, s) | none ↦ send_to s ]

  unfoldable pub send_fresh : Service → Outcome × Service
  send_fresh s =
      let (status, refusal) = admit env.session in
      elim refusal [
        | some why ↦ (refused why, write_status status s)
        | none ↦ send_ready (write_status status s)
      ]

  unfoldable pub already_sent : List Message → Option Message
  unfolding get_by_whatsapp_id_for_instance
  already_sent t =
      if input.whatsapp_id == ""
      then none
      else elim (get_by_whatsapp_id_for_instance env.row_faults.reads input.instance_id
          input.whatsapp_id t) [ ok m ↦ some m | err e ↦ none ]

  unfoldable pub send_once : Service → Outcome × Service
  send_once s = elim (already_sent s.messages) [ some m ↦ (replayed m, s) | none ↦ send_fresh s ]

  unfoldable pub send : Service → Outcome × Service
  send s =
      if not env.session.has_manager
      then (refused no_session_manager, s)
      else if input.instance_id == "" || input.to == ""
      then (refused empty_destination, s)
      else if not (input.whatsapp_id == "") && not (valid_whatsapp_id input.whatsapp_id)
      then (refused invalid_whatsapp_id, s)
      else send_once s
