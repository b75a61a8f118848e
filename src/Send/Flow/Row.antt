-- ===== src/Send/Flow/Row.antt =====
-- The row of the message, the attempts, and what is recorded of them, in Send of
-- internal/service/message/send.go.
use mathlib.Core.List.{◌++◌ as append}
use apime.Common.{
  String, not, Option, none, some, List, [], ◌∷◌, ◌==◌, Result, ok, err, if◌then◌else◌,
}
use apime.Common.Map.{delete}
use apime.Message.Repo.{Message, RepoError, create, update}
use apime.Send.Resolver.{Jid, Resolver, upsert}
use apime.Send.Reachout.{reachout_blocked, reachout_store}
use apime.Send.Attempts.{Effect, marks_disconnected, Env, Loop, Report, run_attempts, report}
use apime.Send.Content.{SendInput, has_chat_presence}
use apime.Send.Content.Build.{Content, build_content}
use apime.Send.Flow.{
  SendEnv, Service, contact_reachout_locked, bad_content, not_saved, Outcome, refused, failed, sent,
  resolve_send_id,
}
use apime.Send.Flow.Contact.{chat, prepare_contact, stop_presence, close_composing}

-- The message that is saved, if it is, and the table.
abbrev pub Saved : Type 0
Saved = Option Message × List Message

unfoldable pub created_or_not : Result RepoError Message × List Message → Saved
created_or_not (ok m, t) = (some m, t)
created_or_not (err e, t) = (none, t)

module _ {F : Type 0} (env : SendEnv F) (input : SendInput F) where
  unfoldable pub new_message : String → Content F → Message
  new_message id content = record {
    id = id;
    instance_id = input.instance_id;
    whatsapp_id = "";
    to = input.to;
    type = content.type;
    payload = content.payload;
    status = "sending";
    delivered_at = none;
    created_at = 0;
  }

  unfoldable pub created : Message → List Message → Saved
  unfolding created_or_not create
  created m t = created_or_not (create env.row_faults.creates env.fresh_id env.now m t)

  -- An UPDATE that fails is followed by an INSERT.
  unfoldable pub updated_or_created : Message → Result RepoError (Unit {0}) × List Message → Saved
  unfolding created
  updated_or_created m (ok _, t') = (some m, t')
  updated_or_created m (err e, t') = created m t'

  -- The row of the message: of a queued one it is updated, else it is created.
  unfoldable pub save_row : Content F → List Message → Saved
  save_row content t =
      if not (input.message_id == "")
      then updated_or_created (new_message input.message_id content)
          (update env.row_faults.updates (new_message input.message_id content) t)
      else created (new_message env.fresh_id content) t

  unfoldable pub attempt_env : Jid → Env
  unfolding resolve_send_id has_chat_presence
  attempt_env to = record {
    instance_id = input.instance_id;
    send_id = resolve_send_id input.whatsapp_id env.generated_id;
    has_presence = has_chat_presence to;
    answers = env.answers;
    now = env.clock;
    reconnects = env.reconnects;
  }

  -- What the attempts change outside the loop.
  unfoldable pub apply_effects : List Effect → List String → List String
  apply_effects [] statuses = statuses
  apply_effects (marks_disconnected ∷ es) statuses = apply_effects es ("disconnected" ∷ statuses)
  apply_effects (_ ∷ es) statuses = apply_effects es statuses

  unfoldable pub forget_recipient : Resolver → Resolver
  unfolding upsert delete
  forget_recipient r = record r {
    cache = delete input.to r.cache;
    contacts =
        if r.has_repo
        then upsert env.contact_faults.upserts env.later input.to "" r.contacts
        else r.contacts;
  }

  unfoldable pub after_attempts : Jid → Loop → Report → Service → Service
  unfolding apply_effects forget_recipient reachout_store
  after_attempts to loop rep s = record s {
    statuses = apply_effects loop.effects s.statuses;
    resolver = if rep.forgets_jid then forget_recipient s.resolver else s.resolver;
    blocks =
        if loop.reachout_locked
        then reachout_store env.later input.instance_id (env.normalize (chat env input to)) s.blocks
        else s.blocks;
    outages = rep.outages;
    effects = append s.effects loop.effects;
  }

  unfoldable pub finish : Jid → Message → Report → Service → Outcome × Service
  unfolding close_composing update
  finish to m rep s =
      let m' = record m { status = rep.status; whatsapp_id = rep.whatsapp_id } in
      let s' = record s { messages = (update env.row_faults.finishes m' s.messages).1 } in
      elim rep.error [
        | none ↦ (sent m', close_composing env input to s')
        | some e ↦ (failed m' e, s')
      ]

  unfoldable pub attempt_send : Jid → Message → Service → Outcome × Service
  attempt_send to m s =
      let loop = run_attempts (attempt_env to) s.outages in
      let rep = report (attempt_env to) m.whatsapp_id loop in
      finish to m rep (after_attempts to loop rep (close_composing env input to s))

  unfoldable pub deliver_saved : Jid → Saved → Service → Outcome × Service
  unfolding attempt_send stop_presence
  deliver_saved to (none, t) s =
      (refused not_saved, stop_presence env input to (record s { messages = t }))
  deliver_saved to (some m, t) s = attempt_send to m (record s { messages = t })

  unfoldable pub deliver : Jid → Service → Outcome × Service
  deliver to s =
      let s' = prepare_contact env input to s in
      elim (build_content env.client input to).1 [
        | err e ↦ (refused (bad_content e), stop_presence env input to s')
        | ok content ↦ deliver_saved to (save_row content s'.messages) s'
      ]

  unfoldable pub blocked_message : Message
  blocked_message = record {
    id = input.message_id;
    instance_id = input.instance_id;
    whatsapp_id = "";
    to = input.to;
    type = input.type;
    payload = input.text;
    status = "failed";
    delivered_at = none;
    created_at = 0;
  }

  -- The guard of contacts that refused with 463, for a single contact.
  unfoldable pub guard_contact : Jid → Service → Outcome × Service
  guard_contact to s =
      let (blocked, blocks) =
        reachout_blocked env.later input.instance_id (env.normalize (chat env input to)) s.blocks in
      let s' = record s { blocks = blocks } in
      if not (has_chat_presence to)
      then deliver to s
      else if blocked
      then (
        refused contact_reachout_locked,
        if not (input.message_id == "")
            then record s' {
              messages = (update env.row_faults.updates blocked_message s'.messages).1;
            }
            else s',
      )
      else deliver to s'
