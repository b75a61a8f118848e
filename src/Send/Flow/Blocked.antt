-- ===== src/Send/Flow/Blocked.antt =====
-- A further message to a contact that refused, in Send of internal/service/message/send.go.
use apime.Common.{
  ◌+◌, ◌≤◌, String, ◌≡◌, refl, ◌∙◌, true, List, ◌==◌, Option-cases, Bool-cases, All, inl, inr,
  arith,
}
use apime.Send.Resolver.{Jid}
use apime.Send.Reachout.{neg_ttl, reachout_blocked, reachout_store}
use apime.Send.Reachout.Trace as Trace
use apime.Send.Attempts.{run_attempts, Report}
use apime.Message.Repo.{Message}
use apime.Send.Content.{SendInput, has_chat_presence}
use apime.Send.Flow.{SendEnv, Service, refused, contact_reachout_locked, signal}
use apime.Send.Flow.Contact.{chat, close_composing}
use apime.Send.Flow.Row.{attempt_env, after_attempts, finish, attempt_send, guard_contact}

module _ {F : Type 0} (env : SendEnv F) (input : SendInput F) where
  -- The key under which the contact's refusals are kept.
  abbrev pub contact_key : Jid → String
  contact_key to = env.normalize (chat env input to)

  close_composing-blocks :
      (to : Jid) (s : Service) → (close_composing env input to s).blocks ≡ s.blocks
  unfolding close_composing signal
  close_composing-blocks to s = ground arith

  finish-blocks :
      (to : Jid) (m : Message) (rep : Report) (s : Service)
      → (finish env input to m rep s).1.blocks ≡ s.blocks
  unfolding finish
  finish-blocks to m rep s = elim (Option-cases rep.error) [
    | inl e ↦ rw (e, finish) (close_composing-blocks to _)
    | inr (failure, e) ↦ rw (e, finish) refl
  ]

  attempt_send-blocks :
      (to : Jid) (m : Message) (s : Service)
      → (run_attempts (attempt_env env input to) s.outages).reachout_locked ≡ true
      → (attempt_send env input to m s).1.blocks
        ≡ reachout_store env.later input.instance_id (contact_key to) s.blocks
  unfolding attempt_send after_attempts
  attempt_send-blocks to m s locked =
      finish-blocks to m _ _ ∙ rw (locked) (rw (close_composing-blocks to s) refl)

  guard_refuses :
      (to : Jid) (s : Service)
      → has_chat_presence to ≡ true
      → (reachout_blocked env.later input.instance_id (contact_key to) s.blocks).0 ≡ true
      → ((guard_contact env input to s).0 ≡ refused contact_reachout_locked)
        × ((guard_contact env input to s).1.effects ≡ s.effects)
        × ((guard_contact env input to s).1.signals ≡ s.signals)
  unfolding guard_contact
  guard_refuses to s single blocked =
      rw (single, blocked, guard_contact)
        (elim (Bool-cases (input.message_id == "")) [
          | inl direct ↦ rw direct (refl, refl, refl)
          | inr queued ↦ rw queued (refl, refl, refl)
        ])

-- The blocks after these operations on them.
unfoldable pub meanwhile : List Trace.Op → Service → Service
meanwhile ops s = record s { blocks = Trace.steps ops s.blocks }

module _ {F : Type 0} (env env' : SendEnv F) (input input' : SendInput F) where
  -- The attempts to a contact end with 463. Whatever is then checked, stored, cleaned up, or released
  -- for others: for 6 hours a further message of the instance to that contact is refused, and nothing
  -- is sent or signaled for it.
  pub no_second_try :
      (ops : List Trace.Op) (to to' : Jid) (m : Message) (s : Service)
      → Trace.IsValid s.blocks
      → (run_attempts (attempt_env env input to) s.outages).reachout_locked ≡ true
      → input'.instance_id ≡ input.instance_id
      → contact_key env' input' to' ≡ contact_key env input to
      → All
          (Trace.Within input.instance_id
            (contact_key env input to)
            env.later
            (env.later + neg_ttl))
          ops
      → env'.later ≤ env.later + neg_ttl
      → has_chat_presence to' ≡ true
      → ((guard_contact env' input' to' (meanwhile ops (attempt_send env input to m s).1)).0
          ≡ refused contact_reachout_locked)
        × ((guard_contact env' input' to'
              (meanwhile ops (attempt_send env input to m s).1)).1.effects
            ≡ (attempt_send env input to m s).1.effects)
        × ((guard_contact env' input' to'
              (meanwhile ops (attempt_send env input to m s).1)).1.signals
            ≡ (attempt_send env input to m s).1.signals)
  unfolding meanwhile
  no_second_try ops to to' m s valid locked same key within soon single =
      let blocked =
        Trace.cold_contact_blocked input.instance_id (contact_key env input to) env.later env'.later
          ops s.blocks valid within soon in
      let at_key : (reachout_blocked env'.later input'.instance_id (contact_key env' input' to')
            (Trace.steps ops (attempt_send env input to m s).1.blocks)).0
          ≡ true =
        rw (same, key, attempt_send-blocks env input to m s locked) blocked in
      guard_refuses env' input' to' (meanwhile ops (attempt_send env input to m s).1) single at_key
