-- ===== src/Send/Flow/Settled.antt =====
-- The status of messages after Send of internal/service/message/send.go.
pub mod Rows
use apime.Common.{
  ℕ, suc, String, ◌++◌, ◌≡◌, refl, Bool, true, false, not, ◌&&◌, ◌||◌, Option, none, some, List, [],
  ◌∷◌, ◌==◌, Result, ok, err, Bool-cases, Option-cases, Result-cases, inl, inr, if◌then◌else◌,
  arith, eq_iff, eq_refl,
}
use apime.Common.Table.{count_where, update_where, first, count_where-append}
use apime.Message.Repo.{Message, RepoError, has_id, create, update, set_sent}
use apime.Send.Resolver.{Jid}
use apime.Send.Resolver.{resolve_jid}
use apime.Send.Reachout.{reachout_blocked}
use apime.Send.Attempts.{Env, Loop, Report, report, run_attempts}
use apime.Send.Content.{SendInput, has_chat_presence}
use apime.Send.Content.Build.{Content, build_content}
use apime.Send.Flow.{
  SendEnv, Service, Outcome, write_status, signal, admit, ready, valid_whatsapp_id, refused,
  no_session_manager, empty_destination, invalid_whatsapp_id,
}
use apime.Send.Flow.Contact.{
  mark_read, go_online, open_composing, prepare_contact, stop_presence, close_composing,
}
use apime.Send.Flow.Row.{
  Saved, created, created_or_not, updated_or_created, new_message, save_row, attempt_env,
  after_attempts, finish, attempt_send, deliver_saved, deliver, guard_contact, blocked_message,
}
use apime.Send.Flow.Whole.{send_to, send_ready, send_fresh, already_sent, send_once, send}
use apime.Send.Flow.Settled.Rows.{
  is_sending, others_sending, none_other, update-settles, update-settled, Only, save_row-Only,
}

report_status :
    (env : Env) (w : String) (loop : Loop) → ((report env w loop).status == "sending") ≡ false
unfolding report
report_status env w loop = elim (Option-cases loop.error) [
  | inl e ↦ rw (e, report) refl
  | inr (failure, e) ↦ rw (e, report) refl
]

write_status-messages : (o : Option String) (s : Service) → (write_status o s).messages ≡ s.messages
unfolding write_status
write_status-messages none s = refl
write_status-messages (some status) s = refl

module _ {F : Type 0} (env : SendEnv F) (input : SendInput F) where
  -- The signals leave the messages alone.
  prepare_contact-messages :
      (to : Jid) (s : Service) → (prepare_contact env input to s).messages ≡ s.messages
  unfolding prepare_contact go_online mark_read open_composing signal
  prepare_contact-messages to s = ground arith

  stop_presence-messages :
      (to : Jid) (s : Service) → (stop_presence env input to s).messages ≡ s.messages
  unfolding stop_presence
  stop_presence-messages to s = ground arith

  pub close_composing-messages :
      (to : Jid) (s : Service) → (close_composing env input to s).messages ≡ s.messages
  unfolding close_composing signal
  close_composing-messages to s = ground arith

  module _ (finishes : env.row_faults.finishes ≡ false) where
    finish-settled :
        (to : Jid) (m : Message) (rep : Report) (s : Service)
        → (rep.status == "sending") ≡ false
        → count_where (others_sending m.id) s.messages ≡ 0
        → count_where is_sending (finish env input to m rep s).1.messages ≡ 0
    unfolding finish update
    finish-settled to m rep s ended others =
        let m' = record m { status = rep.status; whatsapp_id = rep.whatsapp_id } in
        let settled = update-settles m' s.messages ended others in
        elim (Option-cases rep.error) [
          | inl e ↦ rw (e, finish) (rw (close_composing-messages to _, finishes) settled)
          | inr (failure, e) ↦ rw (e, finish) (rw finishes settled)
        ]

    attempt_send-settled :
        (to : Jid) (m : Message) (s : Service)
        → count_where (others_sending m.id) s.messages ≡ 0
        → count_where is_sending (attempt_send env input to m s).1.messages ≡ 0
    unfolding attempt_send after_attempts
    attempt_send-settled to m s others =
        let loop = run_attempts (attempt_env env input to) s.outages in
        let rep = report (attempt_env env input to) m.whatsapp_id loop in
        finish-settled to m rep
          (after_attempts env input to loop rep (close_composing env input to s))
          (report_status (attempt_env env input to) m.whatsapp_id loop)
          (rw (close_composing-messages to s) others)

    deliver_saved-settled :
        (to : Jid) (saved : Saved) (s : Service)
        → Only saved
        → count_where is_sending (deliver_saved env input to saved s).1.messages ≡ 0
    unfolding deliver_saved Only
    deliver_saved-settled to (none, t) s only = rw (stop_presence-messages to _) only
    deliver_saved-settled to (some m, t) s only = attempt_send-settled to m _ only

    deliver-settled :
        (to : Jid) (s : Service)
        → count_where is_sending s.messages ≡ 0
        → count_where is_sending (deliver env input to s).1.messages ≡ 0
    unfolding deliver
    deliver-settled to s h =
        let prepared : count_where is_sending (prepare_contact env input to s).messages ≡ 0 =
          rw (prepare_contact-messages to s) h in
        elim (Result-cases (build_content env.client input to).1) [
          | inl (e, bad) ↦ rw (bad, deliver) (rw (stop_presence-messages to _) prepared)
          | inr (content, good) ↦
              rw (good, deliver)
                (deliver_saved-settled to
                  (save_row env input content (prepare_contact env input to s).messages)
                  (prepare_contact env input to s) (save_row-Only env input content _ prepared))
        ]

    blocked_status : ((blocked_message env input).status == "sending") ≡ false
    unfolding blocked_message
    blocked_status = refl

    guard_contact-settled :
        (to : Jid) (s : Service)
        → count_where is_sending s.messages ≡ 0
        → count_where is_sending (guard_contact env input to s).1.messages ≡ 0
    unfolding guard_contact
    guard_contact-settled to s h =
        let answer =
          reachout_blocked env.later input.instance_id (env.normalize (env.client.jids.text to))
            s.blocks in
        let checked = record s { blocks = answer.1 } in
        elim (Bool-cases (has_chat_presence to)) [
          | inr other ↦ rw (other, guard_contact) (deliver-settled to s h)
          | inl single ↦ elim (Bool-cases answer.0) [
            | inr free ↦ rw (single, free, guard_contact) (deliver-settled to checked h)
            | inl blocked ↦ elim (Bool-cases (input.message_id == "")) [
              | inl direct ↦ rw (single, blocked, direct, guard_contact) h
              | inr queued ↦
                  rw (single, blocked, queued, guard_contact)
                    (update-settled env.row_faults.updates (blocked_message env input) s.messages
                      blocked_status h)
            ]
          ]
        ]

    send_to-settled :
        (s : Service)
        → count_where is_sending s.messages ≡ 0
        → count_where is_sending (send_to env input s).1.messages ≡ 0
    unfolding send_to
    send_to-settled s h =
        elim (Result-cases
          (resolve_jid env.client.jids env.is_on_whatsapp env.contact_faults env.config env.now
            env.later input.to s.resolver).1.0) [
              | inl (e, bad) ↦ rw (bad, send_to) h
              | inr (to, good) ↦ rw (good, send_to) (guard_contact-settled to _ h)
            ]

    send_ready-settled :
        (s : Service)
        → count_where is_sending s.messages ≡ 0
        → count_where is_sending (send_ready env input s).1.messages ≡ 0
    unfolding send_ready
    send_ready-settled s h = elim (Option-cases (ready env.session)) [
      | inl fine ↦ rw (fine, send_ready) (send_to-settled s h)
      | inr (why, refusal) ↦ rw (refusal, send_ready) h
    ]

    send_fresh-settled :
        (s : Service)
        → count_where is_sending s.messages ≡ 0
        → count_where is_sending (send_fresh env input s).1.messages ≡ 0
    unfolding send_fresh
    send_fresh-settled s h =
        let written = write_status-messages (admit env.session).0 s in
        elim (Option-cases (admit env.session).1) [
          | inl fine ↦
              rw (fine, send_fresh)
                (send_ready-settled (write_status (admit env.session).0 s) (rw written h))
          | inr (why, refusal) ↦ rw (refusal, send_fresh) (rw written h)
        ]

    by_guard :
        (b : Bool) (x y : Outcome × Service)
        → count_where is_sending x.1.messages ≡ 0
        → count_where is_sending y.1.messages ≡ 0
        → count_where is_sending (if b then x else y).1.messages ≡ 0
    by_guard true x y hx hy = hx
    by_guard false x y hx hy = hy

    send_once-settled :
        (s : Service)
        → count_where is_sending s.messages ≡ 0
        → count_where is_sending (send_once env input s).1.messages ≡ 0
    unfolding send_once
    send_once-settled s h = elim (Option-cases (already_sent env input s.messages)) [
      | inl fresh ↦ rw (fresh, send_once) (send_fresh-settled s h)
      | inr (m, old) ↦ rw (old, send_once) h
    ]

    -- While the database takes the last UPDATE of a send: no send, however it ends and whatever else is
    -- refused, leaves a message with the status of one that is being sent, if there was none.
    pub none_left_sending :
        (s : Service)
        → count_where is_sending s.messages ≡ 0
        → count_where is_sending (send env input s).1.messages ≡ 0
    unfolding send
    none_left_sending s h =
        by_guard (not env.session.has_manager) (refused no_session_manager, s) _ h
          (by_guard (input.instance_id == "" || input.to == "") (refused empty_destination, s) _ h
            (by_guard (not (input.whatsapp_id == "") && not (valid_whatsapp_id input.whatsapp_id))
              (refused invalid_whatsapp_id, s) (send_once env input s) h (send_once-settled s h)))
