-- ===== src/Send/Flow/Replay.antt =====
-- A send that is repeated under its own WhatsApp id.
pub mod Rows
use mathlib.Core.Path.{subst}
use apime.Common.{
  ℕ, String, ◌≡◌, refl, sym, ap, ◌∙◌, Bool, true, false, not, ◌&&◌, ◌||◌, Option, none, some, List,
  [], ◌∷◌, ◌++◌, ◌==◌, Result, ok, err, Bool-cases, Option-cases, Result-cases, inl, inr,
  if◌then◌else◌, arith, eq_iff, eq_refl, if_false,
}
use apime.Common.Table.{update_where, first, first-append, first_holds}
use apime.Message.Repo.{
  Message, has_id, of_instance, has_whatsapp_id, went_out, one_row, create, update, set_sent,
  one_row, get_by_whatsapp_id_for_instance,
}
use apime.Send.Resolver.{Jid, resolve_jid}
use apime.Send.Reachout.{reachout_blocked}
use apime.Send.Attempts.{Env, Loop, Report, report, run_attempts}
use apime.Send.Content.{SendInput, has_chat_presence}
use apime.Send.Content.Build.{Content, build_content}
use apime.Send.Flow.{
  SendEnv, Service, Outcome, refused, failed, no_session_manager, empty_destination,
  invalid_whatsapp_id, sent, replayed, write_status, signal, admit, ready, valid_whatsapp_id,
}
use apime.Send.Flow.Contact.{prepare_contact, stop_presence, close_composing}
use apime.Send.Flow.Row.{
  Saved, created, created_or_not, new_message, save_row, attempt_env, after_attempts, finish,
  attempt_send, deliver_saved, deliver, guard_contact,
}
use apime.Send.Flow.Whole.{send_to, send_ready, send_fresh, already_sent, send_once, send}
use apime.Send.Flow.Settled.{close_composing-messages}
use apime.Send.Flow.Replay.Rows.{own_row, update-went_out, Owned, save_row-Owned}

report_sent :
    (env : Env) (w : String) (loop : Loop)
    → (report env w loop).error ≡ none
    → (report env w loop).status ≡ "sent"
unfolding report
report_sent env w loop = elim (Option-cases loop.error) [
  | inl e ↦ rw (e, report) (λ h. refl)
  | inr (failure, e) ↦ rw (e, report) (λ h. absurd (ground (arith, h)))
]

went_out-fields :
    (i w : String) (row : Message)
    → went_out i w row ≡ true
    → (row.whatsapp_id ≡ w)
      × (row.instance_id ≡ i)
      × ((row.status == "queued" || row.status == "sending" || row.status == "failed") ≡ false)
unfolding went_out has_whatsapp_id of_instance
went_out-fields i w row h = (
  ground (arith, h, eq_iff row.whatsapp_id w),
  ground (arith, h, eq_iff row.instance_id i),
  ground (arith, h),
)

found_again :
    {F : Type 0} (env : SendEnv F) (input : SendInput F) (row : Message) (s : Service)
    → env.row_faults.reads ≡ false
    → (input.whatsapp_id == "") ≡ false
    → first (went_out input.instance_id input.whatsapp_id) s.messages ≡ some row
    → already_sent env input s.messages ≡ some row
unfolding already_sent get_by_whatsapp_id_for_instance one_row
found_again env input row s reads named there = rw (named, reads, there) refl

replay :
    {F : Type 0} (env : SendEnv F) (input : SendInput F) (row : Message) (s : Service)
    → env.session.has_manager ≡ true
    → env.row_faults.reads ≡ false
    → (input.instance_id == "" || input.to == "") ≡ false
    → (input.whatsapp_id == "") ≡ false
    → valid_whatsapp_id input.whatsapp_id ≡ true
    → first (went_out input.instance_id input.whatsapp_id) s.messages ≡ some row
    → send env input s ≡ (replayed row, s)
unfolding send send_once
replay env input row s manager reads given named valid there =
    let again : send_once env input s ≡ (replayed row, s) =
      rw (found_again env input row s reads named there, send_once) refl in
    if_false (not env.session.has_manager) _ _ (ap not manager)
    ∙ if_false (input.instance_id == "" || input.to == "") _ _ given
    ∙ if_false (not (input.whatsapp_id == "") && not (valid_whatsapp_id input.whatsapp_id)) _ _
        (rw (named, valid) refl)
    ∙ again

Recorded : String → Outcome × Service → Type 0
Recorded i (sent m, s) = (row : Message) × (first (went_out i m.whatsapp_id) s.messages ≡ some row)
Recorded i (_, s) = Unit {0}

module _ {F : Type 0} (env : SendEnv F) (input : SendInput F)
    (direct : (input.message_id == "") ≡ true) (finishes : env.row_faults.finishes ≡ false) where
  finish-Recorded :
      (to : Jid) (m r : Message) (rep : Report) (s : Service)
      → (rep.error ≡ none → rep.status ≡ "sent")
      → first (own_row m.id input.instance_id) s.messages ≡ some r
      → Recorded input.instance_id (finish env input to m rep s)
  unfolding finish Recorded update
  finish-Recorded to m r rep s sends own =
      let m' = record m { status = rep.status; whatsapp_id = rep.whatsapp_id } in
      elim (Option-cases rep.error) [
        | inr (failure, e) ↦ rw (e, finish) tt
        | inl e ↦
            rw (e, finish)
              (rw (close_composing-messages env input to _, finishes)
                (update-went_out m' input.instance_id s.messages r (sends e) own))
      ]

  attempt_send-Recorded :
      (to : Jid) (m r : Message) (s : Service)
      → first (own_row m.id input.instance_id) s.messages ≡ some r
      → Recorded input.instance_id (attempt_send env input to m s)
  unfolding attempt_send after_attempts
  attempt_send-Recorded to m r s own =
      let loop = run_attempts (attempt_env env input to) s.outages in
      let rep = report (attempt_env env input to) m.whatsapp_id loop in
      finish-Recorded to m r rep
        (after_attempts env input to loop rep (close_composing env input to s))
        (report_sent (attempt_env env input to) m.whatsapp_id loop)
        (rw (close_composing-messages env input to s) own)

  deliver_saved-Recorded :
      (to : Jid) (saved : Saved) (s : Service)
      → Owned input.instance_id saved
      → Recorded input.instance_id (deliver_saved env input to saved s)
  unfolding deliver_saved Owned Recorded
  deliver_saved-Recorded to (none, t) s own = tt
  deliver_saved-Recorded to (some m, t) s (r, own) = attempt_send-Recorded to m r _ own

  deliver-Recorded : (to : Jid) (s : Service) → Recorded input.instance_id (deliver env input to s)
  unfolding deliver Recorded
  deliver-Recorded to s = elim (Result-cases (build_content env.client input to).1) [
    | inl (e, bad) ↦ rw (bad, deliver) tt
    | inr (content, good) ↦
        rw (good, deliver)
          (deliver_saved-Recorded to
            (save_row env input content (prepare_contact env input to s).messages)
            (prepare_contact env input to s) (save_row-Owned env input direct content _))
  ]

  guard_contact-Recorded :
      (to : Jid) (s : Service) → Recorded input.instance_id (guard_contact env input to s)
  unfolding guard_contact Recorded
  guard_contact-Recorded to s =
      let answer =
        reachout_blocked env.later input.instance_id (env.normalize (env.client.jids.text to))
          s.blocks in
      elim (Bool-cases (has_chat_presence to)) [
        | inr other ↦ rw (other, guard_contact) (deliver-Recorded to s)
        | inl single ↦ elim (Bool-cases answer.0) [
          | inr free ↦
              rw (single, free, guard_contact)
                (deliver-Recorded to (record s { blocks = answer.1 }))
          | inl blocked ↦ rw (single, blocked, guard_contact) tt
        ]
      ]

  send_to-Recorded : (s : Service) → Recorded input.instance_id (send_to env input s)
  unfolding send_to Recorded
  send_to-Recorded s =
      elim (Result-cases
        (resolve_jid env.client.jids env.is_on_whatsapp env.contact_faults env.config env.now
          env.later input.to s.resolver).1.0) [
            | inl (e, bad) ↦ rw (bad, send_to) tt
            | inr (to, good) ↦ rw (good, send_to) (guard_contact-Recorded to _)
          ]

  send_ready-Recorded : (s : Service) → Recorded input.instance_id (send_ready env input s)
  unfolding send_ready Recorded
  send_ready-Recorded s = elim (Option-cases (ready env.session)) [
    | inl fine ↦ rw (fine, send_ready) (send_to-Recorded s)
    | inr (why, refusal) ↦ rw (refusal, send_ready) tt
  ]

  send_fresh-Recorded : (s : Service) → Recorded input.instance_id (send_fresh env input s)
  unfolding send_fresh Recorded
  send_fresh-Recorded s = elim (Option-cases (admit env.session).1) [
    | inl fine ↦ rw (fine, send_fresh) (send_ready-Recorded _)
    | inr (why, refusal) ↦ rw (refusal, send_fresh) tt
  ]

  send_once-Recorded : (s : Service) → Recorded input.instance_id (send_once env input s)
  unfolding send_once Recorded
  send_once-Recorded s = elim (Option-cases (already_sent env input s.messages)) [
    | inl fresh ↦ rw (fresh, send_once) (send_fresh-Recorded s)
    | inr (m, old) ↦ rw (old, send_once) tt
  ]

  by_guard :
      (b : Bool) (x y : Outcome × Service)
      → Recorded input.instance_id x
      → Recorded input.instance_id y
      → Recorded input.instance_id (if b then x else y)
  by_guard true x y hx hy = hx
  by_guard false x y hx hy = hy

  send-Recorded : (s : Service) → Recorded input.instance_id (send env input s)
  unfolding send Recorded
  send-Recorded s =
      by_guard (not env.session.has_manager) (refused no_session_manager, s) _ tt
        (by_guard (input.instance_id == "" || input.to == "") (refused empty_destination, s) _ tt
          (by_guard (not (input.whatsapp_id == "") && not (valid_whatsapp_id input.whatsapp_id))
            (refused invalid_whatsapp_id, s) (send_once env input s) tt (send_once-Recorded s)))

  -- A direct send went out under a valid WhatsApp id, and its last UPDATE was taken. A further send of
  -- the instance under that id, with a session manager, a recipient and a database that reads, is
  -- answered with a stored message of that instance and that id that is not queued, being sent or
  -- failed, and changes nothing: nothing is sent twice.
  pub repeat_replayed :
      (env' : SendEnv F) (input' : SendInput F) (m : Message) (s : Service)
      → (send env input s).0 ≡ sent m
      → env'.session.has_manager ≡ true
      → env'.row_faults.reads ≡ false
      → (input'.instance_id == "" || input'.to == "") ≡ false
      → input'.instance_id ≡ input.instance_id
      → input'.whatsapp_id ≡ m.whatsapp_id
      → (m.whatsapp_id == "") ≡ false
      → valid_whatsapp_id m.whatsapp_id ≡ true
      → (row : Message) × (send env' input' (send env input s).1
          ≡ (replayed row, (send env input s).1))
        × (row.whatsapp_id ≡ m.whatsapp_id)
        × (row.instance_id ≡ input.instance_id)
        × ((row.status == "queued" || row.status == "sending" || row.status == "failed") ≡ false)
  unfolding Recorded
  repeat_replayed env' input' m s went manager reads given same id nonempty valid =
      let (row, there) : (row : Message) × (first (went_out input.instance_id m.whatsapp_id)
              (send env input s).1.messages
            ≡ some row) =
        subst (λ o. Recorded input.instance_id (o, (send env input s).1)) went (send-Recorded s) in
      let (named, of_instance, out) =
        went_out-fields input.instance_id m.whatsapp_id row
          (first_holds (went_out input.instance_id m.whatsapp_id) _ there) in
      (
        row,
        replay env' input' row (send env input s).1 manager reads given (rw (id) nonempty)
            (rw (id) valid) (rw (same, id) there),
        named,
        of_instance,
        out,
      )
