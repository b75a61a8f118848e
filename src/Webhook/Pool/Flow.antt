-- ===== src/Webhook/Pool/Flow.antt =====
-- Histories of the pool in internal/webhook/pool.go: what it takes, handles and drops.
use mathlib.Core.List.{append_assoc, append-nil}
use apime.Common.{
  ℕ, ◌+◌, ◌≤◌, ◌≡◌, refl, sym, ap, ◌∙◌, ◌⊎◌, Bool, true, false, Option, none, some, List, [], ◌∷◌,
  ◌++◌, length, ltb, arith, if◌then◌else◌, Bool-cases, inl, inr,
}
use apime.Queue.{
  failed, Wake, enqueue, dequeue, receives, times_out, is_cancelled, receive, closed_queue,
  new_queue,
}
use apime.Webhook.Pool.{
  Pool, Fate, Offer, puts, stops, gives_up, pick, new_pool, received, take_event, hand_over,
  dispatch, holding, free_takes, started, begin_work, ended, end_work, process_event,
}
use apime.Queue.Laws as Queue
use apime.Webhook.Pool.Trace.{
  Op, enqueues, takes, dispatches, begins, ends, step, steps, accepted, all_accepted, first_of,
  begun, all_begun, held_list, line,
}
use apime.Webhook.Pool.Counts.{tally, finished, Counted-steps, none_before}

module _ {ℓ} {E : Type ℓ} where
  -- A step either drops one event or keeps all in line.
  abbrev Step : List E → List E → Pool E → Pool E → Type ℓ
  Step out new p p' =
      ((p'.lost ≡ p.lost) × (out ++ line p' ≡ line p ++ new)) ⊎ ((e : E) × (p'.lost ≡ e ∷ p.lost))

  Step-stays : (p : Pool E) → Step [] [] p p
  Step-stays p = inl (refl, sym (append-nil (line p)))

  Step-hand_over :
      (choice : Offer) (e : E) (p : Pool E) → p.held ≡ some e → Step [] [] p (hand_over choice e p)
  unfolding hand_over
  Step-hand_over stops e p held = inr (e, refl)
  Step-hand_over gives_up e p held = inr (e, refl)
  Step-hand_over puts e p held = elim (Bool-cases (ltb (length p.task_chan) p.places)) [
    | inl room ↦ rw room (
        inl (
          refl,
          append_assoc p.task_chan (e ∷ []) p.queue.events
              ∙ sym (append-nil (p.task_chan ++ (e ∷ p.queue.events)))
              ∙ ap (λ o. (p.task_chan ++ (held_list o ++ p.queue.events)) ++ []) (sym held),
        ))
    | inr full ↦ rw full (inr (e, refl))
  ]

  Step-holding :
      (choice : Offer) (o : Option E) (p : Pool E) → p.held ≡ o → Step [] [] p (holding choice o p)
  Step-holding choice none p h = Step-stays p
  Step-holding choice (some e) p h = Step-hand_over choice e p h

  Step-empty :
      (b : Bool) (p : Pool E)
      → Step [] [] p (received (if b then some (failed closed_queue, p.queue) else none) p)
  Step-empty true p = Step-stays p
  Step-empty false p = Step-stays p

  Step-receive :
      (events : List E) (p : Pool E)
      → p.held ≡ none
      → p.queue.events ≡ events
      → Step [] [] p (received (receive events p.queue) p)
  unfolding receive
  Step-receive [] p free h = Step-empty p.queue.closed p
  Step-receive (e ∷ rest) p free h = inl (
    refl,
    sym (append-nil (p.task_chan ++ (e ∷ rest)))
        ∙ ap (λ l. (p.task_chan ++ l) ++ []) (sym h)
        ∙ ap (λ o. (p.task_chan ++ (held_list o ++ p.queue.events)) ++ []) (sym free),
  )

  Step-free :
      (wake : Wake) (o : Option E) (p : Pool E) → p.held ≡ o → Step [] [] p (free_takes wake o p)
  unfolding dequeue
  Step-free wake (some e) p h = Step-stays p
  Step-free times_out none p h = Step-stays p
  Step-free is_cancelled none p h = Step-stays p
  Step-free receives none p h = Step-receive p.queue.events p h refl

  Step-started :
      (chan : List E) (p : Pool E) → p.task_chan ≡ chan → Step (first_of chan) [] p (started chan p)
  Step-started [] p h = Step-stays p
  Step-started (e ∷ rest) p h = inl (
    refl,
    sym (append-nil (e ∷ (rest ++ (held_list p.held ++ p.queue.events))))
        ∙ ap (λ l. (l ++ (held_list p.held ++ p.queue.events)) ++ []) (sym h),
  )

  Step-begin : (p : Pool E) → Step (begun begins p) [] p (begin_work p)
  unfolding begin_work begun
  Step-begin p = elim (Bool-cases (ltb (length p.busy) p.num_workers)) [
    | inl free ↦ rw free (Step-started p.task_chan p refl)
    | inr all_busy ↦ rw all_busy (Step-stays p)
  ]

  Step-ended :
      (fate : E → Fate) (o : Option (E × List E)) (p : Pool E) → Step [] [] p (ended fate o p)
  Step-ended fate none p = Step-stays p
  Step-ended fate (some (e, rest)) p = Step-stays p

  Step-step : (op : Op E) (p : Pool E) → Step (begun op p) (accepted op p) p (step op p)
  unfolding step accepted begun take_event dispatch end_work
  Step-step (enqueues ctx_done takes_done e) p =
      let new = Queue.accepted (Queue.enqueues ctx_done takes_done e) p.queue in
      let queued : (enqueue ctx_done takes_done e p.queue).1.events ≡ p.queue.events ++ new =
        unfold Queue.step Queue.delivered in
        sym (Queue.step_balance (Queue.enqueues ctx_done takes_done e) p.queue) in
      inl (
        refl,
        ap (λ l. p.task_chan ++ (held_list p.held ++ l)) queued
            ∙ ap (λ l. p.task_chan ++ l) (sym (append_assoc (held_list p.held) p.queue.events new))
            ∙ sym (append_assoc p.task_chan (held_list p.held ++ p.queue.events) new),
      )
  Step-step (takes wake) p = Step-free wake p.held p refl
  Step-step (dispatches choice) p = Step-holding choice p.held p refl
  Step-step begins p = Step-begin p
  Step-step (ends get_by_id delivered i) p =
      Step-ended (process_event get_by_id delivered) (pick i p.busy) p

  lost_grows : (ops : List (Op E)) (p : Pool E) → length p.lost ≤ length (steps ops p).lost
  unfolding steps
  lost_grows [] p = omega arith
  lost_grows (op ∷ ops) p = elim (Step-step op p) [
    | inl (same, _) ↦ ground (arith, lost_grows ops (step op p), same)
    | inr (e, more) ↦ ground (arith, lost_grows ops (step op p), more)
  ]

  line-steps :
      (ops : List (Op E)) (p : Pool E)
      → (steps ops p).lost ≡ []
      → all_begun ops p ++ line (steps ops p) ≡ line p ++ all_accepted ops p
  unfolding steps all_accepted all_begun
  line-steps [] p kept = sym (append-nil (line p))
  line-steps (op ∷ ops) p kept = elim (Step-step op p) [
    | inl (_, in_line) ↦
        append_assoc (begun op p) (all_begun ops (step op p)) (line (steps ops (step op p)))
        ∙ ap (λ l. begun op p ++ l) (line-steps ops (step op p) kept)
        ∙ sym (append_assoc (begun op p) (line (step op p)) (all_accepted ops (step op p)))
        ∙ ap (λ l. l ++ all_accepted ops (step op p)) in_line
        ∙ append_assoc (line p) (accepted op p) (all_accepted ops (step op p))
    | inr (e, more) ↦ absurd (ground (arith, lost_grows ops (step op p), more, kept))
  ]

  -- As long as the pool has dropped nothing, whatever the number of workers and however their work, the
  -- dispatcher's and the arrival of events interleave: the events that workers began to process, followed
  -- by those in the channel, the one that the dispatcher holds and those in the queue, are the ones that
  -- the queue accepted, in that order, each once. Those that workers have finished and those that they
  -- still process are together the ones that they began: as many of them pass any test.
  pub pool_refines_queue :
      (num_workers buffer_size : ℕ) (ops : List (Op E)) (test : E → Bool)
      → (steps ops (new_pool num_workers (new_queue buffer_size))).lost ≡ []
      → (all_begun ops (new_pool num_workers (new_queue buffer_size))
            ++ line (steps ops (new_pool num_workers (new_queue buffer_size)))
          ≡ all_accepted ops (new_pool num_workers (new_queue buffer_size)))
        × (tally test (finished (steps ops (new_pool num_workers (new_queue buffer_size))).done)
              + tally test (steps ops (new_pool num_workers (new_queue buffer_size))).busy
            ≡ tally test (all_begun ops (new_pool num_workers (new_queue buffer_size))))
  pool_refines_queue num_workers buffer_size ops test kept = (
    line-steps ops (new_pool num_workers (new_queue buffer_size)) kept
        ∙ (unfold new_pool new_queue in refl),
    Counted-steps test ops (new_pool num_workers (new_queue buffer_size))
        ∙ none_before test num_workers (new_queue buffer_size) _,
  )
