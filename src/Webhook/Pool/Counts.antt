-- ===== src/Webhook/Pool/Counts.antt =====
-- How many events the workers of internal/webhook/pool.go began, process and finished.
use apime.Common.{
  ℕ, zero, suc, ◌+◌, ◌≡◌, refl, Bool, Option, none, some, List, [], ◌∷◌, length, ltb, arith,
  Bool-cases, inl, inr,
}
use apime.Common.Table.{count_where, count_where-append}
use apime.Queue.{MemoryQueue, Received, event, nothing, failed, Wake, dequeue}
use apime.Webhook.Pool.{
  Pool, Fate, Offer, puts, stops, gives_up, behind, pick, new_pool, received, take_event, hand_over,
  dispatch, holding, free_takes, started, begin_work, ended, end_work, process_event,
}
use apime.Webhook.Pool.Trace.{
  Op, enqueues, takes, dispatches, begins, ends, step, steps, first_of, begun, all_begun,
}

module _ {ℓ} {E : Type ℓ} where
  -- How many of the events pass the test.
  abbrev pub tally : (E → Bool) → List E → ℕ
  tally test es = count_where test es

  abbrev pub finished : List (E × Fate) → List E
  finished [] = []
  finished ((e, fate) ∷ done) = e ∷ finished done

  abbrev picked : List E → Option (E × List E) → List E
  picked busy none = busy
  picked busy (some (e, rest)) = e ∷ rest

  tally-behind :
      (test : E → Bool) (x : E) (xs : List E) (o : Option (E × List E))
      → tally test xs ≡ tally test (picked xs o)
      → tally test (x ∷ xs) ≡ tally test (picked (x ∷ xs) (behind x o))
  unfolding count_where
  tally-behind test x xs none h = refl
  tally-behind test x xs (some (e, rest)) h = ground (arith, h)

  tally-pick :
      (test : E → Bool) (i : ℕ) (busy : List E)
      → tally test busy ≡ tally test (picked busy (pick i busy))
  unfolding pick
  tally-pick test i [] = refl
  tally-pick test zero (x ∷ xs) = refl
  tally-pick test (suc i) (x ∷ xs) = tally-behind test x xs (pick i xs) (tally-pick test i xs)

  module _ (test : E → Bool) where
    abbrev pub Counted : List E → Pool E → Pool E → Type 0
    Counted out p p' =
        tally test (finished p'.done) + tally test p'.busy
        ≡ (tally test (finished p.done) + tally test p.busy) + tally test out

    Counted-stays : (p : Pool E) → Counted [] p p
    unfolding count_where
    Counted-stays p = omega arith

    Counted-received :
        (o : Option (Received E × MemoryQueue E)) (p : Pool E) → Counted [] p (received o p)
    Counted-received none p = Counted-stays p
    Counted-received (some (event e, q)) p = Counted-stays p
    Counted-received (some (nothing, q)) p = Counted-stays p
    Counted-received (some (failed error, q)) p = Counted-stays p

    Counted-free : (wake : Wake) (o : Option E) (p : Pool E) → Counted [] p (free_takes wake o p)
    Counted-free wake (some e) p = Counted-stays p
    Counted-free wake none p = Counted-received (dequeue wake p.queue) p

    Counted-holding :
        (choice : Offer) (o : Option E) (p : Pool E) → Counted [] p (holding choice o p)
    unfolding hand_over
    Counted-holding choice none p = Counted-stays p
    Counted-holding stops (some e) p = Counted-stays p
    Counted-holding gives_up (some e) p = Counted-stays p
    Counted-holding puts (some e) p = elim (Bool-cases (ltb (length p.task_chan) p.places)) [
      | inl room ↦ rw room (Counted-stays p)
      | inr full ↦ rw full (Counted-stays p)
    ]

    Counted-started : (chan : List E) (p : Pool E) → Counted (first_of chan) p (started chan p)
    unfolding count_where
    Counted-started [] p = omega arith
    Counted-started (e ∷ rest) p = ground (arith, count_where-append test p.busy (e ∷ []))

    Counted-begin : (p : Pool E) → Counted (begun begins p) p (begin_work p)
    unfolding begin_work begun
    Counted-begin p = elim (Bool-cases (ltb (length p.busy) p.num_workers)) [
      | inl free ↦ rw free (Counted-started p.task_chan p)
      | inr all_busy ↦ rw all_busy (Counted-stays p)
    ]

    Counted-ended :
        (fate : E → Fate) (o : Option (E × List E)) (p : Pool E)
        → tally test p.busy ≡ tally test (picked p.busy o)
        → Counted [] p (ended fate o p)
    unfolding count_where
    Counted-ended fate none p h = omega arith
    Counted-ended fate (some (e, rest)) p h = ground (arith, h)

    Counted-step : (op : Op E) (p : Pool E) → Counted (begun op p) p (step op p)
    unfolding step begun take_event dispatch end_work
    Counted-step (enqueues ctx_done takes_done e) p = Counted-stays p
    Counted-step (takes wake) p = Counted-free wake p.held p
    Counted-step (dispatches choice) p = Counted-holding choice p.held p
    Counted-step begins p = Counted-begin p
    Counted-step (ends get_by_id delivered i) p =
        Counted-ended (process_event get_by_id delivered) (pick i p.busy) p
          (tally-pick test i p.busy)

    pub Counted-steps : (ops : List (Op E)) (p : Pool E) → Counted (all_begun ops p) p (steps ops p)
    unfolding steps all_begun
    Counted-steps [] p = Counted-stays p
    Counted-steps (op ∷ ops) p = omega (
      arith,
      Counted-step op p,
      Counted-steps ops (step op p),
      count_where-append test (begun op p) (all_begun ops (step op p)),
    )

  pub none_before :
      (test : E → Bool) (num_workers : ℕ) (q : MemoryQueue E) (n : ℕ)
      → (tally test (finished (new_pool num_workers q).done)
            + tally test (new_pool num_workers q).busy)
          + n
        ≡ n
  unfolding new_pool count_where
  none_before test num_workers q n = omega arith
