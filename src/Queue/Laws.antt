-- ===== src/Queue/Laws.antt =====
-- Histories of the queue of internal/pkg/queue/memory/queue.go: what goes in and what comes out.
use mathlib.Core.List.{append_assoc, append-nil}
use apime.Common.{
  ℕ, ◌≤◌, ◌<◌, ◌≡◌, refl, false, ap, sym, ◌∙◌, Bool, true, Option, none, some, List, [], ◌∷◌, ◌++◌,
  arith, length, length-append,
}
use apime.Queue.{
  MemoryQueue, SendError, Received, event, Wake, receives, times_out, is_cancelled, new_queue,
  enqueue, dequeue, close,
}

pub data Op {ℓ} (E : Type ℓ) : Type ℓ where
  enqueues : Bool → Bool → E → Op E
  dequeues : Wake → Op E
  closes : Op E

module _ {ℓ} {E : Type ℓ} where
  abbrev after : MemoryQueue E → Option (Received E × MemoryQueue E) → MemoryQueue E
  after q none = q
  after q (some (_, q')) = q'

  unfoldable pub step : Op E → MemoryQueue E → MemoryQueue E
  unfolding enqueue dequeue close
  step (enqueues ctx_done takes_done e) q = (enqueue ctx_done takes_done e q).1
  step (dequeues w) q = after q (dequeue w q)
  step closes q = close q

  abbrev sent_if : E → Option SendError → List E
  sent_if e none = e ∷ []
  sent_if e (some _) = []

  -- What an operation puts in, and what it hands out.
  unfoldable pub accepted : Op E → MemoryQueue E → List E
  unfolding enqueue
  accepted (enqueues ctx_done takes_done e) q = sent_if e (enqueue ctx_done takes_done e q).0
  accepted (dequeues w) q = []
  accepted closes q = []

  abbrev events_of : Option (Received E × MemoryQueue E) → List E
  events_of (some (event e, _)) = e ∷ []
  events_of _ = []

  unfoldable pub delivered : Op E → MemoryQueue E → List E
  unfolding dequeue
  delivered (enqueues _ _ _) q = []
  delivered (dequeues w) q = events_of (dequeue w q)
  delivered closes q = []

  unfoldable pub steps : List (Op E) → MemoryQueue E → MemoryQueue E
  unfolding step
  steps [] q = q
  steps (op ∷ ops) q = steps ops (step op q)

  unfoldable pub all_accepted : List (Op E) → MemoryQueue E → List E
  unfolding accepted step
  all_accepted [] q = []
  all_accepted (op ∷ ops) q = accepted op q ++ all_accepted ops (step op q)

  unfoldable pub all_delivered : List (Op E) → MemoryQueue E → List E
  unfolding delivered step
  all_delivered [] q = []
  all_delivered (op ∷ ops) q = delivered op q ++ all_delivered ops (step op q)

  -- One operation: what was in the buffer and what comes in is what goes out and what stays.
  pub step_balance :
      (op : Op E) (q : MemoryQueue E)
      → q.events ++ accepted op q ≡ delivered op q ++ (step op q).events
  unfolding accepted delivered step
  step_balance (enqueues ctx_done takes_done e) q = ground (arith, append-nil q.events)
  step_balance (dequeues receives) q = ground (arith, append-nil q.events)
  step_balance (dequeues times_out) q = append-nil q.events
  step_balance (dequeues is_cancelled) q = append-nil q.events
  step_balance closes q = ground (arith, append-nil q.events)

  pub balance :
      (ops : List (Op E)) (q : MemoryQueue E)
      → q.events ++ all_accepted ops q ≡ all_delivered ops q ++ (steps ops q).events
  unfolding all_accepted all_delivered steps
  balance [] q = append-nil q.events
  balance (op ∷ ops) q =
      sym (append_assoc q.events (accepted op q) (all_accepted ops (step op q)))
      ∙ ap (λ l. l ++ all_accepted ops (step op q)) (step_balance op q)
      ∙ append_assoc (delivered op q) (step op q).events (all_accepted ops (step op q))
      ∙ ap (λ l. delivered op q ++ l) (balance ops (step op q))
      ∙ sym (
          append_assoc (delivered op q) (all_delivered ops (step op q))
            (steps ops (step op q)).events)

  -- In every history of a new queue the events come out in the order in which they were accepted:
  -- those delivered, followed by those still in the buffer, are those accepted.
  pub fifo :
      (buffer_size : ℕ) (ops : List (Op E))
      → all_accepted ops (new_queue buffer_size)
        ≡ all_delivered ops (new_queue buffer_size) ++ (steps ops (new_queue buffer_size)).events
  fifo buffer_size ops = unfold new_queue in balance ops (new_queue buffer_size)

  pub record IsValid (q : MemoryQueue E) : Type 0 where
    pub bounded : length q.events ≤ q.buffer_size

  -- Every operation keeps the events within the buffer's size.
  pub step-IsValid : (op : Op E) (q : MemoryQueue E) → IsValid q → IsValid (step op q)
  unfolding step
  step-IsValid (enqueues ctx_done takes_done e) q v =
      ground (arith, length-append q.events (e ∷ []))
  step-IsValid (dequeues receives) q v = ground arith
  step-IsValid (dequeues times_out) q v = v
  step-IsValid (dequeues is_cancelled) q v = v
  step-IsValid closes q v = ground arith

  closed-step : (op : Op E) (q : MemoryQueue E) → q.closed ≡ true → (step op q).closed ≡ true
  unfolding step
  closed-step (enqueues _ _ _) q h = ground arith
  closed-step (dequeues receives) q h = ground arith
  closed-step (dequeues times_out) q h = h
  closed-step (dequeues is_cancelled) q h = h
  closed-step closes q h = ground arith

  closed_accepted : (op : Op E) (q : MemoryQueue E) → q.closed ≡ true → accepted op q ≡ []
  unfolding accepted
  closed_accepted (enqueues _ _ _) q h = ground arith
  closed_accepted (dequeues w) q h = refl
  closed_accepted closes q h = refl

  -- Once closed a queue accepts nothing more, whatever is called.
  pub closed_accepts_nothing :
      (ops : List (Op E)) (q : MemoryQueue E) → q.closed ≡ true → all_accepted ops q ≡ []
  unfolding all_accepted
  closed_accepts_nothing [] q h = refl
  closed_accepts_nothing (op ∷ ops) q h =
      rw (closed_accepts_nothing ops (step op q) (closed-step op q h), closed_accepted op q h) refl

  -- With room and a live context an event goes to the end of the buffer.
  pub enqueue_room :
      (takes_done : Bool) (e : E) (q : MemoryQueue E)
      → q.closed ≡ false
      → length q.events < q.buffer_size
      → enqueue false takes_done e q ≡ (none, record q { events = q.events ++ (e ∷ []) })
  unfolding enqueue
  enqueue_room takes_done e q open_q room = ground arith
