-- ===== src/Webhook/Pool/Trace.antt =====
-- The steps of the pool in internal/webhook/pool.go, in any order.
use apime.Common.{ℕ, Bool, Option, none, some, List, [], ◌∷◌, ◌++◌, length, ltb, if◌then◌else◌}
use apime.Queue.{Wake, enqueue}
use apime.Webhook.Pool.{Pool, Target, Offer, take_event, dispatch, begin_work, end_work}
use apime.Queue.Laws as Queue

-- A step of the program that uses the queue, of the dispatcher, or of a worker, in any order.
pub data Op {ℓ} (E : Type ℓ) : Type ℓ where
  enqueues : Bool → Bool → E → Op E
  takes : Wake → Op E
  dispatches : Offer → Op E
  begins : Op E
  ends : (E → Option Target) → (Target → E → Bool) → ℕ → Op E

module _ {ℓ} {E : Type ℓ} where
  unfoldable pub step : Op E → Pool E → Pool E
  unfolding take_event dispatch begin_work end_work enqueue
  step (enqueues ctx_done takes_done e) p = record p {
    queue = (enqueue ctx_done takes_done e p.queue).1;
  }
  step (takes wake) p = take_event wake p
  step (dispatches choice) p = dispatch choice p
  step begins p = begin_work p
  step (ends get_by_id delivered i) p = end_work get_by_id delivered i p

  unfoldable pub steps : List (Op E) → Pool E → Pool E
  unfolding step
  steps [] p = p
  steps (op ∷ ops) p = steps ops (step op p)

  -- What the queue accepts.
  unfoldable pub accepted : Op E → Pool E → List E
  accepted (enqueues ctx_done takes_done e) p =
      Queue.accepted (Queue.enqueues ctx_done takes_done e) p.queue
  accepted _ p = []

  unfoldable pub all_accepted : List (Op E) → Pool E → List E
  unfolding accepted step
  all_accepted [] p = []
  all_accepted (op ∷ ops) p = accepted op p ++ all_accepted ops (step op p)

  abbrev pub first_of : List E → List E
  first_of [] = []
  first_of (e ∷ rest) = e ∷ []

  -- The event that a worker begins to process.
  unfoldable pub begun : Op E → Pool E → List E
  begun begins p = if ltb (length p.busy) p.num_workers then first_of p.task_chan else []
  begun _ p = []

  unfoldable pub all_begun : List (Op E) → Pool E → List E
  unfolding begun step
  all_begun [] p = []
  all_begun (op ∷ ops) p = begun op p ++ all_begun ops (step op p)

  abbrev pub held_list : Option E → List E
  held_list none = []
  held_list (some e) = e ∷ []

  -- The events that wait for a worker, the next first.
  abbrev pub line : Pool E → List E
  line p = p.task_chan ++ (held_list p.held ++ p.queue.events)
