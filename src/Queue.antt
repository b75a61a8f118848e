-- ===== src/Queue.antt =====
-- internal/pkg/queue/memory/queue.go: a buffered channel behind a closed flag, first in, first out.
-- Where a `select` has several ready cases Go chooses one: the choice is an argument.
pub mod Laws
pub mod Redis
use apime.Common.{
  ℕ, Bool, true, false, Option, none, some, List, [], ◌∷◌, ◌++◌, length, ltb, eqb, if◌then◌else◌,
}

pub record MemoryQueue {ℓ} (E : Type ℓ) : Type ℓ where
  pub events : List E
  pub buffer_size : ℕ
  pub closed : Bool

pub data SendError : Type 0 where
  closed_queue full cancelled : SendError

-- What Dequeue returns: an event, nothing within the timeout, or an error.
pub data Received {ℓ} (E : Type ℓ) : Type ℓ where
  event : E → Received E
  nothing : Received E
  failed : SendError → Received E

-- The ready case that Dequeue's `select` takes.
pub data Wake : Type 0 where
  receives times_out is_cancelled : Wake

module _ {ℓ} {E : Type ℓ} where
  unfoldable pub new_queue : ℕ → MemoryQueue E
  new_queue buffer_size = record {
    events = [];
    buffer_size = if eqb buffer_size 0 then 1000 else buffer_size;
    closed = false;
  }

  -- `ctx_done`: the context is done; `takes_done`: the `select` then prefers that case.
  unfoldable pub enqueue : Bool → Bool → E → MemoryQueue E → Option SendError × MemoryQueue E
  enqueue ctx_done takes_done e q =
      if q.closed
      then (some closed_queue, q)
      else if ltb (length q.events) q.buffer_size
      then (if (if ctx_done then takes_done else false)
          then (some cancelled, q)
          else (none, record q { events = q.events ++ (e ∷ []) }))
      else if ctx_done
      then (some cancelled, q)
      else (some full, q)

  unfoldable pub receive : List E → MemoryQueue E → Option (Received E × MemoryQueue E)
  receive [] q = if q.closed then some (failed closed_queue, q) else none
  receive (e ∷ rest) q = some (event e, record q { events = rest })

  -- `none`: that case is not ready, and the call goes on waiting.
  unfoldable pub dequeue : Wake → MemoryQueue E → Option (Received E × MemoryQueue E)
  unfolding receive
  dequeue receives q = receive q.events q
  dequeue times_out q = some (nothing, q)
  dequeue is_cancelled q = some (failed cancelled, q)

  unfoldable pub size : MemoryQueue E → ℕ
  size q = length q.events

  unfoldable pub close : MemoryQueue E → MemoryQueue E
  close q = if q.closed then q else record q { closed = true }
