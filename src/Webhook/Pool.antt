-- ===== src/Webhook/Pool.antt =====
-- internal/webhook/pool.go: a dispatcher takes events from the queue to a channel of two places for
-- each worker, and the workers deliver them at the same time. internal/webhook/worker.go does the
-- same for one event at a time, with no channel. A `select` with several ready cases chooses one: the
-- choice is an argument.
pub mod Trace
pub mod Counts
pub mod Flow
use apime.Common.{
  ℕ, zero, suc, ◌*◌, String, Bool, true, false, Option, none, some, List, [], ◌∷◌, ◌++◌, ◌==◌,
  length, ltb, eqb, if◌then◌else◌, Result, ok, err,
}
use apime.Queue.{MemoryQueue, Received, event, nothing, failed, Wake, dequeue}

-- The instance of an event, as far as a worker reads it.
pub record Target : Type 0 where
  pub webhook_url : String
  pub webhook_secret : String

-- What became of an event.
pub data Fate : Type 0 where
  no_instance no_webhook : Fate
  sent : Bool → Fate

-- How the dispatcher's second `select` ends: the channel took the event, the context is done, or 5
-- seconds passed, as they also do where `puts` finds no free place.
pub data Offer : Type 0 where
  puts stops gives_up : Offer

-- `held`: the event that the dispatcher has taken from the queue and not yet handed over; `busy`:
-- the events that workers process, the longest first; `done`: what became of the others that workers
-- took, newest first; `lost`: those that no worker gets, newest first.
pub record Pool {ℓ} (E : Type ℓ) : Type ℓ where
  pub queue : MemoryQueue E
  pub held : Option E
  pub task_chan : List E
  pub places : ℕ
  pub num_workers : ℕ
  pub busy : List E
  pub done : List (E × Fate)
  pub lost : List E

abbrev pub behind {ℓ} : {E : Type ℓ} → E → Option (E × List E) → Option (E × List E)
behind e none = none
behind e (some (e', rest)) = some (e', e ∷ rest)

-- The worker that is `i`-th by the time of its event finishes: its event, and the others.
unfoldable pub pick {ℓ} : {E : Type ℓ} → ℕ → List E → Option (E × List E)
pick i [] = none
pick zero (e ∷ es) = some (e, es)
pick (suc i) (e ∷ es) = behind e (pick i es)

module _ {ℓ} {E : Type ℓ} where
  unfoldable pub new_pool : ℕ → MemoryQueue E → Pool E
  new_pool num_workers queue =
      let workers = if eqb num_workers 0 then 4 else num_workers in
      record {
        queue = queue;
        held = none;
        task_chan = [];
        places = workers * 2;
        num_workers = workers;
        busy = [];
        done = [];
        lost = [];
      }

  abbrev pub received : Option (Received E × MemoryQueue E) → Pool E → Pool E
  received none p = p
  received (some (event e, q)) p = record p { queue = q; held = some e }
  received (some (nothing, q)) p = record p { queue = q }
  received (some (failed error, q)) p = record p { queue = q }

  abbrev pub free_takes : Wake → Option E → Pool E → Pool E
  free_takes wake (some e) p = p
  free_takes wake none p = received (dequeue wake p.queue) p

  -- The call of Dequeue in a round of runDispatcher. While the dispatcher holds an event it is at its
  -- second `select`.
  unfoldable pub take_event : Wake → Pool E → Pool E
  unfolding dequeue
  take_event wake p = free_takes wake p.held p

  abbrev pub discard : E → Pool E → Pool E
  discard e p = record p { held = none; lost = e ∷ p.lost }

  unfoldable pub hand_over : Offer → E → Pool E → Pool E
  hand_over puts e p =
      if ltb (length p.task_chan) p.places
      then record p { held = none; task_chan = p.task_chan ++ (e ∷ []) }
      else discard e p
  hand_over stops e p = discard e p
  hand_over gives_up e p = discard e p

  abbrev pub holding : Offer → Option E → Pool E → Pool E
  holding choice none p = p
  holding choice (some e) p = hand_over choice e p

  -- The second `select`.
  unfoldable pub dispatch : Offer → Pool E → Pool E
  unfolding hand_over
  dispatch choice p = holding choice p.held p

  -- processEvent: `get_by_id` is the repository's answer for the event's instance, `delivered` the
  -- delivery's.
  unfoldable pub process_event : (E → Option Target) → (Target → E → Bool) → E → Fate
  process_event get_by_id delivered e = elim (get_by_id e) [
    | none ↦ no_instance
    | some target ↦ if target.webhook_url == "" then no_webhook else sent (delivered target e)
  ]

  abbrev pub started : List E → Pool E → Pool E
  started [] p = p
  started (e ∷ rest) p = record p { task_chan = rest; busy = p.busy ++ (e ∷ []) }

  -- A free worker receives an event. With an empty channel, or with none free, all go on waiting.
  unfoldable pub begin_work : Pool E → Pool E
  begin_work p = if ltb (length p.busy) p.num_workers then started p.task_chan p else p

  abbrev pub ended : (E → Fate) → Option (E × List E) → Pool E → Pool E
  ended fate none p = p
  ended fate (some (e, rest)) p = record p { busy = rest; done = (e, fate e) ∷ p.done }

  -- A worker's processEvent returns.
  unfoldable pub end_work : (E → Option Target) → (Target → E → Bool) → ℕ → Pool E → Pool E
  unfolding process_event pick
  end_work get_by_id delivered i p = ended (process_event get_by_id delivered) (pick i p.busy) p

  -- worker.go, processNext: `none` where no event was there to process.
  unfoldable pub process_next :
      Wake
      → (E → Option Target)
      → (Target → E → Bool)
      → MemoryQueue E
      → Option (E × Fate) × MemoryQueue E
  unfolding dequeue process_event
  process_next wake get_by_id delivered q = elim (dequeue wake q) [
    | none ↦ (none, q)
    | some (event e, q') ↦ (some (e, process_event get_by_id delivered e), q')
    | some (nothing, q') ↦ (none, q')
    | some (failed error, q') ↦ (none, q')
  ]
