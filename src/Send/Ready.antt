-- ===== src/Send/Ready.antt =====
-- The part of Send in internal/service/message/send.go that waits until the session can encrypt. A
-- round of the loop reads the time since its start, whether the session is ready, its number of
-- prekeys, and the time again; it then sleeps a second.
pub mod Ends
use apime.Common.{
  ℕ, ◌-◌, ◌*◌, ◌+◌, Bool, true, false, not, ◌&&◌, ◌||◌, Option, none, some, List, [], ◌∷◌, ltb, leb,
  if◌then◌else◌,
}
use apime.Common.Time.{millisecond, second}

pub record ReadyPoll : Type 0 where
  pub elapsed : ℕ
  pub ready : Bool
  pub pre_keys : ℕ
  pub later : ℕ

abbrev pub ready_budget : ℕ
ready_budget = 30 * second

abbrev pub safe_threshold : ℕ
safe_threshold = 60 * second

unfoldable pub is_cold_start : ℕ → Bool
is_cold_start since_connected = ltb since_connected safe_threshold

unfoldable pub min_pre_keys : ℕ → ℕ
unfolding is_cold_start
min_pre_keys since_connected = if is_cold_start since_connected then 20 else 5

-- Whether the session got ready, and how often the activating presence was sent. `none`: the rounds
-- given are used up and the loop still waits.
unfoldable pub wait_ready : ℕ → Bool → List ReadyPoll → Option (Bool × ℕ)
wait_ready min poked [] = none
wait_ready min poked (p ∷ ps) =
    let pokes = ltb (2 * second) p.later && not poked in
    let rest = wait_ready min (poked || pokes) ps in
    if leb ready_budget p.elapsed
    then some (false, 0)
    else if p.ready && leb min p.pre_keys
    then some (true, 0)
    else elim rest [
      | none ↦ none
      | some (is_ready, n) ↦ some (is_ready, (if pokes then n + 1 else n))
    ]

-- The sleeps before the send, from the time since the connection: once it is known to be a cold start,
-- the rest of the minute and up to 5 seconds, then 1.5 seconds.
unfoldable pub settle_sleep : Bool → ℕ → ℕ → ℕ
settle_sleep cold since_connected jitter =
    (if cold && ltb since_connected safe_threshold
      then safe_threshold - since_connected + jitter * millisecond
      else 0)
    + 1500 * millisecond
