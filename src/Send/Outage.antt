-- ===== src/Send/Outage.antt =====
-- internal/service/message/reconnect_wait.go: how long a failed send waits for the socket.
pub mod Waiting
use apime.Common.{
  ℕ, ◌+◌, ◌-◌, ◌≤◌, String, ◌≡◌, refl, ap, ◌∙◌, Bool, true, false, Option, none, some, List, [],
  ◌∷◌, ◌==◌, eq_iff, eq_refl, arith, ltb, leb, eqb, min, if◌then◌else◌, Option-cases, inl, inr,
}
use apime.Common.Map.{Map, get, put, delete, get-put, get-delete}

-- 45 s, 60 s and 500 ms.
abbrev pub reconnect_wait_budget : ℕ
reconnect_wait_budget = 45_000_000_000

abbrev pub outage_forget_after : ℕ
outage_forget_after = 60_000_000_000

abbrev pub reconnect_poll_every : ℕ
reconnect_poll_every = 500_000_000

pub record Outage : Type 0 where
  pub since : ℕ
  pub last_seen : ℕ

-- The outage that a failure at `now` belongs to.
unfoldable pub seen : ℕ → Option Outage → Outage
seen now none = record { since = now; last_seen = now }
seen now (some o) = record {
  since = if ltb outage_forget_after (now - o.last_seen) then now else o.since;
  last_seen = now;
}

unfoldable pub deadline : String → ℕ → Map Outage → ℕ × Map Outage
unfolding seen get put
deadline i now m = let o = seen now (get i m) in (o.since + reconnect_wait_budget, put i o m)

unfoldable pub clear : String → Map Outage → Map Outage
unfolding delete
clear i m = delete i m

-- One round of waitUntilConnected: what it reads before it sleeps, and whether the context ends
-- the sleep.
pub record Poll : Type 0 where
  pub connected : Bool
  pub now : ℕ
  pub cancelled : Bool

-- `none`: the rounds are used up, and it still waits.
unfoldable pub wait_until_connected : ℕ → List Poll → Option Bool
wait_until_connected until [] = none
wait_until_connected until (p ∷ ps) =
    let rest = wait_until_connected until ps in
    if p.connected
    then some true
    else if leb until p.now
    then some false
    else if p.cancelled
    then some false
    else rest
