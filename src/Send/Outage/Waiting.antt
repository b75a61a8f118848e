-- ===== src/Send/Outage/Waiting.antt =====
-- The rounds and the deadline of the wait in internal/service/message/reconnect_wait.go.
use native.Mathlib.Decide.{dec_le}
use apime.Common.{
  ℕ, zero, suc, ◌+◌, ◌-◌, ◌*◌, ◌≤◌, String, ◌≡◌, refl, ◌∙◌, ◌⊎◌, not-leb, Bool, true, false, some,
  List, [], ◌∷◌, eq_refl, arith, leb, min, Bool-cases, inl, inr, length,
}
use apime.Common.Map.{Map, get, get-put}
use apime.Send.Outage.{
  reconnect_wait_budget, outage_forget_after, reconnect_poll_every, Outage, seen, deadline, Poll,
  wait_until_connected,
}

-- Every round begins no earlier than the sleep of the one before allows.
abbrev pub IsPaced : ℕ → List Poll → Type 0
IsPaced until [] = Unit {0}
IsPaced until (p ∷ []) = Unit {0}
IsPaced until (p ∷ p' ∷ ps) =
    (p.now + min (until - p.now) reconnect_poll_every ≤ p'.now) × IsPaced until (p' ∷ ps)

wait_step :
    (until : ℕ) (p : Poll) (ps : List Poll)
    → ((r : Bool) × (wait_until_connected until ps ≡ some r)) ⊎ (until ≤ p.now)
    → (r : Bool) × (wait_until_connected until (p ∷ ps) ≡ some r)
unfolding wait_until_connected
wait_step until p ps h = elim (Bool-cases p.connected) [
  | inl c ↦ rw c (true, refl)
  | inr c ↦ rw c (elim (Bool-cases (leb until p.now)) [
    | inl over ↦ rw over (false, refl)
    | inr early ↦ rw early (elim (Bool-cases p.cancelled) [
      | inl x ↦ rw x (false, refl)
      | inr x ↦ rw x (elim h [ inl r ↦ r | inr over ↦ absurd (not-leb until p.now early over) ])
    ])
  ])
]

wait_total :
    (n until : ℕ) (p : Poll) (ps : List Poll)
    → IsPaced until (p ∷ ps)
    → until ≤ p.now + n * reconnect_poll_every
    → n ≤ length ps
    → (r : Bool) × (wait_until_connected until (p ∷ ps) ≡ some r)
wait_total zero until p ps paced near enough = wait_step until p ps (inr (omega arith))
wait_total (suc n) until p [] paced near enough = absurd (omega arith)
wait_total (suc n) until p (p' ∷ ps) paced near enough = elim (dec_le until p.now) [
  | yes over ↦ wait_step until p (p' ∷ ps) (inr over)
  | no early ↦
      wait_step until p (p' ∷ ps)
        (inl (wait_total n until p' ps paced.1 (omega (arith, paced.0)) (omega arith)))
]

-- The wait returns: 91 rounds suffice for the whole budget.
pub wait_ends :
    (until : ℕ) (p : Poll) (ps : List Poll)
    → IsPaced until (p ∷ ps)
    → until ≤ p.now + reconnect_wait_budget
    → 90 ≤ length ps
    → (r : Bool) × (wait_until_connected until (p ∷ ps) ≡ some r)
wait_ends until p ps paced near enough = wait_total 90 until p ps paced (omega arith) enough

-- How the next failures of an instance follow: each within the forgetting time.
abbrev pub Follows : ℕ → List ℕ → Type 0
Follows last [] = Unit {0}
Follows last (t ∷ ts) = (t ≤ last + outage_forget_after) × Follows t ts

-- The failures of an instance, one after the other: the deadline of the last.
unfoldable pub last_deadline : String → ℕ → List ℕ → Map Outage → ℕ
last_deadline i now [] m = (deadline i now m).0
last_deadline i now (t ∷ ts) m = last_deadline i t ts (deadline i now m).1

deadline_again :
    (i : String) (now t : ℕ) (m : Map Outage)
    → t ≤ now + outage_forget_after
    → (deadline i t (deadline i now m).1).0 ≡ (deadline i now m).0
unfolding deadline seen
deadline_again i now t m near = ground (arith, get-put i i (seen now (get i m)) m, eq_refl i)

deadline_last_seen :
    (i : String) (now t : ℕ) (ts : List ℕ) (m : Map Outage)
    → t ≤ now + outage_forget_after
    → last_deadline i t ts (deadline i now m).1 ≡ (deadline i t (deadline i now m).1).0
    → last_deadline i t ts (deadline i now m).1 ≡ (deadline i now m).0
deadline_last_seen i now t ts m near h = h ∙ deadline_again i now t m near

-- Failures that follow one another belong to one outage: all get the deadline of the first, so
-- that queued sends do not wait the budget again one after the other.
pub shared_deadline :
    (i : String) (now : ℕ) (ts : List ℕ) (m : Map Outage)
    → Follows now ts
    → last_deadline i now ts m ≡ (deadline i now m).0
unfolding last_deadline
shared_deadline i now [] m follows = refl
shared_deadline i now (t ∷ ts) m follows =
    deadline_last_seen i now t ts m follows.0
      (shared_deadline i t ts (deadline i now m).1 follows.1)
