-- ===== src/Send/Ready/Ends.antt =====
-- The end of the wait for the session in internal/service/message/send.go.
use apime.Common.{
  ℕ, zero, suc, ◌+◌, ◌*◌, ◌≤◌, ◌≡◌, refl, Bool, true, false, not, ◌&&◌, ◌||◌, some, List, [], ◌∷◌,
  ltb, leb, length, Bool-cases, inl, inr, if◌then◌else◌, arith, leb→le,
}
use apime.Common.Time.{second}
use apime.Send.Ready.{ReadyPoll, ready_budget, wait_ready}

-- Every round begins at least a second after the one before.
abbrev pub IsPaced : List ReadyPoll → Type 0
IsPaced [] = Unit {0}
IsPaced (p ∷ []) = Unit {0}
IsPaced (p ∷ p' ∷ ps) = (p.elapsed + second ≤ p'.elapsed) × IsPaced (p' ∷ ps)

-- Whether some round within the budget found the session ready with enough prekeys.
unfoldable pub any_ready : ℕ → List ReadyPoll → Bool
any_ready min [] = false
any_ready min (p ∷ ps) =
    let rest = any_ready min ps in
    (not (leb ready_budget p.elapsed) && p.ready && leb min p.pre_keys) || rest

abbrev count_of : Bool → ℕ
count_of true = 1
count_of false = 0

-- The wait ends, sends the presence at most once in all, and claims no readiness that no round found.
record Ends (min : ℕ) (poked : Bool) (ps : List ReadyPoll) : Type 0 where
  is_ready : Bool
  pokes : ℕ
  ends : wait_ready min poked ps ≡ some (is_ready, pokes)
  once : pokes + count_of poked ≤ 1
  honest : (is_ready && not (any_ready min ps)) ≡ false

Ends-over :
    (min : ℕ) (poked : Bool) (p : ReadyPoll) (ps : List ReadyPoll)
    → ready_budget ≤ p.elapsed
    → Ends min poked (p ∷ ps)
unfolding wait_ready
Ends-over min poked p ps over = record {
  is_ready = false;
  pokes = 0;
  ends = ground (arith, over);
  once = ground arith;
  honest = refl;
}

Ends-next :
    (min : ℕ) (poked : Bool) (p : ReadyPoll) (ps : List ReadyPoll)
    → Ends min (poked || (ltb (2 * second) p.later && not poked)) ps
    → Ends min poked (p ∷ ps)
unfolding wait_ready any_ready
Ends-next min poked p ps h = elim (Bool-cases (leb ready_budget p.elapsed)) [
  | inl over ↦ Ends-over min poked p ps (leb→le _ _ over)
  | inr early ↦ elim (Bool-cases (p.ready && leb min p.pre_keys)) [
    | inl found ↦ record {
      is_ready = true;
      pokes = 0;
      ends = rw (early, found) refl;
      once = ground arith;
      honest = rw (early) (ground (arith, found));
    }
    | inr missing ↦ record {
      is_ready = h.is_ready;
      pokes = if ltb (2 * second) p.later && not poked then h.pokes + 1 else h.pokes;
      ends = rw (early, missing, h.ends) refl;
      once = ground (arith, h.once);
      honest = ground (arith, h.honest, missing);
    }
  ]
]

wait_total :
    (n min : ℕ) (poked : Bool) (p : ReadyPoll) (ps : List ReadyPoll)
    → IsPaced (p ∷ ps)
    → ready_budget ≤ p.elapsed + n * second
    → n ≤ length ps
    → Ends min poked (p ∷ ps)
wait_total zero min poked p ps paced near enough = Ends-over min poked p ps (omega arith)
wait_total (suc n) min poked p [] paced near enough = absurd (omega arith)
wait_total (suc n) min poked p (p' ∷ ps) paced near enough =
    Ends-next min poked p (p' ∷ ps)
      (wait_total n min _ p' ps paced.1 (omega (arith, paced.0)) (omega arith))

-- With 31 rounds that begin a second apart, the wait for the session ends. It sends the activating
-- presence at most once, and it says that the session is ready only if a round within the 30 seconds
-- found it ready with enough prekeys.
pub ready_ends :
    (min : ℕ) (p : ReadyPoll) (ps : List ReadyPoll)
    → IsPaced (p ∷ ps)
    → 30 ≤ length ps
    → (is_ready : Bool) × (pokes : ℕ) × (wait_ready min false (p ∷ ps) ≡ some (is_ready, pokes))
      × (pokes ≤ 1)
      × ((is_ready && not (any_ready min (p ∷ ps))) ≡ false)
ready_ends min p ps paced enough =
    let e = wait_total 30 min false p ps paced (omega arith) enough in
    (e.is_ready, e.pokes, e.ends, omega (arith, e.once), e.honest)
