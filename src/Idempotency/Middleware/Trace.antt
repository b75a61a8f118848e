-- ===== src/Idempotency/Middleware/Trace.antt =====
-- Interleavings of requests: every access of the table by the middleware and the cleaner, in order.
use apime.Common.{
  ℕ, ◌+◌, ◌≤◌, String, ◌≡◌, Bool, false, ◌&&◌, some, List, [], ◌∷◌, ◌==◌, Result, ok, err,
  if◌then◌else◌,
}
use apime.Common.Time.{rfc3339}
use apime.Common.Table.{first}
use apime.Idempotency.Store.{
  IdempotencyRecord, Row, StoreError, Faults, same_key, try_acquire, complete, release,
  delete_expired,
}

pub data Op : Type 0 where
  acquires : Faults → ℕ → IdempotencyRecord → Op
  completes : Bool → String → String → ℕ → String → Op
  releases : Bool → String → String → Op
  sweeps : Bool → ℕ → Op

unfoldable pub step : Op → List Row → List Row
unfolding try_acquire complete release delete_expired
step (acquires f now rec) t = (try_acquire f now rec t).1
step (completes fault i k status body) t = complete fault i k status body t
step (releases fault i k) t = release fault i k t
step (sweeps fault now) t = (delete_expired fault now t).1

unfoldable pub steps : List Op → List Row → List Row
unfolding step
steps [] t = t
steps (op ∷ ops) t = steps ops (step op t)

abbrev pub granted : Result StoreError (Bool × IdempotencyRecord) → Bool
granted (ok (b, _)) = b
granted (err _) = false

-- Whether this access makes its caller the owner of the key.
unfoldable pub wins : String → String → Op → List Row → Bool
unfolding try_acquire
wins i k (acquires f now rec) t =
    (rec.instance_id == i && rec.key == k) && granted (try_acquire f now rec t).0
wins i k (completes _ _ _ _ _) t = false
wins i k (releases _ _ _) t = false
wins i k (sweeps _ _) t = false

unfoldable pub wins_count : String → String → List Op → List Row → ℕ
unfolding wins step
wins_count i k [] t = 0
wins_count i k (op ∷ ops) t =
    let rest = wins_count i k ops (step op t) in if wins i k op t then rest + 1 else rest

-- An access no later than the second `e` that does not free the key.
abbrev pub Spares : String → String → ℕ → Op → Type 0
Spares i k e (acquires f now rec) = rfc3339 now ≤ e
Spares i k e (completes _ _ _ _ _) = Unit {0}
Spares i k e (releases fault i' k') = (i' == i && k' == k) ≡ false
Spares i k e (sweeps fault now) = rfc3339 now ≤ e

-- An access that moreover is not the key's completion.
abbrev pub Leaves : String → String → ℕ → Op → Type 0
Leaves i k e (acquires f now rec) = rfc3339 now ≤ e
Leaves i k e (completes fault i' k' _ _) = (i' == i && k' == k) ≡ false
Leaves i k e (releases fault i' k') = (i' == i && k' == k) ≡ false
Leaves i k e (sweeps fault now) = rfc3339 now ≤ e

-- The table holds the key until the second `e`, for a request with fingerprint `h`.
pub record Held (i k : String) (e : ℕ) (h : String) (t : List Row) : Type 0 where
  pub row : Row
  pub found : first (same_key i k) t ≡ some row
  pub expires : row.expires_at ≡ e
  pub hash : row.request_hash ≡ h
