-- ===== src/RateLimit/Limiter.antt =====
-- internal/pkg/ratelimiter/memory/limiter.go. `now` is the clock at the call; a call holds the
-- mutex throughout, so calls and clean-ups happen one after the other.
use apime.Common.{
  ℕ, suc, ◌+◌, ◌-◌, String, Bool, true, not, Option, none, some, ltb, leb, if◌then◌else◌,
}
use apime.Common.Map.{Map, get, put, retain}

pub record Item : Type 0 where
  pub count : ℕ
  pub expires_at : ℕ

-- ratelimiter.Result
pub record Allowance : Type 0 where
  pub allowed : Bool
  pub remaining : ℕ
  pub reset : ℕ
  pub retry_after : ℕ

unfoldable pub is_over : ℕ → Option Item → Bool
is_over now none = true
is_over now (some item) = ltb item.expires_at now

unfoldable pub open_window : ℕ → String → ℕ → ℕ → Map Item → Allowance × Map Item
unfolding put
open_window now key limit window items = (
  record { allowed = true; remaining = limit - 1; reset = now + window; retry_after = 0 },
  put key (record { count = 1; expires_at = now + window }) items,
)

unfoldable pub count_call : ℕ → String → ℕ → Item → Map Item → Allowance × Map Item
unfolding put
count_call now key limit item items =
    let count = suc item.count in
    (
      record {
        allowed = leb count limit;
        remaining = limit - count;
        reset = item.expires_at;
        retry_after = item.expires_at - now;
      },
      put key (record item { count = count }) items,
    )

unfoldable pub allow_found : ℕ → String → ℕ → ℕ → Option Item → Map Item → Allowance × Map Item
unfolding open_window count_call
allow_found now key limit window none items = open_window now key limit window items
allow_found now key limit window (some item) items =
    if ltb item.expires_at now
    then open_window now key limit window items
    else count_call now key limit item items

unfoldable pub allow : ℕ → String → ℕ → ℕ → Map Item → Allowance × Map Item
unfolding allow_found get
allow now key limit window items = allow_found now key limit window (get key items) items

-- One tick of cleanupLoop.
unfoldable pub cleanup : ℕ → Map Item → Map Item
unfolding retain
cleanup now items = retain (λ k item. not (ltb item.expires_at now)) items
