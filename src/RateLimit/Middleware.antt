-- ===== src/RateLimit/Middleware.antt =====
-- internal/api/middleware/rate_limit.go: the limit for each token, over any limiter. `hash_token` is
-- the hex SHA-256, `equal_fold` strings.EqualFold.
pub mod Refusal
use Prim.Native.Char.{code}
use Prim.Native.String.{◌++◌}
use apime.Common.{
  ℕ, ◌/◌, String, Bool, true, false, not, ◌||◌, Option, none, some, ◌==◌, eqb, Result, ok, err,
  if◌then◌else◌,
}
use apime.Common.Text.{trim_space}
use apime.Common.Time.{second}
use apime.RateLimit.Limiter.{Allowance}

-- ratelimiter.Limiter: the state of a limiter, and what a call at an instant with a key, a limit and
-- a window answers.
pub record LimiterApi {ℓ} (S : Type ℓ) : Type ℓ where
  pub allow : ℕ → String → ℕ → ℕ → S → Result String Allowance × S

pub record RateLimitOption : Type 0 where
  pub enabled : Bool
  pub has_limiter : Bool
  pub requests : ℕ
  pub window : ℕ
  pub prefix : String

pub record Headers : Type 0 where
  pub limit : ℕ
  pub remaining : ℕ
  pub reset : ℕ
  pub retry_after : Option ℕ

-- On to the next handler, with or without the headers, or 429.
pub data Decision : Type 0 where
  passes : Option Headers → Decision
  too_many : Headers → Decision

-- strings.SplitN(header, " ", 2)
unfoldable pub split_at_space : String → Option (String × String)
split_at_space String.[] = none
split_at_space (String.◌∷◌ c s) =
    let rest = split_at_space s in
    if eqb (code c) 32
    then some ("", s)
    else elim rest [ none ↦ none | some (before, after) ↦ some (String.◌∷◌ c before, after) ]

unfoldable pub extract_bearer_token : (String → String → Bool) → String → String
unfolding split_at_space
extract_bearer_token equal_fold header = elim (split_at_space header) [
  | none ↦ ""
  | some (scheme, rest) ↦ if not (equal_fold scheme "Bearer") then "" else trim_space rest
]

unfoldable pub is_off : RateLimitOption → Bool
is_off opts = not opts.enabled || not opts.has_limiter || eqb opts.requests 0 || eqb opts.window 0

unfoldable pub limit_key : (String → String) → RateLimitOption → String → String
limit_key hash_token opts token =
    (if opts.prefix == "" then "ratelimit:api" else opts.prefix) ++ ":" ++ hash_token token

unfoldable pub headers_of : RateLimitOption → Allowance → Option ℕ → Headers
headers_of opts res retry_after = record {
  limit = opts.requests;
  remaining = res.remaining;
  reset = res.reset / second;
  retry_after = retry_after;
}

unfoldable pub decide : RateLimitOption → Result String Allowance → Decision
unfolding headers_of
decide opts (err message) = passes none
decide opts (ok res) =
    if not res.allowed
    then too_many (headers_of opts res (some (res.retry_after / second)))
    else passes (some (headers_of opts res none))

module _ {ℓ} {S : Type ℓ} (limiter : LimiterApi S) (hash_token : String → String)
    (equal_fold : String → String → Bool) where
  unfoldable pub rate_limit : RateLimitOption → ℕ → String → S → Decision × S
  unfolding decide
  rate_limit opts now header s =
      let token = extract_bearer_token equal_fold header in
      if is_off opts
      then (passes none, s)
      else if token == ""
      then (passes none, s)
      else (let (res, s') =
            limiter.allow now (limit_key hash_token opts token) opts.requests opts.window s in
          (decide opts res, s'))
