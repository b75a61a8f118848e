-- ===== src/RateLimit/Middleware/Refusal.antt =====
-- Over the limiter in memory: how many requests with one token get through.
use apime.Common.{
  ℕ, suc, ◌+◌, ◌≤◌, min, String, ◌≡◌, refl, ap, ◌∙◌, Bool, true, false, List, [], ◌∷◌, length, All,
  ok, if◌then◌else◌, arith, ◌==◌, eq_refl,
}
use apime.Common.Map.{Map, get, Distinct}
use apime.RateLimit.Limiter.{Item, Allowance, is_over, allow}
use apime.RateLimit.Quota.{Op, calls, InWindow, asked, passed, step, passes, asks, quota}
use apime.RateLimit.Middleware.{
  LimiterApi, RateLimitOption, Decision, passes as on, too_many, extract_bearer_token, is_off,
  limit_key, decide, rate_limit,
}

unfoldable pub memory : LimiterApi (Map Item)
memory = record {
  allow = λ now key limit window items.
      ((ok (allow now key limit window items).0), (allow now key limit window items).1);
}

abbrev is_on : Decision → Bool
is_on (on _) = true
is_on (too_many _) = false

module _ (hash_token : String → String) (equal_fold : String → String → Bool)
    (opts : RateLimitOption) (header : String) where
  -- How many of the requests at these instants, all with this header, get through.
  unfoldable pub admitted : List ℕ → Map Item → ℕ
  unfolding rate_limit
  admitted [] items = 0
  admitted (now ∷ times) items =
      let result = rate_limit memory hash_token equal_fold opts now header items in
      let rest = admitted times result.1 in if is_on result.0 then suc rest else rest

  abbrev key : String
  key = limit_key hash_token opts (extract_bearer_token equal_fold header)

  abbrev calls_at : List ℕ → List Op
  calls_at [] = []
  calls_at (now ∷ times) = calls now key opts.requests opts.window ∷ calls_at times

  decided : (res : Allowance) → is_on (decide opts (ok res)) ≡ res.allowed
  unfolding decide
  decided res = ground arith

  one_request :
      (now : ℕ) (items : Map Item)
      → is_off opts ≡ false
      → (extract_bearer_token equal_fold header == "") ≡ false
      → (is_on (rate_limit memory hash_token equal_fold opts now header items).0
          ≡ (allow now key opts.requests opts.window items).0.allowed)
        × ((rate_limit memory hash_token equal_fold opts now header items).1
            ≡ (allow now key opts.requests opts.window items).1)
  unfolding rate_limit memory decide
  one_request now items enabled given =
      rw (enabled, given, rate_limit)
        (decided (allow now key opts.requests opts.window items).0, refl)

  admitted-passed :
      (times : List ℕ) (items : Map Item)
      → is_off opts ≡ false
      → (extract_bearer_token equal_fold header == "") ≡ false
      → (admitted times items ≡ passed key (calls_at times) items)
        × (asked key (calls_at times) ≡ length times)
  unfolding admitted passed asked step asks passes
  admitted-passed [] items enabled given = (refl, refl)
  admitted-passed (now ∷ times) items enabled given =
      let (same, next) = one_request now items enabled given in
      let (rest, count) =
        admitted-passed times (allow now key opts.requests opts.window items).1 enabled given in
      (rw (same, next, eq_refl key, rest) refl, rw (eq_refl key, count) refl)

  InWindow-calls_at :
      (times : List ℕ) (e : ℕ)
      → All (λ (now : ℕ). now ≤ e) times
      → All (InWindow key opts.requests e) (calls_at times)
  InWindow-calls_at [] e w = tt
  InWindow-calls_at (now ∷ times) e w = ((w.0, λ _. refl), InWindow-calls_at times e w.1)

  -- With the limit on and a token in the header, where no window of the token is open: of a request
  -- and those after it within the window, exactly as many get through as the limit says.
  pub token_quota :
      (now : ℕ) (times : List ℕ) (items : Map Item)
      → is_off opts ≡ false
      → (extract_bearer_token equal_fold header == "") ≡ false
      → 1 ≤ opts.requests
      → Distinct items
      → is_over now (get key items) ≡ true
      → All (λ (t : ℕ). t ≤ now + opts.window) times
      → admitted (now ∷ times) items ≡ min (length times + 1) opts.requests
  token_quota now times items enabled given some_limit d over w =
      let (same, count) = admitted-passed (now ∷ times) items enabled given in
      let (_, later) = admitted-passed times items enabled given in
      same
      ∙ quota key opts.requests now opts.window (calls_at times) items d over some_limit
          (InWindow-calls_at times (now + opts.window) w)
      ∙ ap (λ n. min (n + 1) opts.requests) later
