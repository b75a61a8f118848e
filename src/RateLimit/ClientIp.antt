-- ===== src/RateLimit/ClientIp.antt =====
-- internal/api/middleware/ip_extraction.go and ip_rate_limit.go: the address that a request of a public
-- route is counted under, and the limit for each address, over any limiter. `parses` is whether
-- net.ParseIP accepts a text, `in_range cidr ip` whether the network contains the address, `hash_ip`
-- the hex SHA-256; `peer` is what gin's ClientIP answers.
pub mod Shared
use Prim.Native.Char.{code}
use Prim.Native.String.{◌++◌}
use apime.Common.{
  ℕ, ◌*◌, ◌/◌, String, Bool, true, false, not, ◌&&◌, ◌||◌, none, some, List, [], ◌∷◌, ◌==◌, eqb,
  map, Result, ok, err, if◌then◌else◌,
}
use apime.Common.Text.{trim_space, contains}
use apime.Common.Time.{second}
use apime.RateLimit.Limiter.{Allowance}
use apime.RateLimit.Middleware.{LimiterApi, Headers, Decision, passes, too_many}

-- The request's headers, "" where there is none.
pub record Request : Type 0 where
  pub cf_connecting_ip : String
  pub x_forwarded_for : String
  pub x_real_ip : String
  pub x_client_ip : String
  pub peer : String

pub record IpRateLimitOption : Type 0 where
  pub enabled : Bool
  pub has_limiter : Bool
  pub requests : ℕ
  pub window_seconds : ℕ
  pub skip_private_ips : Bool

-- strings.Split(s, sep) for a separator of one character: the part before the first, and the others.
unfoldable pub split : ℕ → String → String × List String
split sep String.[] = ("", [])
split sep (String.◌∷◌ c s) =
    let rest = split sep s in
    if eqb (code c) sep then ("", rest.0 ∷ rest.1) else (String.◌∷◌ c rest.0, rest.1)

unfoldable pub private_ranges : List String
private_ranges =
    "10.0.0.0/8" ∷ "172.16.0.0/12" ∷ "192.168.0.0/16" ∷ "127.0.0.1/32" ∷ "::1/128" ∷ "fc00::/7" ∷ []

unfoldable pub in_any : (String → String → Bool) → List String → String → Bool
in_any in_range [] ip = false
in_any in_range (cidr ∷ ranges) ip =
    let rest = in_any in_range ranges ip in in_range cidr ip || rest

-- The limiter's answer is an error, or not.
unfoldable pub decide : IpRateLimitOption → Result String Allowance → Decision
decide opts (err message) = passes none
decide opts (ok res) =
    if not res.allowed
    then too_many (record {
      limit = opts.requests;
      remaining = res.remaining;
      reset = res.reset / second;
      retry_after = some (res.retry_after / second);
    })
    else passes (
        some (record {
          limit = opts.requests;
          remaining = res.remaining;
          reset = res.reset / second;
          retry_after = none;
        }))

module _ (parses : String → Bool) where
  unfoldable pub validate_ip : String → String
  unfolding split
  validate_ip text =
      let trimmed = trim_space text in
      let ip = if contains trimmed ":" then (split 58 trimmed).0 else trimmed in
      if trimmed == "" then "" else if parses ip then ip else ""

  -- The first of the texts that is an address, "" if none is.
  unfoldable pub first_valid : List String → String
  first_valid [] = ""
  first_valid (part ∷ parts) =
      let ip = validate_ip (trim_space part) in
      let rest = first_valid parts in if not (ip == "") then ip else rest

  unfoldable pub header_ip : String → String
  header_ip header = if not (header == "") then validate_ip header else ""

  unfoldable pub forwarded_ip : String → String
  unfolding first_valid
  forwarded_ip header =
      if not (header == "") then first_valid ((split 44 header).0 ∷ (split 44 header).1) else ""

  unfoldable pub get_client_ip : Request → String
  unfolding header_ip forwarded_ip
  get_client_ip r =
      if not (header_ip r.cf_connecting_ip == "")
      then header_ip r.cf_connecting_ip
      else if not (forwarded_ip r.x_forwarded_for == "")
      then forwarded_ip r.x_forwarded_for
      else if not (header_ip r.x_real_ip == "")
      then header_ip r.x_real_ip
      else if not (header_ip r.x_client_ip == "")
      then header_ip r.x_client_ip
      else r.peer

  module _ (in_range : String → String → Bool) where
    unfoldable pub is_private_ip : String → Bool
    unfolding in_any private_ranges
    is_private_ip ip = if not (parses ip) then false else in_any in_range private_ranges ip

    module _ {ℓ} {S : Type ℓ} (limiter : LimiterApi S) (hash_ip : String → String) where
      unfoldable pub ip_rate_limit : IpRateLimitOption → ℕ → Request → S → Decision × S
      unfolding decide get_client_ip is_private_ip
      ip_rate_limit opts now r s =
          let ip = get_client_ip r in
          if not opts.enabled
            || not opts.has_limiter
            || eqb opts.requests 0
            || eqb opts.window_seconds 0
          then (passes none, s)
          else if opts.skip_private_ips && is_private_ip ip
          then (passes none, s)
          else (let (res, s') =
                limiter.allow now ("ratelimit:ip:" ++ hash_ip ip) opts.requests
                  (opts.window_seconds * second) s in
              (decide opts res, s'))
