-- ===== src/Examples/Sessions.antt =====
-- Runs of the retry cache, of a connection, of the rate limit of tokens, and of a new user's login.
use Prim.Native.String.{◌++◌}
use apime.Common.{
  ◌*◌, ◌+◌, String, Bool, ◌||◌, ◌≡◌, refl, true, false, none, some, List, [], ◌∷◌, ◌==◌, arith, ok,
  if◌then◌else◌, eq_iff,
}
use apime.Common.Map.{get, Distinct}
use apime.Common.Time.{minute, second}
use apime.Session.Connection.{
  Connection, connected, disconnected, handle_event, on_disconnected, stop_timer, fire, fired,
  confirm,
}
use apime.Common.Heap.{get_elem?, modify}
use apime.Session.Connection.Debounce as Debounce
use apime.Common.Text.{trim_space, contains}
use apime.Common.Table.{count_where}
use apime.RateLimit.Limiter.{is_over}
use apime.RateLimit.Middleware.{RateLimitOption, extract_bearer_token, split_at_space, is_off}
use apime.RateLimit.Middleware.Refusal.{admitted, token_quota}
use apime.RateLimit.ClientIp.{Request, IpRateLimitOption}
use apime.RateLimit.ClientIp.Shared.{has_code}
use apime.Session.RetryCache.{same, cache_outgoing_message, get_message_for_retry}
use apime.Session.RetryCache.Laws.{Op, caches, retries, steps, retry_gets_sent}
use apime.Accounts.Users.{User, UserFaults, CreateInput, create, create_user}
use apime.Accounts.Auth.{TokenFaults, user_jwt, authenticate}
use apime.Accounts.Login.{claims_of, login, user_id_of, require_admin, admits, forbidden}
use apime.Accounts.Login.Newcomer.{role_of, newcomer_is_admitted}

abbrev meanwhile : List (Op String)
meanwhile = caches 20 "other" false (some "hi") ∷ retries (9 * minute) "photo" none ∷ []

retry_gets_sent_example :
    (get_message_for_retry
      (29 * minute)
      "photo"
      none
      (steps meanwhile (cache_outgoing_message 10 "photo" false (some "jpeg") []))).0
    ≡ some (same "jpeg")
retry_gets_sent_example =
    retry_gets_sent 10 (29 * minute) "photo" false "jpeg" none meanwhile [] Distinct.nil refl
      ((omega arith, refl), (omega arith, tt)) (omega arith)

abbrev limits : RateLimitOption
limits = record { enabled = true; has_limiter = true; requests = 2; window = 60; prefix = "" }

token_quota_example : admitted (λ t. t) (λ a b. a == b) limits "Bearer abc" (5 ∷ 6 ∷ 7 ∷ []) [] ≡ 2
unfolding is_off trim_space extract_bearer_token split_at_space is_over get
token_quota_example =
    token_quota (λ t. t) (λ a b. a == b) limits "Bearer abc" 5 (6 ∷ 7 ∷ []) [] refl refl
      (omega arith) Distinct.nil refl (omega arith, (omega arith, tt))

-- What net.ParseIP accepts, as far as the theorem reads it.
abbrev punctuated : String → Bool
punctuated s = has_code 46 s || has_code 58 s

abbrev via_proxy : String → Request
via_proxy ip = record {
  cf_connecting_ip = ip;
  x_forwarded_for = "";
  x_real_ip = "";
  x_client_ip = "";
  peer = "172.18.0.1";
}

abbrev ip_limits : IpRateLimitOption
ip_limits = record {
  enabled = true;
  has_limiter = true;
  requests = 20;
  window_seconds = 60;
  skip_private_ips = false;
}

abbrev healthy : UserFaults
healthy = record {
  gets = false;
  lists = false;
  inserts = false;
  updates = false;
  reads_role = false;
  counts = false;
  deletes = false;
}

abbrev tokens_healthy : TokenFaults
tokens_healthy = record {
  gets = false;
  inserts = false;
  updates = false;
  deletes = false;
  gets_instance = false;
}

abbrev ana : CreateInput
ana = record { email = " ana@one "; password = "password"; role = "" }

abbrev ana_row : User
ana_row = record {
  id = "u1";
  email = "ana@one";
  password_hash = "password";
  role = "admin";
  created_at = 0;
}

newcomer_is_admitted_example :
    (login (λ s. s) (λ h p. h == p) (λ c. ok c.sub) healthy 9 24 "ana@one" "password" (ana_row ∷ [])
      ≡ ok "u1")
    × ((authenticate
          (λ t. t)
          (λ t. some (some t))
          tokens_healthy
          true
          true
          10
          ("Bearer " ++ "u1")
          []
          []).0
        ≡ ok (user_jwt (some "u1")))
    × (require_admin healthy (user_id_of (user_jwt (some "u1"))) (ana_row ∷ [])
        ≡ (if role_of ana == "admin" then admits "admin" else forbidden))
unfolding create create_user count_where trim_space contains claims_of
newcomer_is_admitted_example =
    newcomer_is_admitted (λ s. s) (λ p. 8) (λ p. some p) (λ h p. h == p) (λ t. t)
      (λ t. some (some t)) (λ c. ok c.sub) healthy tokens_healthy true true "u1" "ana@one" 7 9 10 24
      ana [] (ana_row ∷ []) [] [] ana_row "u1" refl refl refl refl
      (λ p h e. ground (arith, e, eq_iff h p)) refl refl

-- A connection that drops, comes back, and drops again.
abbrev flapping : List Debounce.Op
flapping =
    Debounce.event 5 connected
    ∷ Debounce.event 10 disconnected
    ∷ Debounce.event 20 connected
    ∷ Debounce.event 30 disconnected
    ∷ []

nothing_after_connected_example :
    (Debounce.expire_all ((100 * minute, 0) ∷ (200 * minute, 1) ∷ []) (
      handle_event 40 connected
        (Debounce.steps flapping (Debounce.new_connection true true)))).reports
    ≡ (handle_event 40 connected
        (Debounce.steps flapping (Debounce.new_connection true true))).reports
nothing_after_connected_example =
    Debounce.nothing_after_connected true true flapping 40
      ((100 * minute, 0) ∷ (200 * minute, 1) ∷ [])

-- The connection was lost, and 30 seconds later the timer's function starts.
abbrev timed_out : Connection
timed_out =
    fire (30 * second + 6) 0 (handle_event 5 disconnected (Debounce.new_connection true true))

connected_in_error_example :
    ((confirm 0 (handle_event (30 * second + 7) connected timed_out)).connected_at
      ≡ some (30 * second + 7))
    × (Debounce.last_status (confirm 0 (handle_event (30 * second + 7) connected timed_out)).reports
        ≡ "error")
unfolding fire fired handle_event on_disconnected Debounce.new_connection stop_timer get_elem?
    modify
connected_in_error_example = Debounce.connected_in_error timed_out (30 * second + 7) 0 refl
