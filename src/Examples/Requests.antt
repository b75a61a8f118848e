-- ===== src/Examples/Requests.antt =====
-- Runs of the idempotency middleware.
use apime.Common.{
  ℕ, zero, suc, ◌⊎◌, take, String, ◌≡◌, refl, true, false, Option, none, some, List, [], ◌∷◌, arith,
  length, map,
}
use apime.Idempotency.Store.{IdempotencyRecord, no_faults, try_acquire}
use apime.Idempotency.Middleware.{
  Request, Outcome, reject, replays, begin_request, finish_request, hash_request, request_key,
  request_instance, retryable, new_record, max_hashed_body_bytes,
}
use apime.Idempotency.Middleware.Trace.{Op, acquires, completes, sweeps, steps, wins_count}
use apime.Idempotency.Middleware.Ownership.{acquired_once}
use apime.Idempotency.Middleware.Retry.{Keyed, repeat_conflicts, repeat_replays}
use apime.Idempotency.Middleware.Body.{body_truncated, handed}
use apime.Idempotency.Postgres as Postgres
use apime.Idempotency.Postgres.Scale as Scale
use apime.Idempotency.Postgres.Backends.{same_answers}

abbrev digest : List ℕ → String
digest bytes = "digest"

abbrev request : Request
request = record {
  key_header = "key";
  method = "POST";
  instance_id = "one";
  param_id = "";
  full_path = "/send";
  content_type = "text/plain";
  content_length = some 2;
  body = some (1 ∷ 2 ∷ []);
}

abbrev body : Option (List ℕ)
body = some (1 ∷ 2 ∷ [])

request-Keyed : Keyed digest request "digest" body
unfolding request_key hash_request
request-Keyed = record { has_key = refl; posts = refl; fits = refl; hashed = refl }

abbrev first_record : IdempotencyRecord
first_record = new_record 0 request "digest"

-- A second request tries the key, and the cleaner runs.
abbrev others : List Op
others = acquires no_faults 5 first_record ∷ sweeps false 7 ∷ []

acquired_once_example :
    wins_count "one" "key" others (try_acquire no_faults 0 first_record []).1 ≡ 0
unfolding new_record try_acquire
acquired_once_example =
    acquired_once no_faults 0 first_record [] others refl (omega arith, (omega arith, tt))

-- The sweep and another instance's completion while the first request runs.
abbrev meanwhile : List Op
meanwhile = sweeps false 7 ∷ completes false "two" "key" 200 "" ∷ []

repeat_conflicts_example :
    (begin_request digest true no_faults 9 request
      (steps meanwhile (begin_request digest true no_faults 0 request []).1)).0
    ≡ reject 409
unfolding begin_request request_instance request_key
repeat_conflicts_example =
    repeat_conflicts digest 0 request "digest" body no_faults [] request-Keyed refl request "digest"
      body 9 request-Keyed refl refl (omega arith) meanwhile (omega arith, (refl, tt))

abbrev answer : Outcome
answer = record { written = true; status = 200; body = "done" }

repeat_replays_example :
    (begin_request digest true no_faults 9 request (
      steps meanwhile (
        finish_request false false
          (request_instance request)
          (request_key request)
          answer
          (steps meanwhile (begin_request digest true no_faults 0 request []).1)))).0
    ≡ replays 200 "done"
unfolding begin_request request_instance request_key retryable
repeat_replays_example =
    repeat_replays digest 0 request "digest" body no_faults [] request-Keyed refl request "digest"
      body 9 request-Keyed refl refl (omega arith) answer meanwhile meanwhile refl refl
      (omega arith, (refl, tt)) (omega arith, (refl, tt))

unfoldable zeros : ℕ → List ℕ
zeros zero = []
zeros (suc n) = 0 ∷ zeros n

length-zeros : (n : ℕ) → length (zeros n) ≡ n
unfolding zeros
length-zeros zero = omega arith
length-zeros (suc n) = omega (arith, length-zeros n)

-- A chunked upload of one byte more than 1 MiB.
abbrev chunked : Request
chunked = record request { content_length = none; body = some (zeros 1_048_577) }

body_truncated_example :
    ((handed (begin_request digest true no_faults 0 chunked []).0 ≡ none)
      ⊎ (handed (begin_request digest true no_faults 0 chunked []).0
          ≡ some (some (take max_hashed_body_bytes (zeros 1_048_577)))))
    × (length (take max_hashed_body_bytes (zeros 1_048_577)) ≡ max_hashed_body_bytes)
unfolding request_key
body_truncated_example =
    body_truncated digest no_faults 0 chunked [] (zeros 1_048_577) refl refl refl refl refl refl
      (omega (arith, length-zeros 1_048_577))

abbrev no_postgres_faults : Postgres.Faults
no_postgres_faults = record { delete = false; insert = false; select = false }

-- A request takes the key, a second one finds it, the first completes, and the cleaner runs.
abbrev contest : List Scale.Op
contest =
    Scale.acquires no_postgres_faults 0 first_record
    ∷ Scale.acquires no_postgres_faults 5 first_record
    ∷ Scale.completes false "one" "key" 200 "ok"
    ∷ Scale.sweeps false 100000
    ∷ []

same_answers_example :
    Scale.answers_on_postgres contest []
    ≡ map Scale.answer_at_micros (Scale.answers_on_sqlite contest [])
same_answers_example = same_answers contest []
