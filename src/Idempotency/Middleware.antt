-- ===== src/Idempotency/Middleware.antt =====
-- internal/api/middleware/idempotency.go: the handler in its two halves, before and after the
-- route's own handler runs. SHA-256 is a parameter; a request's body is its bytes, `none` where
-- reading it fails, and `content_length` is `none` where the client announced none (-1).
pub mod Trace
pub mod Ownership
pub mod Retry
pub mod Body
use text.Mathlib.Text.{starts_with}
use Prim.Native.String.{len}
use apime.Common.{
  ℕ, String, ◌+◌, Bool, true, false, not, ◌&&◌, ◌||◌, Option, none, some, List, ◌++◌, ◌==◌, ltb,
  leb, eqb, take, Result, ok, err, if◌then◌else◌,
}
use apime.Common.Text.{codes, trim_space}
use apime.Common.Time.{hour}
use apime.Idempotency.Store.{
  IdempotencyRecord, Row, Status, started, completed, StoreError, Faults, try_acquire, complete,
  release,
}

abbrev pub key_max_len : ℕ
key_max_len = 255

abbrev pub idempotency_ttl : ℕ
idempotency_ttl = 86_400_000_000_000

abbrev pub max_hashed_body_bytes : ℕ
max_hashed_body_bytes = 1_048_576

pub record Request : Type 0 where
  pub key_header : String
  pub method : String
  pub instance_id : String
  pub param_id : String
  pub full_path : String
  pub content_type : String
  pub content_length : Option ℕ
  pub body : Option (List ℕ)

-- What the route's handler left in the response writer; a panic leaves what was written before it.
pub record Outcome : Type 0 where
  pub written : Bool
  pub status : ℕ
  pub body : String

-- `pass`: c.Next() with no key held. `run`: c.Next() while this request holds the key.
pub data Verdict : Type 0 where
  pass : Option (List ℕ) → Verdict
  reject : ℕ → Verdict
  replays : ℕ → String → Verdict
  run : String → String → Option (List ℕ) → Verdict

abbrev too_long : Option ℕ → Bool
too_long none = false
too_long (some n) = ltb max_hashed_body_bytes n

abbrev hash_body : (List ℕ → String) → List ℕ → Option (List ℕ) → Option (String × Option (List ℕ))
hash_body digest head none = none
hash_body digest head (some b) =
    let seen = take max_hashed_body_bytes b in some (digest (head ++ seen), some seen)

-- The fingerprint, and the body that is left for the route's handler.
unfoldable pub hash_request : (List ℕ → String) → Request → Option (String × Option (List ℕ))
unfolding codes
hash_request digest q =
    let head = codes q.method ++ codes q.full_path in
    if starts_with q.content_type "multipart/" || too_long q.content_length
    then some (digest head, q.body)
    else hash_body digest head q.body

unfoldable pub replay : IdempotencyRecord → String → Verdict
replay rec hash = elim rec.status [
  | started ↦ reject 409
  | completed ↦
      if rec.request_hash == hash then replays rec.response_status rec.response_body else reject 422
]

unfoldable pub request_key : Request → String
unfolding trim_space
request_key q = trim_space q.key_header

unfoldable pub request_instance : Request → String
request_instance q = if q.instance_id == "" then q.param_id else q.instance_id

unfoldable pub new_record : ℕ → Request → String → IdempotencyRecord
unfolding request_key request_instance
new_record now q hash = record {
  instance_id = request_instance q;
  key = request_key q;
  request_hash = hash;
  status = started;
  response_status = 0;
  response_body = "";
  created_at = now;
  expires_at = now + idempotency_ttl;
}

unfoldable pub settle :
    Request → String → Option (List ℕ) → Result StoreError (Bool × IdempotencyRecord) → Verdict
unfolding request_key request_instance replay
settle q hash body (err e) = pass body
settle q hash body (ok (true, rec)) = run (request_instance q) (request_key q) body
settle q hash body (ok (false, rec)) = replay rec hash

unfoldable pub acquire_key :
    Faults → ℕ → Request → Option (String × Option (List ℕ)) → List Row → Verdict × List Row
unfolding settle new_record try_acquire
acquire_key f now q none t = (reject 400, t)
acquire_key f now q (some (hash, body)) t =
    let (r, t') = try_acquire f now (new_record now q hash) t in (settle q hash body r, t')

unfoldable pub begin_request :
    (List ℕ → String) → Bool → Faults → ℕ → Request → List Row → Verdict × List Row
unfolding request_key hash_request acquire_key
begin_request digest has_repo f now q t =
    if request_key q == "" || not has_repo || not (q.method == "POST")
    then (pass q.body, t)
    else if ltb key_max_len (len (request_key q))
    then (reject 400, t)
    else acquire_key f now q (hash_request digest q) t

-- The statuses after which the key is freed: 4xx and 503.
unfoldable pub retryable : ℕ → Bool
retryable status = (leb 400 status && ltb status 500) || eqb status 503

-- The deferred function; the two flags are the database refusing its statement.
unfoldable pub finish_request : Bool → Bool → String → String → Outcome → List Row → List Row
unfolding release complete retryable
finish_request release_fault complete_fault i k o t =
    if not o.written || retryable o.status
    then release release_fault i k t
    else complete complete_fault i k o.status o.body t
