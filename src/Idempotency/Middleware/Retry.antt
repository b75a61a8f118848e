-- ===== src/Idempotency/Middleware/Retry.antt =====
-- What a client that repeats a request with its key gets back.
use apime.Common.{
  ℕ, ◌+◌, ◌≤◌, String, ◌≡◌, refl, ap, ◌∙◌, true, false, not, ◌||◌, Option, none, some, List, ◌==◌,
  arith, ltb, ok, All, if◌then◌else◌,
}
use apime.Common.Time.{rfc3339}
use apime.Common.Table.{
  first, delete_where, first-update_where_self, first-delete_where_self, first-delete_where-none,
}
use apime.Idempotency.Store.{
  IdempotencyRecord, Row, Faults, no_faults, empty_record, same_key, stale_key, new_row, scan_row,
  completed_row, insert_new, insert_key, get, try_acquire, complete,
}
use apime.Idempotency.Middleware.{
  Request, Outcome, Verdict, reject, replays, run, hash_request, replay, request_key,
  request_instance, new_record, settle, acquire_key, begin_request, retryable, finish_request,
  key_max_len, idempotency_ttl,
}
use apime.Idempotency.Middleware.Trace.{Op, steps, granted, Leaves}
use apime.Idempotency.Middleware.Ownership.{row_after_drop, row-steps, row_granted}
use Prim.Native.String.{len}

-- A POST whose key takes the middleware's path, with fingerprint `hash`.
pub record Keyed (digest : List ℕ → String) (q : Request) (hash : String) (body : Option (List ℕ))
    : Type 0 where
  pub has_key : (request_key q == "") ≡ false
  pub posts : (q.method == "POST") ≡ true
  pub fits : ltb key_max_len (len (request_key q)) ≡ false
  pub hashed : hash_request digest q ≡ some (hash, body)

insert_key_read :
    (rec : IdempotencyRecord) (t : List Row) (r : Row)
    → first (same_key rec.instance_id rec.key) t ≡ some r
    → (insert_key no_faults rec t).0 ≡ ok (false, scan_row r)
unfolding insert_key insert_new get new_row
insert_key_read rec t r taken = ground arith

try_acquire_read :
    (now : ℕ) (rec : IdempotencyRecord) (t : List Row) (r : Row)
    → first
        (same_key rec.instance_id rec.key)
        (delete_where (stale_key rec.instance_id rec.key now) t)
      ≡ some r
    → (try_acquire no_faults now rec t).0 ≡ ok (false, scan_row r)
unfolding try_acquire
try_acquire_read now rec t r taken =
    insert_key_read rec (delete_where (stale_key rec.instance_id rec.key now) t) r taken

pub acquire_key_cases :
    (f : Faults) (now : ℕ) (q : Request) (hash : String) (body : Option (List ℕ)) (t : List Row)
    → acquire_key f now q (some (hash, body)) t ≡ (
      settle q hash body (try_acquire f now (new_record now q hash) t).0,
      (try_acquire f now (new_record now q hash) t).1,
    )
unfolding acquire_key
acquire_key_cases f now q hash body t = refl

module _ (digest : List ℕ → String) (now : ℕ) (q : Request) (hash : String)
    (body : Option (List ℕ)) where
  pub begin-Keyed :
      (f : Faults) (t : List Row)
      → Keyed digest q hash body
      → begin_request digest true f now q t ≡ acquire_key f now q (some (hash, body)) t
  unfolding begin_request
  begin-Keyed f t v = ground (arith, v.has_key, v.posts, v.fits, v.hashed)

  -- A request whose key is held is answered from the stored row, and its handler does not run.
  begin_taken :
      (t : List Row) (r : Row)
      → Keyed digest q hash body
      → first
          (same_key (request_instance q) (request_key q))
          (delete_where (stale_key (request_instance q) (request_key q) now) t)
        ≡ some r
      → (begin_request digest true no_faults now q t).0 ≡ replay (scan_row r) hash
  begin_taken t r keyed taken =
      rw (begin-Keyed no_faults t keyed, acquire_key_cases no_faults now q hash body t)
        (ap (settle q hash body)
            (try_acquire_read now (new_record now q hash) t r (unfold new_record in taken))
          ∙ (unfold settle in refl))

  -- The verdict `run` is given to the owner of the key only.
  run_granted :
      (f : Faults) (t : List Row) {i k : String} {b : Option (List ℕ)}
      → Keyed digest q hash body
      → (begin_request digest true f now q t).0 ≡ run i k b
      → granted (try_acquire f now (new_record now q hash) t).0 ≡ true
  unfolding settle replay
  run_granted f t keyed h =
      ground (arith, h, begin-Keyed f t keyed, acquire_key_cases f now q hash body t)

-- The row of a request that runs, when its response has been recorded.
abbrev answered_row : ℕ → Request → String → Outcome → Row
answered_row now q hash o = completed_row o.status o.body (new_row (new_record now q hash))

module _ (digest : List ℕ → String) (now : ℕ) (q : Request) (hash : String) (body : Option (List ℕ))
    (f : Faults) (t : List Row) (keyed : Keyed digest q hash body)
    (runs : (begin_request digest true f now q t).0
      ≡ run (request_instance q) (request_key q) body) where
  row_running :
      first (same_key (request_instance q) (request_key q)) (begin_request digest true f now q t).1
      ≡ some (new_row (new_record now q hash))
  row_running =
      ap (λ (z : Verdict × List Row). first (same_key (request_instance q) (request_key q)) z.1)
        (begin-Keyed digest now q hash body f t keyed ∙ acquire_key_cases f now q hash body t)
      ∙ (unfold new_record in
          row_granted f now (new_record now q hash) t
            (run_granted digest now q hash body f t keyed runs))

  finished :
      (o : Outcome) (u : List Row)
      → o.written ≡ true
      → retryable o.status ≡ false
      → first (same_key (request_instance q) (request_key q)) u
        ≡ some (new_row (new_record now q hash))
      → first
          (same_key (request_instance q) (request_key q))
          (finish_request false false (request_instance q) (request_key q) o u)
        ≡ some (completed_row o.status o.body (new_row (new_record now q hash)))
  unfolding finish_request complete
  finished o u written keeps found = ground (
    arith,
    first-update_where_self (same_key (request_instance q) (request_key q))
        (completed_row o.status o.body) u (unfold same_key completed_row in λ x h. h),
  )

  module _ (q' : Request) (hash' : String) (body' : Option (List ℕ)) (now' : ℕ)
      (keyed' : Keyed digest q' hash' body')
      (same_instance : request_instance q' ≡ request_instance q)
      (same_key_text : request_key q' ≡ request_key q)
      (early : rfc3339 now' ≤ rfc3339 (now + idempotency_ttl)) where
    repeat_found :
        (u : List Row) (r : Row)
        → r.expires_at ≡ rfc3339 (now + idempotency_ttl)
        → first (same_key (request_instance q) (request_key q)) u ≡ some r
        → (begin_request digest true no_faults now' q' u).0 ≡ replay (scan_row r) hash'
    repeat_found u r expires found = begin_taken digest now' q' hash' body' u r keyed' (
        rw (same_instance, same_key_text)
          (row_after_drop (request_instance q) (request_key q) (rfc3339 (now + idempotency_ttl))
            hash _ _ now' u r expires early found))

    -- While the first request runs, and for the 24 hours of its key, a repeat for which the database
    -- answers is refused with 409, and its handler does not run.
    pub repeat_conflicts :
        (ops : List Op)
        → All (Leaves (request_instance q) (request_key q) (rfc3339 (now + idempotency_ttl))) ops
        → (begin_request digest true no_faults now' q'
            (steps ops (begin_request digest true f now q t).1)).0
          ≡ reject 409
    repeat_conflicts ops leaves =
        repeat_found _ (new_row (new_record now q hash)) (unfold new_row new_record in refl)
          (row-steps _ _ _ hash ops _ leaves (unfold new_row new_record in refl) row_running)
        ∙ (unfold replay scan_row new_row in refl)

    -- After a response that keeps the key was recorded, and for the 24 hours of the key, a repeat for
    -- which the database answers is answered from the record: the same status and body if the
    -- fingerprint is the first request's, and 422 otherwise. Its handler does not run.
    pub repeat_replays :
        (o : Outcome) (ops later : List Op)
        → o.written ≡ true
        → retryable o.status ≡ false
        → All (Leaves (request_instance q) (request_key q) (rfc3339 (now + idempotency_ttl))) ops
        → All (Leaves (request_instance q) (request_key q) (rfc3339 (now + idempotency_ttl))) later
        → (begin_request digest true no_faults now' q' (
            steps later (
              finish_request false false
                (request_instance q)
                (request_key q)
                o
                (steps ops (begin_request digest true f now q t).1)))).0
          ≡ (if hash == hash' then replays o.status o.body else reject 422)
    repeat_replays o ops later written keeps leaves leaves' =
        repeat_found _ (completed_row o.status o.body (new_row (new_record now q hash)))
          (unfold new_row new_record completed_row in refl)
          (row-steps _ _ _ hash later _ leaves' (unfold new_row new_record completed_row in refl) (
            finished o _ written keeps
              (row-steps _ _ _ hash ops _ leaves (unfold new_row new_record in refl) row_running)))
        ∙ (unfold replay scan_row new_row new_record completed_row in refl)

granted_free :
    (now : ℕ) (rec : IdempotencyRecord) (t : List Row)
    → first
        (same_key rec.instance_id rec.key)
        (delete_where (stale_key rec.instance_id rec.key now) t)
      ≡ none
    → (try_acquire no_faults now rec t).0 ≡ ok (true, empty_record)
unfolding try_acquire insert_key insert_new new_row
granted_free now rec t free = ground arith

released :
    (i k : String) (o : Outcome) (t : List Row)
    → (not o.written || retryable o.status) ≡ true
    → first (same_key i k) (finish_request false false i k o t) ≡ none
unfolding finish_request
released i k o t frees = ground (arith, first-delete_where_self (same_key i k) t)

-- A response of 4xx or 503, or none at all, frees the key: the next request with it runs.
pub retryable_frees :
    (digest : List ℕ → String) (q : Request) (hash : String) (body : Option (List ℕ)) (now : ℕ)
    (o : Outcome) (t : List Row)
    → Keyed digest q hash body
    → (not o.written || retryable o.status) ≡ true
    → (begin_request digest true no_faults now q
        (finish_request false false (request_instance q) (request_key q) o t)).0
      ≡ run (request_instance q) (request_key q) body
retryable_frees digest q hash body now o t keyed frees =
    let i = request_instance q in
    let k = request_key q in
    let u = finish_request false false i k o t in
    ap (λ (z : Verdict × List Row). z.0)
      (begin-Keyed digest now q hash body no_faults u keyed
        ∙ acquire_key_cases no_faults now q hash body u)
    ∙ ap (settle q hash body) (
        granted_free now (new_record now q hash) u (
          unfold new_record in
          first-delete_where-none (same_key i k) (stale_key i k now) u (released i k o t frees)))
    ∙ (unfold settle in refl)
