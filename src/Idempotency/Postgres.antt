-- ===== src/Idempotency/Postgres.antt =====
-- internal/storage/postgres/idempotency_repo.go, over the rows of Store. Instants are stored in
-- microseconds, and the count of an INSERT comes with its answer.
pub mod Scale
pub mod Backends
use apime.Common.{
  ℕ, ◌/◌, String, Bool, true, false, not, ◌&&◌, Option, none, some, List, [], ◌∷◌, ◌++◌, ltb, eqb,
  Result, ok, err, if◌then◌else◌,
}
use apime.Common.Table.{first, delete_where, update_where, count_where}
use apime.Idempotency.Store as Store
use apime.Idempotency.Store.{
  IdempotencyRecord, Row, StoreError, database, not_found, Status, started, completed, same_key,
  empty_record, scan_row,
}

-- A timestamptz column keeps microseconds.
abbrev pub micros : ℕ → ℕ
micros t = t / 1000

-- Which statements of a call the database refuses.
pub record Faults : Type 0 where
  pub delete : Bool
  pub insert : Bool
  pub select : Bool

unfoldable pub stale : ℕ → Row → Bool
stale now r = ltb r.expires_at (micros now)

unfoldable pub stale_key : String → String → ℕ → Row → Bool
unfolding same_key stale
stale_key i k now r = same_key i k r && stale now r

unfoldable pub new_row : IdempotencyRecord → Row
new_row rec = record {
  instance_id = rec.instance_id;
  key = rec.key;
  request_hash = rec.request_hash;
  status = started;
  response_status = none;
  response_body = none;
  created_at = micros rec.created_at;
  expires_at = micros rec.expires_at;
}

unfoldable pub found_row : Option Row → Result StoreError IdempotencyRecord
unfolding scan_row
found_row none = err not_found
found_row (some r) = ok (scan_row r)

unfoldable pub get : Faults → String → String → List Row → Result StoreError IdempotencyRecord
unfolding first same_key found_row
get f i k t = if f.select then err database else found_row (first (same_key i k) t)

unfoldable pub insert_new : Row → List Row → ℕ × List Row
unfolding first same_key
insert_new row t = elim (first (same_key row.instance_id row.key) t) [
  | none ↦ (1, t ++ (row ∷ []))
  | some _ ↦ (0, t)
]

unfoldable pub not_acquired :
    Result StoreError IdempotencyRecord → Result StoreError (Bool × IdempotencyRecord)
not_acquired (ok r) = ok (false, r)
not_acquired (err e) = err e

unfoldable pub own_or_read :
    Faults
    → IdempotencyRecord
    → ℕ × List Row
    → Result StoreError (Bool × IdempotencyRecord) × List Row
unfolding get not_acquired
own_or_read f rec (n, t) =
    (if eqb n 1 then ok (true, empty_record) else not_acquired (get f rec.instance_id rec.key t), t)

unfoldable pub try_acquire :
    Faults
    → ℕ
    → IdempotencyRecord
    → List Row
    → Result StoreError (Bool × IdempotencyRecord) × List Row
unfolding own_or_read insert_new new_row delete_where stale_key
try_acquire f now rec t =
    let t' = delete_where (stale_key rec.instance_id rec.key now) t in
    if f.delete
    then (err database, t)
    else if f.insert
    then (err database, t')
    else own_or_read f rec (insert_new (new_row rec) t')

unfoldable pub complete : Bool → String → String → ℕ → String → List Row → List Row
unfolding update_where same_key
complete fault i k status body t =
    if fault
    then t
    else update_where (same_key i k)
        (λ r. record r {
          status = completed;
          response_status = some status;
          response_body = some body;
        })
        t

unfoldable pub release : Bool → String → String → List Row → List Row
unfolding delete_where same_key
release fault i k t = if fault then t else delete_where (same_key i k) t

unfoldable pub delete_expired : Bool → ℕ → List Row → Result StoreError ℕ × List Row
unfolding delete_where count_where stale
delete_expired fault now t =
    if fault
    then (err database, t)
    else (ok (count_where (stale now) t), delete_where (stale now) t)
