-- ===== src/Idempotency/Store.antt =====
-- internal/storage/sqlite/idempotency_repo.go, and `IdempotencyRecord` of internal/storage/model.
-- A statement may fail; it then leaves the table as it was. Instants are stored as whole seconds.
use apime.Common.{
  ℕ, String, Bool, true, false, not, ◌&&◌, Option, none, some, List, [], ◌∷◌, ◌++◌, ◌==◌, ltb, eqb,
  Result, ok, err, if◌then◌else◌,
}
use apime.Common.Time.{rfc3339}
use apime.Common.Table.{first, delete_where, update_where, count_where}

pub data Status : Type 0 where
  started completed : Status

-- model.IdempotencyRecord
pub record IdempotencyRecord : Type 0 where
  pub instance_id : String
  pub key : String
  pub request_hash : String
  pub status : Status
  pub response_status : ℕ
  pub response_body : String
  pub created_at : ℕ
  pub expires_at : ℕ

-- A row of `idempotency_keys`; the two response columns are NULL until `complete`.
pub record Row : Type 0 where
  pub instance_id : String
  pub key : String
  pub request_hash : String
  pub status : Status
  pub response_status : Option ℕ
  pub response_body : Option String
  pub created_at : ℕ
  pub expires_at : ℕ

pub data StoreError : Type 0 where
  database not_found : StoreError

-- Which statements of a call the database refuses.
pub record Faults : Type 0 where
  pub delete : Bool
  pub insert : Bool
  pub affected : Bool
  pub select : Bool

abbrev pub no_faults : Faults
no_faults = record { delete = false; insert = false; affected = false; select = false }

-- WHERE instance_id = ? AND idempotency_key = ?
unfoldable pub same_key : String → String → Row → Bool
same_key i k r = r.instance_id == i && r.key == k

unfoldable pub stale : ℕ → Row → Bool
stale now r = ltb r.expires_at (rfc3339 now)

unfoldable pub stale_key : String → String → ℕ → Row → Bool
unfolding same_key stale
stale_key i k now r = same_key i k r && stale now r

abbrev pub empty_record : IdempotencyRecord
empty_record = record {
  instance_id = "";
  key = "";
  request_hash = "";
  status = started;
  response_status = 0;
  response_body = "";
  created_at = 0;
  expires_at = 0;
}

unfoldable pub new_row : IdempotencyRecord → Row
new_row rec = record {
  instance_id = rec.instance_id;
  key = rec.key;
  request_hash = rec.request_hash;
  status = started;
  response_status = none;
  response_body = none;
  created_at = rfc3339 rec.created_at;
  expires_at = rfc3339 rec.expires_at;
}

abbrev pub coalesce {ℓ} : {A : Type ℓ} → A → Option A → A
coalesce d none = d
coalesce d (some a) = a

unfoldable pub scan_row : Row → IdempotencyRecord
scan_row r = record {
  instance_id = r.instance_id;
  key = r.key;
  request_hash = r.request_hash;
  status = r.status;
  response_status = coalesce 0 r.response_status;
  response_body = coalesce "" r.response_body;
  created_at = r.created_at;
  expires_at = r.expires_at;
}

abbrev pub found_row : Option Row → Result StoreError IdempotencyRecord
found_row none = err not_found
found_row (some r) = ok (scan_row r)

unfoldable pub get : Faults → String → String → List Row → Result StoreError IdempotencyRecord
unfolding first same_key scan_row
get f i k t = if f.select then err database else found_row (first (same_key i k) t)

-- INSERT ... ON CONFLICT DO NOTHING: the affected rows and the table.
unfoldable pub insert_new : Row → List Row → ℕ × List Row
unfolding first same_key
insert_new row t = elim (first (same_key row.instance_id row.key) t) [
  | none ↦ (1, t ++ (row ∷ []))
  | some _ ↦ (0, t)
]

abbrev pub not_acquired :
    Result StoreError IdempotencyRecord → Result StoreError (Bool × IdempotencyRecord)
not_acquired (ok r) = ok (false, r)
not_acquired (err e) = err e

unfoldable pub own_or_read :
    Faults
    → IdempotencyRecord
    → ℕ × List Row
    → Result StoreError (Bool × IdempotencyRecord) × List Row
unfolding get
own_or_read f rec (n, t) = (
  if not f.affected && eqb n 1
      then ok (true, empty_record)
      else not_acquired (get f rec.instance_id rec.key t),
  t,
)

unfoldable pub insert_key :
    Faults → IdempotencyRecord → List Row → Result StoreError (Bool × IdempotencyRecord) × List Row
unfolding own_or_read insert_new new_row
insert_key f rec t =
    if f.insert then (err database, t) else own_or_read f rec (insert_new (new_row rec) t)

unfoldable pub try_acquire :
    Faults
    → ℕ
    → IdempotencyRecord
    → List Row
    → Result StoreError (Bool × IdempotencyRecord) × List Row
unfolding insert_key delete_where stale_key
try_acquire f now rec t =
    if f.delete
    then (err database, t)
    else insert_key f rec (delete_where (stale_key rec.instance_id rec.key now) t)

unfoldable pub completed_row : ℕ → String → Row → Row
completed_row status body r = record r {
  status = completed;
  response_status = some status;
  response_body = some body;
}

unfoldable pub complete : Bool → String → String → ℕ → String → List Row → List Row
unfolding update_where same_key completed_row
complete fault i k status body t =
    if fault then t else update_where (same_key i k) (completed_row status body) t

unfoldable pub release : Bool → String → String → List Row → List Row
unfolding delete_where same_key
release fault i k t = if fault then t else delete_where (same_key i k) t

unfoldable pub delete_expired : Bool → ℕ → List Row → Result StoreError ℕ × List Row
unfolding delete_where count_where stale
delete_expired fault now t =
    if fault
    then (err database, t)
    else (ok (count_where (stale now) t), delete_where (stale now) t)
