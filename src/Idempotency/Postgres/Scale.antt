-- ===== src/Idempotency/Postgres/Scale.antt =====
-- One row, record, answer and operation of the idempotency keys on both tables: SQLite keeps the
-- nanoseconds of an instant, Postgres microseconds.
use apime.Common.{ℕ, ◌*◌, String, Bool, false, List, [], ◌∷◌, Result, ok, err}
use apime.Idempotency.Store as Store
use apime.Idempotency.Store.{IdempotencyRecord, Row, StoreError, same_key, completed_row}
use apime.Idempotency.Postgres.{Faults, try_acquire, complete, release, delete_expired}

-- A row of SQLite, as Postgres holds it: microseconds for seconds.
unfoldable pub at_micros : Row → Row
at_micros r = record r {
  created_at = r.created_at * 1_000_000;
  expires_at = r.expires_at * 1_000_000;
}

unfoldable pub record_at_micros : IdempotencyRecord → IdempotencyRecord
record_at_micros r = record r {
  created_at = r.created_at * 1_000_000;
  expires_at = r.expires_at * 1_000_000;
}

-- A record whose instants, in seconds, are read as times.
unfoldable pub at_times : IdempotencyRecord → IdempotencyRecord
at_times r = record r {
  created_at = r.created_at * 1_000_000_000;
  expires_at = r.expires_at * 1_000_000_000;
}

unfoldable pub sqlite_faults : Faults → Store.Faults
sqlite_faults f = record {
  delete = f.delete;
  insert = f.insert;
  affected = false;
  select = f.select;
}

-- The operations, at instants of whole seconds.
pub data Op : Type 0 where
  acquires : Faults → ℕ → IdempotencyRecord → Op
  completes : Bool → String → String → ℕ → String → Op
  releases : Bool → String → String → Op
  sweeps : Bool → ℕ → Op

pub data Answer : Type 0 where
  acquired : Result StoreError (Bool × IdempotencyRecord) → Answer
  nothing : Answer
  swept : Result StoreError ℕ → Answer

unfoldable pub on_sqlite : Op → List Row → Answer × List Row
unfolding at_times sqlite_faults
on_sqlite (acquires f now rec) t =
    let (answer, t') = Store.try_acquire (sqlite_faults f) (now * 1_000_000_000) (at_times rec) t in
    (acquired answer, t')
on_sqlite (completes fault i k status body) t = (nothing, Store.complete fault i k status body t)
on_sqlite (releases fault i k) t = (nothing, Store.release fault i k t)
on_sqlite (sweeps fault now) t =
    let (answer, t') = Store.delete_expired fault (now * 1_000_000_000) t in (swept answer, t')

unfoldable pub on_postgres : Op → List Row → Answer × List Row
unfolding at_times
on_postgres (acquires f now rec) t =
    let (answer, t') = try_acquire f (now * 1_000_000_000) (at_times rec) t in (acquired answer, t')
on_postgres (completes fault i k status body) t = (nothing, complete fault i k status body t)
on_postgres (releases fault i k) t = (nothing, release fault i k t)
on_postgres (sweeps fault now) t =
    let (answer, t') = delete_expired fault (now * 1_000_000_000) t in (swept answer, t')

unfoldable pub acquired_at_micros :
    Result StoreError (Bool × IdempotencyRecord) → Result StoreError (Bool × IdempotencyRecord)
acquired_at_micros (ok (own, rec)) = ok (own, record_at_micros rec)
acquired_at_micros (err e) = err e

unfoldable pub answer_at_micros : Answer → Answer
answer_at_micros (acquired r) = acquired (acquired_at_micros r)
answer_at_micros nothing = nothing
answer_at_micros (swept r) = swept r

unfoldable pub answers_on_sqlite : List Op → List Row → List Answer
answers_on_sqlite [] t = []
answers_on_sqlite (op ∷ ops) t = (on_sqlite op t).0 ∷ answers_on_sqlite ops (on_sqlite op t).1

unfoldable pub answers_on_postgres : List Op → List Row → List Answer
answers_on_postgres [] t = []
answers_on_postgres (op ∷ ops) t =
    (on_postgres op t).0 ∷ answers_on_postgres ops (on_postgres op t).1
