-- ===== src/Idempotency/Postgres/Backends.antt =====
-- The answers of the two tables of idempotency keys, side by side.
use mathlib.Core.List.{map-append}
use apime.Common.{
  sym, ap, ℕ, ◌*◌, ◌≡◌, refl, ◌∙◌, String, Bool, true, false, Option, none, some, List, [], ◌∷◌,
  map, eqb, Result, arith, Bool-cases, Option-cases, inl, inr,
}
use apime.Common.Table.{first, updated}
use apime.Common.Table.Mapped.{first-map, count_where-map, delete_where-map, update_where-map}
use apime.Idempotency.Store as Store
use apime.Idempotency.Store.{IdempotencyRecord, Row, StoreError, same_key, completed_row}
use apime.Idempotency.Postgres.{
  Faults, stale, stale_key, new_row, found_row, get, insert_new, not_acquired, own_or_read,
  try_acquire, complete, release, delete_expired,
}
use apime.Idempotency.Postgres.Scale.{
  at_micros, record_at_micros, at_times, sqlite_faults, Op, on_sqlite, on_postgres,
  acquired_at_micros, answer_at_micros, answers_on_sqlite, answers_on_postgres, acquires, completes,
  releases, sweeps, acquired, nothing, swept,
}

same_key-at_micros : (i k : String) (r : Row) → same_key i k (at_micros r) ≡ same_key i k r
unfolding same_key at_micros
same_key-at_micros i k r = refl

stale-at_micros :
    (now : ℕ) (r : Row)
    → stale (now * 1_000_000_000) (at_micros r) ≡ Store.stale (now * 1_000_000_000) r
unfolding stale Store.stale at_micros
stale-at_micros now r = ground arith

stale_key-at_micros :
    (i k : String) (now : ℕ) (r : Row)
    → stale_key i k (now * 1_000_000_000) (at_micros r)
      ≡ Store.stale_key i k (now * 1_000_000_000) r
unfolding stale_key Store.stale_key
stale_key-at_micros i k now r = rw (stale-at_micros now r, same_key-at_micros i k r) refl

new_row-at_micros :
    (rec : IdempotencyRecord) → new_row (at_times rec) ≡ at_micros (Store.new_row (at_times rec))
unfolding new_row Store.new_row at_times at_micros
new_row-at_micros rec = ground arith

found-at_micros :
    (o : Option Row)
    → not_acquired (found_row (updated at_micros o))
      ≡ acquired_at_micros (Store.not_acquired (Store.found_row o))
unfolding not_acquired found_row at_micros record_at_micros acquired_at_micros
found-at_micros none = refl
found-at_micros (some r) = refl

first-at_micros :
    (i k : String) (t : List Row)
    → first (same_key i k) (map at_micros t) ≡ updated at_micros (first (same_key i k) t)
first-at_micros i k t = first-map at_micros (same_key i k) (same_key i k) (same_key-at_micros i k) t

insert_new-at_micros :
    (row : Row) (t : List Row)
    → insert_new (at_micros row) (map at_micros t)
      ≡ ((Store.insert_new row t).0, map at_micros (Store.insert_new row t).1)
unfolding insert_new Store.insert_new at_micros
insert_new-at_micros row t =
    let found = first-at_micros row.instance_id row.key t in
    elim (Option-cases (first (same_key row.instance_id row.key) t)) [
      | inl fresh ↦
          let free : first (same_key row.instance_id row.key) (map at_micros t) ≡ none =
            found ∙ ap (updated at_micros) fresh in
          rw (free, fresh, insert_new, Store.insert_new)
            (ap (λ rows. (1, rows)) (sym (map-append at_micros t (row ∷ []))))
      | inr (old, taken) ↦
          let held : first (same_key row.instance_id row.key) (map at_micros t)
              ≡ some (at_micros old) =
            found ∙ ap (updated at_micros) taken in
          rw (held, taken, insert_new, Store.insert_new) refl
    ]

own_or_read-at_micros :
    (f : Faults) (rec : IdempotencyRecord) (n : ℕ) (t : List Row)
    → own_or_read f rec (n, map at_micros t) ≡ (
      acquired_at_micros (Store.own_or_read (sqlite_faults f) rec (n, t)).0,
      map at_micros (Store.own_or_read (sqlite_faults f) rec (n, t)).1,
    )
unfolding own_or_read Store.own_or_read get Store.get sqlite_faults acquired_at_micros
    record_at_micros not_acquired
own_or_read-at_micros f rec n t = elim (Bool-cases (eqb n 1)) [
  | inl own ↦ rw own refl
  | inr other ↦ rw other (elim (Bool-cases f.select) [
    | inl refused ↦ rw refused refl
    | inr read ↦
        rw (read, first-at_micros rec.instance_id rec.key t)
          (ap (λ answer. (answer, map at_micros t))
            (found-at_micros (first (same_key rec.instance_id rec.key) t)))
  ])
]

insert-at_micros :
    (f : Faults) (rec : IdempotencyRecord) (t : List Row)
    → own_or_read f (at_times rec) (insert_new (new_row (at_times rec)) (map at_micros t)) ≡ (
      acquired_at_micros
          (Store.own_or_read
            (sqlite_faults f)
            (at_times rec)
            (Store.insert_new (Store.new_row (at_times rec)) t)).0,
      map at_micros
          (Store.own_or_read
            (sqlite_faults f)
            (at_times rec)
            (Store.insert_new (Store.new_row (at_times rec)) t)).1,
    )
insert-at_micros f rec t =
    let row = Store.new_row (at_times rec) in
    ap (λ r. own_or_read f (at_times rec) (insert_new r (map at_micros t))) (new_row-at_micros rec)
    ∙ ap (own_or_read f (at_times rec)) (insert_new-at_micros row t)
    ∙ own_or_read-at_micros f (at_times rec) (Store.insert_new row t).0 (Store.insert_new row t).1

try_acquire-at_micros :
    (f : Faults) (now : ℕ) (rec : IdempotencyRecord) (t : List Row)
    → try_acquire f (now * 1_000_000_000) (at_times rec) (map at_micros t) ≡ (
      acquired_at_micros
          (Store.try_acquire (sqlite_faults f) (now * 1_000_000_000) (at_times rec) t).0,
      map at_micros (Store.try_acquire (sqlite_faults f) (now * 1_000_000_000) (at_times rec) t).1,
    )
unfolding try_acquire Store.try_acquire Store.insert_key sqlite_faults at_times acquired_at_micros
try_acquire-at_micros f now rec t =
    let freed =
      delete_where-map at_micros (stale_key rec.instance_id rec.key (now * 1_000_000_000))
        (Store.stale_key rec.instance_id rec.key (now * 1_000_000_000))
        (stale_key-at_micros rec.instance_id rec.key now) t in
    elim (Bool-cases f.delete) [
      | inl refused ↦ rw refused refl
      | inr freeing ↦
          rw (freeing, freed)
            (elim (Bool-cases f.insert) [
              | inl refused ↦ rw refused refl
              | inr inserting ↦ rw inserting (insert-at_micros f rec _)
            ])
    ]

complete-at_micros :
    (fault : Bool) (i k : String) (status : ℕ) (body : String) (t : List Row)
    → complete fault i k status body (map at_micros t)
      ≡ map at_micros (Store.complete fault i k status body t)
unfolding complete Store.complete completed_row at_micros
complete-at_micros true i k status body t = refl
complete-at_micros false i k status body t =
    update_where-map at_micros (same_key i k) (same_key i k) (same_key-at_micros i k) _ _
      (λ r. refl) t

release-at_micros :
    (fault : Bool) (i k : String) (t : List Row)
    → release fault i k (map at_micros t) ≡ map at_micros (Store.release fault i k t)
unfolding release Store.release
release-at_micros true i k t = refl
release-at_micros false i k t =
    delete_where-map at_micros (same_key i k) (same_key i k) (same_key-at_micros i k) t

sweep-at_micros :
    (fault : Bool) (now : ℕ) (t : List Row)
    → delete_expired fault (now * 1_000_000_000) (map at_micros t) ≡ (
      (Store.delete_expired fault (now * 1_000_000_000) t).0,
      map at_micros (Store.delete_expired fault (now * 1_000_000_000) t).1,
    )
unfolding delete_expired Store.delete_expired
sweep-at_micros true now t = refl
sweep-at_micros false now t =
    let gone = stale-at_micros now in
    rw
      (
        count_where-map at_micros (stale (now * 1_000_000_000)) (Store.stale (now * 1_000_000_000))
            gone t,
        delete_where-map at_micros (stale (now * 1_000_000_000)) (Store.stale (now * 1_000_000_000))
            gone t,
      )
      refl

-- One operation.
step-at_micros :
    (op : Op) (t : List Row)
    → on_postgres op (map at_micros t)
      ≡ (answer_at_micros (on_sqlite op t).0, map at_micros (on_sqlite op t).1)
unfolding on_postgres on_sqlite answer_at_micros
step-at_micros (acquires f now rec) t =
    ap (λ (r : Result StoreError (Bool × IdempotencyRecord) × List Row). (acquired r.0, r.1))
      (try_acquire-at_micros f now rec t)
step-at_micros (completes fault i k status body) t =
    ap (λ rows. (nothing, rows)) (complete-at_micros fault i k status body t)
step-at_micros (releases fault i k) t = ap (λ rows. (nothing, rows)) (release-at_micros fault i k t)
step-at_micros (sweeps fault now) t =
    ap (λ (r : Result StoreError ℕ × List Row). (swept r.0, r.1)) (sweep-at_micros fault now t)

-- Any operations of requests and of the cleaner, at whole seconds, in any order and with any of their
-- statements refused: from the same rows Postgres gives the answers of SQLite, with the instants of a
-- record that is read back in microseconds.
pub same_answers :
    (ops : List Op) (t : List Row)
    → answers_on_postgres ops (map at_micros t) ≡ map answer_at_micros (answers_on_sqlite ops t)
unfolding answers_on_postgres answers_on_sqlite
same_answers [] t = refl
same_answers (op ∷ ops) t =
    rw (step-at_micros op t) (
      ap (λ rest. answer_at_micros (on_sqlite op t).0 ∷ rest) (same_answers ops (on_sqlite op t).1))
