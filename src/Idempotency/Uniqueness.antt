-- ===== src/Idempotency/Uniqueness.antt =====
-- The primary key of the table in internal/storage/sqlite/idempotency_repo.go.
use apime.Common.{
  ◌≤◌, String, ◌≡◌, refl, Bool, true, false, List, [], ◌∷◌, ◌==◌, eq_iff, arith, ◌&&◌, inl, inr,
  Option-cases,
}
use apime.Common.Table.{
  first, count_where, delete_where, count_where-append, count_where-delete_where_le,
  count_where-update_where, count_where-first,
}
use apime.Idempotency.Store.{Row, same_key, stale, stale_key, completed_row, insert_new, new_row}
use apime.Idempotency.Middleware.Trace.{Op, acquires, completes, releases, sweeps, step, steps}
use apime.Idempotency.Middleware.Ownership.{acquire_cases}

pub record IsUnique (t : List Row) : Type 0 where
  pub at_key : (i k : String) → count_where (same_key i k) t ≤ 1

IsUnique-delete : (p : Row → Bool) (t : List Row) → IsUnique t → IsUnique (delete_where p t)
IsUnique-delete p t u = record {
  at_key = λ i k. omega (arith, count_where-delete_where_le (same_key i k) p t, u.at_key i k);
}

count_other :
    (row : Row) (i k : String)
    → (row.instance_id == i && row.key == k) ≡ false
    → count_where (same_key i k) (row ∷ []) ≡ 0
unfolding count_where same_key
count_other row i k h = ground arith

count_one : (row : Row) (i k : String) → count_where (same_key i k) (row ∷ []) ≤ 1
unfolding count_where
count_one row i k = ground arith

IsUnique-insert : (row : Row) (t : List Row) → IsUnique t → IsUnique (insert_new row t).1
unfolding insert_new
IsUnique-insert row t u = elim (Option-cases (first (same_key row.instance_id row.key) t)) [
  | inl fresh ↦
      rw (fresh, insert_new)
        (record {
          at_key = λ i k. ground (
            arith,
            u.at_key i k,
            count_where-append (same_key i k) t (row ∷ []),
            count_other row i k,
            count_one row i k,
            count_where-first (same_key row.instance_id row.key) t,
            eq_iff row.instance_id i,
            eq_iff row.key k,
          );
        })
  | inr (_, taken) ↦ rw (taken, insert_new) u
]

-- Every access keeps the key primary.
pub step-IsUnique : (op : Op) (t : List Row) → IsUnique t → IsUnique (step op t)
unfolding step
step-IsUnique (acquires f now rec) t u =
    let dropped = IsUnique-delete (stale_key rec.instance_id rec.key now) t u in
    acquire_cases IsUnique f now rec t u (dropped, IsUnique-insert (new_row rec) _ dropped)
step-IsUnique (completes true i k status body) t u = u
step-IsUnique (completes false i k status body) t u = record {
  at_key = λ i' k'. omega (
    arith,
    count_where-update_where (same_key i' k') (same_key i k) (completed_row status body) t
        (unfold same_key completed_row in λ x. refl),
    u.at_key i' k',
  );
}
step-IsUnique (releases true i k) t u = u
step-IsUnique (releases false i k) t u = IsUnique-delete (same_key i k) t u
step-IsUnique (sweeps true now) t u = u
step-IsUnique (sweeps false now) t u = IsUnique-delete (stale now) t u

empty-IsUnique : IsUnique []
unfolding count_where
empty-IsUnique = record { at_key = λ i k. omega arith }

steps-IsUnique : (ops : List Op) (t : List Row) → IsUnique t → IsUnique (steps ops t)
unfolding steps
steps-IsUnique [] t u = u
steps-IsUnique (op ∷ ops) t u = steps-IsUnique ops (step op t) (step-IsUnique op t u)

-- In every history of accesses from the empty table no key has two rows.
pub primary_key : (ops : List Op) (i k : String) → count_where (same_key i k) (steps ops []) ≤ 1
primary_key ops i k = (steps-IsUnique ops [] empty-IsUnique).at_key i k
