-- ===== src/Idempotency/Middleware/Ownership.antt =====
-- Who owns a key of internal/storage/sqlite/idempotency_repo.go, over histories of accesses.
use apime.Common.{
  ℕ, ◌≤◌, String, ◌≡◌, refl, ◌∙◌, true, false, ◌&&◌, some, List, [], ◌∷◌, ◌==◌, eq_iff, arith, All,
  if◌then◌else◌, Bool-cases, inl, inr,
}
use apime.Common.Time.{rfc3339}
use apime.Common.Table.{
  first, delete_where, first-delete_where_keep, first-update_where_keep, first-append, first_holds,
}
use apime.Idempotency.Store.{
  IdempotencyRecord, Row, Faults, same_key, stale, stale_key, completed_row, insert_new, new_row,
  insert_key, get, try_acquire,
}
use apime.Idempotency.Middleware.Trace.{
  Op, acquires, completes, releases, sweeps, step, steps, granted, wins, wins_count, Spares, Leaves,
  Held,
}

-- A call of TryAcquire leaves the table, drops the stale key, or drops it and inserts the new one.
pub acquire_cases {ℓ} :
    (P : List Row → Type ℓ) (f : Faults) (now : ℕ) (rec : IdempotencyRecord) (t : List Row)
    → P t
    → (let t' = delete_where (stale_key rec.instance_id rec.key now) t in
        P t' × P (insert_new (new_row rec) t').1)
    → P (try_acquire f now rec t).1
unfolding try_acquire
acquire_cases P f now rec t kept changed = elim (Bool-cases f.delete) [
  | inl e ↦ rw (e, try_acquire) kept
  | inr e ↦
      rw (e, try_acquire)
        (elim (Bool-cases f.insert) [
          | inl e' ↦ rw (e', insert_key) changed.0
          | inr e' ↦ rw (e', insert_key) changed.1
        ])
]

insert_key_taken :
    (f : Faults) (rec : IdempotencyRecord) (t : List Row) (r : Row)
    → first (same_key rec.instance_id rec.key) t ≡ some r
    → granted (insert_key f rec t).0 ≡ false
unfolding insert_key insert_new get new_row
insert_key_taken f rec t r taken = ground arith

try_acquire_taken :
    (f : Faults) (now : ℕ) (rec : IdempotencyRecord) (t : List Row) (r : Row)
    → first
        (same_key rec.instance_id rec.key)
        (delete_where (stale_key rec.instance_id rec.key now) t)
      ≡ some r
    → granted (try_acquire f now rec t).0 ≡ false
unfolding try_acquire
try_acquire_taken f now rec t r taken =
    ground
      (arith, insert_key_taken f rec (delete_where (stale_key rec.instance_id rec.key now) t) r)

module _ (i k : String) (e : ℕ) (h : String) where
  not-stale : (now : ℕ) (r : Row) → r.expires_at ≡ e → rfc3339 now ≤ e → stale now r ≡ false
  unfolding stale
  not-stale now r p q = ground arith

  not-stale_key :
      (i' k' : String) (now : ℕ) (r : Row)
      → r.expires_at ≡ e
      → rfc3339 now ≤ e
      → stale_key i' k' now r ≡ false
  unfolding stale_key
  not-stale_key i' k' now r p q = ground (arith, not-stale now r)

  other_key :
      (i' k' : String) (r : Row)
      → (i' == i && k' == k) ≡ false
      → same_key i k r ≡ true
      → same_key i' k' r ≡ false
  unfolding same_key
  other_key i' k' r p q = ground (
    arith,
    eq_iff i' i,
    eq_iff k' k,
    eq_iff r.instance_id i,
    eq_iff r.key k,
    eq_iff r.instance_id i',
    eq_iff r.key k',
  )

  row-insert :
      (row : Row) (t : List Row) {r : Row}
      → first (same_key i k) t ≡ some r
      → first (same_key i k) (insert_new row t).1 ≡ some r
  unfolding insert_new
  row-insert row t {r} h' = ground (arith, first-append (same_key i k) t (row ∷ []))

  -- An access that spares the key and does not complete it leaves its row.
  pub row-step :
      (op : Op) (t : List Row) {r : Row}
      → Leaves i k e op
      → r.expires_at ≡ e
      → first (same_key i k) t ≡ some r
      → first (same_key i k) (step op t) ≡ some r
  unfolding step
  row-step (acquires f now rec) t {r} s x v =
      let p = same_key i k in
      let dropped =
        first-delete_where_keep p (stale_key rec.instance_id rec.key now) t v
          (not-stale_key rec.instance_id rec.key now r x s) in
      acquire_cases (λ u. first p u ≡ some r) f now rec t v
        (
          dropped,
          row-insert (new_row rec) (delete_where (stale_key rec.instance_id rec.key now) t) dropped,
        )
  row-step (completes true i' k' status body) t s x v = v
  row-step (completes false i' k' status body) t {r} s x v =
      first-update_where_keep (same_key i k) (same_key i' k') (completed_row status body) t
        (unfold same_key completed_row in λ y. refl) v
      ∙ rw (other_key i' k' r s (first_holds (same_key i k) t v)) refl
  row-step (releases true i' k') t s x v = v
  row-step (releases false i' k') t {r} s x v =
      first-delete_where_keep (same_key i k) (same_key i' k') t v
        (other_key i' k' r s (first_holds (same_key i k) t v))
  row-step (sweeps true now) t s x v = v
  row-step (sweeps false now) t {r} s x v =
      first-delete_where_keep (same_key i k) (stale now) t v (not-stale now r x s)

  pub row-steps :
      (ops : List Op) (t : List Row) {r : Row}
      → All (Leaves i k e) ops
      → r.expires_at ≡ e
      → first (same_key i k) t ≡ some r
      → first (same_key i k) (steps ops t) ≡ some r
  unfolding steps
  row-steps [] t s x v = v
  row-steps (op ∷ ops) t s x v = row-steps ops (step op t) s.1 x (row-step op t s.0 x v)

  Held-leave :
      (op : Op) {t : List Row} → Leaves i k e op → Held i k e h t → Held i k e h (step op t)
  Held-leave op {t} s v = record {
    row = v.row;
    found = row-step op t s v.expires v.found;
    expires = v.expires;
    hash = v.hash;
  }

  pub Held-step :
      (op : Op) {t : List Row} → Spares i k e op → Held i k e h t → Held i k e h (step op t)
  unfolding step
  Held-step (acquires f now rec) s v = Held-leave (acquires f now rec) s v
  Held-step (completes true i' k' status body) s v = v
  Held-step (completes false i' k' status body) {t} s v = record {
    row = if same_key i' k' v.row then completed_row status body v.row else v.row;
    found =
        first-update_where_keep (same_key i k) (same_key i' k') (completed_row status body) t
          (unfold same_key completed_row in λ x. refl) v.found;
    expires = unfold completed_row in ground (arith, v.expires);
    hash = unfold completed_row in ground (arith, v.hash);
  }
  Held-step (releases fault i' k') s v = Held-leave (releases fault i' k') s v
  Held-step (sweeps fault now) s v = Held-leave (sweeps fault now) s v

  -- Accesses before the expiry that do not free the key keep it held, with its fingerprint.
  pub Held-steps :
      (ops : List Op) {t : List Row}
      → All (Spares i k e) ops
      → Held i k e h t
      → Held i k e h (steps ops t)
  unfolding steps
  Held-steps [] s v = v
  Held-steps (op ∷ ops) s v = Held-steps ops s.1 (Held-step op s.0 v)

  -- The stale rows of any key do not include the one that is held.
  pub row_after_drop :
      (i' k' : String) (now : ℕ) (t : List Row) (r : Row)
      → r.expires_at ≡ e
      → rfc3339 now ≤ e
      → first (same_key i k) t ≡ some r
      → first (same_key i k) (delete_where (stale_key i' k' now) t) ≡ some r
  row_after_drop i' k' now t r x s found =
      first-delete_where_keep (same_key i k) (stale_key i' k' now) t found
        (not-stale_key i' k' now r x s)

  -- While the key is held nobody else becomes its owner.
  wins-Held : (op : Op) {t : List Row} → Spares i k e op → Held i k e h t → wins i k op t ≡ false
  unfolding wins
  wins-Held (acquires f now rec) {t} s v =
      elim (Bool-cases (rec.instance_id == i && rec.key == k)) [
        | inl same ↦ ground (
          arith,
          try_acquire_taken f now rec t v.row,
          row_after_drop rec.instance_id rec.key now t v.row v.expires s v.found,
          same,
          eq_iff rec.instance_id i,
          eq_iff rec.key k,
        )
        | inr other ↦ rw other refl
      ]
  wins-Held (completes _ _ _ _ _) s v = refl
  wins-Held (releases _ _ _) s v = refl
  wins-Held (sweeps _ _) s v = refl

  wins_count-Held :
      (ops : List Op) {t : List Row}
      → All (Spares i k e) ops
      → Held i k e h t
      → wins_count i k ops t ≡ 0
  unfolding wins_count
  wins_count-Held [] s v = refl
  wins_count-Held (op ∷ ops) s v =
      ground (arith, wins-Held op s.0 v, wins_count-Held ops s.1 (Held-step op s.0 v))

insert_key-granted :
    (f : Faults) (rec : IdempotencyRecord) (t : List Row)
    → granted (insert_key f rec t).0 ≡ true
    → first (same_key rec.instance_id rec.key) (insert_key f rec t).1 ≡ some (new_row rec)
unfolding insert_key insert_new new_row get same_key first
insert_key-granted f rec t h = ground (
  arith,
  first-append (same_key rec.instance_id rec.key) t (new_row rec ∷ []),
  eq_iff rec.instance_id rec.instance_id,
  eq_iff rec.key rec.key,
)

-- The owner's row is in the table after its call.
pub row_granted :
    (f : Faults) (now : ℕ) (rec : IdempotencyRecord) (t : List Row)
    → granted (try_acquire f now rec t).0 ≡ true
    → first (same_key rec.instance_id rec.key) (try_acquire f now rec t).1 ≡ some (new_row rec)
unfolding try_acquire
row_granted f now rec t h =
    ground
      (arith, insert_key-granted f rec (delete_where (stale_key rec.instance_id rec.key now) t))

-- One owner per key: after a request acquired its key, no other access of the table acquires it
-- again, in any interleaving of accesses that come before its expiry and do not free the key.
pub acquired_once :
    (f : Faults) (now : ℕ) (rec : IdempotencyRecord) (t : List Row) (ops : List Op)
    → granted (try_acquire f now rec t).0 ≡ true
    → All (Spares rec.instance_id rec.key (rfc3339 rec.expires_at)) ops
    → wins_count rec.instance_id rec.key ops (try_acquire f now rec t).1 ≡ 0
acquired_once f now rec t ops h s =
    wins_count-Held rec.instance_id rec.key (rfc3339 rec.expires_at) rec.request_hash ops s
      (record {
        row = new_row rec;
        found = row_granted f now rec t h;
        expires = unfold new_row in refl;
        hash = unfold new_row in refl;
      })
