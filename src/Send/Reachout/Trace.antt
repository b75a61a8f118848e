-- ===== src/Send/Reachout/Trace.antt =====
-- Histories of the cache in internal/service/message/reachout_negcache.go.
use mathlib.Core.Path.{subst}
use apime.Common.{
  ℕ, ◌+◌, ◌≤◌, String, ◌≡◌, refl, ◌∙◌, true, false, not, ◌&&◌, none, some, List, [], ◌∷◌, ◌==◌,
  eq_iff, eq_refl, arith, ltb, le→not-ltb, All, if◌then◌else◌, Option-cases, Bool-cases, inl, inr,
}
use apime.Common.Map.{
  Map, Distinct, get, put, delete, retain, Distinct-put, Distinct-delete, Distinct-retain,
}
use apime.Send.Reachout.{
  neg_ttl, NegCache, blocks_of, drop_if_empty, unblock, reachout_blocked, reachout_store,
  reachout_release, reachout_cleanup, keep_blocks, block,
}
use apime.Send.Reachout.Laws.{
  Sets, reachout_blocked_lem, block-store, block-release, block-cleanup, get-cleanup_none,
}

pub data Op : Type 0 where
  checks stores : ℕ → String → String → Op
  releases : String → String → Op
  cleans : ℕ → Op

unfoldable pub step : Op → NegCache → NegCache
step (checks now i k) cache = (reachout_blocked now i k cache).1
step (stores now i k) cache = reachout_store now i k cache
step (releases i k) cache = reachout_release i k cache
step (cleans now) cache = reachout_cleanup now cache

unfoldable pub steps : List Op → NegCache → NegCache
unfolding step
steps [] cache = cache
steps (op ∷ ops) cache = steps ops (step op cache)

pub record IsValid (cache : NegCache) : Type 0 where
  pub distinct : Distinct cache
  pub sets : Sets cache

Sets-get : (k : String) (cache : NegCache) → Sets cache → Distinct (blocks_of (get k cache))
unfolding get
Sets-get k [] s = Distinct.nil
Sets-get k ((j, m) ∷ cache) s = elim (Bool-cases (j == k)) [
  | inl same ↦ rw same s.0
  | inr other ↦ rw other (Sets-get k cache s.1)
]

Sets-delete : (k : String) (cache : NegCache) → Sets cache → Sets (delete k cache)
unfolding delete
Sets-delete k [] s = tt
Sets-delete k ((j, m) ∷ cache) s = elim (Bool-cases (j == k)) [
  | inl same ↦ rw same (Sets-delete k cache s.1)
  | inr other ↦ rw other (s.0, Sets-delete k cache s.1)
]

IsValid-put :
    (k : String) (m : Map ℕ) (cache : NegCache)
    → Distinct m
    → IsValid cache
    → IsValid (put k m cache)
unfolding put
IsValid-put k m cache d v = record {
  distinct = Distinct-put k m cache v.distinct;
  sets = (d, Sets-delete k cache v.sets);
}

IsValid-drop :
    (k : String) (m : Map ℕ) (cache : NegCache)
    → Distinct m
    → IsValid cache
    → IsValid (drop_if_empty k m cache)
IsValid-drop k [] cache d v = record {
  distinct = Distinct-delete k cache v.distinct;
  sets = Sets-delete k cache v.sets;
}
IsValid-drop k (x ∷ m) cache d v = IsValid-put k (x ∷ m) cache d v

IsValid-unblock :
    (i k : String) (m : Map ℕ) (cache : NegCache)
    → get k cache ≡ some m
    → IsValid cache
    → IsValid (unblock i k m cache)
unfolding unblock
IsValid-unblock i k m cache known v =
    IsValid-drop k (delete i m) cache
      (Distinct-delete i m (subst (λ o. Distinct (blocks_of o)) known (Sets-get k cache v.sets))) v

IsValid-blocked :
    (now : ℕ) (i k : String) (cache : NegCache)
    → IsValid cache
    → IsValid (reachout_blocked now i k cache).1
unfolding reachout_blocked
IsValid-blocked now i k cache v = elim (Option-cases (get k cache)) [
  | inl unknown ↦ rw unknown v
  | inr (m, known) ↦ rw known (elim (Option-cases (get i m)) [
    | inl free ↦ rw free v
    | inr (exp, blocked) ↦ rw blocked (elim (Bool-cases (ltb exp now)) [
      | inl over ↦ rw over (IsValid-unblock i k m cache known v)
      | inr live ↦ rw live v
    ])
  ])
]

IsValid-release :
    (i k : String) (cache : NegCache) → IsValid cache → IsValid (reachout_release i k cache)
unfolding reachout_release
IsValid-release i k cache v = elim (Option-cases (get k cache)) [
  | inl unknown ↦ rw unknown v
  | inr (m, known) ↦ rw known (IsValid-unblock i k m cache known v)
]

IsValid-keep :
    (k : String) (m : Map ℕ) (rest : NegCache)
    → get k rest ≡ none
    → Distinct m
    → IsValid rest
    → IsValid (keep_blocks k m rest)
IsValid-keep k [] rest fresh d v = v
IsValid-keep k (x ∷ m) rest fresh d v = record {
  distinct = Distinct.cons k (x ∷ m) rest fresh v.distinct;
  sets = (d, v.sets);
}

IsValid-cleanup :
    (now : ℕ) (cache : NegCache)
    → Distinct cache
    → Sets cache
    → IsValid (reachout_cleanup now cache)
unfolding reachout_cleanup
IsValid-cleanup now [] d s = record { distinct = d; sets = s }
IsValid-cleanup now ((j, m) ∷ cache) (Distinct.cons _ _ _ fresh d) s =
    IsValid-keep j (retain (λ _ exp. not (ltb exp now)) m) (reachout_cleanup now cache)
      (get-cleanup_none now j cache fresh) (Distinct-retain _ m s.0)
      (IsValid-cleanup now cache d s.1)

-- Every operation keeps one set for each contact, and one entry in it for each instance.
pub step-IsValid : (op : Op) (cache : NegCache) → IsValid cache → IsValid (step op cache)
unfolding step
step-IsValid (checks now i k) cache v = IsValid-blocked now i k cache v
step-IsValid (stores now i k) cache v =
    unfold reachout_store in
    IsValid-put k (put i (now + neg_ttl) (blocks_of (get k cache))) cache
      (Distinct-put i (now + neg_ttl) (blocks_of (get k cache)) (Sets-get k cache v.sets)) v
step-IsValid (releases i k) cache v = IsValid-release i k cache v
step-IsValid (cleans now) cache v = IsValid-cleanup now cache v.distinct v.sets

-- An operation between the instants `since` and `until` that does not release the instance.
abbrev pub Within : String → String → ℕ → ℕ → Op → Type 0
Within i k since until (checks now i' k') = now ≤ until
Within i k since until (stores now i' k') = since ≤ now
Within i k since until (releases i' k') = (k' == k && i' == i) ≡ false
Within i k since until (cleans now) = now ≤ until

module _ (i k : String) (since : ℕ) where
  -- The block holds until `since + neg_ttl` at least.
  record Blocks (cache : NegCache) : Type 0 where
    until : ℕ
    found : block i k cache ≡ some until
    long : since + neg_ttl ≤ until

  Blocks-step :
      (op : Op) {cache : NegCache}
      → IsValid cache
      → Within i k since (since + neg_ttl) op
      → Blocks cache
      → Blocks (step op cache)
  unfolding step
  Blocks-step (checks now i' k') {cache} v w b = record {
    until = b.until;
    found = ground (
      arith,
      b.found,
      (reachout_blocked_lem now i' k' i k cache).1,
      eq_iff i' i,
      eq_iff k' k,
      le→not-ltb b.until now,
    );
    long = b.long;
  }
  Blocks-step (stores now i' k') {cache} v w b = record {
    until = if k' == k && i' == i then now + neg_ttl else b.until;
    found = ground (arith, b.found, block-store now i' k' i k cache);
    long = ground (arith, b.long);
  }
  Blocks-step (releases i' k') {cache} v w b = record {
    until = b.until;
    found = block-release i' k' i k cache ∙ rw w b.found;
    long = b.long;
  }
  Blocks-step (cleans now) {cache} v w b = record {
    until = b.until;
    found = block-cleanup now i k cache b.until v.distinct v.sets (omega (arith, b.long)) b.found;
    long = b.long;
  }

  Blocks-steps :
      (ops : List Op) {cache : NegCache}
      → IsValid cache
      → All (Within i k since (since + neg_ttl)) ops
      → Blocks cache
      → Blocks (steps ops cache)
  unfolding steps
  Blocks-steps [] v w b = b
  Blocks-steps (op ∷ ops) {cache} v w b =
      Blocks-steps ops (step-IsValid op cache v) w.1 (Blocks-step op v w.0 b)

-- A contact that answered 463 to an instance is blocked for that instance for 6 hours, whatever is
-- checked, stored, released for others or cleaned up meanwhile.
pub cold_contact_blocked :
    (i k : String) (since now : ℕ) (ops : List Op) (cache : NegCache)
    → IsValid cache
    → All (Within i k since (since + neg_ttl)) ops
    → now ≤ since + neg_ttl
    → (reachout_blocked now i k (steps ops (reachout_store since i k cache))).0 ≡ true
cold_contact_blocked i k since now ops cache v w early =
    let stored : IsValid (reachout_store since i k cache) =
      unfold step in step-IsValid (stores since i k) cache v in
    let first : Blocks i k since (reachout_store since i k cache) = record {
      until = since + neg_ttl;
      found = block-store since i k i k cache ∙ rw (eq_refl k, eq_refl i) refl;
      long = omega arith;
    } in
    let b = Blocks-steps i k since ops stored w first in
    (reachout_blocked_lem now i k i k (steps ops (reachout_store since i k cache))).0
    ∙ rw (b.found, le→not-ltb b.until now (omega (arith, b.long))) refl
