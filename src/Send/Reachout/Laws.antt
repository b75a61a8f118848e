-- ===== src/Send/Reachout/Laws.antt =====
-- The blocks one by one: which calls set, keep and clear the block of an instance and a contact.
use apime.Common.{
  ℕ, ◌+◌, ◌≤◌, String, ◌≡◌, refl, ◌∙◌, Bool, false, not, ◌&&◌, Option, none, some, [], ◌∷◌, ◌==◌,
  eq_iff, arith, ltb, le→not-ltb, if◌then◌else◌, Option-cases, Bool-cases, inl, inr,
}
use apime.Common.Map.{Map, Distinct, get, put, delete, retain, get-put, get-delete, get-retain}
use apime.Send.Reachout.{
  neg_ttl, NegCache, blocks_of, drop_if_empty, unblock, reachout_blocked, reachout_store,
  reachout_release, reachout_cleanup, keep_blocks, block,
}

blocks-drop :
    (k j : String) (m : Map ℕ) (cache : NegCache)
    → blocks_of (get j (drop_if_empty k m cache)) ≡ (if k == j then m else blocks_of (get j cache))
blocks-drop k j [] cache = ground (arith, get-delete k j cache)
blocks-drop k j (x ∷ m) cache = ground (arith, get-put k j (x ∷ m) cache)

block-unblock :
    (i k i' k' : String) (cache : NegCache) {m : Map ℕ}
    → get k cache ≡ some m
    → block i' k' (unblock i k m cache) ≡ (if k == k' && i == i' then none else block i' k' cache)
unfolding block unblock
block-unblock i k i' k' cache {m} h =
    rw (blocks-drop k k' (delete i m) cache) (ground (arith, get-delete i i' m, eq_iff k k'))

-- A store sets the block of its own instance and contact for 6 hours, and no other: another
-- instance may go on writing to the contact.
pub block-store :
    (now : ℕ) (i k i' k' : String) (cache : NegCache)
    → block i' k' (reachout_store now i k cache)
      ≡ (if k == k' && i == i' then some (now + neg_ttl) else block i' k' cache)
unfolding block reachout_store
block-store now i k i' k' cache = ground (
  arith,
  get-put k k' (put i (now + neg_ttl) (blocks_of (get k cache))) cache,
  get-put i i' (now + neg_ttl) (blocks_of (get k cache)),
  eq_iff k k',
)

-- An inbound releases the instance it arrived on, and no other.
pub block-release :
    (i k i' k' : String) (cache : NegCache)
    → block i' k' (reachout_release i k cache)
      ≡ (if k == k' && i == i' then none else block i' k' cache)
unfolding reachout_release
block-release i k i' k' cache = elim (Option-cases (get k cache)) [
  | inl unknown ↦ rw unknown (unfold block in ground (arith, unknown, eq_iff k k'))
  | inr (m, known) ↦ rw known (block-unblock i k i' k' cache known)
]

-- Whether a block holds at an instant.
abbrev pub holds : ℕ → Option ℕ → Bool
holds now none = false
holds now (some exp) = not (ltb exp now)

-- A check answers whether the block holds, and drops no block but the one it finds expired.
pub reachout_blocked_lem :
    (now : ℕ) (i k i' k' : String) (cache : NegCache)
    → ((reachout_blocked now i k cache).0 ≡ holds now (block i k cache))
      × (block i' k' (reachout_blocked now i k cache).1 ≡ (
          if k == k' && i == i' && not (holds now (block i k cache))
          then none
          else block i' k' cache))
unfolding reachout_blocked block
reachout_blocked_lem now i k i' k' cache = elim (Option-cases (get k cache)) [
  | inl unknown ↦ rw unknown (refl, ground (arith, unknown, eq_iff k k'))
  | inr (m, known) ↦ rw known (elim (Option-cases (get i m)) [
    | inl free ↦ rw free (refl, ground (arith, known, free, eq_iff k k', eq_iff i i'))
    | inr (exp, blocked) ↦ rw blocked (elim (Bool-cases (ltb exp now)) [
      | inl over ↦
          rw over (refl, unfold block in ground (arith, block-unblock i k i' k' cache known))
      | inr live ↦ rw live (refl, ground (arith, known, blocked, eq_iff k k', eq_iff i i'))
    ])
  ])
]

get-keep_none :
    (k j : String) (m : Map ℕ) (rest : NegCache)
    → (j == k) ≡ false
    → get k (keep_blocks j m rest) ≡ get k rest
unfolding get
get-keep_none k j [] rest h = refl
get-keep_none k j (x ∷ m) rest h = rw h refl

pub get-cleanup_none :
    (now : ℕ) (k : String) (cache : NegCache)
    → get k cache ≡ none
    → get k (reachout_cleanup now cache) ≡ none
unfolding get reachout_cleanup
get-cleanup_none now k [] h = refl
get-cleanup_none now k ((j, m) ∷ cache) h = ground (
  arith,
  get-keep_none k j (retain (λ _ exp. not (ltb exp now)) m) (reachout_cleanup now cache),
  get-cleanup_none now k cache,
)

block-keep :
    (i k j : String) (m : Map ℕ) (rest : NegCache)
    → get j rest ≡ none
    → block i k (keep_blocks j m rest) ≡ (if j == k then get i m else block i k rest)
unfolding block get
block-keep i k j [] rest h = ground (arith, h, eq_iff j k)
block-keep i k j (x ∷ m) rest h = ground arith

-- Every set in the cache has one entry for each instance.
abbrev pub Sets : NegCache → Type 0
Sets [] = Unit {0}
Sets ((k, m) ∷ cache) = Distinct m × Sets cache

-- A clean-up leaves the blocks that hold.
pub block-cleanup :
    (now : ℕ) (i k : String) (cache : NegCache) (exp : ℕ)
    → Distinct cache
    → Sets cache
    → now ≤ exp
    → block i k cache ≡ some exp
    → block i k (reachout_cleanup now cache) ≡ some exp
unfolding block get reachout_cleanup
block-cleanup now i k [] exp d s live h = h
block-cleanup now i k ((j, m) ∷ cache) exp (Distinct.cons _ _ _ fresh d) s live h =
    block-keep i k j (retain (λ _ e. not (ltb e now)) m) (reachout_cleanup now cache)
      (get-cleanup_none now j cache fresh)
    ∙ ground (
      arith,
      h,
      get-retain (λ _ e. not (ltb e now)) i m s.0,
      le→not-ltb exp now live,
      block-cleanup now i k cache exp d s.1 live,
    )
