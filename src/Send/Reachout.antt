-- ===== src/Send/Reachout.antt =====
-- internal/service/message/reachout_negcache.go: who may not be written to after an error 463.
-- A contact's set of instances is a map inside the map; the clock is an argument.
pub mod Laws
pub mod Trace
use apime.Common.{
  ℕ, ◌+◌, ◌≤◌, String, ◌≡◌, refl, ap, ◌∙◌, Bool, true, false, not, ◌&&◌, Option, none, some, List,
  [], ◌∷◌, ◌==◌, eq_iff, eq_refl, arith, ltb, le→not-ltb, All, if◌then◌else◌,
}
use apime.Common.Map.{
  Map, Distinct, get, put, delete, retain, get-put, get-delete, get-retain, kept,
}

-- reachoutNegTTL, 6 hours.
abbrev pub neg_ttl : ℕ
neg_ttl = 21_600_000_000_000

-- contactKey -> instanceID -> expiry
abbrev pub NegCache : Type 0
NegCache = Map (Map ℕ)

abbrev blocks_of : Option (Map ℕ) → Map ℕ
blocks_of none = []
blocks_of (some m) = m

-- The set without one instance; an empty set leaves the cache.
abbrev drop_if_empty : String → Map ℕ → NegCache → NegCache
drop_if_empty k [] cache = delete k cache
drop_if_empty k (x ∷ m) cache = put k (x ∷ m) cache

unfoldable pub unblock : String → String → Map ℕ → NegCache → NegCache
unfolding delete put
unblock i k m cache = drop_if_empty k (delete i m) cache

blocked_until : ℕ → String → String → Map ℕ → Option ℕ → NegCache → Bool × NegCache
unfolding unblock
blocked_until now i k m none cache = (false, cache)
blocked_until now i k m (some exp) cache =
    if ltb exp now then (false, unblock i k m cache) else (true, cache)

blocked_in : ℕ → String → String → Option (Map ℕ) → NegCache → Bool × NegCache
unfolding blocked_until get
blocked_in now i k none cache = (false, cache)
blocked_in now i k (some m) cache = blocked_until now i k m (get i m) cache

unfoldable pub reachout_blocked : ℕ → String → String → NegCache → Bool × NegCache
unfolding blocked_in
reachout_blocked now i k cache = blocked_in now i k (get k cache) cache

unfoldable pub reachout_store : ℕ → String → String → NegCache → NegCache
unfolding put get
reachout_store now i k cache = put k (put i (now + neg_ttl) (blocks_of (get k cache))) cache

abbrev release_in : String → String → Option (Map ℕ) → NegCache → NegCache
release_in i k none cache = cache
release_in i k (some m) cache = unblock i k m cache

unfoldable pub reachout_release : String → String → NegCache → NegCache
unfolding unblock get
reachout_release i k cache = release_in i k (get k cache) cache

abbrev pub keep_blocks : String → Map ℕ → NegCache → NegCache
keep_blocks k [] rest = rest
keep_blocks k (x ∷ m) rest = (k, x ∷ m) ∷ rest

-- One tick of the clean-up: expired blocks go, and with the last one the contact.
unfoldable pub reachout_cleanup : ℕ → NegCache → NegCache
unfolding retain
reachout_cleanup now [] = []
reachout_cleanup now ((k, m) ∷ cache) =
    keep_blocks k (retain (λ _ exp. not (ltb exp now)) m) (reachout_cleanup now cache)

-- The expiry of a block, as any caller can see it.
unfoldable pub block : String → String → NegCache → Option ℕ
unfolding get
block i k cache = get i (blocks_of (get k cache))
