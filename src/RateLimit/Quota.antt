-- ===== src/RateLimit/Quota.antt =====
-- How many calls of one key the limiter lets through in one window.
use mathlib.Core.Path.{subst}
use apime.Common.{
  ℕ, suc, ◌+◌, ◌-◌, ◌≤◌, min, String, ◌≡◌, refl, ◌&&◌, Bool, true, false, not, some, List, [], ◌∷◌,
  ◌==◌, eq_iff, arith, ltb, leb, le→not-ltb, All, if◌then◌else◌, ap, sym, ◌∙◌, eq_refl, Bool-cases,
  inl, inr, Option-cases,
}
use apime.Common.Map.{Map, Distinct, get, put, get-put, get-retain, Distinct-put, Distinct-retain}
use apime.RateLimit.Limiter.{Item, is_over, allow, open_window, count_call, cleanup}

pub data Op : Type 0 where
  calls : ℕ → String → ℕ → ℕ → Op
  cleans : ℕ → Op

unfoldable pub step : Op → Map Item → Map Item
step (calls now key limit window) items = (allow now key limit window items).1
step (cleans now) items = cleanup now items

-- Whether this is a call of `key`, and whether it is let through.
unfoldable pub asks : String → Op → Bool
asks key (calls now k limit window) = k == key
asks key (cleans now) = false

unfoldable pub passes : String → Op → Map Item → Bool
passes key (calls now k limit window) items = k == key && (allow now k limit window items).0.allowed
passes key (cleans now) items = false

unfoldable pub asked : String → List Op → ℕ
unfolding asks
asked key [] = 0
asked key (op ∷ ops) = let rest = asked key ops in if asks key op then suc rest else rest

unfoldable pub passed : String → List Op → Map Item → ℕ
unfolding passes
passed key [] items = 0
passed key (op ∷ ops) items =
    let rest = passed key ops (step op items) in if passes key op items then suc rest else rest

-- Every access is before the instant `e`, and calls of `key` have the limit `n`.
abbrev pub InWindow : String → ℕ → ℕ → Op → Type 0
InWindow key n e (calls now k limit window) = (now ≤ e) × (k ≡ key → limit ≡ n)
InWindow key n e (cleans now) = now ≤ e

-- A call writes the entry of its key and no other.
allow_puts :
    (now : ℕ) (k : String) (limit window : ℕ) (items : Map Item)
    → (item : Item) × ((allow now k limit window items).1 ≡ put k item items)
unfolding allow open_window count_call
allow_puts now k limit window items = elim (Option-cases (get k items)) [
  | inl fresh ↦ rw fresh (record { count = 1; expires_at = now + window }, refl)
  | inr (item, found) ↦ rw found (elim (Bool-cases (ltb item.expires_at now)) [
    | inl over ↦ rw over (record { count = 1; expires_at = now + window }, refl)
    | inr live ↦ rw live (record item { count = suc item.count }, refl)
  ])
]

get-allow_ne :
    (now : ℕ) (k : String) (limit window : ℕ) (items : Map Item) (key : String)
    → (k == key) ≡ false
    → get key (allow now k limit window items).1 ≡ get key items
get-allow_ne now k limit window items key h =
    let (item, e) = allow_puts now k limit window items in
    ap (get key) e ∙ get-put k key item items ∙ rw h refl

allow_counted :
    (now : ℕ) (k : String) (limit window : ℕ) (items : Map Item) (c e : ℕ)
    → get k items ≡ some (record { count = c; expires_at = e })
    → now ≤ e
    → ((allow now k limit window items).0.allowed ≡ leb (suc c) limit)
      × (get k (allow now k limit window items).1 ≡ some (record { count = suc c; expires_at = e }))
unfolding allow count_call
allow_counted now k limit window items c e found live =
    rw (found, le→not-ltb e now live)
      (refl, get-put k k (record { count = suc c; expires_at = e }) items ∙ rw (eq_refl k) refl)

pub Distinct-step : (op : Op) (items : Map Item) → Distinct items → Distinct (step op items)
unfolding step cleanup
Distinct-step (calls now k limit window) items d =
    let (item, e) = allow_puts now k limit window items in
    subst Distinct (sym e) (Distinct-put k item items d)
Distinct-step (cleans now) items d =
    Distinct-retain (λ _ item. not (ltb item.expires_at now)) items d

get-cleanup :
    (now : ℕ) (key : String) (items : Map Item) (c e : ℕ)
    → Distinct items
    → get key items ≡ some (record { count = c; expires_at = e })
    → now ≤ e
    → get key (cleanup now items) ≡ some (record { count = c; expires_at = e })
unfolding cleanup
get-cleanup now key items c e d found live =
    get-retain (λ _ item. not (ltb item.expires_at now)) key items d
    ∙ rw (found, le→not-ltb e now live) refl

within_limit :
    (c n a : ℕ) {p : ℕ}
    → p ≡ min a (n - suc c)
    → (if leb (suc c) n then suc p else p) ≡ min (suc a) (n - c)
within_limit c n a h = ground arith

-- In a window that has counted `c` calls until `e`, the next calls pass until the limit is used up.
passed-InWindow :
    (key : String) (n e c : ℕ) (ops : List Op) (items : Map Item)
    → Distinct items
    → get key items ≡ some (record { count = c; expires_at = e })
    → All (InWindow key n e) ops
    → passed key ops items ≡ min (asked key ops) (n - c)
unfolding passed asked step
passed-InWindow key n e c [] items d h w = omega arith
passed-InWindow key n e c (calls now k limit window ∷ ops) items d h w =
    elim (Bool-cases (k == key)) [
      | inl same ↦
          let k_key = (eq_iff k key).0 same in
          let counted = allow_counted now key n window items c e h w.0.0 in
          rw (same, k_key, w.0.1 k_key, counted.0)
            (within_limit c n (asked key ops) (
              passed-InWindow key n e (suc c) ops (allow now key n window items).1
                (Distinct-step (calls now key n window) items d) counted.1 w.1))
      | inr other ↦ rw other (
          passed-InWindow key n e c ops (allow now k limit window items).1
            (Distinct-step (calls now k limit window) items d)
            (get-allow_ne now k limit window items key other ∙ h) w.1)
    ]
passed-InWindow key n e c (cleans now ∷ ops) items d h w =
    passed-InWindow key n e c ops (cleanup now items) (Distinct-step (cleans now) items d)
      (get-cleanup now key items c e d h w.0) w.1

allow_opened :
    (now : ℕ) (k : String) (limit window : ℕ) (items : Map Item)
    → is_over now (get k items) ≡ true
    → ((allow now k limit window items).0.allowed ≡ true)
      × (get k (allow now k limit window items).1
          ≡ some (record { count = 1; expires_at = now + window }))
unfolding allow open_window is_over
allow_opened now k limit window items over =
    let put_self =
      get-put k k (record { count = 1; expires_at = now + window }) items ∙ rw (eq_refl k) refl in
    elim (Option-cases (get k items)) [
      | inl fresh ↦ rw fresh (refl, put_self)
      | inr (item, found) ↦ rw (found, (rw found at over)) (refl, put_self)
    ]

-- A call of a key with no live window opens one; of the calls that follow within it, as many pass
-- as the limit still allows, whatever else is called or cleaned up in between. The limit is the
-- same for all calls of the key and at least 1.
pub quota :
    (key : String) (n now window : ℕ) (ops : List Op) (items : Map Item)
    → Distinct items
    → is_over now (get key items) ≡ true
    → 1 ≤ n
    → All (InWindow key n (now + window)) ops
    → passed key (calls now key n window ∷ ops) items ≡ min (asked key ops + 1) n
unfolding passed step
quota key n now window ops items d over pos w =
    let opened = allow_opened now key n window items over in
    let rest =
      passed-InWindow key n (now + window) 1 ops (allow now key n window items).1
        (Distinct-step (calls now key n window) items d) opened.1 w in
    rw (eq_refl key, opened.0) (omega (arith, rest))
