-- ===== src/Common/Table.antt =====
-- A database table as the list of its rows, oldest first, and the statements the repositories issue.
pub mod Mapped
use Prim.Native.Nat.{ℕ, suc, ◌+◌, ◌≤◌}
use mathlib.Core.Path.{◌≡◌, refl}
use mathlib.Core.Bool.{Bool, true, false}
use mathlib.Core.List.{List, [], ◌∷◌, ◌++◌}
use mathlib.Core.Option.{Option, none, some}
use native.Mathlib.Omega.{arith}
use apime.Common.Tests.{leb, if◌then◌else◌}

module _ {ℓ} {R : Type ℓ} where
  -- SELECT ... WHERE p, every row.
  unfoldable pub select : (R → Bool) → List R → List R
  select p [] = []
  select p (r ∷ t) = let rest = select p t in if p r then r ∷ rest else rest

  -- SELECT ... WHERE p, one row.
  unfoldable pub first : (R → Bool) → List R → Option R
  first p [] = none
  first p (r ∷ t) = let rest = first p t in if p r then some r else rest

  -- SELECT COUNT(*) ... WHERE p, and the affected rows of a DELETE or UPDATE.
  unfoldable pub count_where : (R → Bool) → List R → ℕ
  count_where p [] = 0
  count_where p (r ∷ t) = let rest = count_where p t in if p r then suc rest else rest

  -- DELETE ... WHERE p.
  unfoldable pub delete_where : (R → Bool) → List R → List R
  delete_where p [] = []
  delete_where p (r ∷ t) = let rest = delete_where p t in if p r then rest else r ∷ rest

  -- UPDATE ... SET f WHERE p.
  unfoldable pub update_where : (R → Bool) → (R → R) → List R → List R
  update_where p f [] = []
  update_where p f (r ∷ t) = (if p r then f r else r) ∷ update_where p f t

  -- The first of two answers.
  abbrev pub or_else : Option R → Option R → Option R
  or_else none o = o
  or_else (some r) o = some r

  pub first-append :
      (p : R → Bool) (t u : List R) → first p (t ++ u) ≡ or_else (first p t) (first p u)
  unfolding first
  first-append p [] u = refl
  first-append p (r ∷ t) u = ground (arith, first-append p t u)

  pub first-delete_where_self : (p : R → Bool) (t : List R) → first p (delete_where p t) ≡ none
  unfolding first delete_where
  first-delete_where_self p [] = refl
  first-delete_where_self p (r ∷ t) = ground (arith, first-delete_where_self p t)

  pub first-delete_where-none :
      (p q : R → Bool) (t : List R) → first p t ≡ none → first p (delete_where q t) ≡ none
  unfolding first delete_where
  first-delete_where-none p q [] h = refl
  first-delete_where-none p q (r ∷ t) h = ground (arith, first-delete_where-none p q t)

  -- A DELETE leaves the answer to a query that none of the deleted rows meets.
  pub first-delete_where_ne :
      (p q : R → Bool) (t : List R)
      → ((r : R) → q r ≡ true → p r ≡ false)
      → first p (delete_where q t) ≡ first p t
  unfolding first delete_where
  first-delete_where_ne p q [] h = refl
  first-delete_where_ne p q (r ∷ t) h = ground (arith, h r, first-delete_where_ne p q t h)

  -- A DELETE that spares the row found leaves the answer.
  pub first-delete_where_keep :
      (p q : R → Bool) (t : List R) {r : R}
      → first p t ≡ some r
      → q r ≡ false
      → first p (delete_where q t) ≡ some r
  unfolding first delete_where
  first-delete_where_keep p q [] h k = h
  first-delete_where_keep p q (x ∷ t) {r} h k =
      ground (arith, first-delete_where_keep p q t {r = r})

  -- An UPDATE that keeps what the query asks.
  pub first-update_where_keep :
      (p q : R → Bool) (f : R → R) (t : List R) {r : R}
      → ((x : R) → p (f x) ≡ p x)
      → first p t ≡ some r
      → first p (update_where q f t) ≡ some (if q r then f r else r)
  unfolding first update_where
  first-update_where_keep p q f [] keep h = absurd (ground arith)
  first-update_where_keep p q f (x ∷ t) {r} keep h =
      ground (arith, keep x, first-update_where_keep p q f t {r = r} keep)

  pub first_holds : (p : R → Bool) (t : List R) {r : R} → first p t ≡ some r → p r ≡ true
  unfolding first
  first_holds p [] h = absurd (ground arith)
  first_holds p (x ∷ t) {r} h = ground (arith, first_holds p t {r = r})

  pub first-update_where_ne :
      (p q : R → Bool) (f : R → R) (t : List R)
      → ((r : R) → q r ≡ true → (p r ≡ false) × (p (f r) ≡ false))
      → first p (update_where q f t) ≡ first p t
  unfolding first update_where
  first-update_where_ne p q f [] h = refl
  first-update_where_ne p q f (r ∷ t) h = ground (arith, h r, first-update_where_ne p q f t h)

  abbrev pub updated : (R → R) → Option R → Option R
  updated f none = none
  updated f (some r) = some (f r)

  pub first-update_where_self :
      (p : R → Bool) (f : R → R) (t : List R)
      → ((r : R) → p r ≡ true → p (f r) ≡ true)
      → first p (update_where p f t) ≡ updated f (first p t)
  unfolding first update_where
  first-update_where_self p f [] h = refl
  first-update_where_self p f (r ∷ t) h = ground (arith, h r, first-update_where_self p f t h)

  pub count_where-append :
      (p : R → Bool) (t u : List R) → count_where p (t ++ u) ≡ count_where p t + count_where p u
  unfolding count_where
  count_where-append p [] u = omega arith
  count_where-append p (r ∷ t) u = ground (arith, count_where-append p t u)

  pub count_where-delete_where_le :
      (p q : R → Bool) (t : List R) → count_where p (delete_where q t) ≤ count_where p t
  unfolding count_where delete_where
  count_where-delete_where_le p q [] = omega arith
  count_where-delete_where_le p q (r ∷ t) = ground (arith, count_where-delete_where_le p q t)

  pub count_where-delete_where_self :
      (p : R → Bool) (t : List R) → count_where p (delete_where p t) ≡ 0
  unfolding count_where delete_where
  count_where-delete_where_self p [] = refl
  count_where-delete_where_self p (r ∷ t) = ground (arith, count_where-delete_where_self p t)

  pub count_where-first : (p : R → Bool) (t : List R) → first p t ≡ none → count_where p t ≡ 0
  unfolding count_where first
  count_where-first p [] h = refl
  count_where-first p (r ∷ t) h = ground (arith, count_where-first p t)

  pub first-count_where : (p : R → Bool) (t : List R) → count_where p t ≡ 0 → first p t ≡ none
  unfolding count_where first
  first-count_where p [] h = refl
  first-count_where p (r ∷ t) h = ground (arith, first-count_where p t)

  pub count_where-update_where :
      (p q : R → Bool) (f : R → R) (t : List R)
      → ((r : R) → p (f r) ≡ p r)
      → count_where p (update_where q f t) ≡ count_where p t
  unfolding count_where update_where
  count_where-update_where p q f [] h = refl
  count_where-update_where p q f (r ∷ t) h = ground (arith, h r, count_where-update_where p q f t h)

-- ORDER BY key: rows with equal keys keep their order.
module _ {ℓ} {R : Type ℓ} (key : R → ℕ) where
  unfoldable pub insert_by : R → List R → List R
  insert_by r [] = r ∷ []
  insert_by r (x ∷ t) =
      let rest = insert_by r t in if leb (key r) (key x) then r ∷ x ∷ t else x ∷ rest

  unfoldable pub order_by : List R → List R
  unfolding insert_by
  order_by [] = []
  order_by (r ∷ t) = insert_by r (order_by t)
