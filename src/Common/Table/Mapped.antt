-- ===== src/Common/Table/Mapped.antt =====
-- The statements on a table whose rows are written in another form.
use mathlib.Core.Path.{◌≡◌, refl}
use mathlib.Core.Bool.{Bool}
use mathlib.Core.List.{List, [], ◌∷◌, map}
use native.Mathlib.Omega.{arith}
use apime.Common.Tests.{Bool-cases}
use mathlib.Core.Logic.{inl, inr}
use apime.Common.Table.{first, count_where, delete_where, update_where, updated}

module _ {ℓ} {R : Type ℓ} (f : R → R) (p q : R → Bool) (same : (r : R) → p (f r) ≡ q r) where
  pub first-map : (t : List R) → first p (map f t) ≡ updated f (first q t)
  unfolding first
  first-map [] = refl
  first-map (r ∷ t) = ground (arith, same r, first-map t)

  pub count_where-map : (t : List R) → count_where p (map f t) ≡ count_where q t
  unfolding count_where
  count_where-map [] = refl
  count_where-map (r ∷ t) = ground (arith, same r, count_where-map t)

  pub delete_where-map : (t : List R) → delete_where p (map f t) ≡ map f (delete_where q t)
  unfolding delete_where
  delete_where-map [] = refl
  delete_where-map (r ∷ t) = elim (Bool-cases (q r)) [
    | inl gone ↦ rw (same r, gone) (delete_where-map t)
    | inr kept ↦ rw (same r, kept) (rw (delete_where-map t) refl)
  ]

  pub update_where-map :
      (g h : R → R)
      → ((r : R) → g (f r) ≡ f (h r))
      → (t : List R) → update_where p g (map f t) ≡ map f (update_where q h t)
  unfolding update_where
  update_where-map g h moves [] = refl
  update_where-map g h moves (r ∷ t) = elim (Bool-cases (q r)) [
    | inl met ↦ rw (same r, met, moves r, update_where-map g h moves t) refl
    | inr left ↦ rw (same r, left, update_where-map g h moves t) refl
  ]
