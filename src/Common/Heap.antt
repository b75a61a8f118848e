-- ===== src/Common/Heap.antt =====
-- The objects that a program shares by pointer, as a list in which a pointer is a position.
use Prim.Native.Nat.{ℕ, zero, suc}
use mathlib.Core.Path.{◌≡◌, refl, ◌∙◌}
use mathlib.Core.Bool.{true, false}
use mathlib.Core.List.{List, [], ◌∷◌, ◌++◌}
use mathlib.Core.Option.{Option, none, some}
use native.Mathlib.Omega.{arith}
use apime.Common.Lists.{length}
use apime.Common.Tests.{eqb, eqb_iff, if◌then◌else◌}

module _ {ℓ} {A : Type ℓ} where
  unfoldable pub get_elem? : List A → ℕ → Option A
  get_elem? [] i = none
  get_elem? (x ∷ xs) zero = some x
  get_elem? (x ∷ xs) (suc i) = get_elem? xs i

  -- A write through the pointer `i`.
  unfoldable pub modify : ℕ → (A → A) → List A → List A
  modify i f [] = []
  modify zero f (x ∷ xs) = f x ∷ xs
  modify (suc i) f (x ∷ xs) = x ∷ modify i f xs

  abbrev pub changed : Option A → (A → A) → Option A
  changed none f = none
  changed (some x) f = some (f x)

  pub get_elem?-modify :
      (i j : ℕ) (f : A → A) (l : List A)
      → get_elem? (modify i f l) j ≡ (if eqb i j then changed (get_elem? l j) f else get_elem? l j)
  unfolding get_elem? modify
  get_elem?-modify i j f [] = ground arith
  get_elem?-modify zero zero f (x ∷ xs) = refl
  get_elem?-modify zero (suc j) f (x ∷ xs) = ground arith
  get_elem?-modify (suc i) zero f (x ∷ xs) = ground arith
  get_elem?-modify (suc i) (suc j) f (x ∷ xs) = ground (arith, get_elem?-modify i j f xs)

  -- The new object's pointer is the length of the list before.
  pub get_elem?-append :
      (j : ℕ) (l : List A) (x : A)
      → get_elem? (l ++ (x ∷ [])) j ≡ (if eqb j (length l) then some x else get_elem? l j)
  unfolding get_elem?
  get_elem?-append zero [] x = refl
  get_elem?-append (suc j) [] x = ground arith
  get_elem?-append zero (y ∷ l) x = ground arith
  get_elem?-append (suc j) (y ∷ l) x = ground (arith, get_elem?-append j l x)

  pub get_elem?-length : (l : List A) → get_elem? l (length l) ≡ none
  unfolding get_elem?
  get_elem?-length [] = refl
  get_elem?-length (x ∷ l) = get_elem?-length l

  pub get_elem?-modify_self :
      (i j : ℕ) (f : A → A) (l : List A) {x : A}
      → eqb i j ≡ true
      → get_elem? l i ≡ some x
      → get_elem? (modify i f l) j ≡ some (f x)
  get_elem?-modify_self i j f l {x} same found =
      let at : get_elem? l j ≡ some x = rw⁻¹ ((eqb_iff i j).0 same) found in
      get_elem?-modify i j f l ∙ rw (same, at) refl

  pub get_elem?-modify_ne :
      (i j : ℕ) (f : A → A) (l : List A)
      → eqb i j ≡ false
      → get_elem? (modify i f l) j ≡ get_elem? l j
  get_elem?-modify_ne i j f l other = get_elem?-modify i j f l ∙ rw other refl

  pub length-modify : (i : ℕ) (f : A → A) (l : List A) → length (modify i f l) ≡ length l
  unfolding modify
  length-modify i f [] = refl
  length-modify zero f (x ∷ xs) = refl
  length-modify (suc i) f (x ∷ xs) = omega (arith, length-modify i f xs)
