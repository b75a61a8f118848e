-- ===== src/Common/Map.antt =====
-- Go's maps and sync.Map with text keys, as association lists with one entry for each key.
use Prim.Native.String.{String}
use mathlib.Core.Path.{◌≡◌, refl}
use mathlib.Core.Bool.{Bool, true, false}
use mathlib.Core.List.{List, [], ◌∷◌}
use mathlib.Core.Option.{Option, none, some}
use native.Mathlib.Omega.{arith}
use text.Mathlib.Text.{◌==◌}
use text.Mathlib.TextEquality.{eq_iff}
use apime.Common.Tests.{if◌then◌else◌}

abbrev pub Map {ℓ} : Type ℓ → Type ℓ
Map V = List (String × V)

module _ {ℓ} {V : Type ℓ} where
  -- v, ok := m[k]
  unfoldable pub get : String → Map V → Option V
  get k [] = none
  get k ((j, v) ∷ m) = let rest = get k m in if j == k then some v else rest

  -- delete(m, k)
  unfoldable pub delete : String → Map V → Map V
  delete k [] = []
  delete k ((j, v) ∷ m) = let rest = delete k m in if j == k then rest else (j, v) ∷ rest

  -- m[k] = v
  unfoldable pub put : String → V → Map V → Map V
  unfolding delete
  put k v m = (k, v) ∷ delete k m

  -- A range over the map that deletes each entry which `keep` refuses.
  unfoldable pub retain : (String → V → Bool) → Map V → Map V
  retain keep [] = []
  retain keep ((j, v) ∷ m) = let rest = retain keep m in if keep j v then (j, v) ∷ rest else rest

  -- Each key has one entry.
  pub data Distinct : Map V → Type ℓ where
    nil : Distinct []
    cons : (k : String) (v : V) (m : Map V) → get k m ≡ none → Distinct m → Distinct ((k, v) ∷ m)

  pub get-delete :
      (k j : String) (m : Map V) → get j (delete k m) ≡ (if k == j then none else get j m)
  unfolding get delete
  get-delete k j [] = ground arith
  get-delete k j ((i, v) ∷ m) = ground (arith, get-delete k j m, eq_iff i k, eq_iff i j, eq_iff k j)

  pub get-put :
      (k j : String) (v : V) (m : Map V) → get j (put k v m) ≡ (if k == j then some v else get j m)
  unfolding get put
  get-put k j v m = ground (arith, get-delete k j m)

  pub delete-none : (k j : String) (m : Map V) → get j m ≡ none → get j (delete k m) ≡ none
  delete-none k j m h = ground (arith, get-delete k j m)

  Distinct-if :
      (b : Bool) (k : String) (v : V) (m : Map V)
      → get k m ≡ none
      → Distinct m
      → Distinct (if b then m else (k, v) ∷ m)
  Distinct-if true k v m fresh d = d
  Distinct-if false k v m fresh d = cons k v m fresh d

  pub Distinct-delete : (k : String) (m : Map V) → Distinct m → Distinct (delete k m)
  unfolding delete
  Distinct-delete k [] nil = nil
  Distinct-delete k ((j, v) ∷ m) (cons _ _ _ fresh d) =
      Distinct-if (j == k) j v (delete k m) (delete-none k j m fresh) (Distinct-delete k m d)

  pub Distinct-put : (k : String) (v : V) (m : Map V) → Distinct m → Distinct (put k v m)
  unfolding put
  Distinct-put k v m d =
      cons k v (delete k m) (ground (arith, get-delete k k m, eq_iff k k)) (Distinct-delete k m d)

  retain-none :
      (keep : String → V → Bool) (j : String) (m : Map V)
      → get j m ≡ none
      → get j (retain keep m) ≡ none
  unfolding get retain
  retain-none keep j [] h = refl
  retain-none keep j ((i, v) ∷ m) h = ground (arith, retain-none keep j m)

  abbrev pub kept : (String → V → Bool) → String → Option V → Option V
  kept keep k none = none
  kept keep k (some v) = if keep k v then some v else none

  -- A sweep removes exactly the entries that `keep` refuses.
  pub get-retain :
      (keep : String → V → Bool) (k : String) (m : Map V)
      → Distinct m
      → get k (retain keep m) ≡ kept keep k (get k m)
  unfolding get retain
  get-retain keep k [] d = refl
  get-retain keep k ((j, v) ∷ m) (cons _ _ _ fresh d) =
      ground (arith, get-retain keep k m d, retain-none keep j m, eq_iff j k)

  Distinct-keep :
      (b : Bool) (k : String) (v : V) (m : Map V)
      → get k m ≡ none
      → Distinct m
      → Distinct (if b then (k, v) ∷ m else m)
  Distinct-keep true k v m fresh d = cons k v m fresh d
  Distinct-keep false k v m fresh d = d

  pub Distinct-retain :
      (keep : String → V → Bool) (m : Map V) → Distinct m → Distinct (retain keep m)
  unfolding retain
  Distinct-retain keep [] nil = nil
  Distinct-retain keep ((j, v) ∷ m) (cons _ _ _ fresh d) =
      Distinct-keep (keep j v) j v (retain keep m) (retain-none keep j m fresh)
        (Distinct-retain keep m d)
