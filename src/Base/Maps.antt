-- ===== src/Base/Maps.antt =====
-- A JavaScript `Map` with text keys, as an association list in insertion order.
use Prim.Native.Nat.{◌+◌}
use Prim.Native.String.{String}
use mathlib.Core.Path.{◌≡◌, refl}
use mathlib.Core.Bool.{Bool, not}
use mathlib.Core.Option.{Option, none, some}
use mathlib.Core.List.{List, [], ◌∷◌, ◌++◌}
use native.Mathlib.Omega.{arith}
use text.Mathlib.TextEquality.{eq_iff}
use ops_mesh.Base.Compare.{◌==◌, string_eq, if◌then◌else◌}
use ops_mesh.Base.Lists.{length, filter}

abbrev pub Map {ℓ} : Type ℓ → Type ℓ
Map V = List (String × V)

module _ {ℓ} {V : Type ℓ} where
  -- `m.get(k)`
  unfoldable pub lookup : String → Map V → Option V
  lookup k [] = none
  lookup k (entry ∷ rest) = if entry.0 == k then some entry.1 else lookup k rest

  -- `m.set(k, v)`: a present key keeps its place
  unfoldable pub insert : String → V → Map V → Map V
  insert k v [] = (k, v) ∷ []
  insert k v (entry ∷ rest) = if entry.0 == k then (k, v) ∷ rest else entry ∷ insert k v rest

  -- `m.delete(k)`
  unfoldable pub erase : String → Map V → Map V
  erase k m = filter (λ e. not (e.0 == k)) m

  -- A write is seen at its key, and nowhere else.
  pub lookup-insert :
      (k j : String) (v : V) (m : Map V)
      → lookup j (insert k v m) ≡ (if k == j then some v else lookup j m)
  unfolding insert lookup
  lookup-insert k j v [] = refl
  lookup-insert k j v (entry ∷ rest) =
      ground (arith, lookup-insert k j v rest, eq_iff entry.0 j, eq_iff entry.0 k, eq_iff k j)

  pub lookup-erase :
      (k j : String) (m : Map V) → lookup j (erase k m) ≡ (if k == j then none else lookup j m)
  unfolding lookup erase
  lookup-erase k j [] = ground arith
  lookup-erase k j ((i, w) ∷ m) =
      ground (arith, eq_iff k j, eq_iff i k, eq_iff i j, lookup-erase k j m)

  pub length-insert-new :
      (k : String) (v : V) (m : Map V) → lookup k m ≡ none → length (insert k v m) ≡ length m + 1
  unfolding lookup insert
  length-insert-new k v [] h = omega arith
  length-insert-new k v ((i, w) ∷ m) h = ground (arith, length-insert-new k v m)

  -- A new key is put last.
  pub insert-append :
      (k : String) (v : V) (m : Map V) → lookup k m ≡ none → insert k v m ≡ m ++ (k, v) ∷ []
  unfolding lookup insert
  insert-append k v [] h = refl
  insert-append k v ((i, w) ∷ m) h = ground (arith, insert-append k v m)

  pub lookup-filter-none :
      (k : String) (p : String × V → Bool) (m : Map V)
      → lookup k m ≡ none
      → lookup k (filter p m) ≡ none
  unfolding lookup
  lookup-filter-none k p [] h = refl
  lookup-filter-none k p ((i, w) ∷ m) h = ground (arith, lookup-filter-none k p m)
