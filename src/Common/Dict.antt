-- ===== src/Common/Dict.antt =====
-- Go's maps with string keys, as association lists: the order of the entries is the order in which
-- a `range` over the map meets them, and may be any.
use Prim.Native.Nat.{ℕ, ◌+◌, ◌≤◌}
use Prim.Native.String.{String}
use mathlib.Core.Path.{◌≡◌, refl}
use mathlib.Core.Logic.{◌≢◌, inl, inr}
use mathlib.Core.Option.{Option, none, some}
use mathlib.Core.List.{List, [], ◌∷◌}
use native.Mathlib.Omega.{arith}
use text.Mathlib.Text.{◌==◌}
use text.Mathlib.TextEquality.{eq_iff}
use remote_cli.Common.Tests.{if◌then◌else◌, Bool-cases}

module _ {ℓ} {V : Type ℓ} where
  unfoldable pub lookup : String → List (String × V) → Option V
  lookup k [] = none
  lookup k ((j, v) ∷ m) = if j == k then some v else lookup k m

  unfoldable pub insert : String → V → List (String × V) → List (String × V)
  insert k v [] = (k, v) ∷ []
  insert k v ((j, w) ∷ m) = if j == k then (k, v) ∷ m else (j, w) ∷ insert k v m

  unfoldable pub delete : String → List (String × V) → List (String × V)
  delete k [] = []
  delete k ((j, v) ∷ m) = let rest = delete k m in if j == k then rest else (j, v) ∷ rest

  -- The number of entries, each counted as `f` says.
  unfoldable pub total : (V → ℕ) → List (String × V) → ℕ
  total f [] = 0
  total f ((k, v) ∷ m) = f v + total f m

  -- After a write to `key`, by the key that is looked up.
  pub lookup-insert :
      (key other : String) (new : V) (dict : List (String × V))
      → lookup other (insert key new dict) ≡ (if key == other then some new else lookup other dict)
  unfolding insert lookup
  lookup-insert key other new [] = refl
  lookup-insert key other new ((first, old) ∷ rest) =
      let later = lookup-insert key other new rest in
      ground (arith, later, eq_iff first key, eq_iff first other, eq_iff key other)

  pub lookup-delete :
      (key other : String) (dict : List (String × V))
      → lookup other (delete key dict) ≡ (if key == other then none else lookup other dict)
  unfolding delete lookup
  lookup-delete key other [] = ground arith
  lookup-delete key other ((first, old) ∷ rest) =
      let later = lookup-delete key other rest in
      ground (arith, later, eq_iff first key, eq_iff first other, eq_iff key other)

  pub lookup-insert_self :
      (k : String) (v : V) (m : List (String × V)) → lookup k (insert k v m) ≡ some v
  lookup-insert_self k v m = ground (arith, lookup-insert k k v m, eq_iff k k)

  pub lookup-insert_ne :
      (k j : String) (v : V) (m : List (String × V)) → k ≢ j → lookup j (insert k v m) ≡ lookup j m
  lookup-insert_ne k j v m h = ground (arith, lookup-insert k j v m, eq_iff k j)

  pub lookup-delete_self : (k : String) (m : List (String × V)) → lookup k (delete k m) ≡ none
  lookup-delete_self k m = ground (arith, lookup-delete k k m, eq_iff k k)

  pub lookup-delete_ne :
      (k j : String) (m : List (String × V)) → k ≢ j → lookup j (delete k m) ≡ lookup j m
  lookup-delete_ne k j m h = ground (arith, lookup-delete k j m, eq_iff k j)

  pub total-delete-le :
      (f : V → ℕ) (k : String) (m : List (String × V)) → total f (delete k m) ≤ total f m
  unfolding total delete
  total-delete-le f k [] = omega arith
  total-delete-le f k ((j, v) ∷ m) = ground (arith, total-delete-le f k m)

  pub total-delete :
      (f : V → ℕ) (k : String) (v : V) (m : List (String × V))
      → lookup k m ≡ some v
      → total f (delete k m) + f v ≤ total f m
  unfolding total delete lookup
  total-delete f k v [] h = absurd (ground arith)
  total-delete f k v ((j, w) ∷ m) h = ground (arith, total-delete f k v m, total-delete-le f k m)

  pub total-insert :
      (f : V → ℕ) (k : String) (v w : V) (m : List (String × V))
      → lookup k m ≡ some w
      → total f (insert k v m) + f w ≡ total f m + f v
  unfolding total insert lookup
  total-insert f k v w [] h = absurd (ground arith)
  total-insert f k v w ((j, u) ∷ m) h = ground (arith, total-insert f k v w m)

-- No key stands twice, as in a Go map.
module _ {ℓ} {V : Type ℓ} where
  abbrev pub Unique : List (String × V) → Type ℓ
  Unique [] = Unit
  Unique ((k, v) ∷ m) = (lookup k m ≡ none) × Unique m

  pub insert-Unique :
      (k : String) (v : V) (m : List (String × V)) → Unique m → Unique (insert k v m)
  unfolding insert lookup
  insert-Unique k v [] u = (refl, tt)
  insert-Unique k v ((j, w) ∷ m) u = elim (Bool-cases (j == k)) [
    | inl same ↦ rw same (rw (← (eq_iff j k).0 same) u.0, u.1)
    | inr other ↦ rw other (
      ground (arith, lookup-insert k j v m, u.0, eq_iff j k, eq_iff k j),
      insert-Unique k v m u.1,
    )
  ]
