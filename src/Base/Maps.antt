-- ===== src/Base/Maps.antt =====
-- A Go map with string keys, as an association list; the list's order stands for the order in which
-- a `range` loop meets the keys.
use Prim.Native.Nat.{◌+◌, ◌≤◌, ◌<◌}
use mathlib.Core.Path.{◌≡◌, refl}
use mathlib.Core.Logic.{◌≢◌}
use mathlib.Core.Option.{Option, none, some}
use mathlib.Core.List.{List, [], ◌∷◌}
use native.Mathlib.Omega.{arith}
use lanyard.Base.Tests.{if◌then◌else◌}
use lanyard.Base.Lists.{length}
use lanyard.Base.Strings.{Text, ◌==◌, eq_iff, eq_refl}

abbrev pub Dict {ℓ} : Type ℓ → Type ℓ
Dict V = List (Text × V)

module _ {ℓ} {V : Type ℓ} where
  unfoldable pub lookup : Text → Dict V → Option V
  lookup k [] = none
  lookup k ((key, value) ∷ rest) = if key == k then some value else lookup k rest

  -- `m[k] = v`
  unfoldable pub insert : Text → V → Dict V → Dict V
  insert k new [] = (k, new) ∷ []
  insert k new ((key, old) ∷ rest) =
      if key == k then (k, new) ∷ rest else (key, old) ∷ insert k new rest

  -- `delete(m, k)`
  unfoldable pub erase : Text → Dict V → Dict V
  erase k [] = []
  erase k ((j, v) ∷ m) = let rest = erase k m in if j == k then rest else (j, v) ∷ rest

  pub lookup-insert :
      (k j : Text) (v : V) (m : Dict V)
      → lookup j (insert k v m) ≡ (if k == j then some v else lookup j m)
  unfolding lookup insert
  lookup-insert k j new [] = refl
  lookup-insert k j new ((key, old) ∷ rest) =
      ground (lookup-insert k j new rest, eq_iff key k, eq_iff key j, eq_iff k j, arith)

  pub lookup-insert_self : (k : Text) (v : V) (m : Dict V) → lookup k (insert k v m) ≡ some v
  lookup-insert_self k v m = simp (lookup-insert, eq_refl)

  pub lookup-erase :
      (k j : Text) (m : Dict V) → lookup j (erase k m) ≡ (if k == j then none else lookup j m)
  unfolding lookup erase
  lookup-erase k j [] = ground arith
  lookup-erase k j ((i, w) ∷ m) =
      ground (arith, eq_iff k j, eq_iff i k, eq_iff i j, lookup-erase k j m)

  pub lookup-erase_self : (k : Text) (m : Dict V) → lookup k (erase k m) ≡ none
  lookup-erase_self k m = simp (lookup-erase, eq_refl)

  pub length-erase-le : (k : Text) (m : Dict V) → length (erase k m) ≤ length m
  unfolding erase
  length-erase-le k [] = omega arith
  length-erase-le k ((j, v) ∷ m) = ground (arith, length-erase-le k m)

  -- Deleting a key that is there makes the map smaller.
  pub length-erase-lt : (k : Text) (m : Dict V) → lookup k m ≢ none → length (erase k m) < length m
  unfolding lookup erase
  length-erase-lt k [] h = absurd (h refl)
  length-erase-lt k ((j, v) ∷ m) h = ground (arith, length-erase-le k m, length-erase-lt k m)

  pub length-insert-le : (k : Text) (v : V) (m : Dict V) → length (insert k v m) ≤ length m + 1
  unfolding insert
  length-insert-le k v [] = omega arith
  length-insert-le k v ((j, w) ∷ m) = ground (arith, length-insert-le k v m)

  -- No key twice: the list stands for a map.
  abbrev pub Distinct : Dict V → Type ℓ
  Distinct [] = Unit
  Distinct ((k, v) ∷ m) = (lookup k m ≡ none) × Distinct m

  pub insert-Distinct : (k : Text) (v : V) (m : Dict V) → Distinct m → Distinct (insert k v m)
  unfolding insert lookup
  insert-Distinct k v [] d = (refl, tt)
  insert-Distinct k v ((j, w) ∷ m) d =
      ground (arith, eq_iff j k, eq_iff k j, insert-Distinct k v m d.1, lookup-insert k j v m)

  pub erase-Distinct : (k : Text) (m : Dict V) → Distinct m → Distinct (erase k m)
  unfolding erase
  erase-Distinct k [] d = tt
  erase-Distinct k ((j, w) ∷ m) d = ground (arith, erase-Distinct k m d.1, lookup-erase k j m)
