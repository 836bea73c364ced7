-- ===== src/Common/Ordered.antt =====
-- `BTreeMap<u64, V>`: entries in ascending key order. The map operations that the source calls.
use opendata_contrib.Common.Tests.{ltb, leb, ◌==◌, if◌then◌else◌}
use Prim.Native.Nat.{ℕ}
use mathlib.Core.List.{List, [], ◌∷◌}
use mathlib.Core.Option.{Option, none, some}

module _ {ℓ} {V : Type ℓ} where
  -- `map.get(&k)`
  unfoldable pub get : ℕ → List (ℕ × V) → Option V
  get k [] = none
  get k ((j, v) ∷ m) = if j == k then some v else get k m

  -- `*map.get_mut(&k).unwrap() = v`; a missing key changes nothing.
  unfoldable pub replace : ℕ → V → List (ℕ × V) → List (ℕ × V)
  replace k v [] = []
  replace k v ((j, w) ∷ m) = if j == k then (j, v) ∷ m else (j, w) ∷ replace k v m

  -- `map.insert(k, v)`
  unfoldable pub insert : ℕ → V → List (ℕ × V) → List (ℕ × V)
  insert k v [] = (k, v) ∷ []
  insert k v ((j, w) ∷ m) =
      let rest = insert k v m in
      if ltb k j then (k, v) ∷ (j, w) ∷ m else if j == k then (k, v) ∷ m else (j, w) ∷ rest

  -- `map.range(..=k).next_back()`: the entry with the greatest key that is at most `k`.
  unfoldable pub last_le : ℕ → List (ℕ × V) → Option (ℕ × V)
  last_le k [] = none
  last_le k ((j, v) ∷ m) =
      if leb j k then (elim (last_le k m) [ none ↦ some (j, v) | some e ↦ some e ]) else none

  -- `map.range(k..).next()`: the entry with the least key that is at least `k`.
  unfoldable pub first_ge : ℕ → List (ℕ × V) → Option (ℕ × V)
  first_ge k [] = none
  first_ge k ((j, v) ∷ m) = if leb k j then some (j, v) else first_ge k m
