-- ===== src/Prelude/Maps.antt =====
-- `BTreeMap<K, V>` and `BTreeSet<K>` over byte strings: lists in ascending order of their keys.
use ferry.Prelude.Tests.{if◌then◌else◌}
use ferry.Prelude.ByteStrings.{Bytes, bytes_eq, bytes_lt, bytes_eq_iff}
use mathlib.Core.Path.{◌≡◌, refl}
use mathlib.Core.Bool.{Bool, false, ◌||◌}
use mathlib.Core.Option.{Option, none, some}
use mathlib.Core.List.{List, [], ◌∷◌}
use native.Mathlib.Omega.{arith}

module _ {V : Type 0} where
  unfoldable pub lookup : Bytes → List (Bytes × V) → Option V
  unfolding bytes_eq
  lookup k [] = none
  lookup k ((j, v) ∷ m) = if bytes_eq k j then some v else lookup k m

  unfoldable pub insert : Bytes → V → List (Bytes × V) → List (Bytes × V)
  unfolding bytes_eq bytes_lt
  insert k v [] = (k, v) ∷ []
  insert k v ((j, w) ∷ m) =
      if bytes_lt k j
      then (k, v) ∷ (j, w) ∷ m
      else if bytes_eq k j
      then (k, v) ∷ m
      else (j, w) ∷ insert k v m

-- A set is a list of keys in ascending order.
unfoldable pub member : Bytes → List Bytes → Bool
unfolding bytes_eq
member k [] = false
member k (j ∷ s) = bytes_eq k j || member k s

unfoldable pub add : Bytes → List Bytes → List Bytes
unfolding bytes_eq bytes_lt
add k [] = k ∷ []
add k (j ∷ s) = if bytes_lt k j then k ∷ j ∷ s else if bytes_eq k j then j ∷ s else j ∷ add k s

abbrev pub keys : {V : Type 0} → List (Bytes × V) → List Bytes
keys [] = []
keys ((k, v) ∷ m) = k ∷ keys m

module _ {V : Type 0} where
  -- The value last inserted at a key is the one found there, and no other key changes.
  pub lookup-insert :
      (k j : Bytes) (v : V) (m : List (Bytes × V))
      → lookup k (insert j v m) ≡ (if bytes_eq k j then some v else lookup k m)
  unfolding lookup insert
  lookup-insert k j v [] = refl
  lookup-insert k j v ((a, w) ∷ m) =
      ground (arith, lookup-insert k j v m, bytes_eq_iff j a, bytes_eq_iff k j, bytes_eq_iff k a)

pub member-add : (k j : Bytes) (s : List Bytes) → member k (add j s) ≡ bytes_eq k j || member k s
unfolding member add
member-add k j [] = refl
member-add k j (a ∷ s) =
    ground (arith, member-add k j s, bytes_eq_iff j a, bytes_eq_iff k j, bytes_eq_iff k a)
