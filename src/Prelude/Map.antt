-- ===== src/Prelude/Map.antt =====
-- Go's map[string]V as an association list: a key is listed once, a write to a new key goes to
-- the end. Go leaves the order of iteration open; here it is the order of insertion.
use Prim.Native.Nat.{◌+◌, ◌≤◌}
use Prim.Native.String.{String}
use mathlib.Core.Path.{◌≡◌, refl}
use mathlib.Core.Bool.{Bool, true, false}
use mathlib.Core.List.{List, [], ◌∷◌}
use mathlib.Core.Option.{Option, none, some}
use native.Mathlib.Omega.{arith}
use dispatch_lab.Prelude.Tests.{if◌then◌else◌, str_eq, str_lt, str_eq_iff, str_eq_refl}
use dispatch_lab.Prelude.Lists.{length, elem}

module _ {ℓ} {V : Type ℓ} where
  unfoldable pub lookup : String → List (String × V) → Option V
  lookup k [] = none
  lookup k ((j, v) ∷ m) = if str_eq j k then some v else lookup k m

  unfoldable pub insert : String → V → List (String × V) → List (String × V)
  insert k v [] = (k, v) ∷ []
  insert k v ((j, w) ∷ m) = if str_eq j k then (j, v) ∷ m else (j, w) ∷ insert k v m

  unfoldable pub erase : String → List (String × V) → List (String × V)
  erase k [] = []
  erase k ((j, v) ∷ m) = if str_eq j k then erase k m else (j, v) ∷ erase k m

  abbrev pub keys : List (String × V) → List String
  keys [] = []
  keys ((k, v) ∷ m) = k ∷ keys m

  abbrev pub values : List (String × V) → List V
  values [] = []
  values ((k, v) ∷ m) = v ∷ values m

  -- Entries in the order of their keys.
  abbrev pub by_key : String × V → String × V → Bool
  by_key (j, v) (k, w) = str_lt j k

  -- `m[k]` with the zero value `d` for a missing key.
  abbrev pub lookup_or : V → String → List (String × V) → V
  lookup_or d k m = elim (lookup k m) [ none ↦ d | some v ↦ v ]

  abbrev pub has : String → List (String × V) → Bool
  has k m = elim (lookup k m) [ none ↦ false | some v ↦ true ]

  pub lookup-insert :
      (k j : String) (v : V) (m : List (String × V))
      → lookup j (insert k v m) ≡ (if str_eq k j then some v else lookup j m)
  unfolding lookup insert
  lookup-insert k j v [] = refl
  lookup-insert k j v ((i, w) ∷ m) =
      ground (arith, str_eq_iff k j, str_eq_iff i k, str_eq_iff i j, lookup-insert k j v m)

  pub lookup-insert_self :
      (k : String) (v : V) (m : List (String × V)) → lookup k (insert k v m) ≡ some v
  lookup-insert_self k v m = ground (arith, lookup-insert k k v m, str_eq_refl k)

  pub lookup-erase :
      (k j : String) (m : List (String × V))
      → lookup j (erase k m) ≡ (if str_eq k j then none else lookup j m)
  unfolding lookup erase
  lookup-erase k j [] = ground arith
  lookup-erase k j ((i, w) ∷ m) =
      ground (arith, str_eq_iff k j, str_eq_iff i k, str_eq_iff i j, lookup-erase k j m)

  pub length-insert-le :
      (k : String) (v : V) (m : List (String × V)) → length (insert k v m) ≤ length m + 1
  unfolding insert
  length-insert-le k v [] = omega arith
  length-insert-le k v ((j, w) ∷ m) = ground (arith, length-insert-le k v m)

  pub length-erase-le : (k : String) (m : List (String × V)) → length (erase k m) ≤ length m
  unfolding erase
  length-erase-le k [] = omega arith
  length-erase-le k ((j, v) ∷ m) = ground (arith, length-erase-le k m)

  -- The keys are what the map has.
  pub elem-keys : (k : String) (m : List (String × V)) → elem k (keys m) ≡ has k m
  unfolding lookup
  elem-keys k [] = refl
  elem-keys k ((j, v) ∷ m) = ground (arith, elem-keys k m)

  pub has_value :
      (k : String) (m : List (String × V)) → has k m ≡ true → (v : V) × (lookup k m ≡ some v)
  has_value k m h = ground arith

  pub has_of_lookup :
      (k : String) (m : List (String × V)) (v : V) → lookup k m ≡ some v → has k m ≡ true
  has_of_lookup k m v h = ground arith

  pub has-insert :
      (k j : String) (v : V) (m : List (String × V))
      → has j (insert k v m) ≡ (if str_eq k j then true else has j m)
  has-insert k j v m = ground (arith, lookup-insert k j v m)

  pub lookup-insert_hit :
      (k j : String) (v : V) (m : List (String × V))
      → str_eq k j ≡ true
      → lookup j (insert k v m) ≡ some v
  lookup-insert_hit k j v m h = ground (arith, lookup-insert k j v m)

  pub lookup-insert_miss :
      (k j : String) (v : V) (m : List (String × V))
      → str_eq k j ≡ false
      → lookup j (insert k v m) ≡ lookup j m
  lookup-insert_miss k j v m h = ground (arith, lookup-insert k j v m)
