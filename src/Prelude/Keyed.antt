-- ===== src/Prelude/Keyed.antt =====
-- Maps whose keys are listed once: sorting by key and rebuilding them entry by entry.
use Prim.Native.String.{String}
use mathlib.Core.Path.{◌≡◌, refl, ◌∙◌}
use mathlib.Core.Bool.{true, false}
use mathlib.Core.List.{List, [], ◌∷◌}
use mathlib.Core.Option.{some}
use mathlib.Core.Logic.{inl, inr}
use native.Mathlib.Omega.{arith}
use dispatch_lab.Prelude.Tests.{if◌then◌else◌, str_eq, str_lt, str_eq_iff, Bool-cases}
use dispatch_lab.Prelude.Lists.{elem, IsDistinct}
use dispatch_lab.Prelude.Map.{lookup, insert, keys, by_key, has, elem-keys, has-insert}
use dispatch_lab.Prelude.Sort as Sort

pub str_lt_ne : (a b : String) → str_lt a b ≡ true → str_eq a b ≡ false
unfolding str_lt str_eq
str_lt_ne a b h = ground arith

module _ {ℓ} {V : Type ℓ} where
  lookup-insert_sorted :
      (k j : String) (v : V) (m : List (String × V))
      → lookup k (Sort.insert (by_key) (j, v) m) ≡ (if str_eq j k then some v else lookup k m)
  unfolding Sort.insert lookup
  lookup-insert_sorted k j v [] = refl
  lookup-insert_sorted k j v ((i, w) ∷ m) = ground (
    arith,
    lookup-insert_sorted k j v m,
    str_lt_ne i j,
    str_eq_iff i j,
    str_eq_iff j k,
    str_eq_iff i k,
  )

  -- Sorting by key leaves a map as it is.
  pub lookup-sort :
      (k : String) (m : List (String × V)) → lookup k (Sort.sort (by_key) m) ≡ lookup k m
  unfolding Sort.sort lookup
  lookup-sort k [] = refl
  lookup-sort k ((j, v) ∷ m) =
      ground (arith, lookup-insert_sorted k j v (Sort.sort (by_key) m), lookup-sort k m)

  -- A write lists no key twice.
  pub insert-IsDistinct :
      (k : String) (v : V) (m : List (String × V))
      → IsDistinct (keys m)
      → IsDistinct (keys (insert k v m))
  unfolding insert
  insert-IsDistinct k v [] h = (refl, tt)
  insert-IsDistinct k v ((j, w) ∷ m) h = elim (Bool-cases (str_eq j k)) [
    | inl e ↦ rw e h
    | inr e ↦ rw e (
      elem-keys j (insert k v m)
          ∙ ground (arith, has-insert k j v m, str_eq_iff j k, str_eq_iff k j, elem-keys j m, h.0),
      insert-IsDistinct k v m h.1,
    )
  ]

  has-insert_sorted :
      (k j : String) (v : V) (m : List (String × V))
      → has k (Sort.insert (by_key) (j, v) m) ≡ (if str_eq j k then true else has k m)
  has-insert_sorted k j v m = ground (arith, lookup-insert_sorted k j v m)

  insert_sorted-IsDistinct :
      (k : String) (v : V) (m : List (String × V))
      → elem k (keys m) ≡ false
      → IsDistinct (keys m)
      → IsDistinct (keys (Sort.insert (by_key) (k, v) m))
  unfolding Sort.insert
  insert_sorted-IsDistinct k v [] n h = (refl, tt)
  insert_sorted-IsDistinct k v ((j, w) ∷ m) n h = elim (Bool-cases (str_lt j k)) [
    | inl e ↦ rw e (
      elem-keys j (Sort.insert (by_key) (k, v) m)
          ∙ ground (
            arith,
            has-insert_sorted j k v m,
            str_eq_iff k j,
            str_lt_ne j k,
            str_eq_iff j k,
            elem-keys j m,
            h.0,
            e,
          ),
      insert_sorted-IsDistinct k v m (ground (arith, n)) h.1,
    )
    | inr e ↦ rw e (n, h)
  ]

  pub sort-IsDistinct :
      (m : List (String × V)) → IsDistinct (keys m) → IsDistinct (keys (Sort.sort (by_key) m))
  unfolding Sort.sort
  sort-IsDistinct [] h = tt
  sort-IsDistinct ((k, v) ∷ m) h =
      insert_sorted-IsDistinct k v (Sort.sort (by_key) m)
        (elem-keys k (Sort.sort (by_key) m) ∙ ground (arith, lookup-sort k m, elem-keys k m, h.0))
        (sort-IsDistinct m h.1)
