-- ===== src/Prelude/Sort.antt =====
-- Go's sort.Slice: the elements in the order of a Boolean `less`. Where `less` leaves ties the
-- source sorts by a key that is distinct, so the result is the only sorted one.
use Prim.Native.Nat.{suc}
use Prim.Native.String.{String}
use mathlib.Core.Path.{◌≡◌, refl}
use mathlib.Core.Bool.{Bool, true}
use mathlib.Core.List.{List, [], ◌∷◌, Perm}
use mathlib.Core.List.Perm
use native.Mathlib.Omega.{arith}
use dispatch_lab.Prelude.Tests.{if◌then◌else◌, str_eq, Bool-cases}
use dispatch_lab.Prelude.Lists.{length, elem}
use mathlib.Core.Logic.{inl, inr}

module _ {ℓ} {A : Type ℓ} (less : A → A → Bool) where
  unfoldable pub insert : A → List A → List A
  insert x [] = x ∷ []
  insert x (y ∷ ys) = if less y x then y ∷ insert x ys else x ∷ y ∷ ys

  unfoldable pub sort : List A → List A
  unfolding insert
  sort [] = []
  sort (x ∷ xs) = insert x (sort xs)

  insert-perm : (x : A) (ys : List A) → Perm (insert x ys) (x ∷ ys)
  unfolding insert
  insert-perm x [] = Perm.refl (x ∷ [])
  insert-perm x (y ∷ ys) = elim (Bool-cases (less y x)) [
    | inl p ↦ rw p (Perm.trans (Perm.cons y (insert-perm x ys)) (Perm.swap x y ys))
    | inr p ↦ rw p (Perm.refl (x ∷ y ∷ ys))
  ]

  -- Sorting loses nothing and adds nothing.
  pub sort-perm : (xs : List A) → Perm (sort xs) xs
  unfolding sort
  sort-perm [] = Perm.refl []
  sort-perm (x ∷ xs) = Perm.trans (insert-perm x (sort xs)) (Perm.cons x (sort-perm xs))

  length-insert : (x : A) (ys : List A) → length (insert x ys) ≡ suc (length ys)
  unfolding insert
  length-insert x [] = refl
  length-insert x (y ∷ ys) = ground (arith, length-insert x ys)

  pub length-sort : (xs : List A) → length (sort xs) ≡ length xs
  unfolding sort
  length-sort [] = refl
  length-sort (x ∷ xs) = omega (arith, length-insert x (sort xs), length-sort xs)

elem-insert :
    (less : String → String → Bool) (k x : String) (ys : List String)
    → elem k (insert less x ys) ≡ (if str_eq x k then true else elem k ys)
unfolding insert
elem-insert less k x [] = refl
elem-insert less k x (y ∷ ys) = ground (arith, elem-insert less k x ys)

pub elem-sort :
    (less : String → String → Bool) (k : String) (xs : List String)
    → elem k (sort less xs) ≡ elem k xs
unfolding sort
elem-sort less k [] = refl
elem-sort less k (x ∷ xs) = ground (arith, elem-insert less k x (sort less xs), elem-sort less k xs)
