-- ===== src/Prelude/Rising.antt =====
-- Lists sorted by a number: sort.Slice with `less` on a field whose values are distinct.
use Prim.Native.Nat.{ℕ, zero, suc, ◌≤◌, ◌<◌}
use mathlib.Core.Path.{◌≡◌}
use mathlib.Core.Bool.{Bool, false}
use mathlib.Core.List.{List, [], ◌∷◌, ◌++◌}
use native.Mathlib.Omega.{arith}
use dispatch_lab.Prelude.Tests.{ltb, ◌==◌, of_if}
use dispatch_lab.Prelude.Lists.{All, keep, take}
use dispatch_lab.Prelude.Sort as Sort

module _ {ℓ} {A : Type ℓ} (key : A → ℕ) where
  -- The keys rise, from `n` on.
  abbrev pub IsRising : ℕ → List A → Type 0
  IsRising n [] = Unit
  IsRising n (x ∷ xs) = (n ≤ key x) × IsRising (suc (key x)) xs

  -- No element has the key.
  abbrev pub Misses : ℕ → List A → Type 0
  Misses n = All (λ x. (key x == n) ≡ false)

  abbrev pub HasDistinct : List A → Type 0
  HasDistinct [] = Unit
  HasDistinct (x ∷ xs) = Misses (key x) xs × HasDistinct xs

  abbrev pub before : A → A → Bool
  before x y = ltb (key x) (key y)

  Misses-insert :
      (n : ℕ) (x : A) (ys : List A)
      → (key x == n) ≡ false
      → Misses n ys
      → Misses n (Sort.insert before x ys)
  unfolding Sort.insert
  Misses-insert n x [] h r = (h, tt)
  Misses-insert n x (y ∷ ys) h r =
      of_if (Misses n) (before y x) _ _ (λ _. (r.0, Misses-insert n x ys h r.1)) (λ _. (h, r))

  pub Misses-sort : (n : ℕ) (ys : List A) → Misses n ys → Misses n (Sort.sort before ys)
  unfolding Sort.sort
  Misses-sort n [] r = tt
  Misses-sort n (y ∷ ys) r = Misses-insert n y (Sort.sort before ys) r.0 (Misses-sort n ys r.1)

  insert-IsRising :
      (n : ℕ) (x : A) (ys : List A)
      → n ≤ key x
      → Misses (key x) ys
      → IsRising n ys
      → IsRising n (Sort.insert before x ys)
  unfolding Sort.insert
  insert-IsRising n x [] h m r = (h, tt)
  insert-IsRising n x (y ∷ ys) h m r =
      of_if (IsRising n) (before y x) _ _
        (λ e. (r.0, insert-IsRising (suc (key y)) x ys (ground (arith, e)) m.1 r.1))
        (λ e. (h, (ground (arith, e, m.0), r.1)))

  pub sort-IsRising : (xs : List A) → HasDistinct xs → IsRising 0 (Sort.sort before xs)
  unfolding Sort.sort
  sort-IsRising [] d = tt
  sort-IsRising (x ∷ xs) d =
      insert-IsRising 0 x (Sort.sort before xs) (omega arith) (Misses-sort (key x) xs d.0)
        (sort-IsRising xs d.1)

  rising-Misses : (n k : ℕ) (xs : List A) → n < k → IsRising k xs → Misses n xs
  rising-Misses n k [] h r = tt
  rising-Misses n k (x ∷ xs) h r =
      (ground (arith, h, r.0), rising-Misses n (suc (key x)) xs (omega (arith, h, r.0)) r.1)

  pub rising-HasDistinct : (k : ℕ) (xs : List A) → IsRising k xs → HasDistinct xs
  rising-HasDistinct k [] r = tt
  rising-HasDistinct k (x ∷ xs) r = (
    rising-Misses (key x) (suc (key x)) xs (omega arith) r.1,
    rising-HasDistinct (suc (key x)) xs r.1,
  )

  pub Misses-snoc :
      (n : ℕ) (xs : List A) (x : A) → Misses n xs → (key x == n) ≡ false → Misses n (xs ++ x ∷ [])
  Misses-snoc n [] x m h = (h, tt)
  Misses-snoc n (y ∷ ys) x m h = (m.0, Misses-snoc n ys x m.1 h)

  pub HasDistinct-snoc :
      (xs : List A) (x : A) → HasDistinct xs → Misses (key x) xs → HasDistinct (xs ++ x ∷ [])
  HasDistinct-snoc [] x d m = (tt, tt)
  HasDistinct-snoc (y ∷ ys) x d m =
      (Misses-snoc (key y) ys x d.0 (ground (arith, m.0)), HasDistinct-snoc ys x d.1 m.1)

  pub lower : (n k : ℕ) (xs : List A) → n ≤ k → IsRising k xs → IsRising n xs
  lower n k [] h r = tt
  lower n k (x ∷ xs) h r = (omega (arith, h, r.0), r.1)

  keep-IsRising : (p : A → Bool) (n : ℕ) (xs : List A) → IsRising n xs → IsRising n (keep p xs)
  keep-IsRising p n [] r = tt
  keep-IsRising p n (x ∷ xs) r =
      of_if (IsRising n) (p x) _ _ (λ _. (r.0, keep-IsRising p (suc (key x)) xs r.1))
        (λ _. keep-IsRising p n xs (lower n (suc (key x)) xs (omega (arith, r.0)) r.1))

  -- What is left of a rising list above a bound rises from there.
  pub keep_above :
      (bound n : ℕ) (xs : List A)
      → IsRising n xs
      → IsRising (suc bound) (keep (λ x. ltb bound (key x)) xs)
  keep_above bound n [] r = tt
  keep_above bound n (x ∷ xs) r =
      of_if (IsRising (suc bound)) (ltb bound (key x)) _ _
        (λ e. (ground (arith, e), keep-IsRising (λ y. ltb bound (key y)) (suc (key x)) xs r.1))
        (λ _. keep_above bound (suc (key x)) xs r.1)

  pub take-IsRising : (m n : ℕ) (xs : List A) → IsRising n xs → IsRising n (take m xs)
  take-IsRising zero n xs r = tt
  take-IsRising (suc m) n [] r = tt
  take-IsRising (suc m) n (x ∷ xs) r = (r.0, take-IsRising m (suc (key x)) xs r.1)
