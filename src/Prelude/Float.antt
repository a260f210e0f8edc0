-- ===== src/Prelude/Float.antt =====
-- Go's float64 as an interface: a type with the operations and tests that the source uses. The
-- operations stay abstract (they round); `FloatLaws` has the laws of the order that hold of all
-- values but NaN, which the source never computes with.
use Prim.Native.Nat.{ℕ, zero, suc, ◌+◌, ◌-◌, ◌*◌, ◌/◌}
use mathlib.Core.Path.{◌≡◌}
use mathlib.Core.Bool.{Bool, true, false, not}
use native.Mathlib.Omega.{arith}
use dispatch_lab.Prelude.Tests.{ltb, leb, ◌==◌, if◌then◌else◌}
use dispatch_lab.Prelude.Int.{ℤ, pos, pos_part}

pub record FloatOps (F : Type 0) : Type 0 where
  pub add : F → F → F
  pub sub : F → F → F
  pub mul : F → F → F
  pub div : F → F → F
  pub sqrt : F → F
  -- int(math.Floor(x))
  pub floor : F → ℤ
  -- int(x), towards zero
  pub trunc : F → ℤ
  -- float64(n)
  pub of_int : ℤ → F
  -- the constant n / d, rounded once
  pub literal : ℕ → ℕ → F
  pub lt : F → F → Bool
  pub eq : F → F → Bool

infixl 65 ◌⊕◌ ◌⊖◌
infixl 70 ◌⊗◌ ◌⊘◌
module _ {F : Type 0} ⦃fl : FloatOps F⦄ where
  abbrev pub ◌⊕◌ : F → F → F
  ◌⊕◌ = fl.add

  abbrev pub ◌⊖◌ : F → F → F
  ◌⊖◌ = fl.sub

  abbrev pub ◌⊗◌ : F → F → F
  ◌⊗◌ = fl.mul

  abbrev pub ◌⊘◌ : F → F → F
  ◌⊘◌ = fl.div

  abbrev pub flt : F → F → Bool
  flt = fl.lt

  abbrev pub feq : F → F → Bool
  feq = fl.eq

  -- `a <= b` and `a >= b` of Go, on values that are not NaN.
  abbrev pub fle : F → F → Bool
  fle a b = not (flt b a)

  abbrev pub num : ℕ → F
  num n = fl.of_int (pos n)

pub record FloatLaws (F : Type 0) ⦃fl : FloatOps F⦄ : Type 0 where
  pub lt_irrefl : (a : F) → fl.lt a a ≡ false
  pub lt_trans : (a b c : F) → fl.lt a b ≡ true → fl.lt b c ≡ true → fl.lt a c ≡ true
  pub le_lt_trans : (a b c : F) → fl.lt b a ≡ false → fl.lt b c ≡ true → fl.lt a c ≡ true
  pub lt_le_trans : (a b c : F) → fl.lt a b ≡ true → fl.lt c b ≡ false → fl.lt a c ≡ true
  -- A number that is not below zero does not lower a sum, however the sum is rounded.
  pub add_grows : (a w : F) → fl.lt w (fl.of_int (pos 0)) ≡ false → fl.lt (fl.add a w) a ≡ false

-- A carrier on which everything runs: whole numbers, subtraction stopping at 0.
isqrt_below : ℕ → ℕ → ℕ
isqrt_below zero n = zero
isqrt_below (suc k) n = let rest = isqrt_below k n in if leb (suc k * suc k) n then suc k else rest

instance unfoldable pub nat_float : FloatOps ℕ
unfolding isqrt_below
nat_float = record {
  add = ◌+◌;
  sub = ◌-◌;
  mul = ◌*◌;
  div = ◌/◌;
  sqrt = λ n. isqrt_below n n;
  floor = pos;
  trunc = pos;
  of_int = pos_part;
  literal = ◌/◌;
  lt = ltb;
  eq = ◌==◌;
}

pub nat_float-laws : FloatLaws ℕ
unfolding nat_float
nat_float-laws = record {
  lt_irrefl = λ a. ground arith;
  lt_trans = λ a b c h k. ground arith;
  le_lt_trans = λ a b c h k. ground arith;
  lt_le_trans = λ a b c h k. ground arith;
  add_grows = λ a w h. ground arith;
}
