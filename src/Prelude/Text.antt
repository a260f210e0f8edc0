-- ===== src/Prelude/Text.antt =====
-- fmt.Sprintf("%d") and "%s-%d": decimal numerals, and that different numbers read differently.
use Prim.Native.Nat.{ℕ, zero, suc, ◌+◌, ◌-◌, ◌*◌, ◌/◌, ◌%◌, ◌<◌}
use Prim.Native.Char.{code}
use Prim.Native.String.{String, ◌++◌, count}
use Prim.Native.String.append
use mathlib.Core.Path.{◌≡◌, refl, sym, ap, ◌∙◌}
use mathlib.Core.Logic.{inl, inr}
use mathlib.Core.List.{List, [], ◌∷◌}
use native.Mathlib.Omega.{arith}
use text.Mathlib.TextLemmas.{append_cancel_left, length-append}
use dispatch_lab.Prelude.Tests.{ltb, ltb→lt, if◌then◌else◌, Bool-cases}
use dispatch_lab.Prelude.Lists.{get_or}
use dispatch_lab.Prelude.Int.{ℤ, pos, negsuc}

abbrev numerals : List String
numerals = "0" ∷ "1" ∷ "2" ∷ "3" ∷ "4" ∷ "5" ∷ "6" ∷ "7" ∷ "8" ∷ "9" ∷ []

digit : ℕ → String
digit d = get_or numerals d ""

decimal_fuel : ℕ → ℕ → String
decimal_fuel zero n = ""
decimal_fuel (suc fuel) n =
    let front = decimal_fuel fuel (n / 10) in if ltb n 10 then digit n else front ++ digit (n % 10)

unfoldable pub decimal : ℕ → String
unfolding decimal_fuel digit
decimal n = decimal_fuel (suc n) n

-- "%s-%s"
unfoldable pub dashed : String → String → String
dashed a b = a ++ ("-" ++ b)

-- "%d" of a whole number.
unfoldable pub signed : ℤ → String
unfolding decimal dashed
signed (pos n) = decimal n
signed (negsuc n) = dashed "" (decimal (suc n))

unfoldable pub short_id : String → ℕ → String
unfolding decimal
short_id prefix i = prefix ++ ("-" ++ decimal i)

-- The number that a run of digits stands for, read after `acc`.
value : ℕ → String → ℕ
value acc String.[] = acc
value acc (String.◌∷◌ c s) = value (acc * 10 + (code c - 48)) s

value-append : (acc : ℕ) (s t : String) → value acc (s ++ t) ≡ value (value acc s) t
unfolding value
value-append acc String.[] t = ap (value acc) (append.nil t)
value-append acc (String.◌∷◌ c s) t =
    ap (value acc) (append.cons c s t) ∙ value-append (acc * 10 + (code c - 48)) s t

value-digit : (acc d : ℕ) → d < 10 → value acc (digit d) ≡ acc * 10 + d
unfolding value digit
value-digit acc zero h = refl
value-digit acc (suc zero) h = refl
value-digit acc (suc (suc zero)) h = refl
value-digit acc (suc (suc (suc zero))) h = refl
value-digit acc (suc (suc (suc (suc zero)))) h = refl
value-digit acc (suc (suc (suc (suc (suc zero))))) h = refl
value-digit acc (suc (suc (suc (suc (suc (suc zero)))))) h = refl
value-digit acc (suc (suc (suc (suc (suc (suc (suc zero))))))) h = refl
value-digit acc (suc (suc (suc (suc (suc (suc (suc (suc zero)))))))) h = refl
value-digit acc (suc (suc (suc (suc (suc (suc (suc (suc (suc zero))))))))) h = refl
value-digit acc (suc (suc (suc (suc (suc (suc (suc (suc (suc (suc d)))))))))) h =
    absurd (omega arith)

value-decimal_fuel : (fuel n : ℕ) → n < fuel → value 0 (decimal_fuel fuel n) ≡ n
unfolding decimal_fuel
value-decimal_fuel zero n h = absurd (omega arith)
value-decimal_fuel (suc fuel) n h = elim (Bool-cases (ltb n 10)) [
  | inl p ↦ rw p (omega (arith, value-digit 0 n (ltb→lt n 10 p)))
  | inr p ↦ rw p (
      value-append 0 (decimal_fuel fuel (n / 10)) (digit (n % 10))
      ∙ ap (λ a. value a (digit (n % 10))) (value-decimal_fuel fuel (n / 10) (ground arith))
      ∙ value-digit (n / 10) (n % 10) (omega arith)
      ∙ omega arith)
]

pub decimal_injective : (m n : ℕ) → decimal m ≡ decimal n → m ≡ n
unfolding decimal
decimal_injective m n e =
    sym (value-decimal_fuel (suc m) m (omega arith))
    ∙ ap (value 0) e
    ∙ value-decimal_fuel (suc n) n (omega arith)

-- Two ids of one prefix are equal only if their numbers are.
pub short_id_injective : (p : String) (m n : ℕ) → short_id p m ≡ short_id p n → m ≡ n
unfolding short_id
short_id_injective p m n e = decimal_injective m n (
    append_cancel_left "-" (decimal m) (decimal n)
      (append_cancel_left p ("-" ++ decimal m) ("-" ++ decimal n) e))

pub short_id_ne_empty : (i : ℕ) → short_id "order" i ≡ "" → ⊥
unfolding short_id
short_id_ne_empty i e = omega (arith, ap count e, length-append "order" ("-" ++ decimal i))
