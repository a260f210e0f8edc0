-- ===== src/Scenarios/Limits.antt =====
-- A limiter of one token a second with two callers, of whom one has long been silent.
use dispatch_lab.Prelude.{
  ℕ, ◌≡◌, refl, false, some, [], ◌∷◌, arith, IsDistinct, str_eq, if◌then◌else◌,
}
use dispatch_lab.Prelude.Int.{pos}
use dispatch_lab.Prelude.Float.{nat_float, nat_float-laws}
use dispatch_lab.Prelude.Map.{lookup, insert, has, keys}
use dispatch_lab.RateLimit.{Limiter, spend, touch, refill, write_back, seconds}
use dispatch_lab.RateLimit.Sweep.{unless_unused, spend_beside, spend_bound}

abbrev limiter : Limiter ℕ
limiter = record {
  rate = 1;
  burst = 3;
  idle_ttl = pos 10;
  buckets =
      ("caller", record { tokens = 2; last_seen = 95 })
      ∷ ("silent", record { tokens = 0; last_seen = 5 })
      ∷ [];
}

callers-IsDistinct : IsDistinct (keys limiter.buckets)
unfolding str_eq
callers-IsDistinct = (refl, (refl, tt))

new_apart : str_eq "new" "silent" ≡ false
unfolding str_eq
new_apart = refl

spend_beside_example : lookup "silent" (spend limiter "new" 100).0.buckets ≡ (
    if has "new" limiter.buckets
    then lookup "silent" limiter.buckets
    else unless_unused 10 100 (lookup "silent" limiter.buckets))
spend_beside_example = spend_beside limiter "new" 100 10 "silent" refl callers-IsDistinct new_apart

lowers : (a : ℕ) → nat_float.lt a (nat_float.sub a (nat_float.of_int (pos 1))) ≡ false
unfolding nat_float
lowers a = ground arith

one_left :
    lookup "caller" (spend limiter "caller" 100).0.buckets
    ≡ some (record { tokens = 1; last_seen = 100 })
unfolding spend touch refill write_back seconds nat_float lookup insert str_eq
one_left = refl

spend_bound_example : nat_float.lt 3 1 ≡ false
spend_bound_example =
    spend_bound nat_float-laws lowers limiter "caller" 100 (record { tokens = 1; last_seen = 100 })
      one_left
