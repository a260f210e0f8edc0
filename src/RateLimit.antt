-- ===== src/RateLimit.antt =====
-- internal/ratelimit/limiter.go: the token bucket per key. Instants are nanoseconds, a duration is
-- the difference of two; the clock's reading is an argument of Allow. `none` is the nil limiter.
pub mod Sweep
use dispatch_lab.Prelude.{
  ℕ, zero, suc, ◌*◌, ◌/◌, ◌%◌, ◌^◌, String, Bool, true, false, not, Option, none, some, List, [],
  ◌∷◌, length, if◌then◌else◌,
}
use dispatch_lab.Prelude.Int.{ℤ, pos, negsuc, pos_part, neg_part, sub_ℕ, ◌+ℤ◌, ltb_ℤ}
use dispatch_lab.Prelude.Float.{FloatOps, flt, fle, ◌⊕◌, ◌⊖◌, ◌⊗◌, ◌⊘◌, num}
use dispatch_lab.Prelude.Map.{lookup, lookup_or, insert, has}

-- `bucket`
pub record Bucket (F : Type 0) : Type 0 where
  pub tokens : F
  pub last_seen : ℕ

pub record Limiter (F : Type 0) : Type 0 where
  pub rate : F
  pub burst : F
  pub idle_ttl : ℤ
  pub buckets : List (String × Bucket F)

pub record Config (F : Type 0) : Type 0 where
  pub per_second : F
  pub burst : F
  pub idle_ttl : ℤ

-- `time.Second` and `10 * time.Minute`
abbrev pub second : ℕ
second = 10 ^ 9

abbrev pub ten_minutes : ℤ
ten_minutes = pos (600 * second)

module _ {F : Type 0} where
  -- `now.Sub(b.lastSeen) > l.idleTTL`
  unfoldable pub is_stale : ℤ → ℕ → Bucket F → Bool
  is_stale ttl now b = ltb_ℤ ttl (sub_ℕ now b.last_seen)

  unfoldable pub sweep_from : ℤ → ℕ → List (String × Bucket F) → List (String × Bucket F)
  sweep_from ttl now [] = []
  sweep_from ttl now ((key, b) ∷ m) =
      let rest = sweep_from ttl now m in if is_stale ttl now b then rest else (key, b) ∷ rest

  unfoldable pub sweep : Limiter F → ℕ → Limiter F
  sweep l now = record l { buckets = sweep_from l.idle_ttl now l.buckets }

  unfoldable pub size : Option (Limiter F) → ℕ
  size none = 0
  size (some l) = length l.buckets

  -- The bucket of the key, new and full if there was none; only a new one makes a sweep.
  unfoldable pub touch : Limiter F → String → ℕ → Limiter F × Bucket F
  touch l key now = elim (lookup key l.buckets) [
    | some b ↦ (l, b)
    | none ↦
        let b : Bucket F = record { tokens = l.burst; last_seen = now } in
        (sweep (record l { buckets = insert key b l.buckets }) now, b)
  ]

  -- A write through the pointer: a bucket that was swept is written to in vain.
  unfoldable pub write_back : Limiter F → String → Bucket F → Limiter F
  write_back l key b =
      if has key l.buckets then record l { buckets = insert key b l.buckets } else l

module _ {F : Type 0} ⦃fl : FloatOps F⦄ where
  -- `New`
  unfoldable pub new_limiter : Config F → Option (Limiter F)
  new_limiter cfg =
      if fle cfg.per_second (num 0)
      then none
      else some (record {
        rate = cfg.per_second;
        burst = if fle cfg.burst (num 0) then cfg.per_second else cfg.burst;
        idle_ttl = if ltb_ℤ (pos 0) cfg.idle_ttl then cfg.idle_ttl else ten_minutes;
        buckets = [];
      })

  -- `Duration.Seconds`: whole seconds and the rest, both towards zero.
  unfoldable pub seconds : ℤ → F
  seconds (pos n) = num (n / second) ⊕ num (n % second) ⊘ num second
  seconds (negsuc n) =
      fl.of_int (sub_ℕ 0 (suc n / second)) ⊕ fl.of_int (sub_ℕ 0 (suc n % second)) ⊘ num second

  -- The tokens after the time since the last call, at most `burst`.
  unfoldable pub refill : Limiter F → Bucket F → ℕ → F
  refill l b now =
      let tokens = b.tokens ⊕ seconds (sub_ℕ now b.last_seen) ⊗ l.rate in
      if flt l.burst tokens then l.burst else tokens

  -- `Allow` on a limiter that is not nil: the limiter, the answer and the time to wait.
  unfoldable pub spend : Limiter F → String → ℕ → Limiter F × Bool × ℤ
  spend l key now =
      let (l1, b) = touch l key now in
      let tokens = refill l1 b now in
      if flt tokens (num 1)
      then (
        write_back l1 key (record { tokens = tokens; last_seen = now }),
        false,
        fl.trunc ((num 1 ⊖ tokens) ⊘ l1.rate ⊗ num second) +ℤ pos (10 ^ 6),
      )
      else (write_back l1 key (record { tokens = tokens ⊖ num 1; last_seen = now }), true, pos 0)

  unfoldable pub allow : Option (Limiter F) → String → ℕ → Option (Limiter F) × Bool × ℤ
  allow none key now = (none, true, pos 0)
  allow (some l) key now = let (t, allowed, wait) = spend l key now in (some t, allowed, wait)
