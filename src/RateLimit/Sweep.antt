-- ===== src/RateLimit/Sweep.antt =====
-- internal/ratelimit/limiter.go: keys do not share an allowance, and forgotten keys are dropped.
use mathlib.Core.Path.{subst}
use dispatch_lab.Prelude.{
  some-injective, ℕ, ◌+◌, ltb, String, ◌≡◌, refl, sym, ap, ◌∙◌, inl, inr, Bool, false, Option, none,
  some, List, [], ◌∷◌, arith, IsDistinct, elem, str_eq, str_eq_iff, if◌then◌else◌, Bool-cases,
  of_if, of_option, Option-cases,
}
use dispatch_lab.Prelude.Int.{ℤ, pos, sub_ℕ, ltb_ℤ}
use dispatch_lab.Prelude.Float.{FloatLaws, FloatOps, flt, num, ◌⊖◌}
use dispatch_lab.Prelude.Map.{
  lookup, insert, has, keys, lookup-insert, lookup-insert_self, has_of_lookup, elem-keys,
}
use dispatch_lab.RateLimit.{
  Bucket, Limiter, is_stale, sweep_from, sweep, touch, write_back, refill, spend,
}

module _ {F : Type 0} where
  abbrev unless_stale : ℤ → ℕ → Option (Bucket F) → Option (Bucket F)
  unless_stale ttl now none = none
  unless_stale ttl now (some b) = if is_stale ttl now b then none else some b

  absent_sweep :
      (ttl : ℤ) (now : ℕ) (key : String) (m : List (String × Bucket F))
      → elem key (keys m) ≡ false
      → lookup key (sweep_from ttl now m) ≡ none
  unfolding sweep_from lookup
  absent_sweep ttl now key [] h = refl
  absent_sweep ttl now key ((k, b) ∷ m) h = ground (arith, absent_sweep ttl now key m)

  lookup-sweep_from :
      (ttl : ℤ) (now : ℕ) (key : String) (m : List (String × Bucket F))
      → IsDistinct (keys m)
      → lookup key (sweep_from ttl now m) ≡ unless_stale ttl now (lookup key m)
  unfolding sweep_from lookup
  lookup-sweep_from ttl now key [] d = refl
  lookup-sweep_from ttl now key ((k, b) ∷ m) (d, ds) = elim (Bool-cases (str_eq k key)) [
    | inl e ↦
        let gone =
          absent_sweep ttl now key m
            (ap (λ j. elem j (keys m)) (sym ((str_eq_iff k key).0 e)) ∙ d) in
        ground (arith, e, gone)
    | inr e ↦ ground (arith, e, lookup-sweep_from ttl now key m ds)
  ]

  IsDistinct-insert :
      (k : String) (v : Bucket F) (m : List (String × Bucket F))
      → IsDistinct (keys m)
      → IsDistinct (keys (insert k v m))
  unfolding insert
  IsDistinct-insert k v [] d = (refl, tt)
  IsDistinct-insert k v ((j, w) ∷ m) (d, ds) =
      of_if (λ (x : List (String × Bucket F)). IsDistinct (keys x)) (str_eq j k) _ _ (λ _. (d, ds))
        (λ e. (
          ground (
            arith,
            elem-keys j (insert k v m),
            lookup-insert k j v m,
            elem-keys j m,
            d,
            e,
            str_eq_iff k j,
            str_eq_iff j k,
          ),
          IsDistinct-insert k v m ds,
        ))

  -- What a call for `key` leaves of the bucket of another key.
  abbrev Beside : Limiter F → String → ℕ → String → Limiter F → Type 0
  Beside l key now j t = lookup j t.buckets ≡ (
      if has key l.buckets
      then lookup j l.buckets
      else unless_stale l.idle_ttl now (lookup j l.buckets))

  write_back_beside :
      (l : Limiter F) (key j : String) (b : Bucket F)
      → str_eq key j ≡ false
      → lookup j (write_back l key b).buckets ≡ lookup j l.buckets
  unfolding write_back
  write_back_beside l key j b ne =
      of_if (λ (t : Limiter F). lookup j t.buckets ≡ lookup j l.buckets) (has key l.buckets) _ _
        (λ _. ground (arith, lookup-insert key j b l.buckets, ne)) (λ _. refl)

  touch-Beside :
      (l : Limiter F) (key : String) (now : ℕ) (j : String)
      → IsDistinct (keys l.buckets)
      → str_eq key j ≡ false
      → Beside l key now j (touch l key now).0
  unfolding touch sweep
  touch-Beside l key now j d ne =
      let b : Bucket F = record { tokens = l.burst; last_seen = now } in
      elim (Option-cases (lookup key l.buckets)) [
        | inl e ↦
            rw (e, touch)
              (lookup-sweep_from l.idle_ttl now j (insert key b l.buckets)
                  (IsDistinct-insert key b l.buckets d)
                ∙ ground (arith, lookup-insert key j b l.buckets, ne, e))
        | inr (x, e) ↦ rw (e, touch) (ground (arith, e))
      ]

module _ {F : Type 0} where
  -- What a sweep leaves of a bucket: nothing if the time to live has passed since its last use.
  abbrev pub unless_unused : (ttl now : ℕ) → Option (Bucket F) → Option (Bucket F)
  unless_unused ttl now none = none
  unless_unused ttl now (some b) = if ltb (b.last_seen + ttl) now then none else some b

  stale-unused :
      (ttl : ℤ) (n now : ℕ) (o : Option (Bucket F))
      → ttl ≡ pos n
      → unless_stale ttl now o ≡ unless_unused n now o
  unfolding is_stale
  stale-unused ttl n now none e = refl
  stale-unused ttl n now (some b) e =
      ap (λ t. unless_stale t now (some b)) e
      ∙ ap (λ c. if c then none else some b) (past n now b.last_seen)
    where
      past : (n now seen : ℕ) → ltb_ℤ (pos n) (sub_ℕ now seen) ≡ ltb (seen + n) now
      past n now seen = ground arith

module _ {F : Type 0} ⦃fl : FloatOps F⦄ where
  spend-Beside :
      (l : Limiter F) (key : String) (now : ℕ) (j : String)
      → IsDistinct (keys l.buckets)
      → str_eq key j ≡ false
      → Beside l key now j (spend l key now).0
  unfolding spend
  spend-Beside l key now j d ne =
      of_if (λ (t : Limiter F × Bool × ℤ). Beside l key now j t.0)
        (flt (refill (touch l key now).0 (touch l key now).1 now) (num 1)) _ _
        (λ _. write_back_beside _ key j _ ne ∙ touch-Beside l key now j d ne)
        (λ _. write_back_beside _ key j _ ne ∙ touch-Beside l key now j d ne)

  -- Allow for a known key leaves the bucket of every other key alone; for a new key it only drops
  -- the buckets that have not been used for longer than the time to live, and keeps all others. The
  -- time to live is not below zero, and the limiter's map lists no key twice.
  pub spend_beside :
      (l : Limiter F) (key : String) (now ttl : ℕ) (j : String)
      → l.idle_ttl ≡ pos ttl
      → IsDistinct (keys l.buckets)
      → str_eq key j ≡ false
      → lookup j (spend l key now).0.buckets ≡ (
          if has key l.buckets
          then lookup j l.buckets
          else unless_unused ttl now (lookup j l.buckets))
  spend_beside l key now ttl j e d ne =
      spend-Beside l key now j d ne
      ∙ ap (λ o. if has key l.buckets then lookup j l.buckets else o)
          (stale-unused l.idle_ttl ttl now (lookup j l.buckets) e)

  burst-touch : (l : Limiter F) (key : String) (now : ℕ) → (touch l key now).0.burst ≡ l.burst
  unfolding touch sweep
  burst-touch l key now =
      of_option (λ (t : Limiter F × Bucket F). t.0.burst ≡ l.burst) (lookup key l.buckets) _ _
        (λ _. refl) (λ b _. refl)

  module _ (laws : FloatLaws F) where
    refill_bound : (l : Limiter F) (b : Bucket F) (now : ℕ) → flt l.burst (refill l b now) ≡ false
    unfolding refill
    refill_bound l b now =
        of_if (λ t. flt l.burst t ≡ false) (flt l.burst _) _ _ (λ _. laws.lt_irrefl l.burst)
          (λ e. e)

    write_back_bound :
        (l : Limiter F) (key : String) (b q : Bucket F) (top : F)
        → flt top b.tokens ≡ false
        → lookup key (write_back l key b).buckets ≡ some q
        → flt top q.tokens ≡ false
    unfolding write_back
    write_back_bound l key b q top h =
        of_if (λ (t : Limiter F). lookup key t.buckets ≡ some q → flt top q.tokens ≡ false)
          (has key l.buckets) _ _
          (λ _ e.
            subst (λ (x : Bucket F). flt top x.tokens ≡ false)
              (some-injective (sym (lookup-insert_self key b l.buckets) ∙ e)) h)
          (λ p e. cc (p, has_of_lookup key l.buckets q e))

    spent_bound :
        ((a : F) → flt a (a ⊖ num 1) ≡ false)
        → (top t : F) → flt top t ≡ false
        → flt top (t ⊖ num 1) ≡ false
    spent_bound lowers top t h = elim (Bool-cases (flt top (t ⊖ num 1))) [
      | inl e ↦ cc (laws.lt_le_trans top (t ⊖ num 1) t e (lowers t), h)
      | inr e ↦ e
    ]

    -- Over floats without NaN, where taking 1 away raises no number, a call leaves the key's bucket
    -- with no more tokens than the burst.
    pub spend_bound :
        ((a : F) → flt a (a ⊖ num 1) ≡ false)
        → (l : Limiter F) (key : String) (now : ℕ) (b : Bucket F)
        → lookup key (spend l key now).0.buckets ≡ some b
        → flt l.burst b.tokens ≡ false
    unfolding spend
    spend_bound lowers l key now b =
        let l1 = (touch l key now).0 in
        let t = refill l1 (touch l key now).1 now in
        let low : flt l.burst t ≡ false =
          ap (λ x. flt x t) (sym (burst-touch l key now))
          ∙ refill_bound l1 (touch l key now).1 now in
        of_if
          (λ (r : Limiter F × Bool × ℤ).
            lookup key r.0.buckets ≡ some b → flt l.burst b.tokens ≡ false)
          (flt t (num 1)) _ _ (λ _. write_back_bound l1 key _ b l.burst low)
          (λ _. write_back_bound l1 key _ b l.burst (spent_bound lowers l.burst t low))
