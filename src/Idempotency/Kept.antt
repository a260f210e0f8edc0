-- ===== src/Idempotency/Kept.antt =====
-- internal/transport/http/idempotency.go: an outcome is found again while it is young enough and
-- the cache has room for what comes after it.
use dispatch_lab.Prelude.{
  ℕ, suc, ◌+◌, ◌-◌, ◌≤◌, String, ◌≡◌, refl, Bool, true, false, not, Option, none, some, List, [],
  ◌∷◌, arith, All, length, ltb, leb, str_eq, if◌then◌else◌, of_if, of_option,
}
use dispatch_lab.Prelude.Map.{
  lookup, insert, lookup-insert, lookup-insert_self, lookup-erase, length-insert-le,
  length-erase-le,
}
use dispatch_lab.Idempotency.{StoredResponse, Cache, is_expired, get, put, evict, size}
use dispatch_lab.Idempotency.Bounds.{Call, get_call, put_call, calls}

-- The call is about another key.
abbrev pub is_apart : String → Call → Bool
is_apart key (get_call now other) = not (str_eq other key)
is_apart key (put_call now other response) = not (str_eq other key)

-- The writes among the calls.
abbrev pub writes : List Call → ℕ
writes [] = 0
writes (get_call now key ∷ xs) = writes xs
writes (put_call now key response ∷ xs) = suc (writes xs)

-- The outcome is there, and there is room for `n` more.
record Kept (key : String) (r : StoredResponse) (life cap n : ℕ) (c : Cache) : Type 0 where
  there : lookup key c.entries ≡ some r
  room : length c.entries + n ≤ cap
  ttl : c.ttl ≡ life
  max : c.max ≡ cap

not_full : (n k l max : ℕ) → n + suc k ≤ l → max ≡ l → leb max n ≡ false
not_full n k l max h e = ground (arith, h, e)

get-Kept :
    (key other : String) (r : StoredResponse) (ttl max n now : ℕ) (c : Cache)
    → str_eq other key ≡ false
    → Kept key r ttl max n c
    → Kept key r ttl max n (get c now other).0
unfolding get
get-Kept key other r ttl max n now c apart k =
    let P : Cache × Option StoredResponse → Type 0 = λ p. Kept key r ttl max n p.0 in
    of_option P (lookup other c.entries) _ _ (λ _. k)
      λ x _.
        of_if P (is_expired c.ttl now x) _ _
          (λ _. record {
            there = ground (arith, lookup-erase other key c.entries, apart, k.there);
            room = omega (arith, k.room, length-erase-le other c.entries);
            ttl = k.ttl;
            max = k.max;
          })
          (λ _. k)

put-Kept :
    (key other : String) (r response : StoredResponse) (ttl max n now : ℕ) (c : Cache)
    → str_eq other key ≡ false
    → Kept key r ttl max (suc n) c
    → Kept key r ttl max n (put c now other response)
unfolding put
put-Kept key other r response ttl max n now c apart k =
    let x = record response { stored_at = now } in
    of_if (λ (d : Cache). Kept key r ttl max n (record d { entries = insert other x d.entries }))
      (leb c.max (length c.entries)) _ _
      (λ full. cc (full, not_full (length c.entries) n max c.max k.room k.max))
      (λ room. record {
        there = ground (arith, lookup-insert other key x c.entries, apart, k.there);
        room = omega (arith, k.room, length-insert-le other x c.entries);
        ttl = k.ttl;
        max = k.max;
      })

calls-Kept :
    (key : String) (r : StoredResponse) (ttl max : ℕ) (c : Cache) (xs : List Call)
    → All (λ x. is_apart key x ≡ true) xs
    → Kept key r ttl max (writes xs) c
    → Kept key r ttl max 0 (calls c xs)
calls-Kept key r ttl max c [] a k = k
calls-Kept key r ttl max c (get_call now other ∷ xs) a k =
    calls-Kept key r ttl max (get c now other).0 xs a.1
      (get-Kept key other r ttl max (writes xs) now c (ground (arith, a.0)) k)
calls-Kept key r ttl max c (put_call now other response ∷ xs) a k =
    calls-Kept key r ttl max (put c now other response) xs a.1
      (put-Kept key other r response ttl max (writes xs) now c (ground (arith, a.0)) k)

put-there :
    (c : Cache) (now : ℕ) (key : String) (response : StoredResponse)
    → (lookup key (put c now key response).entries ≡ some (record response { stored_at = now }))
      × ((put c now key response).ttl ≡ c.ttl)
      × ((put c now key response).max ≡ c.max)
unfolding put evict
put-there c now key response =
    let r = record response { stored_at = now } in
    of_if
      (λ (d : Cache).
        (lookup key (insert key r d.entries) ≡ some r) × (d.ttl ≡ c.ttl) × (d.max ≡ c.max))
      (leb c.max (length c.entries)) _ _ (λ _. (lookup-insert_self key r _, refl, refl))
      (λ _. (lookup-insert_self key r _, refl, refl))

get_known :
    (d : Cache) (later ttl : ℕ) (key : String) (r : StoredResponse)
    → lookup key d.entries ≡ some r
    → d.ttl ≡ ttl
    → (get d later key).1 ≡ (if ltb ttl (later - r.stored_at) then none else some r)
unfolding get
get_known d later ttl key r h e =
    rw (get, h)
      (of_if
        (λ (p : Cache × Option StoredResponse).
          p.1 ≡ (if ltb ttl (later - r.stored_at) then none else some r))
        (is_expired d.ttl later r) _ _ (λ p. ground (arith, p, e)) (λ p. ground (arith, p, e)))

-- An outcome that was written is found as it was, with the time of the write, after any reads and
-- writes of other keys, as long as it is no older than the cache's limit; later it is not found. The
-- cache has room for the outcomes that it holds after the write and all those that are written since:
-- at its capacity it may drop the oldest.
pub get-calls :
    (c : Cache) (now later : ℕ) (key : String) (response : StoredResponse) (xs : List Call)
    → size (put c now key response) + writes xs ≤ c.max
    → All (λ x. is_apart key x ≡ true) xs
    → (get (calls (put c now key response) xs) later key).1
      ≡ (if ltb c.ttl (later - now) then none else some (record response { stored_at = now }))
unfolding size
get-calls c now later key response xs room apart =
    let d = put c now key response in
    let r = record response { stored_at = now } in
    let (there, ttl, max) = put-there c now key response in
    let k =
      calls-Kept key r c.ttl c.max d xs apart
        (record { there = there; room = room; ttl = ttl; max = max }) in
    get_known (calls d xs) later c.ttl key r k.there k.ttl
