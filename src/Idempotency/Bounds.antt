-- ===== src/Idempotency/Bounds.antt =====
-- internal/transport/http/idempotency.go: the cache stays within its capacity, and what it remembers.
use dispatch_lab.Prelude.{
  ℕ, ◌≤◌, ◌<◌, String, ◌≡◌, refl, ap, ◌∙◌, Bool, true, false, not, ◌&&◌, Option, none, some, List,
  [], ◌∷◌, arith, length, ltb, leb, str_eq, str_eq_iff, str_eq_refl, All, if◌then◌else◌, of_if,
  of_option,
}
use dispatch_lab.Idempotency.{
  StoredResponse, Cache, Sweep, is_expired, new_cache, get, put, evict, sweep_one, sweep_all, size,
}
use dispatch_lab.Prelude.Map.{
  has_value, lookup, insert, erase, has, lookup-insert, lookup-erase, length-insert-le,
  length-erase-le,
}

module _ {V : Type 0} where
  -- No key is the empty text.
  abbrev pub Named : List (String × V) → Type 0
  Named m = lookup "" m ≡ none

  -- Erasing a key that is there makes room.
  length-erase-lt :
      (k : String) (m : List (String × V)) (v : V)
      → lookup k m ≡ some v
      → length (erase k m) < length m
  unfolding lookup erase
  length-erase-lt k [] v h = cc h
  length-erase-lt k ((j, w) ∷ m) v h = ground (arith, length-erase-lt k m v, h, length-erase-le k m)

  length-insert-known :
      (k : String) (v w : V) (m : List (String × V))
      → lookup k m ≡ some w
      → length (insert k v m) ≡ length m
  unfolding lookup insert
  length-insert-known k v w [] h = cc h
  length-insert-known k v w ((j, x) ∷ m) h = ground (arith, length-insert-known k v w m, h)

-- The loop has made room in the map, or it has left the map alone and holds one of its keys.
pub data Swept (m : List (String × StoredResponse)) (begun : Bool) (s : Sweep) : Type 0 where
  roomier : length s.entries < length m → Swept m begun s
  untouched :
      s.entries ≡ m
      → (begun ≡ true → (str_eq s.oldest_key "" ≡ false) × (has s.oldest_key m ≡ true))
      → Swept m begun s

sweep_one-Swept :
    (ttl now : ℕ) (m : List (String × StoredResponse)) (begun : Bool) (s : Sweep) (key : String)
    (r : StoredResponse)
    → str_eq key "" ≡ false
    → has key m ≡ true
    → (str_eq s.oldest_key "" ≡ false → begun ≡ true)
    → Swept m begun s
    → Swept m true (sweep_one ttl now s key r)
unfolding sweep_one
sweep_one-Swept ttl now m begun s key r named known b (roomier h) =
    of_if (Swept m true) (is_expired ttl now r) _ _
      (λ _. roomier (omega (arith, h, length-erase-le key s.entries)))
      λ _.
        of_if (Swept m true) (str_eq s.oldest_key "") _ _ (λ _. roomier h)
          λ _.
            of_if (Swept m true) (ltb r.stored_at s.oldest_at) _ _ (λ _. roomier h) (λ _. roomier h)
sweep_one-Swept ttl now m begun s key r named known b (untouched e h) =
    of_if (Swept m true) (is_expired ttl now r) _ _
      (λ _. let (v, q) = has_value key m known in roomier (rw e (length-erase-lt key m v q)))
      λ _.
        of_if (Swept m true) (str_eq s.oldest_key "") _ _ (λ _. untouched e (λ _. (named, known)))
          λ held.
            of_if (Swept m true) (ltb r.stored_at s.oldest_at) _ _
              (λ _. untouched e (λ _. (named, known))) (λ _. untouched e (λ _. h (b held)))

-- What the loop is told of an entry.
abbrev Listed : List (String × StoredResponse) → String × StoredResponse → Type 0
Listed m (k, r) = (str_eq k "" ≡ false) × (has k m ≡ true)

All-Listed :
    (m es : List (String × StoredResponse))
    → Named m
    → ((k : String) → has k es ≡ true → has k m ≡ true)
    → All (Listed m) es
unfolding lookup
All-Listed m [] n h = tt
All-Listed m ((k, r) ∷ es) n h = (
  (ground (arith, h k, str_eq_iff k "", str_eq_refl k, n), h k (ground (arith, str_eq_refl k))),
  All-Listed m es n (λ j q. h j (ground (arith, q))),
)

sweep_all-Swept :
    (ttl now : ℕ) (m : List (String × StoredResponse)) (s : Sweep)
    (es : List (String × StoredResponse))
    → All (Listed m) es
    → Swept m true s
    → Swept m true (sweep_all ttl now s es)
unfolding sweep_all
sweep_all-Swept ttl now m s [] a w = w
sweep_all-Swept ttl now m s ((k, r) ∷ es) a w =
    sweep_all-Swept ttl now m (sweep_one ttl now s k r) es a.1
      (sweep_one-Swept ttl now m true s k r a.0.0 a.0.1 (λ _. refl) w)

-- A key that is not there stays away.
sweep_all-absent :
    (ttl now : ℕ) (k : String) (s : Sweep) (es : List (String × StoredResponse))
    → lookup k s.entries ≡ none
    → lookup k (sweep_all ttl now s es).entries ≡ none
unfolding sweep_all sweep_one
sweep_all-absent ttl now k s [] h = h
sweep_all-absent ttl now k s ((j, r) ∷ es) h =
    sweep_all-absent ttl now k (sweep_one ttl now s j r) es (
      of_if (λ (t : Sweep). lookup k t.entries ≡ none) (is_expired ttl now r) _ _
        (λ _. lookup-erase j k s.entries ∙ ground (arith, h))
        λ _.
          of_if (λ (t : Sweep). lookup k t.entries ≡ none) (str_eq s.oldest_key "") _ _ (λ _. h)
            λ _.
              of_if (λ (t : Sweep). lookup k t.entries ≡ none) (ltb r.stored_at s.oldest_at) _ _
                (λ _. h) (λ _. h))

-- A cache within its capacity.
pub record Valid (c : Cache) : Type 0 where
  pub some_room : 0 < c.max
  pub fits : length c.entries ≤ c.max
  pub named : Named c.entries

evicted :
    (c : Cache) (s : Sweep)
    → 0 < c.max
    → length c.entries ≤ c.max
    → Swept c.entries true s
    → length (
        if leb c.max (length s.entries) && not (str_eq s.oldest_key "")
        then erase s.oldest_key s.entries
        else s.entries)
      < c.max
evicted c s room fits (roomier h) =
    ground (arith, room, fits, h, length-erase-le s.oldest_key s.entries)
evicted c s room fits (untouched e h) =
    let (held, there) = h refl in
    let (v, q) = has_value s.oldest_key s.entries (rw e there) in
    ground (arith, fits, held, ap length e, length-erase-lt s.oldest_key s.entries v q)

whole-Swept :
    (ttl now : ℕ) (m : List (String × StoredResponse))
    → Named m
    → 0 < length m
    → Swept m true (sweep_all ttl now (record { entries = m; oldest_key = ""; oldest_at = 0 }) m)
unfolding sweep_all
whole-Swept ttl now [] n h = absurd (omega (arith, h))
whole-Swept ttl now ((k, r) ∷ es) n h =
    let m : List (String × StoredResponse) = (k, r) ∷ es in
    let start : Sweep = record { entries = m; oldest_key = ""; oldest_at = 0 } in
    let a = All-Listed m m n (λ j q. q) in
    sweep_all-Swept ttl now m (sweep_one ttl now start k r) es a.1 (
      sweep_one-Swept ttl now m false start k r a.0.0 a.0.1 (λ q. cc (q, str_eq_refl ""))
        (untouched refl (λ q. cc q)))

evict-fits :
    (c : Cache) (now : ℕ)
    → Valid c
    → c.max ≤ length c.entries
    → length (evict c now).entries < c.max
unfolding evict
evict-fits c now v full =
    evicted c _ v.some_room v.fits
      (whole-Swept c.ttl now c.entries v.named (omega (arith, v.some_room, full)))

evict-Named : (c : Cache) (now : ℕ) → Named c.entries → Named (evict c now).entries
unfolding evict
evict-Named c now n =
    let start : Sweep = record { entries = c.entries; oldest_key = ""; oldest_at = 0 } in
    let s = sweep_all c.ttl now start c.entries in
    let absent = sweep_all-absent c.ttl now "" start c.entries n in
    of_if Named (leb c.max (length s.entries) && not (str_eq s.oldest_key "")) _ _
      (λ _. lookup-erase s.oldest_key "" s.entries ∙ ground (arith, absent)) (λ _. absent)

-- One call of the cache, at a reading of the clock.
pub data Call : Type 0 where
  get_call : (now : ℕ) (key : String) → Call
  put_call : (now : ℕ) (key : String) (response : StoredResponse) → Call

abbrev pub is_named : Call → Bool
is_named (get_call now key) = true
is_named (put_call now key response) = not (str_eq key "")

abbrev pub call : Cache → Call → Cache
call c (get_call now key) = (get c now key).0
call c (put_call now key response) = put c now key response

abbrev pub calls : Cache → List Call → Cache
calls c [] = c
calls c (x ∷ xs) = calls (call c x) xs

stored-Valid :
    (c : Cache) (key : String) (r : StoredResponse)
    → 0 < c.max
    → length c.entries < c.max
    → Named c.entries
    → str_eq key "" ≡ false
    → Valid (record c { entries = insert key r c.entries })
stored-Valid c key r room fits named k = record {
  some_room = room;
  fits = omega (arith, fits, length-insert-le key r c.entries);
  named = ground (arith, lookup-insert key "" r c.entries, named, k);
}

call-Valid : (c : Cache) (x : Call) → Valid c → is_named x ≡ true → Valid (call c x)
unfolding get put evict
call-Valid c (get_call now key) v n =
    of_option (λ (p : Cache × Option StoredResponse). Valid p.0) (lookup key c.entries) _ _ (λ _. v)
      λ r _.
        of_if (λ (p : Cache × Option StoredResponse). Valid p.0) (is_expired c.ttl now r) _ _
          (λ _. record {
            some_room = v.some_room;
            fits = omega (arith, v.fits, length-erase-le key c.entries);
            named = lookup-erase key "" c.entries ∙ ground (arith, v.named);
          })
          (λ _. v)
call-Valid c (put_call now key response) v n =
    let r = record response { stored_at = now } in
    of_if (λ (d : Cache). Valid (record d { entries = insert key r d.entries }))
      (leb c.max (length c.entries)) _ _
      (λ full.
        stored-Valid (evict c now) key r v.some_room (evict-fits c now v (ground (arith, full)))
          (evict-Named c now v.named) (ground (arith, n)))
      (λ room. stored-Valid c key r v.some_room (ground (arith, room)) v.named (ground (arith, n)))

calls-Valid :
    (c : Cache) (xs : List Call) → Valid c → All (λ x. is_named x ≡ true) xs → Valid (calls c xs)
calls-Valid c [] v a = v
calls-Valid c (x ∷ xs) v a = calls-Valid (call c x) xs (call-Valid c x v a.0) a.1

call-max : (c : Cache) (x : Call) → (call c x).max ≡ c.max
unfolding get put evict
call-max c (get_call now key) =
    of_option (λ (p : Cache × Option StoredResponse). p.0.max ≡ c.max) (lookup key c.entries) _ _
      (λ _. refl)
      λ r _.
        of_if (λ (p : Cache × Option StoredResponse). p.0.max ≡ c.max) (is_expired c.ttl now r) _ _
          (λ _. refl) (λ _. refl)
call-max c (put_call now key response) =
    of_if (λ (d : Cache). d.max ≡ c.max) (leb c.max (length c.entries)) _ _ (λ _. refl) (λ _. refl)

calls-max : (c : Cache) (xs : List Call) → (calls c xs).max ≡ c.max
calls-max c [] = refl
calls-max c (x ∷ xs) = calls-max (call c x) xs ∙ call-max c x

new-Valid : (ttl max : ℕ) → Valid (new_cache ttl max)
unfolding new_cache lookup
new-Valid ttl max = record { some_room = ground arith; fits = ground arith; named = refl }

-- After every sequence of reads and writes, at any readings of the clock, the cache holds at most
-- as many outcomes as its capacity, as long as no outcome is written under the empty key.
pub size-calls :
    (ttl max : ℕ) (xs : List Call)
    → All (λ x. is_named x ≡ true) xs
    → size (calls (new_cache ttl max) xs) ≤ (new_cache ttl max).max
unfolding size
size-calls ttl max xs a =
    let v = calls-Valid (new_cache ttl max) xs (new-Valid ttl max) a in
    rw (calls-max (new_cache ttl max) xs) at v.fits
