-- ===== src/Store/Log.antt =====
-- internal/store/memory.go: the event log of a run is in the order of its numbers, each once.
use dispatch_lab.Prelude.{
  ℕ, suc, String, ◌≡◌, refl, sym, ap, ◌∙◌, inl, inr, true, false, List, [], ◌∷◌, ◌++◌, arith, elem,
  exists, keep, ltb, str_eq, str_eq_iff, ◌==◌, Bool-cases, of_if,
}
use dispatch_lab.Prelude.Map.{lookup, lookup_or, insert, lookup-insert}
use dispatch_lab.Prelude.Sort as Sort
use dispatch_lab.Prelude.Rising.{
  IsRising, Misses, HasDistinct, Misses-sort, sort-IsRising, rising-HasDistinct, Misses-snoc,
  HasDistinct-snoc, keep_above, take-IsRising,
}
use dispatch_lab.Store.Memory.{
  Memory, StoredEvent, new_memory, append_one, append_each, by_sequence, sort_touched,
  append_events, events_after,
}
use dispatch_lab.Store.Retry.{knows}

module _ {ℓ} {V : Type ℓ} where
  lookup_or_hit :
      (k j : String) (d v : V) (m : List (String × V))
      → str_eq k j ≡ true
      → lookup_or d j (insert k v m) ≡ v
  lookup_or_hit k j d v m e = ground (arith, lookup-insert k j v m, e)

  lookup_or_miss :
      (k j : String) (d v : V) (m : List (String × V))
      → str_eq k j ≡ false
      → lookup_or d j (insert k v m) ≡ lookup_or d j m
  lookup_or_miss k j d v m e = ground (arith, lookup-insert k j v m, e)

module _ {F P : Type 0} where
  abbrev number : StoredEvent F P → ℕ
  number e = e.sequence

  abbrev log : Memory F P → String → List (StoredEvent F P)
  log m id = lookup_or [] id m.events

  -- While a batch is appended: numbers occur once, a number that is not known is not in the log,
  -- and a log that was not touched is in order.
  record Appending (m : Memory F P) (touched : List String) : Type 0 where
    distinct : (id : String) → HasDistinct number (log m id)
    known : (id : String) (n : ℕ) → knows m id n ≡ false → Misses number n (log m id)
    ordered : (id : String) → elem id touched ≡ false → IsRising number 0 (log m id)

  append_one-Appending :
      (m : Memory F P) (touched : List String) (e : StoredEvent F P)
      → Appending m touched
      → let t = append_one (m, touched) e in Appending t.0 t.1
  unfolding append_one
  append_one-Appending m touched e a =
      of_if (λ (t : Memory F P × List String). Appending t.0 t.1)
        (exists (λ n. n == e.sequence) (lookup_or [] e.simulation_id m.seen)) _ _ (λ _. a)
        (λ fresh. record {
          distinct = λ id. elim (Bool-cases (str_eq e.simulation_id id)) [
            | inl p ↦
                rw
                  (lookup_or_hit e.simulation_id id [] (log m e.simulation_id ++ e ∷ []) m.events p)
                  (HasDistinct-snoc number (log m e.simulation_id) e (a.distinct e.simulation_id)
                    (a.known e.simulation_id e.sequence fresh))
            | inr p ↦
                rw
                  (lookup_or_miss e.simulation_id id [] (log m e.simulation_id ++ e ∷ []) m.events
                    p)
                  (a.distinct id)
          ];
          known = λ id n h. elim (Bool-cases (str_eq e.simulation_id id)) [
            | inl p ↦
                let noted : exists (λ k. k == n) (e.sequence ∷ lookup_or [] e.simulation_id m.seen)
                    ≡ false =
                  ap (exists (λ k. k == n)) (
                    sym (
                      lookup_or_hit e.simulation_id id []
                        (e.sequence ∷ lookup_or [] e.simulation_id m.seen) m.seen p))
                  ∙ h in
                rw
                  (lookup_or_hit e.simulation_id id [] (log m e.simulation_id ++ e ∷ []) m.events p)
                  (Misses-snoc number n (log m e.simulation_id) e
                    (a.known e.simulation_id n (ground (arith, noted))) (ground (arith, noted)))
            | inr p ↦
                rw
                  (lookup_or_miss e.simulation_id id [] (log m e.simulation_id ++ e ∷ []) m.events
                    p)
                  (a.known id n (
                    ap (exists (λ k. k == n)) (
                      sym (
                        lookup_or_miss e.simulation_id id []
                          (e.sequence ∷ lookup_or [] e.simulation_id m.seen) m.seen p))
                    ∙ h))
          ];
          ordered = λ id h. elim (Bool-cases (str_eq e.simulation_id id)) [
            | inl p ↦ absurd (ground (arith, h, p))
            | inr p ↦
                rw
                  (lookup_or_miss e.simulation_id id [] (log m e.simulation_id ++ e ∷ []) m.events
                    p)
                  (a.ordered id (ground (arith, h, p)))
          ];
        })

  append_each-Appending :
      (mt : Memory F P × List String) (es : List (StoredEvent F P))
      → Appending mt.0 mt.1
      → let t = append_each mt es in Appending t.0 t.1
  unfolding append_each
  append_each-Appending mt [] a = a
  append_each-Appending mt (e ∷ es) a =
      append_each-Appending (append_one mt e) es (append_one-Appending mt.0 mt.1 e a)

  sort_touched-Appending :
      (m : Memory F P) (ids : List String) → Appending m ids → Appending (sort_touched m ids) []
  unfolding sort_touched by_sequence
  sort_touched-Appending m [] a = a
  sort_touched-Appending m (k ∷ ids) a =
      let sorted = Sort.sort by_sequence (log m k) in
      let rising = sort-IsRising number (log m k) (a.distinct k) in
      sort_touched-Appending (record m { events = insert k sorted m.events }) ids
        (record {
          distinct = λ id. elim (Bool-cases (str_eq k id)) [
            | inl p ↦
                rw (lookup_or_hit k id [] sorted m.events p)
                  (rising-HasDistinct number 0 sorted rising)
            | inr p ↦ rw (lookup_or_miss k id [] sorted m.events p) (a.distinct id)
          ];
          known = λ id n h. elim (Bool-cases (str_eq k id)) [
            | inl p ↦ rw (lookup_or_hit k id [] sorted m.events p) (
                Misses-sort number n (log m k)
                  (a.known k n (ap (λ j. knows m j n) ((str_eq_iff k id).0 p) ∙ h)))
            | inr p ↦ rw (lookup_or_miss k id [] sorted m.events p) (a.known id n h)
          ];
          ordered = λ id h. elim (Bool-cases (str_eq k id)) [
            | inl p ↦ rw (lookup_or_hit k id [] sorted m.events p) rising
            | inr p ↦
                rw (lookup_or_miss k id [] sorted m.events p) (a.ordered id (ground (arith, h, p)))
          ];
        })

  abbrev pub append_all : Memory F P → List (List (StoredEvent F P)) → Memory F P
  append_all m [] = m
  append_all m (es ∷ batches) = append_all (append_events m es) batches

  append_all-Appending :
      (m : Memory F P) (batches : List (List (StoredEvent F P)))
      → Appending m []
      → Appending (append_all m batches) []
  unfolding append_events
  append_all-Appending m [] a = a
  append_all-Appending m (es ∷ batches) a =
      let t = append_each (m, []) es in
      append_all-Appending (append_events m es) batches
        (sort_touched-Appending t.0 t.1 (append_each-Appending (m, []) es a))

  -- Whatever batches were appended, in whatever order and however often, Events returns for a run
  -- events whose numbers strictly rise and lie above the one asked for, each number once.
  pub events_after-IsRising :
      (batches : List (List (StoredEvent F P))) (id : String) (from limit : ℕ)
      → IsRising
          (λ (e : StoredEvent F P). e.sequence)
          (suc from)
          (events_after (append_all new_memory batches) id from limit)
  unfolding events_after new_memory lookup
  events_after-IsRising batches id from limit =
      let m : Memory F P = append_all new_memory batches in
      let a =
        append_all-Appending new_memory batches
          (record { distinct = λ j. tt; known = λ j n h. tt; ordered = λ j h. tt }) in
      let later = keep_above number from 0 (log m id) (a.ordered id refl) in
      of_if (IsRising number (suc from)) (limit == 0) _ _ (λ _. later)
        (λ _.
          take-IsRising number limit (suc from)
            (keep (λ (e : StoredEvent F P). ltb from e.sequence) (log m id)) later)
