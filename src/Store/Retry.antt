-- ===== src/Store/Retry.antt =====
-- internal/store/memory.go: appending a batch again changes nothing.
use dispatch_lab.Prelude.{
  ℕ, String, ◌≡◌, refl, ap, ◌∙◌, Bool, true, List, [], ◌∷◌, arith, exists, All, str_eq_iff, ◌==◌,
  of_if,
}
use dispatch_lab.Prelude.Map.{lookup, lookup_or, insert, lookup-insert}
use dispatch_lab.Prelude.Sort as Sort
use dispatch_lab.Store.Memory.{
  Memory, StoredEvent, append_one, append_each, sort_touched, append_events,
}

module _ {F P : Type 0} where
  -- The store has the number of the event.
  abbrev pub knows : Memory F P → String → ℕ → Bool
  knows m id n = exists (λ k. k == n) (lookup_or [] id m.seen)

  knows-append_one :
      (mt : Memory F P × List String) (e : StoredEvent F P) (id : String) (n : ℕ)
      → knows mt.0 id n ≡ true
      → knows (append_one mt e).0 id n ≡ true
  unfolding append_one
  knows-append_one (m, touched) e id n h =
      of_if (λ (t : Memory F P × List String). knows t.0 id n ≡ true)
        (exists (λ k. k == e.sequence) (lookup_or [] e.simulation_id m.seen)) _ _ (λ _. h)
        (λ _. ground (
          arith,
          h,
          lookup-insert e.simulation_id id (e.sequence ∷ lookup_or [] e.simulation_id m.seen)
              m.seen,
          str_eq_iff e.simulation_id id,
          λ (q : e.simulation_id ≡ id). ap (λ k. lookup k m.seen) q,
        ))

  knows-append_each :
      (mt : Memory F P × List String) (es : List (StoredEvent F P)) (id : String) (n : ℕ)
      → knows mt.0 id n ≡ true
      → knows (append_each mt es).0 id n ≡ true
  unfolding append_each
  knows-append_each mt [] id n h = h
  knows-append_each mt (e ∷ es) id n h =
      knows-append_each (append_one mt e) es id n (knows-append_one mt e id n h)

  append_one-knows :
      (mt : Memory F P × List String) (e : StoredEvent F P)
      → knows (append_one mt e).0 e.simulation_id e.sequence ≡ true
  unfolding append_one
  append_one-knows (m, touched) e =
      of_if (λ (t : Memory F P × List String). knows t.0 e.simulation_id e.sequence ≡ true)
        (exists (λ k. k == e.sequence) (lookup_or [] e.simulation_id m.seen)) _ _ (λ h. h)
        (λ _. ground (
          arith,
          lookup-insert e.simulation_id e.simulation_id
              (e.sequence ∷ lookup_or [] e.simulation_id m.seen) m.seen,
          str_eq_iff e.simulation_id e.simulation_id,
        ))

  -- The store has every event of the list.
  abbrev pub Holds : Memory F P → List (StoredEvent F P) → Type 0
  Holds m = All (λ e. knows m e.simulation_id e.sequence ≡ true)

  append_each-Holds :
      (mt : Memory F P × List String) (es : List (StoredEvent F P)) → Holds (append_each mt es).0 es
  unfolding append_each
  append_each-Holds mt [] = tt
  append_each-Holds mt (e ∷ es) = (
    knows-append_each (append_one mt e) es e.simulation_id e.sequence (append_one-knows mt e),
    append_each-Holds (append_one mt e) es,
  )

  seen-sort_touched : (m : Memory F P) (ids : List String) → (sort_touched m ids).seen ≡ m.seen
  unfolding sort_touched
  seen-sort_touched m [] = refl
  seen-sort_touched m (id ∷ ids) =
      seen-sort_touched
        (record m { events = insert id (Sort.sort _ (lookup_or [] id m.events)) m.events }) ids

  held_again :
      (mt : Memory F P × List String) (es : List (StoredEvent F P))
      → Holds mt.0 es
      → append_each mt es ≡ mt
  unfolding append_each append_one
  held_again mt [] h = refl
  held_again (m, touched) (e ∷ es) h = rw h.0 (held_again (m, touched) es h.1)

  Holds-seen :
      (m t : Memory F P) (es : List (StoredEvent F P)) → t.seen ≡ m.seen → Holds m es → Holds t es
  Holds-seen m t [] q h = tt
  Holds-seen m t (e ∷ es) q h = (
    ap (λ s. exists (λ k. k == e.sequence) (lookup_or [] e.simulation_id s)) q ∙ h.0,
    Holds-seen m t es q h.1,
  )

  -- A batch that is appended again, as after a lost reply, leaves the store exactly as it is.
  pub append_events_again :
      (m : Memory F P) (es : List (StoredEvent F P))
      → append_events (append_events m es) es ≡ append_events m es
  unfolding append_events sort_touched
  append_events_again m es =
      let (t, touched) = append_each (m, []) es in
      let u = sort_touched t touched in
      ap (λ (x : Memory F P × List String). sort_touched x.0 x.1)
        (held_again (u, []) es
          (Holds-seen t u es (seen-sort_touched t touched) (append_each-Holds (m, []) es)))
