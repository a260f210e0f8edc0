-- ===== src/Simulation/Lifecycle/Queue.antt =====
-- internal/simulation/simulation.go: the writes to orders and to the queue that keep the maps
-- consistent, from the placing of an order to its assignment or refusal.
use mathlib.Core.Path.{subst}
use dispatch_lab.Prelude.{
  ℕ, ◌+◌, ◌≤◌, String, ◌≡◌, sym, ap, ◌∙◌, inl, inr, true, false, some, List, ◌∷◌, arith, elem,
  str_eq, str_eq_iff, Bool-cases,
}
use dispatch_lab.Prelude.Map.{lookup, insert, lookup-insert_miss, lookup-insert_self}
use dispatch_lab.Prelude.Text.{short_id, short_id_injective}
use dispatch_lab.Domain.Defs.{Driver, Order}
use dispatch_lab.Matching.Baseline.{is_idle}
use dispatch_lab.Simulation.Dispatch.{is_pending}
use dispatch_lab.Simulation.Lifecycle.Consistent.{
  is_active, is_matched, matched_active, inserted, lookup_unique, free, busy, Consistent,
  free-Apart,
}
use dispatch_lab.Simulation.Lifecycle.Updates.{both-Consistent}

module _ {F : Type 0} {D : List (String × Driver F)} {O : List (String × Order F)} {n : ℕ}
    {Q : List String} (c : Consistent D O n Q) where
  -- An order that nobody works on gets a final status.
  pub refused-Consistent :
      (k : String) (o o' : Order F)
      → lookup k O ≡ some o
      → is_active o.status ≡ false
      → o'.id ≡ o.id
      → is_active o'.status ≡ false
      → is_pending o'.status ≡ false
      → Consistent D (insert k o' O) n Q
  refused-Consistent k o o' known inactive same_id inactive' settled = record {
    on_duty = λ j e h. elim (c.on_duty j e h) [
      | free i z e' ↦ free i z e'
      | busy q l a m ↦ elim (Bool-cases (str_eq k e.assigned_order)) [
        | inl p ↦
            let same : q ≡ o =
              lookup_unique k q o O (ap (λ x. lookup x O) ((str_eq_iff k e.assigned_order).0 p) ∙ l)
                known in
            cc (matched_active e.status q.status m, ap (λ x. is_active x.status) same, inactive)
        | inr p ↦ busy q (lookup-insert_miss k e.assigned_order o' O p ∙ l) a m
      ]
    ];
    served = λ l q h act. elim (inserted k l o' q O h) [
      | inl (p, r) ↦ cc (ap (λ x. is_active x.status) r, inactive', act)
      | inr (ne, q') ↦ c.served l q q' act
    ];
    named = λ l q h. elim (inserted k l o' q O h) [
      | inl (p, r) ↦ (
        ap (λ x. x.id) (sym r) ∙ same_id ∙ (c.named k o known).0 ∙ p,
        subst (λ x. (i : ℕ) × (i ≤ n) × (x ≡ short_id "order" i)) p (c.named k o known).1,
      )
      | inr (ne, q') ↦ c.named l q q'
    ];
    queued = λ l q h pending. elim (inserted k l o' q O h) [
      | inl (p, r) ↦ cc (settled, ap (λ x. is_pending x.status) r, pending)
      | inr (ne, q') ↦ c.queued l q q' pending
    ];
  }

  -- The queue may change as long as every pending order stays in it.
  pub queued-Consistent :
      (Q' : List String)
      → ((k : String) (o : Order F)
          → lookup k O ≡ some o
          → is_pending o.status ≡ true
          → elem k Q ≡ true
          → elem k Q' ≡ true)
      → Consistent D O n Q'
  queued-Consistent Q' keeps = record {
    on_duty = c.on_duty;
    served = c.served;
    named = c.named;
    queued = λ k o h pending. keeps k o h pending (c.queued k o h pending);
  }

  -- A key in front of the queue that is no pending order may leave it.
  pub left-Consistent :
      (k : String) (Q' : List String)
      → Q ≡ k ∷ Q'
      → ((o : Order F) → lookup k O ≡ some o → is_pending o.status ≡ false)
      → Consistent D O n Q'
  left-Consistent k Q' front no_wait = queued-Consistent Q' (λ l o h pending m.
      elim (Bool-cases (str_eq k l)) [
        | inl p ↦ cc (no_wait o (ap (λ x. lookup x O) ((str_eq_iff k l).0 p) ∙ h), pending)
        | inr p ↦ ground (arith, ap (elem l) front)
      ])

  fresh_key :
      (k : String) (o : Order F) → lookup k O ≡ some o → str_eq (short_id "order" (n + 1)) k ≡ false
  fresh_key k o h = elim (Bool-cases (str_eq (short_id "order" (n + 1)) k)) [
    | inl p ↦
        let (i, le, q) = (c.named k o h).1 in
        let e =
          short_id_injective "order" (n + 1) i
            ((str_eq_iff (short_id "order" (n + 1)) k).0 p ∙ q) in
        absurd (omega (arith, e, le))
    | inr p ↦ p
  ]

  -- A new order under the next id waits in front of the queue.
  pub placed-Consistent :
      (o : Order F)
      → o.id ≡ short_id "order" (n + 1)
      → is_active o.status ≡ false
      → Consistent D (insert (short_id "order" (n + 1)) o O) (n + 1) (short_id "order" (n + 1) ∷ Q)
  placed-Consistent o id_is inactive =
      let k = short_id "order" (n + 1) in
      record {
        on_duty = λ j e h. elim (c.on_duty j e h) [
          | free i z e' ↦ free i z e'
          | busy q l a m ↦
              busy q
                (lookup-insert_miss k e.assigned_order o O (fresh_key e.assigned_order q l) ∙ l) a m
        ];
        served = λ l q h act. elim (inserted k l o q O h) [
          | inl (p, r) ↦ cc (ap (λ x. is_active x.status) r, inactive, act)
          | inr (ne, q') ↦ c.served l q q' act
        ];
        named = λ l q h. elim (inserted k l o q O h) [
          | inl (p, r) ↦ (ap (λ x. x.id) (sym r) ∙ id_is ∙ p, (n + 1, omega arith, sym p))
          | inr (ne, q') ↦ let (e, (i, le, g)) = c.named l q q' in (e, (i, omega (arith, le), g))
        ];
        queued = λ l q h pending. elim (inserted k l o q O h) [
          | inl (p, r) ↦ ground (arith, (str_eq_iff k l).1 p)
          | inr (ne, q') ↦ ground (arith, c.queued l q q' pending)
        ];
      }

module _ {F : Type 0} {D : List (String × Driver F)} {O : List (String × Order F)} {n : ℕ}
    {Q : List String} (c : Consistent D O n Q) where
  -- An idle driver takes a pending order from the front of the queue.
  pub engaged-Consistent :
      (id k : String) (d d' : Driver F) (o o' : Order F) (Q' : List String)
      → Q ≡ k ∷ Q'
      → lookup id D ≡ some d
      → is_idle d.status ≡ true
      → lookup k O ≡ some o
      → is_pending o.status ≡ true
      → o'.id ≡ o.id
      → o'.assigned_driver ≡ id
      → d'.assigned_order ≡ o.id
      → is_matched d'.status o'.status ≡ true
      → Consistent (insert id d' D) (insert k o' O) n Q'
  engaged-Consistent id k d d' o o' Q' front at idle known waits same_id by to m =
      let to_k : d'.assigned_order ≡ k = to ∙ (c.named k o known).0 in
      let settled : is_pending o'.status ≡ false = ground (arith, m) in
      let next =
        both-Consistent c id k d' o o' (free-Apart c id k d o at idle known (ground (arith, waits)))
          known same_id settled
          (busy o' (ap (λ x. lookup x (insert k o' O)) to_k ∙ lookup-insert_self k o' O) by m)
          (λ _. (by, to_k)) in
      left-Consistent next k Q' front (λ q h. ground (arith, lookup-insert_self k o' O, settled))
