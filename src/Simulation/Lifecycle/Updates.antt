-- ===== src/Simulation/Lifecycle/Updates.antt =====
-- internal/simulation/simulation.go: the writes to the maps of drivers and orders that keep them
-- consistent.
use mathlib.Core.Path.{subst, subst₂}
use dispatch_lab.Prelude.{
  ℕ, ◌≤◌, String, ◌≡◌, sym, ap, ◌∙◌, inl, inr, true, false, some, List, str_eq, str_eq_iff,
  Bool-cases,
}
use dispatch_lab.Prelude.Map.{
  lookup, insert, lookup-insert_hit, lookup-insert_miss, lookup-insert_self,
}
use dispatch_lab.Prelude.Text.{short_id}
use dispatch_lab.Domain.Defs.{Driver, Order}
use dispatch_lab.Matching.Baseline.{is_idle}
use dispatch_lab.Simulation.Dispatch.{is_pending}
use dispatch_lab.Simulation.Lifecycle.Consistent.{
  is_active, is_matched, inserted, lookup_unique, Duty, free, busy, Consistent, Apart,
}

module _ {F : Type 0} {D : List (String × Driver F)} {O : List (String × Order F)} {n : ℕ}
    {Q : List String} (c : Consistent D O n Q) where
  -- A driver moves: it keeps its status and its order, and gets no route while idle.
  pub moved-Consistent :
      (id : String) (d d' : Driver F)
      → lookup id D ≡ some d
      → d'.status ≡ d.status
      → d'.assigned_order ≡ d.assigned_order
      → (is_idle d.status ≡ true → d'.route ≡ d.route)
      → Consistent (insert id d' D) O n Q
  moved-Consistent id d d' h s a parked = record {
    on_duty = λ j e q. elim (inserted id j d' e D q) [
      | inl (p, r) ↦
          duty j e (ap (λ x. x.status) (sym r) ∙ s) (ap (λ x. x.assigned_order) (sym r) ∙ a)
            (λ i. ap (λ x. x.route) (sym r) ∙ parked i)
            (c.on_duty j d (ap (λ x. lookup x D) (sym p) ∙ h))
      | inr (_, q') ↦ c.on_duty j e q'
    ];
    served = λ k o q act.
        let (e, r, z) = c.served k o q act in
        elim (Bool-cases (str_eq id o.assigned_driver)) [
          | inl p ↦ (
            d',
            lookup-insert_hit id o.assigned_driver d' D p,
            a
                ∙ ap (λ x. x.assigned_order)
                    (lookup_unique id d e D h
                      (ap (λ x. lookup x D) ((str_eq_iff id o.assigned_driver).0 p) ∙ r))
                ∙ z,
          )
          | inr p ↦ (e, lookup-insert_miss id o.assigned_driver d' D p ∙ r, z)
        ];
    named = c.named;
    queued = c.queued;
  }
    where
      duty :
          (j : String) (e : Driver F)
          → e.status ≡ d.status
          → e.assigned_order ≡ d.assigned_order
          → (is_idle d.status ≡ true → e.route ≡ d.route)
          → Duty O j d
          → Duty O j e
      duty j e p q w (free i z r) = free (ap is_idle p ∙ i) (q ∙ z) (w i ∙ r)
      duty j e p q w (busy o l g m) =
          busy o (ap (λ x. lookup x O) q ∙ l) g (ap (λ x. is_matched x o.status) p ∙ m)

  -- The two writes of a change to a driver and to the order that it alone serves.
  module _ (id k : String) (d' : Driver F) (o o' : Order F) (apart : Apart c id k)
      (known : lookup k O ≡ some o) (same_id : o'.id ≡ o.id)
      (settled : is_pending o'.status ≡ false) (duty : Duty (insert k o' O) id d')
      (back : is_active o'.status ≡ true
        → (o'.assigned_driver ≡ id) × (d'.assigned_order ≡ k)) where
    other-Duty :
        (j : String) (e : Driver F)
        → lookup j D ≡ some e
        → str_eq id j ≡ false
        → Duty (insert k o' O) j e
    other-Duty j e h ne = elim (c.on_duty j e h) [
      | free i z e' ↦ free i z e'
      | busy q l a m ↦ elim (Bool-cases (str_eq k e.assigned_order)) [
        | inl p ↦
            let mine : j ≡ id = apart.alone j e h (sym ((str_eq_iff k e.assigned_order).0 p)) in
            cc (ne, (str_eq_iff id j).1 (sym mine))
        | inr p ↦ busy q (lookup-insert_miss k e.assigned_order o' O p ∙ l) a m
      ]
    ]

    other-served :
        (l : String) (q : Order F)
        → lookup l O ≡ some q
        → is_active q.status ≡ true
        → str_eq k l ≡ false
        → (e : Driver F) × (lookup q.assigned_driver (insert id d' D) ≡ some e)
          × (e.assigned_order ≡ l)
    other-served l q h act ne =
        let (e, r, z) = c.served l q h act in
        elim (Bool-cases (str_eq id q.assigned_driver)) [
          | inl p ↦
              let mine : l ≡ k =
                apart.only l q h act (sym ((str_eq_iff id q.assigned_driver).0 p)) in
              cc (ne, (str_eq_iff k l).1 (sym mine))
          | inr p ↦ (e, lookup-insert_miss id q.assigned_driver d' D p ∙ r, z)
        ]

    reaches :
        (q : Order F)
        → o' ≡ q
        → is_active q.status ≡ true
        → lookup q.assigned_driver (insert id d' D) ≡ some d'
    reaches q r act =
        ap (λ x. lookup x (insert id d' D))
          (ap (λ x. x.assigned_driver) (sym r) ∙ (back (ap (λ x. is_active x.status) r ∙ act)).0)
        ∙ lookup-insert_self id d' D

    pub both-Consistent : Consistent (insert id d' D) (insert k o' O) n Q
    both-Consistent = record {
      on_duty = λ j e h. elim (inserted id j d' e D h) [
        | inl (p, r) ↦ subst₂ (λ x y. Duty (insert k o' O) x y) p r duty
        | inr (ne, q) ↦ other-Duty j e q ne
      ];
      served = λ l q h act. elim (inserted k l o' q O h) [
        | inl (p, r) ↦ (d', reaches q r act, (back (ap (λ x. is_active x.status) r ∙ act)).1 ∙ p)
        | inr (ne, q') ↦ other-served l q q' act ne
      ];
      named = λ l q h. elim (inserted k l o' q O h) [
        | inl (p, r) ↦ (
          ap (λ x. x.id) (sym r) ∙ same_id ∙ (c.named k o known).0 ∙ p,
          subst (λ x. (i : ℕ) × (i ≤ n) × (x ≡ short_id "order" i)) p (c.named k o known).1,
        )
        | inr (ne, q') ↦ c.named l q q'
      ];
      queued = λ l q h pending. elim (inserted k l o' q O h) [
        | inl (p, r) ↦ cc (settled, ap (λ x. is_pending x.status) r, pending)
        | inr (ne, q') ↦ c.queued l q q' pending
      ];
    }
