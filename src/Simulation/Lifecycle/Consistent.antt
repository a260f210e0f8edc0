-- ===== src/Simulation/Lifecycle/Consistent.antt =====
-- internal/simulation/simulation.go: how the maps of drivers and orders, the order counter and the
-- queue agree, and the updates of the maps that keep them so.
use dispatch_lab.Prelude.{
  some-injective, ℕ, ◌≤◌, String, ◌≡◌, ◌≢◌, sym, ap, ◌∙◌, ◌⊎◌, inl, inr, Bool, true, false, some,
  List, [], arith, elem, str_eq, str_eq_iff, Bool-cases,
}
use dispatch_lab.Prelude.Map.{lookup, insert, lookup-insert_hit, lookup-insert_miss}
use dispatch_lab.Prelude.Text.{short_id, short_id_ne_empty}
use dispatch_lab.Domain.Defs.{Driver, Order, DriverStatus, OrderStatus}
use dispatch_lab.Matching.Baseline.{is_idle}
use dispatch_lab.Simulation.Dispatch.{is_pending}

-- Somebody works on the order.
abbrev pub is_active : OrderStatus → Bool
is_active OrderStatus.assigned = true
is_active OrderStatus.en_route = true
is_active _ = false

-- The status of a busy driver and that of its order.
abbrev pub is_matched : DriverStatus → OrderStatus → Bool
is_matched DriverStatus.en_route_to_pickup OrderStatus.assigned = true
is_matched DriverStatus.delivering OrderStatus.en_route = true
is_matched _ _ = false

pub matched_active :
    (a : DriverStatus) (b : OrderStatus) → is_matched a b ≡ true → is_active b ≡ true
matched_active a b h = ground arith

module _ {ℓ} {V : Type ℓ} where
  -- What a map holds after a write is what was written or what it held.
  pub inserted :
      (k j : String) (v w : V) (m : List (String × V))
      → lookup j (insert k v m) ≡ some w
      → ((k ≡ j) × (v ≡ w)) ⊎ ((str_eq k j ≡ false) × (lookup j m ≡ some w))
  inserted k j v w m h = elim (Bool-cases (str_eq k j)) [
    | inl e ↦ inl ((str_eq_iff k j).0 e, some-injective (sym (lookup-insert_hit k j v m e) ∙ h))
    | inr e ↦ inr (e, sym (lookup-insert_miss k j v m e) ∙ h)
  ]

  pub lookup_unique :
      (k : String) (v w : V) (m : List (String × V))
      → lookup k m ≡ some v
      → lookup k m ≡ some w
      → v ≡ w
  lookup_unique k v w m h h' = some-injective (sym h ∙ h')

module _ {F : Type 0} where
  -- What a driver does: nothing, or serve the order that it names and that names it.
  pub data Duty (orders : List (String × Order F)) (id : String) (d : Driver F) : Type 0 where
    free : is_idle d.status ≡ true → d.assigned_order ≡ "" → d.route ≡ [] → Duty orders id d
    busy :
        (o : Order F)
        → lookup d.assigned_order orders ≡ some o
        → o.assigned_driver ≡ id
        → is_matched d.status o.status ≡ true
        → Duty orders id d

  -- Every driver has a duty; every order in work has a driver that serves it; order ids are
  -- numbered up to the counter; and what is pending waits in the queue.
  pub record Consistent (drivers : List (String × Driver F)) (orders : List (String × Order F))
      (count : ℕ) (queue : List String) : Type 0 where
    pub on_duty : (id : String) (d : Driver F) → lookup id drivers ≡ some d → Duty orders id d
    pub served :
        (k : String) (o : Order F)
        → lookup k orders ≡ some o
        → is_active o.status ≡ true
        → (d : Driver F) × (lookup o.assigned_driver drivers ≡ some d) × (d.assigned_order ≡ k)
    pub named :
        (k : String) (o : Order F)
        → lookup k orders ≡ some o
        → (o.id ≡ k) × ((i : ℕ) × (i ≤ count) × (k ≡ short_id "order" i))
    pub queued :
        (k : String) (o : Order F)
        → lookup k orders ≡ some o
        → is_pending o.status ≡ true
        → elem k queue ≡ true

module _ {F : Type 0} {D : List (String × Driver F)} {O : List (String × Order F)} {n : ℕ}
    {Q : List String} (c : Consistent D O n Q) where
  pub key_ne_empty : (k : String) (o : Order F) → lookup k O ≡ some o → k ≢ ""
  key_ne_empty k o h e = let (i, _, q) = (c.named k o h).1 in short_id_ne_empty i (sym q ∙ e)

  -- The order that a driver names names the driver.
  pub serves :
      (id k : String) (d : Driver F) (o : Order F)
      → lookup id D ≡ some d
      → d.assigned_order ≡ k
      → lookup k O ≡ some o
      → (o.assigned_driver ≡ id) × (is_matched d.status o.status ≡ true)
  serves id k d o h e h' = elim (c.on_duty id d h) [
    | free _ z _ ↦ absurd (key_ne_empty k o h' (sym e ∙ z))
    | busy o' q a m ↦
        let same : o' ≡ o = lookup_unique k o' o O (ap (λ x. lookup x O) (sym e) ∙ q) h' in
        (
          ap (λ x. x.assigned_driver) (sym same) ∙ a,
          ap (λ x. is_matched d.status x.status) (sym same) ∙ m,
        )
  ]

  -- Nobody but `id` serves `k`, and `id` serves no other order.
  pub record Apart (id k : String) : Type 0 where
    pub alone : (j : String) (d : Driver F) → lookup j D ≡ some d → d.assigned_order ≡ k → j ≡ id
    pub only :
        (l : String) (o : Order F)
        → lookup l O ≡ some o
        → is_active o.status ≡ true
        → o.assigned_driver ≡ id
        → l ≡ k

  -- A driver and the order it serves.
  pub own-Apart :
      (id k : String) (d : Driver F) (o : Order F)
      → lookup id D ≡ some d
      → d.assigned_order ≡ k
      → lookup k O ≡ some o
      → Apart id k
  own-Apart id k d o h e h' = record {
    alone = λ j d' q e'. sym (serves j k d' o q e' h').0 ∙ (serves id k d o h e h').0;
    only = λ l o' q act e'.
        let (d', r, z) = c.served l o' q act in
        let same : d' ≡ d = lookup_unique id d' d D (ap (λ x. lookup x D) (sym e') ∙ r) h in
        sym z ∙ ap (λ x. x.assigned_order) same ∙ e;
  }

  -- An idle driver and an order that nobody works on.
  pub free-Apart :
      (id k : String) (d : Driver F) (o : Order F)
      → lookup id D ≡ some d
      → is_idle d.status ≡ true
      → lookup k O ≡ some o
      → is_active o.status ≡ false
      → Apart id k
  free-Apart id k d o h idle h' inactive = record {
    alone = λ j d' q e'.
        let (_, m) = serves j k d' o q e' h' in cc (matched_active d'.status o.status m, inactive);
    only = λ l o' q act e'.
        let (d', r, z) = c.served l o' q act in
        let same : d' ≡ d = lookup_unique id d' d D (ap (λ x. lookup x D) (sym e') ∙ r) h in
        let (_, m) = serves id l d o' h (sym (ap (λ x. x.assigned_order) same) ∙ z) q in
        absurd (ground (arith, m, idle));
  }
