-- ===== src/Service/Manager/Slots.antt =====
-- internal/service/manager.go: the slot that PlaceOrder claims.
use dispatch_lab.Prelude.{
  ℕ, ◌+◌, ◌-◌, String, ◌≡◌, refl, sym, ap, ◌∙◌, true, false, not, some, List, arith, str_eq,
  str_eq_iff, if◌then◌else◌, of_if, of_option, length, ltb, leb,
}
use dispatch_lab.Prelude.Map.{lookup, insert, lookup-insert, lookup-insert_miss, lookup-insert_self}
use dispatch_lab.Simulation.Actor.{Command, place_order}
use dispatch_lab.Service.Manager.{
  Entry, Manager, Answer, done, is_done, authorize, submit, reserve_order, release_order, order,
  max_orders_per_run, command_buffer,
}

positive : (n : ℕ) → ltb 0 (n + 1) ≡ true
positive n = ground arith

one_back : (n : ℕ) → n + 1 - 1 ≡ n
one_back n = omega arith

-- A second write of what was there undoes the first.
insert_twice {ℓ} :
    {V : Type ℓ} (m : List (String × V)) (id x : String) (v w : V)
    → lookup id m ≡ some v
    → lookup x (insert id v (insert id w m)) ≡ lookup x m
insert_twice m id x v w q =
    lookup-insert id x v (insert id w m)
    ∙ of_if (λ o. o ≡ lookup x m) (str_eq id x) (some v) (lookup x (insert id w m))
        (λ p. sym (ap (λ k. lookup k m) (sym ((str_eq_iff id x).0 p)) ∙ q))
        (λ p. lookup-insert_miss id x w m p)

module _ {F : Type 0} where
  -- The two managers have the same runs, each with the same owner, orders and commands.
  abbrev SameRuns : Manager F → Manager F → Type 0
  SameRuns m n = (x : String) → lookup x n.entries ≡ lookup x m.entries

  -- A slot that was claimed and given back.
  given_back :
      (m : Manager F) (id : String) (e : Entry F)
      → lookup id m.entries ≡ some e
      → SameRuns m (
          release_order
            (record m { entries = insert id (record e { orders = e.orders + 1 }) m.entries })
            id)
  unfolding release_order
  given_back m id e q x =
      rw
        (
          release_order,
          lookup-insert_self id (record e { orders = e.orders + 1 }) m.entries,
          positive e.orders,
          one_back e.orders,
        )
        (insert_twice m.entries id x e (record e { orders = e.orders + 1 }) q)

  -- A refused order: what `submit` leaves is what it was given.
  pub submit_refused :
      (m : Manager F) (id token : String) (cmd : Command F)
      → is_done (submit m id token cmd).1 ≡ false
      → (submit m id token cmd).0 ≡ m
  unfolding submit
  submit_refused m id token cmd =
      of_option (λ (p : Manager F × Answer). is_done p.1 ≡ false → p.0 ≡ m) (lookup id m.entries) _
        _ (λ q h. refl)
        λ e q.
          of_if (λ (p : Manager F × Answer). is_done p.1 ≡ false → p.0 ≡ m)
            (not (authorize e token)) _ _ (λ p h. refl)
            (λ p.
              of_if (λ (p : Manager F × Answer). is_done p.1 ≡ false → p.0 ≡ m)
                (ltb (length e.commands) command_buffer) _ _ (λ k h. cc h) (λ k h. refl))

  -- A reservation is refused without a trace, or takes one slot of a run that is there.
  pub data Reserved (m : Manager F) (id : String) : Manager F × Answer → Type 0 where
    no_slot : (a : Answer) → is_done a ≡ false → Reserved m id (m, a)
    slot :
        (e : Entry F)
        → lookup id m.entries ≡ some e
        → leb max_orders_per_run e.orders ≡ false
        → Reserved m id
            (record m { entries = insert id (record e { orders = e.orders + 1 }) m.entries }, done)

  pub reserve-Reserved :
      (m : Manager F) (id token : String) → Reserved m id (reserve_order m id token)
  unfolding reserve_order
  reserve-Reserved m id token =
      of_option (Reserved m id) (lookup id m.entries) _ _ (λ q. no_slot _ refl)
        λ e q.
          of_if (Reserved m id) (not (authorize e token)) _ _ (λ p. no_slot _ refl)
            (λ p.
              of_if (Reserved m id) (leb max_orders_per_run e.orders) _ _ (λ k. no_slot _ refl)
                (λ k. slot e q k))

  module _ (m : Manager F) (id token pickup destination : String) where
    -- What follows the reservation in `order`.
    abbrev pub after_reserve : Manager F × Answer → Manager F × Answer
    after_reserve (m1, a) =
        if not (is_done a)
        then (m1, a)
        else let (m2, b) = submit m1 id token (place_order pickup destination) in
          if is_done b then (m2, done) else (release_order m2 id, b)

    after-Reserved :
        (r : Manager F × Answer)
        → Reserved m id r
        → is_done (after_reserve r).1 ≡ false
        → SameRuns m (after_reserve r).0
    after-Reserved _ (no_slot a n) h x = rw n refl
    after-Reserved _ (slot e q room) h x =
        let m1 = record m { entries = insert id (record e { orders = e.orders + 1 }) m.entries } in
        let s = submit m1 id token (place_order pickup destination) in
        (of_if
            (λ (p : Manager F × Answer).
              is_done p.1 ≡ false → lookup x p.0.entries ≡ lookup x m.entries)
            (is_done s.1) (s.0, done) (release_order s.0 id, s.1) (λ k g. cc g)
            (λ k g.
              ap (λ n. lookup x (release_order n id).entries)
                (submit_refused m1 id token (place_order pickup destination) k)
              ∙ given_back m id e q x))
          h

    -- An order that is not accepted, for whatever reason, leaves every run with the owner, the count
    -- of orders and the waiting commands that it had: the slot that was claimed is given back.
    pub order_refused :
        is_done (order m id token pickup destination).1 ≡ false
        → (x : String)
        → lookup x (order m id token pickup destination).0.entries ≡ lookup x m.entries
    unfolding order
    order_refused h x = after-Reserved (reserve_order m id token) (reserve-Reserved m id token) h x
