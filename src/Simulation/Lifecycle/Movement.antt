-- ===== src/Simulation/Lifecycle/Movement.antt =====
-- internal/simulation/simulation.go: moving drivers keeps drivers, orders and the queue consistent.
use dispatch_lab.Prelude.{
  ℕ, zero, suc, ◌+◌, String, ◌≡◌, refl, true, some, List, [], ◌∷◌, arith, of_if, of_bool, of_option,
}
use dispatch_lab.Prelude.Float.{FloatOps, ◌⊖◌, ◌⊗◌, fle, num}
use dispatch_lab.Prelude.Map.{lookup, lookup-insert_self}
use dispatch_lab.Domain.Defs.{Driver, Order, DriverStatus, OrderStatus}
use dispatch_lab.Matching.Baseline.{is_idle}
use dispatch_lab.Simulation.State.{
  Sim, emit, set_driver, set_order, edge_between, emit_driver_position,
}
use dispatch_lab.Simulation.Dispatch.{driver_speed}
use dispatch_lab.Simulation.Movement.{
  is_to_pickup, pick_up, deliver, at_end, finish, at_pickup, at_order, at_node, is_parked, hops,
  advance, next_node, stops, drive, move_driver, move_all,
}
use dispatch_lab.Simulation.Lifecycle.Consistent.{free, busy, serves, own-Apart}
use dispatch_lab.Simulation.Lifecycle.Updates.{both-Consistent, moved-Consistent}
use dispatch_lab.Simulation.Lifecycle.Orders.{Good, emit-Good}

module _ {F : Type 0} ⦃fl : FloatOps F⦄ where
  -- The driver gets on with something that changes neither its status nor its order.
  pub set_driver-Good :
      (s : Sim F) (id : String) (d d' : Driver F)
      → Good [] s
      → lookup id s.drivers ≡ some d
      → d'.status ≡ d.status
      → d'.assigned_order ≡ d.assigned_order
      → (is_idle d.status ≡ true → d'.route ≡ d.route)
      → Good [] (set_driver s id d')
  unfolding set_driver
  set_driver-Good s id d d' g at p q r = record {
    base = g.base;
    alive = g.alive;
    agree = moved-Consistent g.agree id d d' at p q r;
  }

  -- A driver and the order it serves.
  abbrev pub Serving : Sim F → String → Driver F → Order F → Type 0
  Serving s id d o =
      Good [] s × (lookup id s.drivers ≡ some d) × (lookup d.assigned_order s.orders ≡ some o)

  pick_up-Serving :
      (s : Sim F) (id : String) (d : Driver F) (o : Order F)
      → Serving s id d o
      → is_to_pickup d.status ≡ true
      → Serving
          (pick_up s id d d.assigned_order o)
          id
          (record d { status = DriverStatus.delivering })
          (record o { status = OrderStatus.en_route })
  unfolding pick_up emit set_driver set_order
  pick_up-Serving s id d o (g, at, known) to_pickup =
      let d' = record d { status = DriverStatus.delivering } in
      let o' = record o { status = OrderStatus.en_route } in
      let (by, m) = serves g.agree id d.assigned_order d o at refl known in
      (
        record {
          base = g.base;
          alive = g.alive;
          agree =
              both-Consistent g.agree id d.assigned_order d' o o'
                (own-Apart g.agree id d.assigned_order d o at refl known) known refl refl
                (busy o' (lookup-insert_self d.assigned_order o' s.orders) by refl)
                (λ _. (by, refl));
        },
        lookup-insert_self id d' s.drivers,
        lookup-insert_self d.assigned_order o' s.orders,
      )

  deliver-Good :
      (s : Sim F) (id : String) (d : Driver F) (o : Order F)
      → Serving s id d o
      → Good [] (deliver s id d d.assigned_order o)
  unfolding deliver emit set_driver set_order
  deliver-Good s id d o (g, at, known) = record {
    base = g.base;
    alive = g.alive;
    agree =
        both-Consistent g.agree id d.assigned_order _ o _
          (own-Apart g.agree id d.assigned_order d o at refl known) known refl refl
          (free refl refl refl) (λ h. cc h);
  }

  finish-Good :
      (s : Sim F) (id : String) (d : Driver F) (o : Order F)
      → Serving s id d o
      → Good [] (finish s id d d.assigned_order o)
  unfolding finish
  finish-Good s id d o h = of_if (Good []) (at_end d) _ _ (λ _. deliver-Good s id d o h) (λ _. h.0)

  at_order-Good :
      (s : Sim F) (id : String) (d : Driver F) (o : Order F)
      → Serving s id d o
      → Good [] (at_order s id d d.assigned_order o)
  unfolding at_order
  at_order-Good s id d o h =
      of_if (Good []) (at_pickup d o) _ _
        (λ p.
          finish-Good _ id (record d { status = DriverStatus.delivering })
            (record o { status = OrderStatus.en_route })
            (pick_up-Serving s id d o h (ground arith)))
        (λ _. finish-Good s id d o h)

  at_node-Good :
      (s : Sim F) (id : String) (d : Driver F)
      → Good [] s
      → lookup id s.drivers ≡ some d
      → Good [] (at_node s id d)
  unfolding at_node
  at_node-Good s id d g at =
      of_option (Good []) (lookup d.assigned_order s.orders) _ _ (λ _. g)
        (λ o known. at_order-Good s id d o (g, at, known))

  advance-Good :
      (s : Sim F) (id : String) (d : Driver F) (next : String)
      → Good [] s
      → lookup id s.drivers ≡ some d
      → Good [] (advance s id d next)
  unfolding advance set_driver
  advance-Good s id d next g at =
      let d' = record d {
        route_progress = num 0;
        route_index = d.route_index + 1;
        position = next;
      } in
      at_node-Good (set_driver s id d') id d' (set_driver-Good s id d d' g at refl refl (λ _. refl))
        (lookup-insert_self id d' s.drivers)

  drive-Good :
      (n : ℕ) (s : Sim F) (id : String) (budget : F) → Good [] s → Good [] (drive n s id budget)
  unfolding drive
  drive-Good zero s id budget g = g
  drive-Good (suc n) s id budget g =
      of_option (Good []) (lookup id s.drivers) _ _ (λ _. g)
        λ d at.
          of_option (Good []) (edge_between s.city d.position (next_node d)) _ _ (λ _. g)
            λ e _.
              of_bool (Good []) (stops budget d e) _ _ (λ _. g)
                λ _.
                  of_bool (Good []) (fle (e.weight ⊖ d.route_progress) budget) _ _
                    (λ _.
                      drive-Good n (advance s id d (next_node d)) id
                        (budget ⊖ (e.weight ⊖ d.route_progress))
                        (advance-Good s id d (next_node d) g at))
                    (λ _. set_driver-Good s id d _ g at refl refl (λ _. refl))

  move_driver-Good : (s : Sim F) (id : String) → Good [] s → Good [] (move_driver s id)
  unfolding move_driver emit_driver_position
  move_driver-Good s id g =
      of_option (Good []) (lookup id s.drivers) _ _ (λ _. g)
        λ d _.
          let s1 = drive (hops d) s id (driver_speed ⊗ num 1) in
          let g1 = drive-Good (hops d) s id (driver_speed ⊗ num 1) g in
          of_if (Good []) (is_parked d) _ _ (λ _. g)
            λ _.
              of_option (Good []) (lookup id s1.drivers) _ _ (λ _. g1)
                λ d1 _. emit-Good s1 [] _ _ g1

  pub move_all-Good : (s : Sim F) (ids : List String) → Good [] s → Good [] (move_all s ids)
  unfolding move_all
  move_all-Good s [] g = g
  move_all-Good s (id ∷ ids) g = move_all-Good (move_driver s id) ids (move_driver-Good s id g)
