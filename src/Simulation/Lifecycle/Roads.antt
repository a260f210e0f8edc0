-- ===== src/Simulation/Lifecycle/Roads.antt =====
-- internal/simulation/simulation.go: closing and reopening roads keeps drivers, orders and the
-- queue consistent, also for the drivers that a closure strands.
use dispatch_lab.Prelude.{
  ℕ, String, ◌≡◌, refl, true, Option, none, some, List, [], ◌∷◌, arith, str_lt, of_if, of_option,
}
use dispatch_lab.Prelude.Float.{FloatOps}
use dispatch_lab.Prelude.Map.{lookup, keys}
use dispatch_lab.Prelude.Sort as Sort
use dispatch_lab.Domain.Defs.{Edge, Driver, Order, EventType}
use dispatch_lab.Domain.City.{edge_by_id}
use dispatch_lab.Routing.{Route, find_route}
use dispatch_lab.Simulation.State.{Sim, emit, set_driver, set_order, invalidated}
use dispatch_lab.Simulation.Dispatch.{refuse}
use dispatch_lab.Simulation.Roads.{
  target_of, strand, take_route, redirect, reroute_driver, is_affected, recalculate_one,
  recalculate_all, recalculate_affected_routes, set_road, close_edge, handle_close_road, open_edge,
  handle_reopen_road,
}
use dispatch_lab.Simulation.Lifecycle.Consistent.{free, own-Apart, serves}
use dispatch_lab.Simulation.Lifecycle.Updates.{both-Consistent}
use dispatch_lab.Simulation.Lifecycle.Orders.{Good, emit-Good}
use dispatch_lab.Simulation.Lifecycle.Movement.{Serving, set_driver-Good}

module _ {F : Type 0} ⦃fl : FloatOps F⦄ where
  strand-Good :
      (s : Sim F) (id : String) (d : Driver F) (o : Order F) (reason : String)
      → Serving s id d o
      → Good [] (strand s id d o reason)
  unfolding strand refuse emit set_driver set_order
  strand-Good s id d o reason (g, at, known) = record {
    base = g.base;
    alive = g.alive;
    agree =
        both-Consistent g.agree id d.assigned_order _ o _
          (own-Apart g.agree id d.assigned_order d o at refl known) known refl refl
          (free refl refl refl) (λ h. cc h);
  }

  take_route-Good :
      (s : Sim F) (id : String) (d : Driver F) (o : Order F) (r : Route F)
      → Serving s id d o
      → Good [] (take_route s id d r)
  unfolding take_route
  take_route-Good s id d o r (g, at, known) =
      let (_, m) = serves g.agree id d.assigned_order d o at refl known in
      emit-Good _ [] _ _
        (set_driver-Good s id d _ g at refl refl (λ idle. absurd (ground (arith, m, idle))))

  redirect-Good :
      (s : Sim F) (id : String) (d : Driver F) (o : Order F) (t : Option (String × String))
      → Serving s id d o
      → Good [] (redirect s id d o t)
  unfolding redirect emit
  redirect-Good s id d o none h = h.0
  redirect-Good s id d o (some (target, reason)) (g, at, known) =
      let s1 = emit s EventType.route_invalidated (invalidated id o.id) in
      let g1 = emit-Good s [] EventType.route_invalidated (invalidated id o.id) g in
      of_option (Good []) (find_route s.city d.position target) _ _
        (λ _. strand-Good s1 id d o reason (g1, at, known))
        (λ r _. take_route-Good s1 id d o r (g1, at, known))

  reroute_driver-Good :
      (s : Sim F) (id : String) (d : Driver F)
      → Good [] s
      → lookup id s.drivers ≡ some d
      → Good [] (reroute_driver s id d)
  unfolding reroute_driver
  reroute_driver-Good s id d g at =
      of_option (Good []) (lookup d.assigned_order s.orders) _ _ (λ _. g)
        (λ o known. redirect-Good s id d o (target_of d o) (g, at, known))

  -- The counter of affected drivers does not matter.
  abbrev Counted : Sim F × ℕ → Type 0
  Counted sn = Good [] sn.0

  pub recalculate_one-Good :
      (sn : Sim F × ℕ) (id : String) → Counted sn → Counted (recalculate_one sn id)
  unfolding recalculate_one
  recalculate_one-Good (s, n) id g =
      of_option Counted (lookup id s.drivers) _ _ (λ _. g)
        λ d at. of_if Counted (is_affected s d) _ _ (λ _. reroute_driver-Good s id d g at) (λ _. g)

  recalculate_all-Good :
      (sn : Sim F × ℕ) (ids : List String) → Counted sn → Counted (recalculate_all sn ids)
  unfolding recalculate_all
  recalculate_all-Good sn [] g = g
  recalculate_all-Good sn (id ∷ ids) g =
      recalculate_all-Good (recalculate_one sn id) ids (recalculate_one-Good sn id g)

  close_edge-Good : (s : Sim F) (e : Edge F) (c : String) → Good [] s → Good [] (close_edge s e c)
  unfolding close_edge recalculate_affected_routes
  close_edge-Good s e c g =
      let s1 = record s { city = (set_road s.city e true).0; current_causation = c } in
      let g1 : Good [] s1 = record { base = g.base; alive = g.alive; agree = g.agree } in
      let g2 = recalculate_all-Good (s1, 0) (Sort.sort str_lt (keys s.drivers)) g1 in
      let g3 = emit-Good _ [] _ _ g2 in
      record { base = g3.base; alive = g3.alive; agree = g3.agree }

  pub handle_close_road-Good :
      (s : Sim F) (edge_id command_id : String)
      → Good [] s
      → Good [] (handle_close_road s edge_id command_id)
  unfolding handle_close_road
  handle_close_road-Good s edge_id command_id g =
      of_option (Good []) (edge_by_id s.city edge_id) _ _ (λ _. g)
        λ e _. of_if (Good []) e.closed _ _ (λ _. g) (λ _. close_edge-Good s e command_id g)

  open_edge-Good : (s : Sim F) (e : Edge F) → Good [] s → Good [] (open_edge s e)
  unfolding open_edge
  open_edge-Good s e g =
      emit-Good _ [] _ _ (record { base = g.base; alive = g.alive; agree = g.agree })

  pub handle_reopen_road-Good :
      (s : Sim F) (edge_id : String) → Good [] s → Good [] (handle_reopen_road s edge_id)
  unfolding handle_reopen_road
  handle_reopen_road-Good s edge_id g =
      of_option (Good []) (edge_by_id s.city edge_id) _ _ (λ _. g)
        λ e _. of_if (Good []) e.closed _ _ (λ _. open_edge-Good s e g) (λ _. g)
