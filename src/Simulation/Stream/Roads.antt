-- ===== src/Simulation/Stream/Roads.antt =====
-- Closing and reopening roads only ever adds numbered events.
use dispatch_lab.Prelude.{ℕ, refl, List, [], ◌∷◌, String, of_if, of_option, Option, none, some}
use dispatch_lab.Prelude.Float.{FloatOps}
use dispatch_lab.Domain.Defs.{Edge, Driver, Order}
use dispatch_lab.Prelude.Map.{lookup}
use dispatch_lab.Domain.City.{edge_by_id}
use dispatch_lab.Routing.{Route, find_route}
use dispatch_lab.Simulation.State.{Sim}
use dispatch_lab.Simulation.Roads.{
  is_affected, strand, take_route, redirect, reroute_driver, recalculate_one, recalculate_all,
  recalculate_affected_routes, close_edge, handle_close_road, open_edge, handle_reopen_road,
}
use dispatch_lab.Simulation.Stream.Extends.{
  Extends, same, then, emit-Extends, keep_all, set_driver-Extends, refuse-Extends,
}

module _ {F : Type 0} ⦃fl : FloatOps F⦄ where
  strand-Extends :
      (s : Sim F) (id : String) (d : Driver F) (o : Order F) (reason : String)
      → Extends s (strand s id d o reason)
  unfolding strand
  strand-Extends s id d o reason =
      then (refuse-Extends s _ o reason) (then (set_driver-Extends _ id _) (emit-Extends _ _ _))

  take_route-Extends :
      (s : Sim F) (id : String) (d : Driver F) (r : Route F) → Extends s (take_route s id d r)
  unfolding take_route
  take_route-Extends s id d r = then (set_driver-Extends s id _) (emit-Extends _ _ _)

  redirect-Extends :
      (s : Sim F) (id : String) (d : Driver F) (o : Order F) (t : Option (String × String))
      → Extends s (redirect s id d o t)
  unfolding redirect
  redirect-Extends s id d o none = keep_all
  redirect-Extends s id d o (some (target, reason)) =
      of_option (Extends s) (find_route s.city d.position target) _ _
        (λ _. then (emit-Extends s _ _) (strand-Extends _ id d o reason))
        (λ r _. then (emit-Extends s _ _) (take_route-Extends _ id d r))

  reroute_driver-Extends :
      (s : Sim F) (id : String) (d : Driver F) → Extends s (reroute_driver s id d)
  unfolding reroute_driver
  reroute_driver-Extends s id d =
      of_option (Extends s) (lookup d.assigned_order s.orders) _ _ (λ _. keep_all)
        λ o _. redirect-Extends s id d o _

  recalculate_one-Extends :
      (s : Sim F) (n : ℕ) (id : String) → Extends s (recalculate_one (s, n) id).0
  unfolding recalculate_one
  recalculate_one-Extends s n id =
      of_option (λ (p : Sim F × ℕ). Extends s p.0) (lookup id s.drivers) _ _ (λ _. keep_all)
        λ d _.
          of_if (λ (p : Sim F × ℕ). Extends s p.0) (is_affected s d) _ _
            (λ _. reroute_driver-Extends s id d) (λ _. keep_all)

  recalculate_all-Extends :
      (s : Sim F) (n : ℕ) (ids : List String) → Extends s (recalculate_all (s, n) ids).0
  unfolding recalculate_all
  recalculate_all-Extends s n [] = keep_all
  recalculate_all-Extends s n (id ∷ ids) =
      then (recalculate_one-Extends s n id)
        (recalculate_all-Extends (recalculate_one (s, n) id).0 (recalculate_one (s, n) id).1 ids)

  close_edge-Extends :
      (s : Sim F) (e : Edge F) (command_id : String) → Extends s (close_edge s e command_id)
  unfolding close_edge recalculate_affected_routes
  close_edge-Extends s e command_id =
      then (same refl refl)
        (then (recalculate_all-Extends _ 0 _) (then (emit-Extends _ _ _) (same refl refl)))

  pub handle_close_road-Extends :
      (s : Sim F) (edge_id command_id : String) → Extends s (handle_close_road s edge_id command_id)
  unfolding handle_close_road
  handle_close_road-Extends s edge_id command_id =
      of_option (Extends s) (edge_by_id s.city edge_id) _ _ (λ _. keep_all)
        λ e _.
          of_if (Extends s) e.closed _ _ (λ _. keep_all) (λ _. close_edge-Extends s e command_id)

  open_edge-Extends : (s : Sim F) (e : Edge F) → Extends s (open_edge s e)
  unfolding open_edge
  open_edge-Extends s e = then (same refl refl) (emit-Extends _ _ _)

  pub handle_reopen_road-Extends :
      (s : Sim F) (edge_id : String) → Extends s (handle_reopen_road s edge_id)
  unfolding handle_reopen_road
  handle_reopen_road-Extends s edge_id =
      of_option (Extends s) (edge_by_id s.city edge_id) _ _ (λ _. keep_all)
        λ e _. of_if (Extends s) e.closed _ _ (λ _. open_edge-Extends s e) (λ _. keep_all)
