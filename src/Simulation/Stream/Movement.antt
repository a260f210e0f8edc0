-- ===== src/Simulation/Stream/Movement.antt =====
-- Movement only ever adds numbered events.
use dispatch_lab.Prelude.{ℕ, zero, suc, refl, List, [], ◌∷◌, String, of_if, of_option, of_bool}
use dispatch_lab.Prelude.Float.{FloatOps, fle, ◌⊖◌, ◌⊗◌, num}
use dispatch_lab.Domain.Defs.{Driver, Order}
use dispatch_lab.Prelude.Map.{lookup}
use dispatch_lab.Simulation.State.{Sim, edge_between, emit_driver_position}
use dispatch_lab.Simulation.Movement.{
  next_node, stops, is_parked, hops, at_end, at_pickup, pick_up, deliver, finish, at_order, at_node,
  advance, drive, move_driver, move_all,
}
use dispatch_lab.Simulation.Dispatch.{driver_speed}
use dispatch_lab.Simulation.Stream.Extends.{
  Extends, same, then, emit-Extends, keep_all, set_driver-Extends, set_order-Extends,
}

module _ {F : Type 0} ⦃fl : FloatOps F⦄ where
  pick_up-Extends :
      (s : Sim F) (id : String) (d : Driver F) (k : String) (o : Order F)
      → Extends s (pick_up s id d k o)
  unfolding pick_up
  pick_up-Extends s id d k o =
      then (set_driver-Extends s id _) (then (set_order-Extends _ k _) (emit-Extends _ _ _))

  deliver-Extends :
      (s : Sim F) (id : String) (d : Driver F) (k : String) (o : Order F)
      → Extends s (deliver s id d k o)
  unfolding deliver
  deliver-Extends s id d k o = then (set_order-Extends s k _) (
      then (emit-Extends _ _ _)
        (then (set_driver-Extends _ id _) (then (same refl refl) (emit-Extends _ _ _))))

  finish-Extends :
      (s : Sim F) (id : String) (d : Driver F) (k : String) (o : Order F)
      → Extends s (finish s id d k o)
  unfolding finish
  finish-Extends s id d k o =
      of_if (Extends s) (at_end d) _ _ (λ _. deliver-Extends s id d k o) (λ _. keep_all)

  at_order-Extends :
      (s : Sim F) (id : String) (d : Driver F) (k : String) (o : Order F)
      → Extends s (at_order s id d k o)
  unfolding at_order
  at_order-Extends s id d k o =
      of_if (Extends s) (at_pickup d o) _ _
        (λ _. then (pick_up-Extends s id d k o) (finish-Extends _ id _ k _))
        (λ _. finish-Extends s id d k o)

  at_node-Extends : (s : Sim F) (id : String) (d : Driver F) → Extends s (at_node s id d)
  unfolding at_node
  at_node-Extends s id d =
      of_option (Extends s) (lookup d.assigned_order s.orders) _ _ (λ _. keep_all)
        (λ o _. at_order-Extends s id d _ o)

  advance-Extends :
      (s : Sim F) (id : String) (d : Driver F) (next : String) → Extends s (advance s id d next)
  unfolding advance
  advance-Extends s id d next = then (set_driver-Extends s id _) (at_node-Extends _ id _)

  drive-Extends : (n : ℕ) (s : Sim F) (id : String) (b : F) → Extends s (drive n s id b)
  unfolding drive
  drive-Extends zero s id b = keep_all
  drive-Extends (suc n) s id b =
      of_option (Extends s) (lookup id s.drivers) _ _ (λ _. keep_all)
        λ d _.
          of_option (Extends s) (edge_between s.city d.position (next_node d)) _ _ (λ _. keep_all)
            λ e _.
              of_bool (Extends s) (stops b d e) _ _ (λ _. keep_all)
                λ _.
                  of_bool (Extends s) (fle (e.weight ⊖ d.route_progress) b) _ _
                    (λ _. then (advance-Extends s id d _) (drive-Extends n _ id _))
                    (λ _. set_driver-Extends s id _)

  emit_driver_position-Extends :
      (s : Sim F) (id : String) (d : Driver F) → Extends s (emit_driver_position s id d)
  unfolding emit_driver_position
  emit_driver_position-Extends s id d = emit-Extends s _ _

  move_driver-Extends : (s : Sim F) (id : String) → Extends s (move_driver s id)
  unfolding move_driver
  move_driver-Extends s id =
      of_option (Extends s) (lookup id s.drivers) _ _ (λ _. keep_all)
        λ d _.
          of_if (Extends s) (is_parked d) _ _ (λ _. keep_all)
            λ _.
              of_option (Extends s) (lookup id (drive (hops d) s id (driver_speed ⊗ num 1)).drivers)
                _ _ (λ _. drive-Extends _ s id _)
                λ d1 _. then (drive-Extends _ s id _) (emit_driver_position-Extends _ id d1)

  pub move_all-Extends : (s : Sim F) (ids : List String) → Extends s (move_all s ids)
  unfolding move_all
  move_all-Extends s [] = keep_all
  move_all-Extends s (id ∷ ids) =
      then (move_driver-Extends s id) (move_all-Extends (move_driver s id) ids)
