-- ===== src/Simulation/Lifecycle/Loop.antt =====
-- internal/simulation/simulation.go: a baseline simulation stays consistent over every sequence of
-- inputs.
use dispatch_lab.Prelude.{
  ℕ, zero, suc, ◌+◌, ◌*◌, ◌/◌, String, ◌≡◌, refl, sym, ap, inl, inr, false, some, List, [], arith,
  str_lt, of_if, length, get_or,
}
use dispatch_lab.Prelude.Float.{FloatOps, flt, num}
use dispatch_lab.Prelude.Map.{lookup, keys}
use dispatch_lab.Prelude.Text.{short_id}
use dispatch_lab.Prelude.Sort as Sort
use dispatch_lab.Domain.Defs.{City, Driver}
use dispatch_lab.Simulation.State.{Sim}
use dispatch_lab.Simulation.Dispatch.{is_optimized}
use dispatch_lab.Simulation.Actor.{
  Command, place_order, set_paused, reset, set_speed, close_road, reopen_road, Config, idle_at,
  place_from, place_drivers, new_with_config, reset_sim, handle,
}
use dispatch_lab.Simulation.Lifecycle.Consistent.{Duty, free, Consistent, inserted}
use dispatch_lab.Simulation.Lifecycle.Orders.{Good, emit-Good, handle_place_order-Good}
use dispatch_lab.Simulation.Lifecycle.Roads.{handle_close_road-Good, handle_reopen_road-Good}

module _ {F : Type 0} ⦃fl : FloatOps F⦄ where
  place_from-Duty :
      (ids : List String) (count i n : ℕ) (id : String) (d : Driver F)
      → lookup id (place_from ids count i n) ≡ some d
      → Duty [] id d
  unfolding place_from lookup idle_at
  place_from-Duty ids count i zero id d h = cc h
  place_from-Duty ids count i (suc n) id d h =
      elim (inserted (short_id "driver" i) id
        (idle_at (short_id "driver" i) (get_or ids (i * length ids / count) "")) d
        (place_from ids count (i + 1) n) h) [
          | inl (_, e) ↦ free (ground (arith, e)) (ground (arith, e)) (ap (λ x. x.route) (sym e))
          | inr (_, h') ↦ place_from-Duty ids count (i + 1) n id d h'
        ]

  -- Parked drivers and no orders.
  start-Consistent : (c : City F) (count : ℕ) → Consistent (place_drivers c count) [] 0 []
  unfolding place_drivers lookup
  start-Consistent c count = record {
    on_duty = λ id d h. place_from-Duty (Sort.sort str_lt (keys c.nodes)) count 0 _ id d h;
    served = λ k o h. cc h;
    named = λ k o h. cc h;
    queued = λ k o h. cc h;
  }

  reset_sim-Good : (s : Sim F) → Good [] s → Good [] (reset_sim s)
  unfolding reset_sim
  reset_sim-Good s g =
      emit-Good _ [] _ _
        (record { base = g.base; alive = g.alive; agree = start-Consistent s.city s.driver_count })

  pub handle-Good : (s : Sim F) (c : Command F) → Good [] s → Good [] (handle s c)
  unfolding handle
  handle-Good s (place_order pickup destination) g = handle_place_order-Good s pickup destination g
  handle-Good s (set_paused b) g =
      emit-Good _ [] _ _ (record { base = g.base; alive = g.alive; agree = g.agree })
  handle-Good s reset g = reset_sim-Good s g
  handle-Good s (set_speed m) g =
      of_if (Good []) (flt (num 0) m) _ _
        (λ _. emit-Good _ [] _ _ (record { base = g.base; alive = g.alive; agree = g.agree }))
        (λ _. g)
  handle-Good s (close_road edge_id command_id) g = handle_close_road-Good s edge_id command_id g
  handle-Good s (reopen_road edge_id) g = handle_reopen_road-Good s edge_id g

  pub new-Good :
      (cfg : Config F) (c : City F) (spacing : F)
      → is_optimized cfg.strategy ≡ false
      → Good [] (new_with_config cfg c spacing)
  unfolding new_with_config
  new-Good cfg c spacing h = record {
    base = h;
    alive = refl;
    agree = start-Consistent c cfg.driver_count;
  }
