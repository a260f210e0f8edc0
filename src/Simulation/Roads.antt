-- ===== src/Simulation/Roads.antt =====
-- internal/simulation/simulation.go: closing and reopening roads, and the reroutes that a closure
-- forces. The measured `recalculationMs` is left out of the event.
use dispatch_lab.Prelude.{
  ℕ, ◌+◌, String, Bool, true, false, not, ◌&&◌, Option, none, some, List, [], ◌∷◌, length, drop,
  str_lt, if◌then◌else◌, ◌==◌,
}
use dispatch_lab.Prelude.Float.{FloatOps}
use dispatch_lab.Prelude.Map.{lookup, keys}
use dispatch_lab.Prelude.Sort as Sort
use dispatch_lab.Domain.Defs.{City, Edge, Driver, Order, DriverStatus, EventType}
use dispatch_lab.Domain.City.{edge_by_id, set_closed}
use dispatch_lab.Routing.{Route, find_route}
use dispatch_lab.Simulation.State.{
  Sim, emit, set_driver, edge_between, status_of, invalidated, routed, closed_roads, reopened_roads,
}
use dispatch_lab.Simulation.Dispatch.{refuse}

module _ {F : Type 0} where
  -- A hop that no open road joins.
  unfoldable pub hop_blocked : City F → String → String → Bool
  hop_blocked c from to = elim (edge_between c from to) [ none ↦ true | some e ↦ e.closed ]

  unfoldable pub blocked : City F → List String → Bool
  blocked c [] = false
  blocked c (a ∷ []) = false
  blocked c (a ∷ b ∷ rest) = if hop_blocked c a b then true else blocked c (b ∷ rest)

  -- `routeUsesClosedEdge`
  unfoldable pub route_uses_closed_edge : City F → List String → ℕ → Bool
  route_uses_closed_edge c route index = blocked c (drop index route)

  -- Where a driver is heading, and the reason if that is cut off.
  unfoldable pub target_of : Driver F → Order F → Option (String × String)
  target_of d o = elim d.status [
    | DriverStatus.en_route_to_pickup ↦ some (o.pickup, "road closure left no path to the pickup")
    | DriverStatus.delivering ↦ some (o.destination, "road closure left no path to the destination")
    | _ ↦ none
  ]

  -- No path is left: the order is refused and the driver is free.
  unfoldable pub strand : Sim F → String → Driver F → Order F → String → Sim F
  strand s id d o reason =
      let s1 = refuse s d.assigned_order o reason in
      let d' = record d {
        status = DriverStatus.idle;
        route = [];
        route_index = 0;
        assigned_order = "";
      } in
      emit (set_driver s1 id d') EventType.driver_status_changed (status_of id DriverStatus.idle)

  unfoldable pub take_route : Sim F → String → Driver F → Route F → Sim F
  take_route s id d r =
      emit (set_driver s id (record d { route = r.nodes; route_index = 0 }))
        EventType.route_computed (routed id r.nodes r.distance)

module _ {F : Type 0} ⦃fl : FloatOps F⦄ where
  unfoldable pub redirect : Sim F → String → Driver F → Order F → Option (String × String) → Sim F
  redirect s id d o none = s
  redirect s id d o (some (target, reason)) =
      let s1 = emit s EventType.route_invalidated (invalidated id o.id) in
      elim (find_route s.city d.position target) [
        | none ↦ strand s1 id d o reason
        | some r ↦ take_route s1 id d r
      ]

  unfoldable pub reroute_driver : Sim F → String → Driver F → Sim F
  reroute_driver s id d = elim (lookup d.assigned_order s.orders) [
    | none ↦ s
    | some o ↦ redirect s id d o (target_of d o)
  ]

  unfoldable pub is_affected : Sim F → Driver F → Bool
  is_affected s d = not (length d.route == 0) && route_uses_closed_edge s.city d.route d.route_index

  -- One driver of the loop; the number counts the affected ones.
  unfoldable pub recalculate_one : Sim F × ℕ → String → Sim F × ℕ
  recalculate_one (s, n) id = elim (lookup id s.drivers) [
    | none ↦ (s, n)
    | some d ↦ if is_affected s d then (reroute_driver s id d, n + 1) else (s, n)
  ]

  unfoldable pub recalculate_all : Sim F × ℕ → List String → Sim F × ℕ
  recalculate_all sn [] = sn
  recalculate_all sn (id ∷ ids) = recalculate_all (recalculate_one sn id) ids

  unfoldable pub recalculate_affected_routes : Sim F → Sim F × ℕ
  recalculate_affected_routes s = recalculate_all (s, 0) (Sort.sort str_lt (keys s.drivers))

  -- Both directions of the road that `e` belongs to, and the ids that were written.
  unfoldable pub set_road : City F → Edge F → Bool → City F × List String
  set_road c e flag =
      let c1 = (set_closed c e.id flag).0 in
      elim (edge_between c1 e.to e.from) [
        | none ↦ (c1, e.id ∷ [])
        | some r ↦ ((set_closed c1 r.id flag).0, e.id ∷ r.id ∷ [])
      ]

  unfoldable pub close_edge : Sim F → Edge F → String → Sim F
  close_edge s e command_id =
      let (c, ids) = set_road s.city e true in
      let s1 = record s { city = c; current_causation = command_id } in
      let (s2, affected) = recalculate_affected_routes s1 in
      let s3 = emit s2 EventType.road_closed (closed_roads ids e.from e.to affected) in
      record s3 { current_causation = "" }

  unfoldable pub handle_close_road : Sim F → String → String → Sim F
  handle_close_road s edge_id command_id = elim (edge_by_id s.city edge_id) [
    | none ↦ s
    | some e ↦ if e.closed then s else close_edge s e command_id
  ]

  unfoldable pub open_edge : Sim F → Edge F → Sim F
  open_edge s e =
      let (c, ids) = set_road s.city e false in
      emit (record s { city = c }) EventType.road_reopened (reopened_roads ids e.from e.to)

  unfoldable pub handle_reopen_road : Sim F → String → Sim F
  handle_reopen_road s edge_id = elim (edge_by_id s.city edge_id) [
    | none ↦ s
    | some e ↦ if e.closed then open_edge s e else s
  ]
