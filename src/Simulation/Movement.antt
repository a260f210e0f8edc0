-- ===== src/Simulation/Movement.antt =====
-- internal/simulation/simulation.go: moveDriver and handleDriverAtNode.
use dispatch_lab.Prelude.{
  ℕ, zero, suc, ◌+◌, ◌-◌, String, Bool, true, false, not, ◌||◌, ◌&&◌, Option, none, some, List, [],
  ◌∷◌, length, get_or, leb, str_eq, if◌then◌else◌, ◌==◌,
}
use dispatch_lab.Prelude.Float.{FloatOps, flt, fle, ◌⊕◌, ◌⊖◌, ◌⊗◌, num}
use dispatch_lab.Prelude.Map.{lookup}
use dispatch_lab.Domain.Defs.{Edge, Driver, Order, DriverStatus, OrderStatus, EventType, City}
use dispatch_lab.Routing.{node_at}
use dispatch_lab.Spatial as Spatial
use dispatch_lab.Spatial.{Grid}
use dispatch_lab.Simulation.State.{
  Sim, emit, set_driver, set_order, edge_between, emit_driver_position, status_of, delivered_by,
}
use dispatch_lab.Simulation.Dispatch.{driver_speed}

abbrev pub is_to_pickup : DriverStatus → Bool
is_to_pickup DriverStatus.en_route_to_pickup = true
is_to_pickup _ = false

module _ {F : Type 0} ⦃fl : FloatOps F⦄ where
  -- The driver's place in the index of idle drivers, if the simulation keeps one.
  unfoldable pub reindex : City F → Option (Grid F) → String → String → Option (Grid F)
  reindex c none id position = none
  reindex c (some g) id position =
      let n = node_at c position in some (Spatial.set_point g id (record { x = n.x; y = n.y }))

  -- The first half of `handleDriverAtNode`: the pickup.
  unfoldable pub pick_up : Sim F → String → Driver F → String → Order F → Sim F
  pick_up s id d key o =
      emit
        (set_order (set_driver s id (record d { status = DriverStatus.delivering })) key
          (record o { status = OrderStatus.en_route }))
        EventType.driver_status_changed (status_of id DriverStatus.delivering)

  -- The second half: the end of the route.
  unfoldable pub deliver : Sim F → String → Driver F → String → Order F → Sim F
  deliver s id d key o =
      let s1 =
        emit (set_order s key (record o { status = OrderStatus.delivered }))
          EventType.order_delivered (delivered_by o.id id) in
      let d' = record d {
        status = DriverStatus.idle;
        route = [];
        route_index = 0;
        route_progress = num 0;
        assigned_order = "";
        idle_since = s.virtual_time;
      } in
      let s2 = set_driver s1 id d' in
      let s3 = record s2 { driver_index = reindex s2.city s2.driver_index id d.position } in
      emit s3 EventType.driver_status_changed (status_of id DriverStatus.idle)

  -- `d.RouteIndex == len(d.Route)-1`
  abbrev pub at_end : Driver F → Bool
  at_end d = suc d.route_index == length d.route

  unfoldable pub finish : Sim F → String → Driver F → String → Order F → Sim F
  finish s id d key o = if at_end d then deliver s id d key o else s

  abbrev pub at_pickup : Driver F → Order F → Bool
  at_pickup d o = is_to_pickup d.status && str_eq d.position o.pickup

  unfoldable pub at_order : Sim F → String → Driver F → String → Order F → Sim F
  at_order s id d key o =
      if at_pickup d o
      then finish (pick_up s id d key o) id (record d { status = DriverStatus.delivering }) key
          (record o { status = OrderStatus.en_route })
      else finish s id d key o

  -- `handleDriverAtNode`
  unfoldable pub at_node : Sim F → String → Driver F → Sim F
  at_node s id d = elim (lookup d.assigned_order s.orders) [
    | none ↦ s
    | some o ↦ at_order s id d d.assigned_order o
  ]

  -- `len(d.Route) == 0 || d.RouteIndex >= len(d.Route)-1`
  abbrev pub is_parked : Driver F → Bool
  is_parked d = length d.route == 0 || leb (length d.route - 1) d.route_index

  abbrev pub hops : Driver F → ℕ
  hops d = length d.route - 1 - d.route_index

  -- The driver a whole edge further.
  unfoldable pub advance : Sim F → String → Driver F → String → Sim F
  advance s id d next =
      let d' = record d {
        route_progress = num 0;
        route_index = d.route_index + 1;
        position = next;
      } in
      at_node (set_driver s id d') id d'

  -- `d.Route[d.RouteIndex+1]`, read only before the end of the route.
  abbrev pub next_node : Driver F → String
  next_node d = get_or d.route (d.route_index + 1) ""

  -- The reasons to leave the loop before an edge is travelled.
  abbrev pub stops : F → Driver F → Edge F → Bool
  stops budget d e = not (flt (num 0) budget) || leb (length d.route - 1) d.route_index || e.closed

  -- The loop `for budget > 0`. A round moves the driver one hop on or is the last one, so the
  -- number of hops ahead bounds the rounds.
  unfoldable pub drive : ℕ → Sim F → String → F → Sim F
  drive zero s id budget = s
  drive (suc n) s id budget = elim (lookup id s.drivers) [
    | none ↦ s
    | some d ↦ elim (edge_between s.city d.position (next_node d)) [
      | none ↦ s
      | some e ↦ elim (stops budget d e) [
        | true ↦ s
        | false ↦ elim (fle (e.weight ⊖ d.route_progress) budget) [
          | true ↦
              drive n (advance s id d (next_node d)) id (budget ⊖ (e.weight ⊖ d.route_progress))
          | false ↦ set_driver s id (record d { route_progress = d.route_progress ⊕ budget })
        ]
      ]
    ]
  ]

  unfoldable pub move_driver : Sim F → String → Sim F
  move_driver s id = elim (lookup id s.drivers) [
    | none ↦ s
    | some d ↦
        let s1 = drive (hops d) s id (driver_speed ⊗ num 1) in
        if is_parked d
        then s
        else elim (lookup id s1.drivers) [ none ↦ s1 | some d1 ↦ emit_driver_position s1 id d1 ]
  ]

  unfoldable pub move_all : Sim F → List String → Sim F
  move_all s [] = s
  move_all s (id ∷ ids) = move_all (move_driver s id) ids
