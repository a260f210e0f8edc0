-- ===== src/Simulation/Dispatch.antt =====
-- internal/simulation/simulation.go: from a placed order to an assignment, for both strategies.
-- An id that a map should hold and does not is a nil dereference: `crash`.
use dispatch_lab.Prelude.{
  elem, exists, ◌+◌, String, Bool, true, false, not, ◌||◌, ◌&&◌, Option, none, some, List, [], ◌∷◌,
  ◌++◌, length, keep, drop, leb, str_eq, if◌then◌else◌, ◌==◌,
}
use dispatch_lab.Prelude.Float.{FloatOps, flt, ◌⊕◌, ◌⊖◌, ◌⊘◌, num}
use dispatch_lab.Prelude.Map.{lookup, keys}
use dispatch_lab.Domain.Defs.{Driver, Order, DriverStatus, OrderStatus, EventType}
use dispatch_lab.Routing.{Route, find_route}
use dispatch_lab.Spatial as Spatial
use dispatch_lab.Spatial.{Grid}
use dispatch_lab.Matching.Baseline.{Assignment, idle_key, baseline}
use dispatch_lab.Matching.Optimized as Optimized
use dispatch_lab.Simulation.State.{
  Sim, Strategy, emit, crash, set_driver, set_order, routed, assigned_to, refused, status_of,
}

abbrev pub is_pending : OrderStatus → Bool
is_pending OrderStatus.pending = true
is_pending _ = false

abbrev pub is_optimized : Strategy → Bool
is_optimized Strategy.optimized = true
is_optimized Strategy.baseline = false

module _ {F : Type 0} where
  unfoldable pub unindex : Option (Grid F) → ⦃fl : FloatOps F⦄ → String → Option (Grid F)
  unindex none id = none
  unindex (some g) id = some (Spatial.remove g id)

  -- `hasIdleDriver`
  unfoldable pub has_idle_driver : Sim F → Bool
  has_idle_driver s = exists (idle_key s.drivers) (keys s.drivers)

  -- An order that nothing can serve: its status, and the event that says why.
  unfoldable pub refuse : Sim F → String → Order F → String → Sim F
  refuse s id o reason =
      emit (set_order s id (record o { status = OrderStatus.unassignable }))
        EventType.order_unassignable (refused o.id reason)

  abbrev pub orders_of : Sim F → List String → Option (List (Order F))
  orders_of s [] = some []
  orders_of s (id ∷ ids) = elim (lookup id s.orders) [
    | none ↦ none
    | some o ↦ elim (orders_of s ids) [ none ↦ none | some os ↦ some (o ∷ os) ]
  ]

module _ {F : Type 0} ⦃fl : FloatOps F⦄ where
  -- `driverSpeed`
  abbrev pub driver_speed : F
  driver_speed = num 25

  -- The part of `applyAssignment` after the two routes are known.
  unfoldable pub commit : Sim F → String → Order F → String → Driver F → Route F → Route F → Sim F
  commit s oid o did d to_pickup to_destination =
      let full = to_pickup.nodes ++ drop 1 to_destination.nodes in
      let at_pickup = str_eq d.position o.pickup in
      let status =
        (if at_pickup then DriverStatus.delivering else DriverStatus.en_route_to_pickup) in
      let d' = record d { route = full; route_index = 0; status = status; assigned_order = o.id } in
      let o' = record o {
        status = (if at_pickup then OrderStatus.en_route else OrderStatus.assigned);
        assigned_driver = did;
      } in
      let s1 = set_order (set_driver s did d') oid o' in
      let s2 = record s1 { driver_index = unindex s1.driver_index did } in
      let s3 =
        emit s2 EventType.route_computed
          (routed did full (to_pickup.distance ⊕ to_destination.distance)) in
      let s4 = emit s3 EventType.order_assigned (
        assigned_to o.id did (s.virtual_time ⊕ to_pickup.distance ⊘ driver_speed)
          to_pickup.distance) in
      emit s4 EventType.driver_status_changed (status_of did status)

  unfoldable pub apply_assignment : Sim F → Assignment F → Sim F
  apply_assignment s a = elim (lookup a.order_id s.orders) [
    | none ↦ crash s
    | some o ↦ elim (find_route s.city o.pickup o.destination) [
      | none ↦ refuse s a.order_id o "no path from pickup to destination"
      | some r ↦ elim (lookup a.driver_id s.drivers) [
        | none ↦ crash s
        | some d ↦ commit s a.order_id o a.driver_id d a.to_pickup r
      ]
    ]
  ]

  unfoldable pub assign_baseline : Sim F → String → Order F → Sim F
  assign_baseline s id o = elim (baseline s.city s.drivers o.pickup) [
    | some (did, r) ↦ apply_assignment s (record { order_id = id; driver_id = did; to_pickup = r })
    | none ↦
        if has_idle_driver s
        then refuse s id o "no available driver can reach the pickup"
        else record s { pending_orders = s.pending_orders ++ id ∷ [] }
  ]

  unfoldable pub retry_one : Sim F → String → Sim F
  retry_one s id = elim (lookup id s.orders) [
    | none ↦ s
    | some o ↦ if is_pending o.status then assign_baseline s id o else s
  ]

  unfoldable pub retry_all : Sim F → List String → Sim F
  retry_all s [] = s
  retry_all s (id ∷ ids) = retry_all (retry_one s id) ids

  unfoldable pub retry_pending_baseline : Sim F → Sim F
  retry_pending_baseline s =
      if length s.pending_orders == 0 || not (has_idle_driver s)
      then s
      else retry_all (record s { pending_orders = [] }) s.pending_orders

  unfoldable pub apply_all : Sim F → List (Assignment F) → Sim F
  apply_all s [] = s
  apply_all s (a ∷ as') = apply_all (apply_assignment s a) as'

  unfoldable pub refuse_all : Sim F → List String → Sim F
  refuse_all s [] = s
  refuse_all s (id ∷ ids) = elim (lookup id s.orders) [
    | none ↦ crash (refuse_all s ids)
    | some o ↦ refuse_all (refuse s id o "no available driver can reach the pickup") ids
  ]

  abbrev pub resolved : List (Assignment F) → List String → List String
  resolved [] infeasible = infeasible
  resolved (a ∷ as') infeasible = a.order_id ∷ resolved as' infeasible

  -- `runBatch`, from the solver's answer on.
  unfoldable pub settle : Sim F → List (Assignment F) → List String → Sim F
  settle s accepted infeasible =
      let t = refuse_all (apply_all s accepted) infeasible in
      record t {
        pending_orders = keep (λ id. not (elem id (resolved accepted infeasible))) t.pending_orders;
      }

  -- The solver's answer for the state; `none` is a panic in it.
  unfoldable pub solved : Sim F → List (Order F) → Option (List (Assignment F) × List String)
  solved s orders = elim s.driver_index [
    | none ↦ none
    | some index ↦
        Optimized.optimized s.city s.drivers orders index s.candidates_per_order s.cost_weights
          s.virtual_time
  ]

  unfoldable pub solve_batch : Sim F → List (Order F) → Sim F
  solve_batch s orders = elim (solved s orders) [
    | none ↦ crash s
    | some (accepted, infeasible) ↦ settle s accepted infeasible
  ]

  unfoldable pub run_batch : Sim F → Sim F
  run_batch s =
      let s1 = record s { batch_dispatches = s.batch_dispatches + 1 } in
      if length s.pending_orders == 0 then s else elim (orders_of s s.pending_orders) [
        | none ↦ crash s1
        | some orders ↦ solve_batch s1 orders
      ]

  unfoldable pub offer_first : Sim F → List String → Sim F
  offer_first s [] = s
  offer_first s (id ∷ rest) =
      let s1 = record s { pending_orders = rest } in
      elim (lookup id s.orders) [
        | none ↦ s1
        | some o ↦
            if is_pending o.status
            then assign_baseline (record s1 { immediate_dispatches = s1.immediate_dispatches + 1 })
                id o
            else s1
      ]

  -- `dispatchImmediateBaseline`
  unfoldable pub dispatch_immediate : Sim F → Sim F
  dispatch_immediate s = offer_first s s.pending_orders

  unfoldable pub wait_or_dispatch : Sim F → List String → Sim F
  wait_or_dispatch s [] = s
  wait_or_dispatch s (oldest ∷ rest) = elim (lookup oldest s.orders) [
    | none ↦ record s { pending_orders = rest }
    | some o ↦
        if not (is_pending o.status)
        then record s { pending_orders = rest }
        else if flt (s.virtual_time ⊖ o.created_at) s.max_wait
        then s
        else if leb 2 (length s.pending_orders)
        then run_batch s
        else dispatch_immediate s
  ]

  unfoldable pub dispatch_optimized : Sim F → Sim F
  dispatch_optimized s =
      let n = length s.pending_orders in
      if n == 0
      then s
      else if leb s.min_batch_size n
      then run_batch s
      else if n == 1 && has_idle_driver s
      then dispatch_immediate s
      else wait_or_dispatch s s.pending_orders
