-- ===== src/Replay/Fold.antt =====
-- internal/replay/state.go: applySnapshot, apply and StateAt. An error of a payload is `none`,
-- and `failed` where a call can panic.
use dispatch_lab.Prelude.{
  ℕ, String, Bool, true, false, ◌&&◌, Option, none, some, List, [], ◌∷◌, ltb, leb, str_eq,
  if◌then◌else◌, ◌++◌, ◌>>=◌,
}
use dispatch_lab.Prelude.Int.{pos}
use dispatch_lab.Prelude.Float.{FloatOps, feq, num}
use dispatch_lab.Prelude.Map.{insert}
use dispatch_lab.Domain.Defs.{EventType}
use dispatch_lab.Store.Memory.{StoredEvent, StoredSnapshot}
use dispatch_lab.Replay.Json.{
  Json, Raw, fields_of, open_object, value_at, as_text, as_truth, as_whole, as_real, as_list,
}
use dispatch_lab.Replay.State.{
  Node, Edge, Driver, Order, State, Snapshot, Builder, Result, ok, failed, crashed, returned,
  mark_all, moved_to, oversteps, with_status, change_driver, change_order, driver, state,
  new_state_builder,
}

-- The tests of the loop of `StateAt`.
abbrev pub is_past : (target sequence : ℕ) → Bool
is_past target sequence = ltb 0 target && ltb target sequence

abbrev pub covers : (base : Option ℕ) (sequence : ℕ) → Bool
covers none sequence = false
covers (some n) sequence = leb sequence n

-- Unmarshal by the struct tags.
unfoldable pub decode_edge : {F : Type 0} → Json F → Option Edge
unfolding fields_of value_at as_text as_truth
decode_edge j = do
  fs ← fields_of j
  id ← as_text (value_at "id" fs)
  from ← as_text (value_at "from" fs)
  to ← as_text (value_at "to" fs)
  closed ← as_truth (value_at "closed" fs)
  some (record { id = id; from = from; to = to; closed = closed })

unfoldable pub decode_driver : {F : Type 0} → Json F → Option Driver
unfolding fields_of value_at as_text as_whole as_list
decode_driver j = do
  fs ← fields_of j
  id ← as_text (value_at "id" fs)
  position ← as_text (value_at "position" fs)
  status ← as_text (value_at "status" fs)
  route ← as_list as_text (value_at "route" fs)
  route_index ← as_whole (value_at "routeIndex" fs)
  assigned_order ← as_text (value_at "assignedOrder" fs)
  some (record {
    id = id;
    position = position;
    status = status;
    route = route;
    route_index = route_index;
    assigned_order = assigned_order;
  })

-- The loops of `applySnapshot`: each row to the end of the order, and into the map.
unfoldable pub load_each {ℓ} :
    {A : Type ℓ}
    → (A → String)
    → List String × List (String × A)
    → List A
    → List String × List (String × A)
load_each id (order, m) [] = (order, m)
load_each id (order, m) (x ∷ xs) = load_each id (order ++ id x ∷ [], insert (id x) x m) xs

module _ {F : Type 0} ⦃fl : FloatOps F⦄ where
  unfoldable pub decode_node : Json F → Option (Node F)
  unfolding fields_of value_at as_text as_real
  decode_node j = do
    fs ← fields_of j
    id ← as_text (value_at "id" fs)
    x ← as_real (value_at "x" fs)
    y ← as_real (value_at "y" fs)
    some (record { id = id; x = x; y = y })

  unfoldable pub decode_order : Json F → Option (Order F)
  unfolding fields_of value_at as_text as_real
  decode_order j = do
    fs ← fields_of j
    id ← as_text (value_at "id" fs)
    pickup ← as_text (value_at "pickup" fs)
    destination ← as_text (value_at "destination" fs)
    status ← as_text (value_at "status" fs)
    assigned_driver ← as_text (value_at "assignedDriver" fs)
    created_at ← as_real (value_at "createdAtVirtualTime" fs)
    some (record {
      id = id;
      pickup = pickup;
      destination = destination;
      status = status;
      assigned_driver = assigned_driver;
      created_at = created_at;
    })

  unfoldable pub decode_snapshot : Raw F → Option (Snapshot F)
  unfolding decode_edge decode_driver decode_node decode_order open_object value_at as_list as_truth
      as_real
  decode_snapshot p = do
    fs ← open_object p
    nodes ← as_list decode_node (value_at "nodes" fs)
    edges ← as_list decode_edge (value_at "edges" fs)
    drivers ← as_list decode_driver (value_at "drivers" fs)
    orders ← as_list decode_order (value_at "orders" fs)
    paused ← as_truth (value_at "paused" fs)
    speed ← as_real (value_at "speed" fs)
    some (record {
      nodes = nodes;
      edges = edges;
      drivers = drivers;
      orders = orders;
      paused = paused;
      speed = speed;
    })

  -- The assignments of `applySnapshot`, after the payload is decoded.
  unfoldable pub load : Builder F → Snapshot F → Builder F
  unfolding load_each
  load b s =
      let (driver_order, drivers) = load_each (λ (d : Driver). d.id) ([], []) s.drivers in
      let (order_order, orders) = load_each (λ (o : Order F). o.id) ([], []) s.orders in
      record b {
        nodes = s.nodes;
        edges = s.edges;
        paused = s.paused;
        speed = if feq s.speed (num 0) then num 1 else s.speed;
        driver_order = driver_order;
        drivers = drivers;
        order_order = order_order;
        orders = orders;
      }

  unfoldable pub apply_snapshot : Builder F → Raw F → Option (Builder F)
  unfolding decode_snapshot load
  apply_snapshot b p = do s ← decode_snapshot p; some (load b s)

  -- The order that a driver names, if it names one, is on the way.
  unfoldable pub carry : Builder F → String → Builder F
  unfolding change_order
  carry b k = if str_eq k "" then b else change_order b k (λ o. record o { status = "en_route" })

  -- `driver.status.changed`: a driver that delivers has its order on the way.
  unfoldable pub change_status : Builder F → String → String → Builder F
  unfolding change_driver driver with_status carry
  change_status b id status =
      let b1 = change_driver b id (λ d. with_status d status) in
      if str_eq status "delivering" then carry b1 (driver b id).1.assigned_order else b1

  -- `driver.position.updated`: the driver, and the node that it is at.
  unfoldable pub moved_driver : Raw F → Option (String × String)
  unfolding open_object value_at as_text
  moved_driver p = do
    fs ← open_object p
    id ← as_text (value_at "driverId" fs)
    node ← as_text (value_at "nodeId" fs)
    some (id, node)

  unfoldable pub move : Builder F → String → String → Result (Builder F)
  unfolding change_driver driver moved_to
  move b id node =
      if oversteps (driver b id).1.route_index
      then crashed
      else ok (change_driver b id (λ d. moved_to d node))

  -- The switch of `apply`, on the type of the event.
  unfoldable pub apply_kind : EventType → Builder F → Raw F → Result (Builder F)
  unfolding apply_snapshot change_driver change_order change_status open_object value_at as_text
      as_truth as_real as_list mark_all moved_driver move
  apply_kind EventType.simulation_snapshot b p = returned (apply_snapshot b p)
  apply_kind EventType.order_placed b p = returned (do
    fs ← open_object p
    id ← as_text (value_at "orderId" fs)
    pickup ← as_text (value_at "pickupNodeId" fs)
    destination ← as_text (value_at "destinationNodeId" fs)
    some (
        change_order b id (λ o. record o {
          pickup = pickup;
          destination = destination;
          status = "pending";
          created_at = b.virtual_time;
        })))
  apply_kind EventType.order_assigned b p = returned (do
    fs ← open_object p
    id ← as_text (value_at "orderId" fs)
    driver_id ← as_text (value_at "driverId" fs)
    some (
        change_driver
          (change_order b id (λ o. record o { status = "assigned"; assigned_driver = driver_id }))
          driver_id (λ d. record d { assigned_order = id })))
  apply_kind EventType.order_unassignable b p = returned (do
    fs ← open_object p
    id ← as_text (value_at "orderId" fs)
    some (change_order b id (λ o. record o { status = "unassignable" })))
  apply_kind EventType.order_delivered b p = returned (do
    fs ← open_object p
    id ← as_text (value_at "orderId" fs)
    some (change_order b id (λ o. record o { status = "delivered" })))
  apply_kind EventType.driver_position_updated b p = elim (moved_driver p) [
    | none ↦ failed
    | some (id, node) ↦ move b id node
  ]
  apply_kind EventType.driver_status_changed b p = returned (do
    fs ← open_object p
    id ← as_text (value_at "driverId" fs)
    status ← as_text (value_at "status" fs)
    some (change_status b id status))
  apply_kind EventType.route_computed b p = returned (do
    fs ← open_object p
    id ← as_text (value_at "driverId" fs)
    nodes ← as_list as_text (value_at "nodeIds" fs)
    some (change_driver b id (λ d. record d { route = nodes; route_index = pos 0 })))
  apply_kind EventType.road_closed b p = returned (do
    fs ← open_object p
    edges ← as_list as_text (value_at "edgeIds" fs)
    some (record b { edges = mark_all edges true b.edges }))
  apply_kind EventType.road_reopened b p = returned (do
    fs ← open_object p
    edges ← as_list as_text (value_at "edgeIds" fs)
    some (record b { edges = mark_all edges false b.edges }))
  apply_kind EventType.simulation_paused b p = returned (do
    fs ← open_object p
    paused ← as_truth (value_at "paused" fs)
    some (record b { paused = paused }))
  apply_kind EventType.simulation_speed_changed b p = returned (do
    fs ← open_object p
    speed ← as_real (value_at "multiplier" fs)
    some (record b { speed = speed }))
  apply_kind EventType.route_invalidated b p = ok b

  unfoldable pub apply : Builder F → StoredEvent F (Raw F) → Result (Builder F)
  unfolding apply_kind
  apply b e =
      apply_kind e.kind (record b { sequence = e.sequence; virtual_time = e.virtual_time })
        e.payload

  -- The loop of `StateAt`: it ends after the target and skips what the snapshot covers.
  unfoldable pub fold : Option ℕ → ℕ → Builder F → List (StoredEvent F (Raw F)) → Result (Builder F)
  unfolding apply
  fold base target b [] = ok b
  fold base target b (e ∷ es) = elim (is_past target e.sequence) [
    | true ↦ ok b
    | false ↦ elim (covers base e.sequence) [
      | true ↦ fold base target b es
      | false ↦ elim (apply b e) [
        | ok b1 ↦ fold base target b1 es
        | failed ↦ failed
        | crashed ↦ crashed
      ]
    ]
  ]

  -- The builder that `StateAt` starts from.
  unfoldable pub base_builder : String → Option (StoredSnapshot F (Raw F)) → Option (Builder F)
  unfolding apply_snapshot new_state_builder
  base_builder id none = some (new_state_builder id)
  base_builder id (some s) = do
    b ← apply_snapshot (new_state_builder id) s.payload
    some (record b { sequence = s.sequence; virtual_time = s.virtual_time })

  abbrev pub base_sequence : Option (StoredSnapshot F (Raw F)) → Option ℕ
  base_sequence none = none
  base_sequence (some s) = some s.sequence

  -- `StateAt`, where a target of 0 folds everything.
  unfoldable pub state_at :
      String
      → Option (StoredSnapshot F (Raw F))
      → List (StoredEvent F (Raw F))
      → ℕ
      → Result (State F)
  unfolding base_builder fold state
  state_at id base events target = elim (base_builder id base) [
    | none ↦ failed
    | some b ↦ elim (fold (base_sequence base) target b events) [
      | ok t ↦ state t
      | failed ↦ failed
      | crashed ↦ crashed
    ]
  ]
