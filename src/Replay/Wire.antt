-- ===== src/Replay/Wire.antt =====
-- internal/simulation/simulation.go and internal/store/store.go: events as they are persisted, the
-- payload marshalled once. The measured `recalculationMs` of a closure is left out.
use dispatch_lab.Prelude.Int.{pos}
use dispatch_lab.Prelude.{ℕ, String, List, [], ◌∷◌, Option, none, some}
use dispatch_lab.Domain.Defs.{Node, Edge, Order, DriverStatus, OrderStatus, EventType}
use dispatch_lab.Simulation.State.{
  Payload, Event, Snapshot, DriverView, snapshot, placed, assigned_to, refused, delivered_by, moved,
  status_of, routed, invalidated, closed_roads, reopened_roads, paused_is, speed_is,
}
use dispatch_lab.Store.Memory.{StoredEvent}
use dispatch_lab.Replay.Json.{
  Json, null, truth, whole, real, text, array, Raw, missing, malformed, json, obj, items,
}

-- The values of the two status types.
unfoldable pub driver_status_name : DriverStatus → String
driver_status_name DriverStatus.idle = "idle"
driver_status_name DriverStatus.assigned = "assigned"
driver_status_name DriverStatus.en_route_to_pickup = "en_route_to_pickup"
driver_status_name DriverStatus.delivering = "delivering"
driver_status_name DriverStatus.unavailable = "unavailable"

unfoldable pub order_status_name : OrderStatus → String
order_status_name OrderStatus.pending = "pending"
order_status_name OrderStatus.assigned = "assigned"
order_status_name OrderStatus.en_route = "en_route"
order_status_name OrderStatus.delivered = "delivered"
order_status_name OrderStatus.unassignable = "unassignable"

-- `Event.Domain` back to the domain: the payload is generic, and nil when nothing was stored.
pub record Decoded (F : Type 0) : Type 0 where
  pub simulation_id : String
  pub sequence : ℕ
  pub virtual_time : F
  pub kind : EventType
  pub payload : Json F
  pub trace_id : String

module _ {F : Type 0} where
  -- A slice of ids; the source's empty routes are nil slices, which Marshal writes as `null`.
  unfoldable pub ids : List String → Json F
  ids [] = null
  ids (x ∷ xs) = array (items text (x ∷ xs))

  unfoldable pub node_json : Node F → Json F
  node_json n = obj (("id", text n.id) ∷ ("x", real n.x) ∷ ("y", real n.y) ∷ [])

  unfoldable pub edge_json : Edge F → Json F
  edge_json e = obj (
      ("id", text e.id)
      ∷ ("from", text e.from)
      ∷ ("to", text e.to)
      ∷ ("closed", truth e.closed)
      ∷ [])

  unfoldable pub driver_json : DriverView F → Json F
  unfolding driver_status_name ids
  driver_json v =
      let d = v.driver in
      obj (
        ("id", text d.id)
        ∷ ("position", text d.position)
        ∷ ("status", text (driver_status_name d.status))
        ∷ ("x", real v.x)
        ∷ ("y", real v.y)
        ∷ ("route", ids d.route)
        ∷ ("routeIndex", whole (pos d.route_index))
        ∷ ("routeProgress", real d.route_progress)
        ∷ ("assignedOrder", text d.assigned_order)
        ∷ [])

  unfoldable pub order_json : Order F → Json F
  unfolding order_status_name
  order_json o = obj (
      ("id", text o.id)
      ∷ ("pickup", text o.pickup)
      ∷ ("destination", text o.destination)
      ∷ ("status", text (order_status_name o.status))
      ∷ ("assignedDriver", text o.assigned_driver)
      ∷ ("createdAtVirtualTime", real o.created_at)
      ∷ [])

  unfoldable pub snapshot_json : Snapshot F → Json F
  unfolding node_json edge_json driver_json order_json
  snapshot_json s = obj (
      ("nodes", array (items node_json s.nodes))
      ∷ ("edges", array (items edge_json s.edges))
      ∷ ("drivers", array (items driver_json s.drivers))
      ∷ ("orders", array (items order_json s.orders))
      ∷ ("paused", truth s.paused)
      ∷ ("speed", real s.speed)
      ∷ [])

  -- The maps that the simulation emits.
  unfoldable pub encode : Payload F → Json F
  unfolding snapshot_json driver_status_name ids
  encode (snapshot s) = snapshot_json s
  encode (placed order pickup destination) = obj (
      ("orderId", text order)
      ∷ ("pickupNodeId", text pickup)
      ∷ ("destinationNodeId", text destination)
      ∷ [])
  encode (assigned_to order driver eta distance) = obj (
      ("orderId", text order)
      ∷ ("driverId", text driver)
      ∷ ("pickupEtaVirtualTime", real eta)
      ∷ ("pickupDistance", real distance)
      ∷ [])
  encode (refused order reason) = obj (("orderId", text order) ∷ ("reason", text reason) ∷ [])
  encode (delivered_by order driver) =
      obj (("orderId", text order) ∷ ("driverId", text driver) ∷ [])
  encode (moved driver node x y route_index route_progress) = obj (
      ("driverId", text driver)
      ∷ ("nodeId", text node)
      ∷ ("x", real x)
      ∷ ("y", real y)
      ∷ ("routeIndex", whole (pos route_index))
      ∷ ("routeProgress", real route_progress)
      ∷ [])
  encode (status_of driver status) =
      obj (("driverId", text driver) ∷ ("status", text (driver_status_name status)) ∷ [])
  encode (routed driver nodes distance) =
      obj (("driverId", text driver) ∷ ("nodeIds", ids nodes) ∷ ("distance", real distance) ∷ [])
  encode (invalidated driver order) = obj (("driverId", text driver) ∷ ("orderId", text order) ∷ [])
  encode (closed_roads edges from to affected) = obj (
      ("edgeIds", ids edges)
      ∷ ("from", text from)
      ∷ ("to", text to)
      ∷ ("affectedRoutes", whole (pos affected))
      ∷ [])
  encode (reopened_roads edges from to) =
      obj (("edgeIds", ids edges) ∷ ("from", text from) ∷ ("to", text to) ∷ [])
  encode (paused_is b) = obj (("paused", truth b) ∷ [])
  encode (speed_is m) = obj (("multiplier", real m) ∷ [])

  -- `EventFrom`; every payload of the simulation can be marshalled.
  unfoldable pub event_from : Event F → String → ℕ → StoredEvent F (Raw F)
  unfolding encode
  event_from e trace_id recorded_at = record {
    simulation_id = e.simulation_id;
    sequence = e.sequence;
    virtual_time = e.virtual_time;
    kind = e.kind;
    payload = json (encode e.payload);
    trace_id = trace_id;
    recorded_at = recorded_at;
  }

  unfoldable pub generic : Raw F → Option (Json F)
  generic missing = some null
  generic malformed = none
  generic (json j) = some j

  -- `Event.Domain`; `none` is an error.
  unfoldable pub domain : StoredEvent F (Raw F) → Option (Decoded F)
  unfolding generic
  domain e = elim (generic e.payload) [
    | none ↦ none
    | some j ↦ some (record {
      simulation_id = e.simulation_id;
      sequence = e.sequence;
      virtual_time = e.virtual_time;
      kind = e.kind;
      payload = j;
      trace_id = e.trace_id;
    })
  ]

  -- The row that the recorder queues for an event, the clock giving the instant of the write.
  unfoldable pub recorded : (clock : ℕ → ℕ) → Event F → StoredEvent F (Raw F)
  unfolding event_from
  recorded clock e = event_from e e.trace_id (clock e.sequence)
