-- ===== src/Replay/Agreement/Events.antt =====
-- internal/replay/state.go on the events of internal/simulation: a payload that was marshalled
-- reads back, and what each event changes.
use dispatch_lab.Prelude.{ℕ, ◌+◌, String, ◌≡◌, refl, Bool, true, false, some, List, [], ◌∷◌, str_eq}
use dispatch_lab.Prelude.Int.{pos}
use mathlib.Core.List.{map-id}
use dispatch_lab.Prelude.Float.{FloatOps}
use dispatch_lab.Domain.Defs.{Edge, DriverStatus, EventType}
use dispatch_lab.Simulation.State.{
  Sim, stamped, placed, assigned_to, refused, delivered_by, moved, status_of, routed, invalidated,
  closed_roads, reopened_roads, paused_is, speed_is,
}
use dispatch_lab.Replay.Json.{
  text, fields_of, open_object, value_at, as_text, as_truth, as_real, as_list, items, items_of,
  each, each-items,
}
use dispatch_lab.Replay.Wire.{driver_status_name, ids, encode, event_from, recorded}
use dispatch_lab.Replay.State as Replay
use dispatch_lab.Replay.State.{
  Builder, change_driver, change_order, driver, mark_all, moved_to, oversteps, returned, ok,
}
use dispatch_lab.Replay.Fold.{apply_kind, moved_driver, move, apply, change_status}

pub edge_view : {F : Type 0} → Edge F → Replay.Edge
edge_view e = record { id = e.id; from = e.from; to = e.to; closed = e.closed }

-- A slice of ids reads back.
pub as_list-ids : (F : Type 0) (xs : List String) → as_list as_text (ids {F = F} xs) ≡ some xs
unfolding as_list items_of each ids as_text items
as_list-ids F [] = refl
as_list-ids F (x ∷ xs) = rw (each-items text as_text (λ s. s) (λ s. refl) xs, map-id xs) refl

module _ {F : Type 0} ⦃fl : FloatOps F⦄ (clock : ℕ → ℕ) (b : Builder F) (s : Sim F) where
  -- The builder at the next event of the simulation.
  abbrev pub next : Builder F
  next = record b { sequence = s.sequence + 1; virtual_time = s.virtual_time }

  pub apply-placed :
      (id pickup destination : String)
      → apply b (recorded clock (stamped s EventType.order_placed (placed id pickup destination)))
        ≡ ok (
            change_order next id (λ o. record o {
              pickup = pickup;
              destination = destination;
              status = "pending";
              created_at = s.virtual_time;
            }))
  unfolding apply apply_kind recorded event_from stamped encode open_object fields_of value_at
      as_text str_eq
  apply-placed id pickup destination = refl

  pub apply-assigned_to :
      (id did : String) (eta distance : F)
      → apply b
          (recorded clock (stamped s EventType.order_assigned (assigned_to id did eta distance)))
        ≡ ok (
            change_driver
              (change_order next id (λ o. record o { status = "assigned"; assigned_driver = did }))
              did
              (λ d. record d { assigned_order = id }))
  unfolding apply apply_kind recorded event_from stamped encode open_object fields_of value_at
      as_text str_eq
  apply-assigned_to id did eta distance = refl

  pub apply-refused :
      (id reason : String)
      → apply b (recorded clock (stamped s EventType.order_unassignable (refused id reason)))
        ≡ ok (change_order next id (λ o. record o { status = "unassignable" }))
  unfolding apply apply_kind recorded event_from stamped encode open_object fields_of value_at
      as_text str_eq
  apply-refused id reason = refl

  pub apply-delivered_by :
      (id did : String)
      → apply b (recorded clock (stamped s EventType.order_delivered (delivered_by id did)))
        ≡ ok (change_order next id (λ o. record o { status = "delivered" }))
  unfolding apply apply_kind recorded event_from stamped encode open_object fields_of value_at
      as_text str_eq
  apply-delivered_by id did = refl

  pub apply-moved :
      (id node : String) (x y : F) (i : ℕ) (p : F)
      → oversteps (driver next id).1.route_index ≡ false
      → apply b
          (recorded clock (stamped s EventType.driver_position_updated (moved id node x y i p)))
        ≡ ok (change_driver next id (λ d. moved_to d node))
  unfolding apply apply_kind moved_driver move recorded event_from stamped encode open_object
      fields_of value_at as_text str_eq
  apply-moved id node x y i p h = rw h refl

  pub apply-status_of :
      (id : String) (status : DriverStatus)
      → apply b (recorded clock (stamped s EventType.driver_status_changed (status_of id status)))
        ≡ ok (change_status next id (driver_status_name status))
  unfolding apply apply_kind recorded event_from stamped encode open_object fields_of value_at
      as_text str_eq
  apply-status_of id status = refl

  pub apply-routed :
      (id : String) (nodes : List String) (distance : F)
      → apply b (recorded clock (stamped s EventType.route_computed (routed id nodes distance)))
        ≡ ok (change_driver next id (λ d. record d { route = nodes; route_index = pos 0 }))
  unfolding apply apply_kind recorded event_from stamped encode open_object fields_of value_at
      as_text str_eq
  apply-routed id nodes distance = rw (as_list-ids F nodes) refl

  pub apply-invalidated :
      (id oid : String)
      → apply b (recorded clock (stamped s EventType.route_invalidated (invalidated id oid)))
        ≡ ok (next)
  unfolding apply apply_kind recorded event_from stamped encode open_object fields_of value_at
      as_text str_eq
  apply-invalidated id oid = refl

  pub apply-closed_roads :
      (edges : List String) (from to : String) (n : ℕ)
      → apply b (recorded clock (stamped s EventType.road_closed (closed_roads edges from to n)))
        ≡ ok (record next { edges = mark_all edges true b.edges })
  unfolding apply apply_kind recorded event_from stamped encode open_object fields_of value_at
      as_text str_eq
  apply-closed_roads edges from to n = rw (as_list-ids F edges) refl

  pub apply-reopened_roads :
      (edges : List String) (from to : String)
      → apply b (recorded clock (stamped s EventType.road_reopened (reopened_roads edges from to)))
        ≡ ok (record next { edges = mark_all edges false b.edges })
  unfolding apply apply_kind recorded event_from stamped encode open_object fields_of value_at
      as_text str_eq
  apply-reopened_roads edges from to = rw (as_list-ids F edges) refl

  pub apply-paused_is :
      (p : Bool)
      → apply b (recorded clock (stamped s EventType.simulation_paused (paused_is p)))
        ≡ ok (record next { paused = p })
  unfolding apply apply_kind recorded event_from stamped encode open_object fields_of value_at
      as_text str_eq as_truth
  apply-paused_is p = refl

  pub apply-speed_is :
      (m : F)
      → apply b (recorded clock (stamped s EventType.simulation_speed_changed (speed_is m)))
        ≡ ok (record next { speed = m })
  unfolding apply apply_kind recorded event_from stamped encode open_object fields_of value_at
      as_text str_eq as_real
  apply-speed_is m = refl
