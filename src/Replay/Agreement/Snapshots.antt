-- ===== src/Replay/Agreement/Snapshots.antt =====
-- internal/replay/state.go and internal/simulation/simulation.go: a snapshot reads back as the
-- state that it was taken of.
use dispatch_lab.Prelude.Int.{pos}
use dispatch_lab.Prelude.{◌≡◌, refl, some, map, str_eq}
use dispatch_lab.Prelude.Float.{FloatOps}
use dispatch_lab.Domain.Defs.{Node, Edge, Driver, Order}
use dispatch_lab.Simulation.State.{Snapshot, DriverView, snapshot}
use dispatch_lab.Replay.Json.{
  json, fields_of, open_object, value_at, as_text, as_truth, as_whole, as_real, as_list, items_of,
  each-items,
}
use dispatch_lab.Replay.Wire.{
  driver_status_name, node_json, edge_json, driver_json, order_json, snapshot_json, encode,
}
use dispatch_lab.Replay.State as Replay
use dispatch_lab.Replay.Fold.{
  decode_node, decode_edge, decode_driver, decode_order, decode_snapshot,
}
use dispatch_lab.Replay.Agreement.Views.{order_view}
use dispatch_lab.Replay.Agreement.Events.{as_list-ids}

module _ {F : Type 0} where
  unfoldable pub node_view : Node F → Replay.Node F
  node_view n = record { id = n.id; x = n.x; y = n.y }

  unfoldable pub edge_view : Edge F → Replay.Edge
  edge_view e = record { id = e.id; from = e.from; to = e.to; closed = e.closed }

  unfoldable pub plain : Driver F → Replay.Driver
  plain d = record {
    id = d.id;
    position = d.position;
    status = driver_status_name d.status;
    route = d.route;
    route_index = pos d.route_index;
    assigned_order = d.assigned_order;
  }

  unfoldable pub driver_view : DriverView F → Replay.Driver
  unfolding plain
  driver_view v = plain v.driver

  unfoldable pub snapshot_view : Snapshot F → Replay.Snapshot F
  snapshot_view s = record {
    nodes = map node_view s.nodes;
    edges = map edge_view s.edges;
    drivers = map driver_view s.drivers;
    orders = map order_view s.orders;
    paused = s.paused;
    speed = s.speed;
  }

  edge_roundtrip : (e : Edge F) → decode_edge (edge_json e) ≡ some (edge_view e)
  unfolding decode_edge edge_json edge_view fields_of value_at as_text as_truth str_eq
  edge_roundtrip e = refl

  driver_roundtrip : (v : DriverView F) → decode_driver (driver_json v) ≡ some (driver_view v)
  unfolding decode_driver driver_json driver_view plain fields_of value_at as_text as_whole str_eq
  driver_roundtrip v = rw (as_list-ids F v.driver.route) refl

module _ {F : Type 0} ⦃fl : FloatOps F⦄ where
  node_roundtrip : (n : Node F) → decode_node (node_json n) ≡ some (node_view n)
  unfolding decode_node node_json node_view fields_of value_at as_text as_real str_eq
  node_roundtrip n = refl

  order_roundtrip : (o : Order F) → decode_order (order_json o) ≡ some (order_view o)
  unfolding decode_order order_json order_view fields_of value_at as_text as_real str_eq
  order_roundtrip o = refl

  -- A snapshot that is marshalled and read back is complete: it has every node, every road with
  -- whether it is closed, every driver with its position, status, route, place on the route and
  -- order, every order with all its fields, the pause and the speed, each in the same order.
  pub decode_snapshot-encode :
      (s : Snapshot F) → decode_snapshot (json (encode (snapshot s))) ≡ some (snapshot_view s)
  unfolding decode_snapshot encode snapshot_json snapshot_view open_object fields_of value_at
      as_list items_of as_truth as_real str_eq
  decode_snapshot-encode s =
      rw
        (
          each-items node_json decode_node node_view node_roundtrip s.nodes,
          each-items edge_json decode_edge edge_view edge_roundtrip s.edges,
          each-items driver_json decode_driver driver_view driver_roundtrip s.drivers,
          each-items order_json decode_order order_view order_roundtrip s.orders,
        )
        refl
