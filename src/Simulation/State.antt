-- ===== src/Simulation/State.antt =====
-- internal/simulation/simulation.go: the state of a simulation and the events that it emits.
-- Metrics, logging and spans are left out, and so are the measured times (`recalculationMs`,
-- `totalAssignmentComputeMs`), which nothing reads back. `batchWindow` and `nextBatchAt` are kept.
use dispatch_lab.Prelude.{
  ℕ, ◌+◌, ◌-◌, String, Bool, true, ◌||◌, Option, none, some, List, [], ◌∷◌, ◌++◌, length, get_or,
  leb, str_eq, str_lt, if◌then◌else◌, ◌==◌,
}
use dispatch_lab.Prelude.Float.{FloatOps, flt, fle, ◌⊕◌, ◌⊖◌, ◌⊗◌, ◌⊘◌, num}
use dispatch_lab.Prelude.Map.{insert, values, by_key}
use dispatch_lab.Prelude.Sort as Sort
use dispatch_lab.Domain.Defs.{Node, Edge, City, Driver, Order, DriverStatus, EventType}
use dispatch_lab.Domain.City.{outgoing}
use dispatch_lab.Routing.{node_at}
use dispatch_lab.Spatial.{Grid}
use dispatch_lab.Matching.Optimized.{CostWeights}

pub data Strategy : Type 0 where
  baseline optimized : Strategy

-- A driver in a snapshot: its record, and where it is drawn.
pub record DriverView (F : Type 0) : Type 0 where
  pub driver : Driver F
  pub x : F
  pub y : F

pub record Snapshot (F : Type 0) : Type 0 where
  pub nodes : List (Node F)
  pub edges : List (Edge F)
  pub drivers : List (DriverView F)
  pub orders : List (Order F)
  pub paused : Bool
  pub speed : F

-- The payloads, one constructor for each map that the source builds.
pub data Payload (F : Type 0) : Type 0 where
  snapshot : Snapshot F → Payload F
  placed : (order pickup destination : String) → Payload F
  assigned_to : (order driver : String) (pickup_eta pickup_distance : F) → Payload F
  refused : (order reason : String) → Payload F
  delivered_by : (order driver : String) → Payload F
  moved : (driver node : String) (x y : F) (route_index : ℕ) (route_progress : F) → Payload F
  status_of : (driver : String) (status : DriverStatus) → Payload F
  routed : (driver : String) (nodes : List String) (distance : F) → Payload F
  invalidated : (driver order : String) → Payload F
  closed_roads : (edges : List String) (from to : String) (affected : ℕ) → Payload F
  reopened_roads : (edges : List String) (from to : String) → Payload F
  paused_is : Bool → Payload F
  speed_is : F → Payload F

pub record Event (F : Type 0) : Type 0 where
  pub simulation_id : String
  pub sequence : ℕ
  pub virtual_time : F
  pub kind : EventType
  pub payload : Payload F
  pub trace_id : String
  pub causation_id : String

-- `Simulation`. `crashed` marks a nil dereference or an index out of range, where Go panics.
pub record Sim (F : Type 0) : Type 0 where
  pub id : String
  pub city : City F
  pub driver_count : ℕ
  pub paused : Bool
  pub speed : F
  pub strategy : Strategy
  pub batch_window : F
  pub next_batch_at : F
  pub min_batch_size : ℕ
  pub max_wait : F
  pub candidates_per_order : ℕ
  pub cost_weights : CostWeights F
  pub pending_orders : List String
  pub driver_index : Option (Grid F)
  pub grid_cell_size : F
  pub batch_dispatches : ℕ
  pub immediate_dispatches : ℕ
  pub drivers : List (String × Driver F)
  pub orders : List (String × Order F)
  pub virtual_time : F
  pub sequence : ℕ
  pub current_trace : String
  pub current_causation : String
  pub pending : List (Event F)
  pub next_order_id : ℕ
  pub crashed : Bool

module _ {F : Type 0} where
  -- `edgeBetween`: the first edge to `to` among the edges that leave `from`.
  unfoldable pub edge_to : String → List (Edge F) → Option (Edge F)
  edge_to to [] = none
  edge_to to (e ∷ es) = if str_eq e.to to then some e else edge_to to es

  unfoldable pub edge_between : City F → String → String → Option (Edge F)
  edge_between c from to = edge_to to (outgoing c from)

  -- The event that `emit` builds.
  unfoldable pub stamped : Sim F → EventType → Payload F → Event F
  stamped s kind payload = record {
    simulation_id = s.id;
    sequence = s.sequence + 1;
    virtual_time = s.virtual_time;
    kind = kind;
    payload = payload;
    trace_id = s.current_trace;
    causation_id = s.current_causation;
  }

  unfoldable pub emit : Sim F → EventType → Payload F → Sim F
  emit s kind payload = record s {
    sequence = s.sequence + 1;
    pending = s.pending ++ stamped s kind payload ∷ [];
  }

  -- `takePending`
  unfoldable pub take_pending : Sim F → Sim F × List (Event F)
  take_pending s = (record s { pending = [] }, s.pending)

  unfoldable pub crash : Sim F → Sim F
  crash s = record s { crashed = true }

  -- Writes through the pointers that the maps hold.
  unfoldable pub set_driver : Sim F → String → Driver F → Sim F
  set_driver s id d = record s { drivers = insert id d s.drivers }

  unfoldable pub set_order : Sim F → String → Order F → Sim F
  set_order s id o = record s { orders = insert id o s.orders }

  unfoldable pub all_edges : List (String × List (Edge F)) → List (Edge F)
  all_edges [] = []
  all_edges ((k, es) ∷ m) = es ++ all_edges m

module _ {F : Type 0} ⦃fl : FloatOps F⦄ where
  -- `driverPosition`
  unfoldable pub driver_position : Sim F → Driver F → F × F
  driver_position s d =
      let here = node_at s.city d.position in
      let next = get_or d.route (d.route_index + 1) "" in
      let there = node_at s.city next in
      if length d.route == 0 || leb (length d.route - 1) d.route_index
      then (here.x, here.y)
      else elim (edge_between s.city d.position next) [
        | none ↦ (here.x, here.y)
        | some e ↦
            let raw = d.route_progress ⊘ e.weight in
            let low = (if flt raw (num 0) then num 0 else raw) in
            let t = (if flt (num 1) low then num 1 else low) in
            if fle e.weight (num 0)
            then (here.x, here.y)
            else (here.x ⊕ (there.x ⊖ here.x) ⊗ t, here.y ⊕ (there.y ⊖ here.y) ⊗ t)
      ]

  unfoldable pub emit_driver_position : Sim F → String → Driver F → Sim F
  emit_driver_position s id d =
      let (x, y) = driver_position s d in
      emit s EventType.driver_position_updated
        (moved id d.position x y d.route_index d.route_progress)

  unfoldable pub views : Sim F → List (String × Driver F) → List (DriverView F)
  views s [] = []
  views s ((id, d) ∷ ds) =
      let (x, y) = driver_position s d in record { driver = d; x = x; y = y } ∷ views s ds

  -- `snapshotPayload`: everything, sorted by id.
  abbrev pub whole_state : Sim F → Snapshot F
  whole_state s = record {
    nodes = values (Sort.sort (by_key) s.city.nodes);
    edges = Sort.sort (λ a b. str_lt a.id b.id) (all_edges s.city.edges);
    drivers = views s (Sort.sort (by_key) s.drivers);
    orders = values (Sort.sort (by_key) s.orders);
    paused = s.paused;
    speed = s.speed;
  }

  unfoldable pub snapshot_payload : Sim F → Payload F
  snapshot_payload s = snapshot (whole_state s)

  -- `buildSnapshotEvent`: outside the sequenced stream, so with the last number.
  unfoldable pub build_snapshot_event : Sim F → Event F
  build_snapshot_event s = record {
    simulation_id = s.id;
    sequence = s.sequence;
    virtual_time = s.virtual_time;
    kind = EventType.simulation_snapshot;
    payload = snapshot_payload s;
    trace_id = "";
    causation_id = "";
  }
