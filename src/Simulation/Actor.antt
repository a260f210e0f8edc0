-- ===== src/Simulation/Actor.antt =====
-- internal/simulation/simulation.go: construction, the commands, the tick and the actor loop.
-- The wall clock only paces the loop, so it is the order of the loop's inputs.
use dispatch_lab.Prelude.{
  ℕ, zero, suc, ◌+◌, ◌*◌, ◌/◌, String, Bool, false, ◌&&◌, Option, none, some, List, [], ◌∷◌, ◌++◌,
  length, get_or, ltb, str_eq, str_lt, if◌then◌else◌, ◌==◌,
}
use dispatch_lab.Prelude.Float.{FloatOps, flt, fle, feq, ◌⊕◌, num}
use dispatch_lab.Prelude.Map.{insert, keys}
use dispatch_lab.Prelude.Text.{short_id}
use dispatch_lab.Prelude.Sort as Sort
use dispatch_lab.Domain.Defs.{City, Driver, Order, DriverStatus, OrderStatus, EventType}
use dispatch_lab.Routing.{node_at}
use dispatch_lab.Spatial as Spatial
use dispatch_lab.Spatial.{Grid, new_grid}
use dispatch_lab.Matching.Optimized.{CostWeights, default_cost_weights}
use dispatch_lab.Simulation.State.{
  Sim, Strategy, Event, emit, take_pending, set_order, placed, paused_is, speed_is,
  snapshot_payload, build_snapshot_event,
}
use dispatch_lab.Simulation.Dispatch.{
  is_optimized, has_idle_driver, assign_baseline, retry_pending_baseline, dispatch_immediate,
  dispatch_optimized,
}
use dispatch_lab.Simulation.Movement.{move_all}
use dispatch_lab.Simulation.Roads.{handle_close_road, handle_reopen_road}

-- `Command`
pub data Command (F : Type 0) : Type 0 where
  place_order : (pickup destination : String) → Command F
  set_paused : Bool → Command F
  reset : Command F
  set_speed : F → Command F
  close_road : (edge_id command_id : String) → Command F
  reopen_road : (edge_id : String) → Command F

-- What `Run` receives in one round: an envelope with its trace, a query, or the ticker.
pub data Input (F : Type 0) : Type 0 where
  command : Command F → (trace : String) → Input F
  query : Input F
  ticker : Input F

pub record Config (F : Type 0) : Type 0 where
  pub id : String
  pub driver_count : ℕ
  pub strategy : Strategy
  pub batch_window : F
  pub min_batch_size : ℕ
  pub max_wait : F
  pub candidates_per_order : ℕ
  pub cost_weights : CostWeights F

-- A count of at most 0 falls back to the default.
abbrev pub nonzero_or : ℕ → ℕ → ℕ
nonzero_or d n = if n == 0 then d else n

module _ {F : Type 0} ⦃fl : FloatOps F⦄ where
  unfoldable pub idle_at : String → String → Driver F
  idle_at id position = record {
    id = id;
    position = position;
    status = DriverStatus.idle;
    route = [];
    route_index = 0;
    assigned_order = "";
    idle_since = num 0;
    route_progress = num 0;
  }

  -- Driver `i` of `count`, and so on for `n` drivers.
  unfoldable pub place_from : List String → ℕ → ℕ → ℕ → List (String × Driver F)
  place_from ids count i zero = []
  place_from ids count i (suc n) =
      let did = short_id "driver" i in
      insert did (idle_at did (get_or ids (i * length ids / count) ""))
        (place_from ids count (i + 1) n)

  -- `placeDrivers`
  unfoldable pub place_drivers : City F → ℕ → List (String × Driver F)
  place_drivers c count =
      let ids = Sort.sort str_lt (keys c.nodes) in
      place_from ids count 0 (if ltb count (length ids) then count else length ids)

  unfoldable pub index_drivers : City F → Grid F → List (String × Driver F) → Grid F
  index_drivers c g [] = g
  index_drivers c g ((id, d) ∷ ds) =
      let n = node_at c d.position in
      index_drivers c (Spatial.set_point g id (record { x = n.x; y = n.y })) ds

  abbrev pub positive_or : F → F → F
  positive_or d x = if fle x (num 0) then d else x

  unfoldable pub is_zero_weights : CostWeights F → Bool
  is_zero_weights w =
      if feq w.pickup_distance (num 0)
      then if feq w.wait_time (num 0) then feq w.driver_idle_time (num 0) else false
      else false

  -- `NewWithConfig`, for the generated city and its cell spacing.
  unfoldable pub new_with_config : Config F → City F → F → Sim F
  new_with_config cfg c spacing =
      let drivers = place_drivers c cfg.driver_count in
      let window = positive_or (num 5) cfg.batch_window in
      record {
        id = cfg.id;
        city = c;
        driver_count = cfg.driver_count;
        paused = false;
        speed = num 1;
        strategy = cfg.strategy;
        batch_window = window;
        next_batch_at = window;
        min_batch_size = nonzero_or 2 cfg.min_batch_size;
        max_wait = positive_or (num 2) cfg.max_wait;
        candidates_per_order = nonzero_or 8 cfg.candidates_per_order;
        cost_weights =
            if is_zero_weights cfg.cost_weights then default_cost_weights else cfg.cost_weights;
        pending_orders = [];
        driver_index =
            if is_optimized cfg.strategy
            then some (index_drivers c (new_grid spacing) drivers)
            else none;
        grid_cell_size = spacing;
        batch_dispatches = 0;
        immediate_dispatches = 0;
        drivers = drivers;
        orders = [];
        virtual_time = num 0;
        sequence = 0;
        current_trace = "";
        current_causation = "";
        pending = [];
        next_order_id = 0;
        crashed = false;
      }

  -- The first half of `handlePlaceOrder`.
  unfoldable pub record_order : Sim F → String → String → Sim F × Order F
  record_order s pickup destination =
      let id = short_id "order" (s.next_order_id + 1) in
      let o : Order F = record {
        id = id;
        pickup = pickup;
        destination = destination;
        created_at = s.virtual_time;
        status = OrderStatus.pending;
        assigned_driver = "";
      } in
      let s1 = record s { next_order_id = s.next_order_id + 1 } in
      (emit (set_order s1 id o) EventType.order_placed (placed id pickup destination), o)

  unfoldable pub handle_place_order : Sim F → String → String → Sim F
  handle_place_order s pickup destination =
      let (s1, o) = record_order s pickup destination in
      let s2 = record s1 { pending_orders = s1.pending_orders ++ o.id ∷ [] } in
      if is_optimized s1.strategy
      then if length s2.pending_orders == 1 && has_idle_driver s2 then dispatch_immediate s2 else s2
      else assign_baseline s1 o.id o

  unfoldable pub reset_index : Sim F → List (String × Driver F) → Option (Grid F) → Option (Grid F)
  reset_index s drivers none = none
  reset_index s drivers (some g) = some (index_drivers s.city (new_grid s.grid_cell_size) drivers)

  -- `reset`: the sequence keeps counting, the city keeps its closures.
  unfoldable pub reset_sim : Sim F → Sim F
  reset_sim s =
      let drivers = place_drivers s.city s.driver_count in
      let s1 = record s {
        drivers = drivers;
        orders = [];
        virtual_time = num 0;
        next_order_id = 0;
        pending_orders = [];
        next_batch_at = s.batch_window;
        batch_dispatches = 0;
        immediate_dispatches = 0;
        driver_index = reset_index s drivers s.driver_index;
      } in
      emit s1 EventType.simulation_snapshot (snapshot_payload s1)

  unfoldable pub handle : Sim F → Command F → Sim F
  handle s (place_order pickup destination) = handle_place_order s pickup destination
  handle s (set_paused b) = emit (record s { paused = b }) EventType.simulation_paused (paused_is b)
  handle s reset = reset_sim s
  handle s (set_speed m) =
      if flt (num 0) m
      then emit (record s { speed = m }) EventType.simulation_speed_changed (speed_is m)
      else s
  handle s (close_road edge_id command_id) = handle_close_road s edge_id command_id
  handle s (reopen_road edge_id) = handle_reopen_road s edge_id

  -- `handleTraced`: an empty trace is an invalid span context.
  unfoldable pub handle_traced : Sim F → Command F → String → Sim F
  handle_traced s c trace =
      let traced = handle (record s { current_trace = trace }) c in
      if str_eq trace "" then handle s c else record traced { current_trace = "" }

  -- The first half of `tick`: time moves on, then every driver in the order of the ids.
  unfoldable pub move_tick : Sim F → Sim F
  move_tick s =
      move_all (record s { virtual_time = s.virtual_time ⊕ num 1 })
        (Sort.sort str_lt (keys s.drivers))

  -- The second half: the queued orders are looked at again.
  unfoldable pub redispatch : Sim F → Sim F
  redispatch s = if is_optimized s.strategy then dispatch_optimized s else retry_pending_baseline s

  unfoldable pub tick : Sim F → Sim F
  tick s = if s.paused then s else redispatch (move_tick s)

  -- `Start`, `Apply` and `Advance`: the headless steps and the events of each.
  unfoldable pub start : Sim F → Sim F × List (Event F)
  start s = take_pending (emit s EventType.simulation_snapshot (snapshot_payload s))

  unfoldable pub apply : Sim F → Command F → Sim F × List (Event F)
  apply s c = take_pending (handle s c)

  unfoldable pub advance : Sim F → Sim F × List (Event F)
  advance s = take_pending (tick s)

  -- One round of `Run`: the new state, the events published and the reply to a query.
  unfoldable pub round : Sim F → Input F → Sim F × List (Event F) × Option (Event F)
  round s (command c trace) =
      let (t, events) = take_pending (handle_traced s c trace) in (t, events, none)
  round s query = (s, [], some (build_snapshot_event s))
  round s ticker = let (t, events) = take_pending (tick s) in (t, events, none)

  -- What the loop publishes over a sequence of inputs, after the first snapshot.
  unfoldable pub rounds : Sim F → List (Input F) → Sim F × List (Event F)
  rounds s [] = (s, [])
  rounds s (i ∷ is) =
      let (t, events, reply) = round s i in let (u, later) = rounds t is in (u, events ++ later)

  unfoldable pub run : Sim F → List (Input F) → Sim F × List (Event F)
  run s is = let (t, first) = start s in let (u, later) = rounds t is in (u, first ++ later)
