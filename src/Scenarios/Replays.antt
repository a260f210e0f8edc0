-- ===== src/Scenarios/Replays.antt =====
-- Replays of a concrete run, out of a concrete store.
use dispatch_lab.Prelude.{
  ℕ, ◌+◌, String, ◌≡◌, refl, false, none, some, List, [], ◌∷◌, arith, map, str_eq,
}
use dispatch_lab.Prelude.Int.{ℤ, negsuc}
use dispatch_lab.Prelude.Float.{nat_float}
use dispatch_lab.Prelude.Map.{lookup, insert}
use dispatch_lab.Simulation.State.{Snapshot, snapshot, whole_state}
use dispatch_lab.Simulation.Actor.{new_with_config, run}
use dispatch_lab.Domain.Defs.{EventType}
use dispatch_lab.Store.Memory.{Memory, StoredEvent, StoredSnapshot, Simulation, new_memory}
use dispatch_lab.Replay.Json.{
  Raw, json, obj, text, whole, array, item, end, open_object, fields_of, value_at, as_text,
  as_whole, as_list, items_of, each, as_truth, as_real,
}
use dispatch_lab.Replay.Wire.{Decoded, recorded, encode}
use dispatch_lab.Replay.State as Replay
use dispatch_lab.Replay.State.{ok, crashed, driver}
use dispatch_lab.Replay.Fold.{
  decode_snapshot, decode_driver, state_at, base_builder, fold, apply, apply_kind, moved_driver,
  move, load, load_each, apply_snapshot,
}
use dispatch_lab.Replay.Coherent.{find, driver_id, order_id}
use dispatch_lab.Replay.Reader.{bare_simulation}
use dispatch_lab.Replay.Agreement.Views.{order_shown, Match, Roads}
use dispatch_lab.Replay.Agreement.Snapshots.{snapshot_view, decode_snapshot-encode}
use dispatch_lab.Replay.Agreement.Runs.{SpeedLaws, state_at-run}
use dispatch_lab.Scenarios.{town, settings, inputs}

nat_speed : SpeedLaws ℕ
unfolding nat_float
nat_speed = record { one_ne_zero = refl; positive_ne_zero = λ m h. ground (arith, h) }

-- A clock that adds a second for each event.
abbrev seconds : ℕ → ℕ
seconds n = 1000 + n

state_at-run_example :
    let (s, events) = run (new_with_config settings town 1) inputs in
    (t : Replay.State ℕ) × (state_at "sim" none (map (recorded seconds) events) 0 ≡ ok t)
    × ((k : String) → find order_id k t.orders ≡ order_shown (lookup k s.orders))
    × ((k : String) → Match false (find driver_id k t.drivers) (lookup k s.drivers))
    × Roads t.edges s.city
    × (t.paused ≡ s.paused)
    × (t.speed ≡ s.speed)
    × (t.sequence ≡ s.sequence)
state_at-run_example = state_at-run seconds nat_speed "sim" settings town 1 inputs

abbrev picture : Snapshot ℕ
picture = whole_state (new_with_config settings town 1)

decode_snapshot-encode_example :
    decode_snapshot (json (encode (snapshot picture))) ≡ some (snapshot_view picture)
decode_snapshot-encode_example = decode_snapshot-encode picture

abbrev row : ℕ → StoredEvent ℕ (Raw ℕ)
row n = record {
  simulation_id = "sim";
  sequence = n;
  virtual_time = n;
  kind = EventType.route_invalidated;
  payload = json (obj (("driverId", text "driver-0") ∷ []));
  trace_id = "";
  recorded_at = 0;
}

abbrev log : List (StoredEvent ℕ (Raw ℕ))
log = row 1 ∷ row 2 ∷ row 4 ∷ []

abbrev history : Memory ℕ (Raw ℕ)
history = record (new_memory) { events = ("sim", log) ∷ [] }

-- A snapshot with one driver, at a place on its route.
abbrev placed_at : ℤ → StoredSnapshot ℕ (Raw ℕ)
placed_at i = record {
  simulation_id = "sim";
  sequence = 1;
  virtual_time = 1;
  payload = json (
      obj (
        (
          "drivers",
          array (
              item
                (obj (
                  ("id", text "driver-0")
                  ∷ ("route", array (item (text "a") end))
                  ∷ ("routeIndex", whole i)
                  ∷ []))
                end),
        )
        ∷ []));
  recorded_at = 0;
}

abbrev update : StoredEvent ℕ (Raw ℕ)
update = record (row 2) {
  kind = EventType.driver_position_updated;
  payload = json (obj (("driverId", text "driver-0") ∷ ("nodeId", text "a") ∷ []));
}

-- Further below the start of the route, the update panics.
crashed_below : state_at "sim" (some (placed_at (negsuc 1))) (update ∷ []) 2 ≡ crashed
unfolding state_at base_builder fold apply apply_kind moved_driver move load load_each lookup insert
    driver apply_snapshot decode_snapshot decode_driver open_object fields_of value_at as_text
    as_whole as_list items_of each as_truth as_real str_eq
crashed_below = refl

abbrev bare : Simulation
bare = bare_simulation "sim"

abbrev decoded : ℕ → Decoded ℕ
decoded n = record {
  simulation_id = "sim";
  sequence = n;
  virtual_time = n;
  kind = EventType.route_invalidated;
  payload = obj (("driverId", text "driver-0") ∷ []);
  trace_id = "";
}
