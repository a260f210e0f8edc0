-- ===== src/Scenarios/Rides.antt =====
-- Whole simulations on the concrete map: an order is placed, driven and rerouted.
use dispatch_lab.Prelude.{◌+◌, arith, ℕ, ◌≡◌, refl, false, some, [], ◌∷◌, length, str_eq, str_lt}
use dispatch_lab.Prelude.Float.{nat_float}
use dispatch_lab.Prelude.Map.{lookup, insert}
use dispatch_lab.Prelude.Sort as Sort
use dispatch_lab.Prelude.Text.{short_id}
use dispatch_lab.Domain.Defs.{City, Driver, DriverStatus}
use dispatch_lab.Simulation.State.{Sim, emit, set_order, set_driver, stamped}
use dispatch_lab.Simulation.Dispatch.{assign_baseline, apply_assignment, commit, unindex}
use dispatch_lab.Matching.Baseline.{baseline}
use dispatch_lab.Routing.{find_route}
use dispatch_lab.Simulation.Movement.{drive}
use dispatch_lab.Simulation.Lifecycle.Rounds.{drive_enough}
use dispatch_lab.Simulation.Actor.{
  new_with_config, run, handle, place_order, handle_place_order, record_order, place_drivers,
  place_from, idle_at, index_drivers,
}
use dispatch_lab.Simulation.Stream.Extends.{Numbered}
use dispatch_lab.Simulation.Stream.Loop.{run-Numbered}
use dispatch_lab.Simulation.Lifecycle.Consistent.{Consistent}
use dispatch_lab.Scenarios.{road, town, settings, inputs}

run-Numbered_example :
    let (t, events) = run (new_with_config settings town 1) inputs in
    Numbered 0 events × (t.sequence ≡ length events) × (t.pending ≡ [])
run-Numbered_example = run-Numbered settings town 1 inputs

-- The town before the road between a and c was closed.
abbrev open_town : City ℕ
open_town = record town {
  edges =
      ("a", road "ab" "a" "b" 3 false ∷ road "ac" "a" "c" 5 false ∷ [])
      ∷ ("b", road "bc" "b" "c" 4 false ∷ road "ba" "b" "a" 3 false ∷ [])
      ∷ ("c", road "cb" "c" "b" 4 false ∷ road "ca" "c" "a" 5 false ∷ [])
      ∷ [];
}

-- A driver is on its way from a to c by the direct road, which closes.
abbrev cut_off_ride : Sim ℕ
cut_off_ride = record (handle (new_with_config settings open_town 1) (place_order "a" "c")) {
  city = town;
}

abbrev rerouted : Driver ℕ
rerouted = record {
  id = "driver-0";
  position = "a";
  status = DriverStatus.delivering;
  route = "a" ∷ "b" ∷ "c" ∷ [];
  route_index = 0;
  assigned_order = "order-1";
  idle_since = 0;
  route_progress = 0;
}

-- The driver of the ride before the road closes.
abbrev riding : Driver ℕ
riding = record rerouted { route = "a" ∷ "c" ∷ [] }

rides : lookup "driver-0" cut_off_ride.drivers ≡ some riding
unfolding handle handle_place_order record_order emit set_order set_driver stamped assign_baseline
    apply_assignment commit unindex baseline find_route new_with_config place_drivers place_from
    idle_at index_drivers short_id nat_float lookup str_eq str_lt Sort.sort Sort.insert insert
rides = refl

drive_enough_example : drive (2 + 1) cut_off_ride "driver-0" 25 ≡ drive 1 cut_off_ride "driver-0" 25
drive_enough_example = drive_enough 2 1 cut_off_ride "driver-0" 25 (ground (arith, rides))
