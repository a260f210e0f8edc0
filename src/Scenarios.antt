-- ===== src/Scenarios.antt =====
-- Small concrete maps and runs: each theorem that has conditions, at an input where they hold.
mod Rides
mod Rows
mod Limits
mod Replays
mod Visitors
mod Cities
mod Recordings
mod Managers
use dispatch_lab.Prelude.{
  IsDistinct, All, ℕ, String, ◌≡◌, ◌≢◌, refl, Bool, true, false, none, some, List, [], ◌∷◌, arith,
  length, str_eq, str_lt, str_eq_iff,
}
use dispatch_lab.Prelude.Float.{nat_float, nat_float-laws}
use dispatch_lab.Prelude.Map.{lookup, insert}
use dispatch_lab.Prelude.Sort as Sort
use dispatch_lab.Prelude.Text.{short_id_injective}
use dispatch_lab.Domain.Defs.{Node, Edge, City, Driver, DriverStatus}
use dispatch_lab.Domain.City.{outgoing, edge_by_id, set_closed}
use dispatch_lab.Domain.City.Closing.{flagged, is_found, set_closed-edge_by_id, set_closed_other}
use dispatch_lab.Routing.{Route, find_route}
use dispatch_lab.Routing.Rounds.{IsForward}
use dispatch_lab.Routing.Total.{find_route_correct, Answers}
use dispatch_lab.Prelude.Int.{pos}
use dispatch_lab.Domain.Defs.{Order, OrderStatus}
use dispatch_lab.Spatial.{Point, CellKey, bucket, new_grid, cell_of}
use dispatch_lab.Spatial.Agreement.{Call, set_call, remove_call, after, within, bucket-within}
use dispatch_lab.Matching.Baseline.Batch.{drivers_of, baseline_batch-IsDistinct}
use dispatch_lab.Matching.Baseline.{baseline_batch, baseline_excluding, idle_key}
use dispatch_lab.Matching.Baseline.Nearest.{
  IsFree, Reaches, baseline_nearest, baseline_none, baseline_sound,
}
use dispatch_lab.Simulation.State.{Strategy}
use dispatch_lab.Simulation.Actor.{
  Config, place_order, close_road, Input, command, query, ticker, new_with_config, run,
}

abbrev pub road : String → String → String → ℕ → Bool → Edge ℕ
road id from to w closed = record { id = id; from = from; to = to; weight = w; closed = closed }

abbrev pub spot : String → ℕ → ℕ → Node ℕ
spot id x y = record { id = id; x = x; y = y }

-- Four corners; the short way from a to c is closed.
abbrev pub town : City ℕ
town = record {
  id = "town";
  version = 1;
  nodes =
      ("a", spot "a" 0 0) ∷ ("b", spot "b" 3 0) ∷ ("c", spot "c" 3 4) ∷ ("d", spot "d" 9 9) ∷ [];
  edges =
      ("a", road "ab" "a" "b" 3 false ∷ road "ac" "a" "c" 5 true ∷ [])
      ∷ ("b", road "bc" "b" "c" 4 false ∷ road "ba" "b" "a" 3 false ∷ [])
      ∷ ("c", road "cb" "c" "b" 4 false ∷ road "ca" "c" "a" 5 true ∷ [])
      ∷ [];
}

pub forward_ℕ : (es : List (Edge ℕ)) → IsForward es
unfolding nat_float
forward_ℕ [] = tt
forward_ℕ (e ∷ es) = (ground arith, forward_ℕ es)

find_route_correct_example :
    Answers nat_float-laws town "a" "c" (λ u. forward_ℕ (outgoing town u)) (find_route town "a" "c")
find_route_correct_example =
    find_route_correct nat_float-laws town "a" "c" (λ u. forward_ℕ (outgoing town u))

route_a_c : find_route town "a" "c" ≡ some (record { nodes = "a" ∷ "b" ∷ "c" ∷ []; distance = 7 })
unfolding find_route nat_float str_eq lookup Sort.insert insert
route_a_c = refl

abbrev parked : String → String → Driver ℕ
parked id position = record {
  id = id;
  position = position;
  status = DriverStatus.idle;
  route = [];
  route_index = 0;
  assigned_order = "";
  idle_since = 0;
  route_progress = 0;
}

abbrev cars : List (String × Driver ℕ)
cars = ("near", parked "near" "b") ∷ ("far", parked "far" "a") ∷ []

abbrev b_c : Route ℕ
b_c = record { nodes = "b" ∷ "c" ∷ []; distance = 4 }

picks_near : baseline_excluding town cars "c" [] ≡ some ("near", b_c)
unfolding baseline_excluding find_route nat_float str_eq lookup Sort.insert insert str_lt Sort.sort
picks_near = refl

picks_none : baseline_excluding town cars "d" [] ≡ none
unfolding baseline_excluding find_route nat_float str_eq lookup Sort.insert insert str_lt Sort.sort
picks_none = refl

abbrev a_b_c : Route ℕ
a_b_c = record { nodes = "a" ∷ "b" ∷ "c" ∷ []; distance = 7 }

near-IsFree : IsFree cars [] "near"
unfolding lookup str_eq idle_key
near-IsFree = (refl, refl)

far-IsFree : IsFree cars [] "far"
unfolding lookup str_eq idle_key
far-IsFree = (refl, refl)

far-Reaches : Reaches town cars "c" "far" a_b_c
unfolding find_route nat_float str_eq lookup Sort.insert insert
far-Reaches = (parked "far" "a", refl, refl)

baseline_sound_example : IsFree cars [] "near" × Reaches town cars "c" "near" b_c
baseline_sound_example = baseline_sound town cars "c" [] "near" b_c picks_near

baseline_nearest_example : nat_float.lt 7 4 ≡ false
baseline_nearest_example =
    baseline_nearest nat_float-laws town cars "c" [] "near" b_c picks_near "far" a_b_c far-IsFree
      far-Reaches

baseline_none_example : ¬ Reaches town cars "d" "near" b_c
baseline_none_example = baseline_none town cars "d" [] picks_none "near" b_c near-IsFree

set_closed-edge_by_id_example :
    (edge_by_id (set_closed town "ca" false).0 "ca" ≡ flagged false (edge_by_id town "ca"))
    × ((set_closed town "ca" false).1 ≡ is_found (edge_by_id town "ca"))
set_closed-edge_by_id_example = set_closed-edge_by_id town "ca" false

ab_bc_apart : ◌≢◌ {A = String} "ab" "bc"
unfolding str_eq
ab_bc_apart e = cc ((str_eq_iff "ab" "bc").1 e)

set_closed_other_example : edge_by_id (set_closed town "ab" true).0 "bc" ≡ edge_by_id town "bc"
set_closed_other_example = set_closed_other town "ab" "bc" true ab_bc_apart

short_id_injective_example : ◌≡◌ {A = ℕ} 12 12
short_id_injective_example = short_id_injective "driver" 12 12 refl

abbrev pub settings : Config ℕ
settings = record {
  id = "sim";
  driver_count = 2;
  strategy = Strategy.baseline;
  batch_window = 0;
  min_batch_size = 0;
  max_wait = 0;
  candidates_per_order = 0;
  cost_weights = record { pickup_distance = 0; wait_time = 0; driver_idle_time = 0 };
}

abbrev pub inputs : List (Input ℕ)
inputs =
    command (place_order "a" "c") "t1"
    ∷ ticker
    ∷ query
    ∷ command (close_road "bc" "cmd") ""
    ∷ ticker
    ∷ []

abbrev calls : List (Call ℕ)
calls =
    set_call "near" (record { x = 3; y = 0 })
    ∷ set_call "far" (record { x = 12; y = 7 })
    ∷ set_call "near" (record { x = 6; y = 0 })
    ∷ remove_call "far"
    ∷ []

bucket-within_example :
    lookup "near" (bucket (record { cx = pos 1; cy = pos 0 }) (after (new_grid 5) calls).cells)
    ≡ within
        (cell_of (after (new_grid 5) calls))
        (record { cx = pos 1; cy = pos 0 })
        (lookup "near" (after (new_grid 5) calls).points)
bucket-within_example = bucket-within 5 calls (record { cx = pos 1; cy = pos 0 }) "near"

abbrev ordered : String → String → Order ℕ
ordered id pickup = record {
  id = id;
  pickup = pickup;
  destination = "c";
  created_at = 0;
  status = OrderStatus.pending;
  assigned_driver = "";
}

abbrev two_orders : List (Order ℕ)
two_orders = ordered "order-2" "a" ∷ ordered "order-1" "b" ∷ []

baseline_batch-IsDistinct_example :
    IsDistinct (drivers_of (baseline_batch town cars two_orders))
    × All (λ id. idle_key cars id ≡ true) (drivers_of (baseline_batch town cars two_orders))
baseline_batch-IsDistinct_example = baseline_batch-IsDistinct town cars two_orders
