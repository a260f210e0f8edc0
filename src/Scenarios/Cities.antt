-- ===== src/Scenarios/Cities.antt =====
-- A city of two rows and three columns over whole numbers.
use dispatch_lab.Prelude.{ℕ, ◌%◌, ◌≡◌, some, arith, All}
use dispatch_lab.Prelude.Int.{pos}
use dispatch_lab.Prelude.Float.{nat_float, nat_float-laws}
use dispatch_lab.Domain.City.{outgoing}
use dispatch_lab.Routing.{Route, find_route}
use dispatch_lab.Routing.Walks.{Walk}
use dispatch_lab.Grid.{GridConfig, node_id, generate_grid}
use dispatch_lab.Grid.Roads.{HasRoots, Plain, leads, generate_grid-two_way, generate_grid-Plain}
use dispatch_lab.Grid.Connected.{find_route-generate_grid}

abbrev blocks : GridConfig ℕ
blocks = record { seed = pos 7; rows = 2; cols = 3; cell_spacing = 10; jitter_fraction = 1 }

abbrev random : ℕ → ℕ
random n = n % 2

roots : HasRoots ℕ
unfolding nat_float
roots a = ground arith

generate_grid-two_way_example :
    leads (generate_grid blocks random).edges "n-0-0" "n-0-1"
    ≡ leads (generate_grid blocks random).edges "n-0-1" "n-0-0"
generate_grid-two_way_example = generate_grid-two_way blocks random "n-0-0" "n-0-1"

generate_grid-Plain_example :
    All
      (Plain (generate_grid blocks random).nodes "n-0-1")
      (outgoing (generate_grid blocks random) "n-0-1")
generate_grid-Plain_example = generate_grid-Plain blocks random roots "n-0-1"

find_route-generate_grid_example :
    (route : Route ℕ) × (find_route (generate_grid blocks random) (node_id 1 0) (node_id 0 2)
      ≡ some route)
    × Walk (generate_grid blocks random) (node_id 1 0) (node_id 0 2) route.nodes
find_route-generate_grid_example =
    find_route-generate_grid roots blocks random nat_float-laws 1 0 0 2 (omega arith) (omega arith)
      (omega arith) (omega arith)
