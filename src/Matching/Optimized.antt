-- ===== src/Matching/Optimized.antt =====
-- internal/matching/optimized.go: a batch of orders against nearby idle drivers, by one min-cost
-- assignment. The measured compute time is left out.
use dispatch_lab.Prelude.{
  elem, ℕ, zero, suc, ◌+◌, ◌^◌, String, Bool, true, false, not, ◌&&◌, Option, none, some, List, [],
  ◌∷◌, ◌++◌, length, get_or, ltb, str_lt, if◌then◌else◌, ◌==◌,
}
use dispatch_lab.Prelude.Float.{FloatOps, flt, fle, ◌⊖◌, ◌⊗◌, num}
use dispatch_lab.Prelude.Map.{lookup, lookup_or, insert}
use dispatch_lab.Prelude.Sort as Sort
use dispatch_lab.Domain.Defs.{Driver, Order, City}
use dispatch_lab.Routing.{Route, find_route, node_at}
use dispatch_lab.Spatial.{Grid, candidates}
use dispatch_lab.Matching.Baseline.{Assignment, order_less}
use dispatch_lab.Matching.Assignment.{Pair, min_cost_assignment}

pub record CostWeights (F : Type 0) : Type 0 where
  pub pickup_distance : F
  pub wait_time : F
  pub driver_idle_time : F

-- One row of the matrix with what the source keeps of it: the order, its candidates, the routes
-- that were found and the costs.
pub record Row (F : Type 0) : Type 0 where
  pub order : Order F
  pub nearby : List String
  pub routes : List (String × Route F)
  pub costs : List F

unfoldable pub add_new : List String → List String → List String
add_new set_of [] = set_of
add_new set_of (x ∷ xs) = add_new (if elem x set_of then set_of else set_of ++ x ∷ []) xs

unfoldable pub union : List (List String) → List String → List String
unfolding add_new
union [] acc = acc
union (ids ∷ rest) acc = union rest (add_new acc ids)

module _ {F : Type 0} ⦃fl : FloatOps F⦄ where
  unfoldable pub default_cost_weights : CostWeights F
  default_cost_weights = record {
    pickup_distance = num 1;
    wait_time = num 1;
    driver_idle_time = fl.literal 1 10;
  }

  -- `Unreachable`
  abbrev pub unreachable : F
  unreachable = fl.literal (10 ^ 12) 1

  unfoldable pub all_candidates : City F → Grid F → ℕ → List (Order F) → Option (List (List String))
  all_candidates c index limit [] = some []
  all_candidates c index limit (o ∷ os) =
      let n = node_at c o.pickup in
      elim (candidates index (record { x = n.x; y = n.y }) limit) [
        | none ↦ none
        | some ids ↦ elim (all_candidates c index limit os) [
          | none ↦ none
          | some rest ↦ some (ids ∷ rest)
        ]
      ]

  unfoldable pub pair_cost : CostWeights F → F → Order F → Driver F → Route F → F
  pair_cost w now o d r =
      w.pickup_distance ⊗ r.distance
      ⊖ w.wait_time ⊗ (now ⊖ o.created_at)
      ⊖ w.driver_idle_time ⊗ (now ⊖ d.idle_since)

  -- The routes from the candidates; `none` is the nil driver of an id that the map lacks.
  unfoldable pub route_candidates :
      City F → List (String × Driver F) → Order F → List String → Option (List (String × Route F))
  route_candidates c drivers o [] = some []
  route_candidates c drivers o (id ∷ ids) = elim (lookup id drivers) [
    | none ↦ none
    | some d ↦ elim (route_candidates c drivers o ids) [
      | none ↦ none
      | some rest ↦ elim (find_route c d.position o.pickup) [
        | none ↦ some rest
        | some r ↦ some (insert id r rest)
      ]
    ]
  ]

  unfoldable pub cost_at :
      List (String × Driver F) → CostWeights F → F → Order F → List (String × Route F) → String → F
  unfolding pair_cost
  cost_at drivers w now o routes id = elim (lookup id routes) [
    | none ↦ unreachable
    | some r ↦ elim (lookup id drivers) [ none ↦ unreachable | some d ↦ pair_cost w now o d r ]
  ]

  unfoldable pub cost_row :
      List (String × Driver F)
      → CostWeights F
      → F
      → Order F
      → List (String × Route F)
      → List String
      → List F
  unfolding cost_at
  cost_row drivers w now o routes [] = []
  cost_row drivers w now o routes (id ∷ ids) =
      cost_at drivers w now o routes id ∷ cost_row drivers w now o routes ids

  unfoldable pub build_rows :
      City F
      → List (String × Driver F)
      → CostWeights F
      → F
      → List String
      → List (Order F)
      → List (List String)
      → Option (List (Row F))
  unfolding route_candidates cost_row
  build_rows c drivers w now columns [] near = some []
  build_rows c drivers w now columns (o ∷ os) [] = none
  build_rows c drivers w now columns (o ∷ os) (ids ∷ near) =
      elim (route_candidates c drivers o ids) [
        | none ↦ none
        | some routes ↦ elim (build_rows c drivers w now columns os near) [
          | none ↦ none
          | some rest ↦
              let row : Row F = record {
                order = o;
                nearby = ids;
                routes = routes;
                costs = cost_row drivers w now o routes columns;
              } in
              some (row ∷ rest)
        ]
      ]

  unfoldable pub costs_of : List (Row F) → List (List F)
  costs_of [] = []
  costs_of (r ∷ rs) = r.costs ∷ costs_of rs

  abbrev pub row_of : List (Row F) → ℕ → Option (Row F)
  row_of [] i = none
  row_of (r ∷ rs) zero = some r
  row_of (r ∷ rs) (suc i) = row_of rs i

  -- The accepted pairs: those that cost less than the sentinel.
  unfoldable pub accept : List (Row F) → List String → List (Pair F) → List (Assignment F)
  accept rows columns [] = []
  accept rows columns (p ∷ ps) =
      let rest = accept rows columns ps in
      let id = get_or columns p.col "" in
      if fle unreachable p.cost then rest else elim (row_of rows p.row) [
        | none ↦ rest
        | some r ↦
            record {
              order_id = r.order.id;
              driver_id = id;
              to_pickup = lookup_or (record { nodes = []; distance = num 0 }) id r.routes;
            }
            ∷ rest
      ]

  unfoldable pub accepted_row : ℕ → List (Pair F) → Bool
  accepted_row i [] = false
  accepted_row i (p ∷ ps) =
      if p.row == i && not (fle unreachable p.cost) then true else accepted_row i ps

  unfoldable pub row_is_infeasible : List F → Bool
  row_is_infeasible [] = true
  row_is_infeasible (c ∷ cs) = if flt c unreachable then false else row_is_infeasible cs

  unfoldable pub infeasible_from : ℕ → List (Pair F) → List (Row F) → List String
  unfolding accepted_row row_is_infeasible
  infeasible_from i ps [] = []
  infeasible_from i ps (r ∷ rs) =
      let rest = infeasible_from (i + 1) ps rs in
      if not (accepted_row i ps) && ltb 0 (length r.nearby) && row_is_infeasible r.costs
      then r.order.id ∷ rest
      else rest

  unfoldable pub optimized :
      City F
      → List (String × Driver F)
      → List (Order F)
      → Grid F
      → ℕ
      → CostWeights F
      → F
      → Option (List (Assignment F) × List String)
  unfolding all_candidates union build_rows costs_of accept infeasible_from order_less
  optimized c drivers [] index limit w now = some ([], [])
  optimized c drivers (o ∷ os) index limit w now =
      let sorted = Sort.sort order_less (o ∷ os) in
      elim (all_candidates c index limit sorted) [
        | none ↦ none
        | some near ↦
            let columns = Sort.sort str_lt (union near []) in
            elim (build_rows c drivers w now columns sorted near) [
              | none ↦ none
              | some rows ↦ elim (min_cost_assignment (costs_of rows)) [
                | none ↦ none
                | some pairs ↦ some (accept rows columns pairs, infeasible_from 0 pairs rows)
              ]
            ]
      ]
