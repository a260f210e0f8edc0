-- ===== src/Matching/Baseline.antt =====
-- internal/matching/baseline.go: the nearest idle driver, for one order and for a batch. The
-- measured compute time that BaselineBatch also returns is left out.
pub mod Nearest
pub mod Batch
use dispatch_lab.Prelude.{
  elem, ℕ, String, Bool, true, false, not, ◌&&◌, Option, none, some, List, [], ◌∷◌, keep, map,
  str_eq, str_lt, if◌then◌else◌,
}
use dispatch_lab.Prelude.Float.{FloatOps, flt}
use dispatch_lab.Prelude.Map.{lookup, keys}
use dispatch_lab.Prelude.Sort as Sort
use dispatch_lab.Domain.Defs.{Driver, DriverStatus, Order, City}
use dispatch_lab.Routing.{Route, find_route}

abbrev pub is_idle : DriverStatus → Bool
is_idle DriverStatus.idle = true
is_idle _ = false

-- `Assignment` of optimized.go.
pub record Assignment (F : Type 0) : Type 0 where
  pub order_id : String
  pub driver_id : String
  pub to_pickup : Route F

module _ {F : Type 0} where
  unfoldable pub idle_key : List (String × Driver F) → String → Bool
  idle_key drivers id = elim (lookup id drivers) [ none ↦ false | some d ↦ is_idle d.status ]

  -- The ids of the drivers that are idle and not excluded.
  unfoldable pub free_ids : List String → List (String × Driver F) → List String
  unfolding idle_key
  free_ids exclude drivers =
      keep (λ id. idle_key drivers id && not (elem id exclude)) (keys drivers)

  unfoldable pub order_less : Order F → Order F → Bool
  order_less a b = str_lt a.id b.id

module _ {F : Type 0} ⦃fl : FloatOps F⦄ where
  unfoldable pub is_closer : Route F → Option (String × Route F) → Bool
  is_closer r none = true
  is_closer r (some (id, best)) = flt r.distance best.distance

  -- One candidate against the best so far.
  unfoldable pub consider :
      City F
      → List (String × Driver F)
      → String
      → Option (String × Route F)
      → String
      → Option (String × Route F)
  unfolding is_closer
  consider c drivers pickup best id = elim (lookup id drivers) [
    | none ↦ best
    | some d ↦ elim (find_route c d.position pickup) [
      | none ↦ best
      | some r ↦ if is_closer r best then some (id, r) else best
    ]
  ]

  unfoldable pub pick_nearest :
      City F
      → List (String × Driver F)
      → String
      → Option (String × Route F)
      → List String
      → Option (String × Route F)
  pick_nearest c drivers pickup best [] = best
  pick_nearest c drivers pickup best (id ∷ ids) =
      pick_nearest c drivers pickup (consider c drivers pickup best id) ids

  unfoldable pub baseline_excluding :
      City F → List (String × Driver F) → String → List String → Option (String × Route F)
  unfolding free_ids consider pick_nearest
  baseline_excluding c drivers pickup exclude =
      pick_nearest c drivers pickup none (Sort.sort str_lt (free_ids exclude drivers))

  unfoldable pub baseline : City F → List (String × Driver F) → String → Option (String × Route F)
  unfolding baseline_excluding
  baseline c drivers pickup = baseline_excluding c drivers pickup []

  unfoldable pub batch_loop :
      City F → List (String × Driver F) → List String → List (Order F) → List (Assignment F)
  batch_loop c drivers taken [] = []
  batch_loop c drivers taken (o ∷ os) = elim (baseline_excluding c drivers o.pickup taken) [
    | none ↦ batch_loop c drivers taken os
    | some (id, r) ↦
        record { order_id = o.id; driver_id = id; to_pickup = r }
        ∷ batch_loop c drivers (id ∷ taken) os
  ]

  unfoldable pub baseline_batch :
      City F → List (String × Driver F) → List (Order F) → List (Assignment F)
  unfolding order_less batch_loop baseline_excluding
  baseline_batch c drivers orders = batch_loop c drivers [] (Sort.sort order_less orders)
