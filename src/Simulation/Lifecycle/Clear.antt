-- ===== src/Simulation/Lifecycle/Clear.antt =====
-- internal/simulation/simulation.go: recalculateAffectedRoutes leaves no driver on a route over a
-- closed road.
use dispatch_lab.Prelude.{String, ◌≡◌, true, false, some, str_eq}
use dispatch_lab.Prelude.Float.{FloatOps, FloatLaws}
use dispatch_lab.Prelude.Map.{lookup, has}
use dispatch_lab.Prelude.Sort as Sort
use dispatch_lab.Domain.Defs.{City, Driver}
use dispatch_lab.Domain.City.{outgoing}
use dispatch_lab.Routing.Rounds.{IsForward}
use dispatch_lab.Simulation.State.{Sim}
use dispatch_lab.Simulation.Roads.{is_affected}
use dispatch_lab.Simulation.Lifecycle.Hops.{IsSimple}

module _ {F : Type 0} ⦃fl : FloatOps F⦄ (laws : FloatLaws F) (c : City F)
    (forward : (u : String) → IsForward (outgoing c u))
    (simple : (u : String) → IsSimple (outgoing c u)) where
  -- The driver's route ahead has no closed road.
  abbrev Clear : Sim F → String → Type 0
  Clear s j = (d : Driver F) → lookup j s.drivers ≡ some d → is_affected s d ≡ false

  -- What the treatment of driver `id` makes of `s`.
  record Treated (id : String) (s t : Sim F) : Type 0 where
    city : t.city ≡ s.city
    clear : Clear t id
    others : (j : String) → str_eq id j ≡ false → lookup j t.drivers ≡ lookup j s.drivers
    still : (j : String) → has j t.drivers ≡ true → has j s.drivers ≡ true
