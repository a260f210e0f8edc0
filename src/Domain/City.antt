-- ===== src/Domain/City.antt =====
-- internal/domain/city.go: EdgeByID and SetClosed. They range over the map of adjacency lists,
-- here in the order in which it lists its keys.
pub mod Closing
use dispatch_lab.Prelude.{
  ℕ, String, ◌≡◌, refl, Bool, true, false, Option, none, some, List, [], ◌∷◌, ◌++◌, arith, str_eq,
  str_eq_iff, if◌then◌else◌, ◌≢◌, ◌↔◌,
}
use dispatch_lab.Prelude.Map.{lookup_or}
use dispatch_lab.Domain.Defs.{Edge, City}

module _ {F : Type 0} where
  unfoldable pub edge_in : String → List (Edge F) → Option (Edge F)
  edge_in id [] = none
  edge_in id (e ∷ es) = if str_eq e.id id then some e else edge_in id es

  unfoldable pub edge_in_lists : String → List (String × List (Edge F)) → Option (Edge F)
  edge_in_lists id [] = none
  edge_in_lists id ((k, es) ∷ m) = elim (edge_in id es) [
    | none ↦ edge_in_lists id m
    | some e ↦ some e
  ]

  unfoldable pub edge_by_id : City F → String → Option (Edge F)
  unfolding edge_in edge_in_lists
  edge_by_id c id = edge_in_lists id c.edges

  -- The list with `closed` written to its first edge of that id, and whether there was one.
  unfoldable pub close_in : String → Bool → List (Edge F) → List (Edge F) × Bool
  close_in id closed [] = ([], false)
  close_in id closed (e ∷ es) =
      if str_eq e.id id
      then (record e { closed = closed } ∷ es, true)
      else let (es', found) = close_in id closed es in (e ∷ es', found)

  unfoldable pub close_in_lists :
      String → Bool → List (String × List (Edge F)) → List (String × List (Edge F)) × Bool
  close_in_lists id closed [] = ([], false)
  close_in_lists id closed ((k, es) ∷ m) =
      let (es', found) = close_in id closed es in
      let (m', later) = close_in_lists id closed m in
      if found then ((k, es') ∷ m, true) else ((k, es) ∷ m', later)

  unfoldable pub set_closed : City F → String → Bool → City F × Bool
  unfolding close_in close_in_lists
  set_closed c id closed =
      let (edges', found) = close_in_lists id closed c.edges in (record c { edges = edges' }, found)

  -- `city.Edges[from]`
  abbrev pub outgoing : City F → String → List (Edge F)
  outgoing c from = lookup_or [] from c.edges
