-- ===== src/Domain/City/Closing.antt =====
-- internal/domain/city.go: what SetClosed does to the edges that EdgeByID finds.
use dispatch_lab.Prelude.{
  String, ◌≡◌, ◌≢◌, refl, Bool, true, false, Option, none, some, List, [], ◌∷◌, arith, str_eq_iff,
}
use dispatch_lab.Domain.Defs.{Edge, City}
use dispatch_lab.Domain.City.{
  edge_in, edge_in_lists, edge_by_id, close_in, close_in_lists, set_closed,
}

module _ {F : Type 0} where
  -- The edge with its flag written.
  abbrev pub flagged : Bool → Option (Edge F) → Option (Edge F)
  flagged b none = none
  flagged b (some e) = some (record e { closed = b })

  abbrev pub is_found : Option (Edge F) → Bool
  is_found none = false
  is_found (some e) = true

  close_in_lem :
      (id : String) (b : Bool) (es : List (Edge F))
      → (edge_in id (close_in id b es).0 ≡ flagged b (edge_in id es))
        × ((close_in id b es).1 ≡ is_found (edge_in id es))
  unfolding close_in edge_in
  close_in_lem id b [] = (refl, refl)
  close_in_lem id b (e ∷ es) = ground (arith, close_in_lem id b es)

  close_in_ne :
      (id j : String) (b : Bool) (es : List (Edge F))
      → id ≢ j
      → edge_in j (close_in id b es).0 ≡ edge_in j es
  unfolding close_in edge_in
  close_in_ne id j b [] h = refl
  close_in_ne id j b (e ∷ es) h =
      ground (arith, close_in_ne id j b es, str_eq_iff e.id id, str_eq_iff e.id j)

  close_in_lists_lem :
      (id : String) (b : Bool) (m : List (String × List (Edge F)))
      → (edge_in_lists id (close_in_lists id b m).0 ≡ flagged b (edge_in_lists id m))
        × ((close_in_lists id b m).1 ≡ is_found (edge_in_lists id m))
  unfolding close_in_lists edge_in_lists
  close_in_lists_lem id b [] = (refl, refl)
  close_in_lists_lem id b ((k, es) ∷ m) =
      ground (arith, close_in_lem id b es, close_in_lists_lem id b m)

  close_in_lists_ne :
      (id j : String) (b : Bool) (m : List (String × List (Edge F)))
      → id ≢ j
      → edge_in_lists j (close_in_lists id b m).0 ≡ edge_in_lists j m
  unfolding close_in_lists edge_in_lists
  close_in_lists_ne id j b [] h = refl
  close_in_lists_ne id j b ((k, es) ∷ m) h =
      ground (arith, close_in_ne id j b es, close_in_lists_ne id j b m)

  -- After SetClosed an id that EdgeByID found is found again with exactly its flag changed, an id
  -- that it did not find stays unknown, and the reported Boolean says which of the two it was.
  pub set_closed-edge_by_id :
      (c : City F) (id : String) (b : Bool)
      → (edge_by_id (set_closed c id b).0 id ≡ flagged b (edge_by_id c id))
        × ((set_closed c id b).1 ≡ is_found (edge_by_id c id))
  unfolding set_closed edge_by_id
  set_closed-edge_by_id c id b = close_in_lists_lem id b c.edges

  -- SetClosed leaves every edge with another id as EdgeByID found it.
  pub set_closed_other :
      (c : City F) (id j : String) (b : Bool)
      → id ≢ j
      → edge_by_id (set_closed c id b).0 j ≡ edge_by_id c j
  unfolding set_closed edge_by_id
  set_closed_other c id j b h = close_in_lists_ne id j b c.edges h
