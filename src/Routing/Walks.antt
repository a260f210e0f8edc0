-- ===== src/Routing/Walks.antt =====
-- What a route is, independently of the search: walks over open roads.
use mathlib.Core.List.{reverse-cons}
use dispatch_lab.Prelude.{
  String, ◌≡◌, Bool, true, not, ◌&&◌, List, [], ◌∷◌, ◌++◌, reverse, exists, str_eq,
}
use dispatch_lab.Domain.Defs.{Edge, City}
use dispatch_lab.Domain.City.{outgoing}

module _ {F : Type 0} where
  -- Some edge of the list is open and leads to `v`.
  abbrev pub has_road : String → List (Edge F) → Bool
  has_road v = exists (λ e. str_eq e.to v && not e.closed)

  -- An open road leads from `u` to `v`.
  abbrev pub Road : City F → String → String → Type 0
  Road c u v = has_road v (outgoing c u) ≡ true

  -- The list is a walk over open roads, from its first node to its last.
  pub data Walk (c : City F) : String → String → List String → Type 0 where
    stay : (u : String) → Walk c u u (u ∷ [])
    go :
        {u v w : String} {path : List String} → Road c u v → Walk c v w path → Walk c u w (u ∷ path)

  -- The nodes that can be reached over open roads.
  pub data Reach (c : City F) (start : String) : String → Type 0 where
    here : Reach c start start
    on : {u v : String} → Reach c start u → Road c u v → Reach c start v

  pub Walk-snoc :
      {c : City F} {u v w : String} {path : List String}
      → Walk c u v path
      → Road c v w
      → Walk c u w (path ++ w ∷ [])
  Walk-snoc (stay u) r = go r (stay _)
  Walk-snoc (go q k) r = go q (Walk-snoc k r)

  -- A walk extended at its end, as the reverse of a list that grows at its head.
  pub Walk-reverse :
      {c : City F} {u v : String} (w : String) (path : List String)
      → Walk c u v (reverse path)
      → Road c v w
      → Walk c u w (reverse (w ∷ path))
  Walk-reverse w path k r = rw (reverse-cons w path) (Walk-snoc k r)

  pub Walk-Reach :
      {c : City F} {s u v : String} {path : List String}
      → Reach c s u
      → Walk c u v path
      → Reach c s v
  Walk-Reach r (stay u) = r
  Walk-Reach r (go q k) = Walk-Reach (on r q) k
