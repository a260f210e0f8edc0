-- ===== src/Routing.antt =====
-- internal/routing/astar.go: FindRoute. container/heap is used through its contract alone: Pop
-- takes the least item by Less. Sequence numbers make that item unique, so the open set is the
-- list of the items in the order of Less, Push inserts and Pop takes the head.
pub mod Walks
pub mod Chains
pub mod Relax
pub mod Rounds
pub mod Correct
pub mod Total
use dispatch_lab.Prelude.{
  ℕ, zero, suc, ◌+◌, String, Bool, true, false, not, ◌||◌, Option, none, some, List, [], ◌∷◌,
  reverse, ltb, length, elem, str_eq, if◌then◌else◌,
}
use dispatch_lab.Prelude.Float.{FloatOps, flt, feq, ◌⊕◌, ◌⊖◌, ◌⊗◌, num}
use dispatch_lab.Prelude.Map.{lookup, lookup_or, insert, has}
use dispatch_lab.Prelude.Sort as Sort
use dispatch_lab.Domain.Defs.{Node, Edge, City}
use dispatch_lab.Domain.City.{outgoing}

pub record Route (F : Type 0) : Type 0 where
  pub nodes : List String
  pub distance : F

-- `pqItem`; its field `index` is never read.
pub record Item (F : Type 0) : Type 0 where
  pub node : String
  pub priority : F
  pub seq : ℕ

-- The variables of the search; `visited` lists the nodes marked in the source's map.
pub record Search (F : Type 0) : Type 0 where
  pub g_score : List (String × F)
  pub came_from : List (String × String)
  pub open_set : List (Item F)
  pub visited : List String
  pub seq : ℕ

pub data Outcome (F : Type 0) : Type 0 where
  found : Route F → Outcome F
  no_route : Outcome F
  -- the fuel ran out
  stuck : Outcome F

-- The nodes from `node` back to the start, by `cameFrom`.
unfoldable pub path_back : ℕ → List (String × String) → String → String → Option (List String)
path_back zero came_from start node = none
path_back (suc fuel) came_from start node =
    let rest = path_back fuel came_from start (lookup_or "" node came_from) in
    if str_eq node start
    then some (node ∷ [])
    else elim rest [ none ↦ none | some path ↦ some (node ∷ path) ]

module _ {F : Type 0} ⦃fl : FloatOps F⦄ where
  unfoldable pub item_less : Item F → Item F → Bool
  item_less a b =
      if not (feq a.priority b.priority) then flt a.priority b.priority else ltb a.seq b.seq

  unfoldable pub push : Item F → List (Item F) → List (Item F)
  push = Sort.insert item_less

  -- `city.Nodes[id]`, with Go's zero value for a missing key.
  abbrev pub node_at : City F → String → Node F
  node_at c id = lookup_or (record { id = ""; x = num 0; y = num 0 }) id c.nodes

  unfoldable pub heuristic : City F → String → String → F
  heuristic c goal id =
      let n = node_at c id in
      let g = node_at c goal in
      let dx = n.x ⊖ g.x in let dy = n.y ⊖ g.y in fl.sqrt (dx ⊗ dx ⊕ dy ⊗ dy)

  -- `!has || tentative < existing`
  unfoldable pub improves : F → Option F → Bool
  improves tentative none = true
  improves tentative (some existing) = flt tentative existing

  -- A shorter way to the edge's end: it is recorded and the node queued.
  unfoldable pub improve : City F → String → String → Search F → Edge F → F → Search F
  improve c goal current s e tentative = record s {
    g_score = insert e.to tentative s.g_score;
    came_from = insert e.to current s.came_from;
    open_set =
        push (record { node = e.to; priority = tentative ⊕ heuristic c goal e.to; seq = s.seq })
          s.open_set;
    seq = s.seq + 1;
  }

  -- The body of the loop over `city.Edges[current.node]`.
  unfoldable pub relax_edge : City F → String → String → Search F → Edge F → Search F
  relax_edge c goal current s e =
      let tentative = lookup_or (num 0) current s.g_score ⊕ e.weight in
      if e.closed
      then s
      else if improves tentative (lookup e.to s.g_score)
      then improve c goal current s e tentative
      else s

  unfoldable pub relax : City F → String → String → Search F → List (Edge F) → Search F
  relax c goal current s [] = s
  relax c goal current s (e ∷ es) = relax c goal current (relax_edge c goal current s e) es

  -- One round for a node that was not visited before.
  unfoldable pub expand : City F → String → String → Search F → Search F
  expand c goal current s =
      relax c goal current (record s { visited = current ∷ s.visited }) (outgoing c current)

  unfoldable pub reconstruct : Search F → String → String → Outcome F
  unfolding path_back
  reconstruct s start goal = elim (path_back (suc (length s.came_from)) s.came_from start goal) [
    | none ↦ stuck
    | some path ↦
        found (record { nodes = reverse path; distance = lookup_or (num 0) goal s.g_score })
  ]

  unfoldable pub loop : City F → String → String → ℕ → Search F → Outcome F
  loop c start goal zero s = elim s.open_set [ [] ↦ no_route | _ ∷ _ ↦ stuck ]
  loop c start goal (suc fuel) s = elim s.open_set [
    | [] ↦ no_route
    | item ∷ rest ↦ elim (elem item.node s.visited) [
      | true ↦ loop c start goal fuel (record s { open_set = rest })
      | false ↦ elim (str_eq item.node goal) [
        | true ↦ reconstruct (record s { open_set = rest }) start goal
        | false ↦ loop c start goal fuel (expand c goal item.node (record s { open_set = rest }))
      ]
    ]
  ]

  unfoldable pub count_edges : List (String × List (Edge F)) → ℕ
  count_edges [] = 0
  count_edges ((k, es) ∷ m) = length es + count_edges m

  unfoldable pub initial : City F → String → String → Search F
  initial c start goal = record {
    g_score = (start, num 0) ∷ [];
    came_from = [];
    open_set = record { node = start; priority = heuristic c goal start; seq = 0 } ∷ [];
    visited = [];
    seq = 1;
  }

  -- Each road is relaxed at most once, so that many rounds and one are enough.
  unfoldable pub search_route : City F → String → String → Outcome F
  unfolding item_less push heuristic improves improve relax_edge relax expand path_back reconstruct
      loop count_edges initial
  search_route c start goal =
      if str_eq start goal
      then found (record { nodes = start ∷ []; distance = num 0 })
      else if not (has start c.nodes)
      then no_route
      else if not (has goal c.nodes)
      then no_route
      else loop c start goal (suc (count_edges c.edges)) (initial c start goal)

  unfoldable pub find_route : City F → String → String → Option (Route F)
  unfolding search_route
  find_route c start goal = elim (search_route c start goal) [
    | found r ↦ some r
    | no_route ↦ none
    | stuck ↦ none
  ]
