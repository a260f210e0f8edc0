-- ===== src/Routing/Correct.antt =====
-- internal/routing/astar.go: FindRoute ends, finds a walk where there is one, and says so where
-- there is none. Nothing is assumed of the heuristic.
use dispatch_lab.Prelude.{
  ℕ, zero, suc, ◌<◌, String, ◌≡◌, true, some, List, [], ◌∷◌, reverse, arith, elem, str_eq_iff,
  str_eq_refl,
}
use dispatch_lab.Prelude.Float.{FloatOps}
use dispatch_lab.Prelude.Map.{lookup}
use dispatch_lab.Domain.Defs.{City}
use dispatch_lab.Routing.{Item, Search, path_back}
use dispatch_lab.Routing.Walks.{Road, Walk, stay, Walk-reverse, Reach, here, on}
use dispatch_lab.Routing.Chains.{Chain, root, link}
use dispatch_lab.Routing.Relax.{Inv, scored}

module _ {F : Type 0} (c : City F) (start : String) where
  -- With more fuel than the chain is long the way back is found, and its reverse is a walk.
  pub path_back-Walk :
      {cf : List (String × String)} {n : ℕ} {v : String} (fuel : ℕ)
      → ((x u : String) → lookup x cf ≡ some u → Road c u x)
      → Chain start cf n v
      → n < fuel
      → (path : List String) × (path_back fuel cf start v ≡ some path)
        × Walk c start v (reverse path)
  unfolding path_back
  path_back-Walk zero roads k h = absurd (omega arith)
  path_back-Walk (suc fuel) roads root h =
      (start ∷ [], ground (arith, str_eq_refl start), stay start)
  path_back-Walk (suc fuel) roads (link v u ne p k) h =
      let (path, e, w) = path_back-Walk fuel roads k (omega arith) in
      (v ∷ path, ground (arith, str_eq_iff v start), Walk-reverse v path w (roads v u p))

module _ {F : Type 0} ⦃fl : FloatOps F⦄ (c : City F) (start : String) where
  pub pop_skip :
      (s : Search F) (item : Item F) (rest : List (Item F))
      → Inv c start s
      → s.open_set ≡ item ∷ rest
      → elem item.node s.visited ≡ true
      → Inv c start (record s { open_set = rest })
  pop_skip s item rest i e vis = record {
    scored_start = i.scored_start;
    frontier = λ v h. ground (arith, i.frontier v h, str_eq_iff item.node v);
    waiting_scored = λ v h. i.waiting_scored v (ground arith);
    visited_scored = i.visited_scored;
    linked = i.linked;
    chained = i.chained;
    ordered = i.ordered;
  }

  pub pop_visit :
      (s : Search F) (item : Item F) (rest : List (Item F))
      → Inv c start s
      → s.open_set ≡ item ∷ rest
      → Inv c start (record s { open_set = rest; visited = item.node ∷ s.visited })
  pop_visit s item rest i e = record {
    scored_start = i.scored_start;
    frontier = λ v h. ground (arith, i.frontier v h, str_eq_iff item.node v);
    waiting_scored = λ v h. i.waiting_scored v (ground arith);
    visited_scored =
        λ v h. ground (arith, i.visited_scored v, i.waiting_scored v, str_eq_iff item.node v);
    linked = i.linked;
    chained = i.chained;
    ordered = i.ordered;
  }

  -- Every node that an open road leads to from a visited one has a recorded distance.
  abbrev pub Closed : Search F → Type 0
  Closed s = (u v : String) → elem u s.visited ≡ true → Road c u v → scored s v ≡ true

  pub exhausted :
      (s : Search F) {v : String}
      → Inv c start s
      → Closed s
      → s.open_set ≡ []
      → Reach c start v
      → elem v s.visited ≡ true
  exhausted s i cl e here = ground (arith, i.frontier start i.scored_start)
  exhausted s i cl e (on {u} {v} r road) =
      ground (arith, i.frontier v (cl u v (exhausted s i cl e r) road))
