-- ===== src/Grid/Connected.antt =====
-- internal/city/generate.go with internal/routing/astar.go: the places of a generated city are
-- joined, so the router finds a route between any two.
use dispatch_lab.Prelude.{
  ℕ, zero, suc, ◌+◌, ◌<◌, String, ◌≡◌, sym, ap, ◌∙◌, inl, inr, true, some, List, [], ◌∷◌, arith,
  All, exists, ltb, str_eq, str_eq_refl, if◌then◌else◌, of_if,
}
use dispatch_lab.Prelude.Map.{has}
use dispatch_lab.Prelude.Float.{FloatOps, FloatLaws}
use dispatch_lab.Domain.Defs.{Node, Edge, City}
use dispatch_lab.Domain.City.{outgoing}
use dispatch_lab.Routing.{Route, find_route}
use dispatch_lab.Routing.Rounds.{IsForward}
use dispatch_lab.Routing.Walks.{Walk, Road, has_road, Reach, here, on}
use dispatch_lab.Routing.Total.{find_route_correct}
use dispatch_lab.Grid.Loops.{count_up-keeps, count_up-reaches}
use dispatch_lab.Grid.Roads.{
  HasRoots, Plain, leads, leads-add_edge, place_nodes-has, generate_grid-two_way,
  generate_grid-Plain,
}
use dispatch_lab.Grid.{
  GridConfig, count_up, node_id, place_nodes, add_edge, add_pair, connect, connect_all,
  generate_grid,
}

within : (k n : ℕ) → suc k < n → ltb (k + 1) n ≡ true
within k n h = ground (arith, h)

module _ {F : Type 0} ⦃fl : FloatOps F⦄ where
  leads-add_pair :
      (nodes : List (String × Node F)) (edges : List (String × List (Edge F))) (a b : String)
      → leads (add_pair nodes edges a b) a b ≡ true
  unfolding add_pair
  leads-add_pair nodes edges a b = ground (
    arith,
    leads-add_edge nodes (add_edge nodes edges a b) b a a b,
    leads-add_edge nodes edges a b a b,
    str_eq_refl a,
    str_eq_refl b,
  )

  leads-add_pair_kept :
      (nodes : List (String × Node F)) (edges : List (String × List (Edge F))) (a b u v : String)
      → leads edges u v ≡ true
      → leads (add_pair nodes edges a b) u v ≡ true
  unfolding add_pair
  leads-add_pair_kept nodes edges a b u v h = ground (
    arith,
    h,
    leads-add_edge nodes (add_edge nodes edges a b) b a u v,
    leads-add_edge nodes edges a b u v,
  )

  module _ (cfg : GridConfig F) (nodes : List (String × Node F)) where
    leads-connect :
        (edges : List (String × List (Edge F))) (r c : ℕ) (u v : String)
        → leads edges u v ≡ true
        → leads (connect cfg nodes r edges c) u v ≡ true
    unfolding connect
    leads-connect edges r c u v h =
        let I = λ (t : List (String × List (Edge F))). leads t u v ≡ true in
        let right : I (
            if ltb (c + 1) cfg.cols
            then add_pair nodes edges (node_id r c) (node_id r (c + 1))
            else edges) =
          of_if I (ltb (c + 1) cfg.cols) _ edges (λ q. leads-add_pair_kept nodes edges _ _ u v h)
            (λ q. h) in
        of_if I (ltb (r + 1) cfg.rows) _ _ (λ q. leads-add_pair_kept nodes _ _ _ u v right)
          (λ q. right)

    -- A place is joined with the one on its right and the one below it, where there are such.
    pub record Joined (edges : List (String × List (Edge F))) (r c : ℕ) : Type 0 where
      pub right : ltb (c + 1) cfg.cols ≡ true → leads edges (node_id r c) (node_id r (c + 1)) ≡ true
      pub down : ltb (r + 1) cfg.rows ≡ true → leads edges (node_id r c) (node_id (r + 1) c) ≡ true

    connect-Joined :
        (edges : List (String × List (Edge F))) (r c : ℕ) → Joined (connect cfg nodes r edges c) r c
    unfolding connect
    connect-Joined edges r c = record {
      right = λ q.
          of_if
            (λ (t : List (String × List (Edge F))).
              leads t (node_id r c) (node_id r (c + 1)) ≡ true)
            (ltb (r + 1) cfg.rows) _ _
            (λ p. rw q (leads-add_pair_kept nodes _ _ _ _ _ (leads-add_pair nodes edges _ _)))
            (λ p. rw q (leads-add_pair nodes edges _ _));
      down = λ q. rw q (leads-add_pair nodes _ _ _);
    }

    connect-Joined_kept :
        (edges : List (String × List (Edge F))) (r c r2 c2 : ℕ)
        → Joined edges r2 c2
        → Joined (connect cfg nodes r edges c) r2 c2
    connect-Joined_kept edges r c r2 c2 j = record {
      right = λ q. leads-connect edges r c _ _ (j.right q);
      down = λ q. leads-connect edges r c _ _ (j.down q);
    }

    connect_all-Joined :
        (r c : ℕ) → r < cfg.rows → c < cfg.cols → Joined (connect_all cfg nodes) r c
    unfolding connect_all
    connect_all-Joined r c low_r low_c =
        count_up-reaches (λ t i. (k : ℕ) → k < cfg.cols → Joined t i k)
          (λ t i. count_up cfg.cols 0 (connect cfg nodes i) t) cfg.rows 0 []
          (λ t i k low.
            count_up-reaches (λ e j. Joined e i j) (connect cfg nodes i) cfg.cols 0 t
              (λ e j. connect-Joined e i j) (λ e j j2 h. connect-Joined_kept e i j i j2 h) k
              (omega arith) (omega (arith, low)))
          (λ t i j h k low.
            count_up-keeps (λ e. Joined e j k) (connect cfg nodes i) cfg.cols 0 t
              (λ e l lt g. connect-Joined_kept e i l j k g) (h k low))
          r (omega arith) (omega (arith, low_r)) c low_c

  -- A road that leads somewhere is open.
  has_road_leads :
      (nodes : List (String × Node F)) (u v : String) (es : List (Edge F))
      → All (Plain nodes u) es
      → exists (λ (e : Edge F). str_eq e.to v) es ≡ true
      → has_road v es ≡ true
  has_road_leads nodes u v [] a h = h
  has_road_leads nodes u v (e ∷ es) a h =
      ground (arith, h, a.0.not_closed, has_road_leads nodes u v es a.1)

  IsForward_all :
      (nodes : List (String × Node F)) (u : String) (es : List (Edge F))
      → All (Plain nodes u) es
      → IsForward es
  IsForward_all nodes u [] a = tt
  IsForward_all nodes u (e ∷ es) a = (a.0.forward, IsForward_all nodes u es a.1)

module _ {F : Type 0} ⦃fl : FloatOps F⦄ (roots : HasRoots F) (cfg : GridConfig F)
    (random : ℕ → F) where
  abbrev city : City F
  city = generate_grid cfg random

  road : (u v : String) → leads city.edges u v ≡ true → Road city u v
  road u v =
      has_road_leads city.nodes u v (outgoing city u) (generate_grid-Plain cfg random roots u)

  right_of :
      (r c : ℕ)
      → r < cfg.rows
      → suc c < cfg.cols
      → leads city.edges (node_id r c) (node_id r (suc c)) ≡ true
  unfolding generate_grid
  right_of r c low_r low_c =
      let j =
        connect_all-Joined cfg (place_nodes cfg random).nodes r c low_r (omega (arith, low_c)) in
      ap (λ k. leads (connect_all cfg (place_nodes cfg random).nodes) (node_id r c) (node_id r k))
        (omega arith)
      ∙ j.right (within c cfg.cols low_c)

  below :
      (r c : ℕ)
      → suc r < cfg.rows
      → c < cfg.cols
      → leads city.edges (node_id r c) (node_id (suc r) c) ≡ true
  unfolding generate_grid
  below r c low_r low_c =
      let j =
        connect_all-Joined cfg (place_nodes cfg random).nodes r c (omega (arith, low_r)) low_c in
      ap (λ k. leads (connect_all cfg (place_nodes cfg random).nodes) (node_id r c) (node_id k c))
        (omega arith)
      ∙ j.down (within r cfg.rows low_r)

  back : (u v : String) → leads city.edges u v ≡ true → Road city v u
  back u v h = road v u (sym (generate_grid-two_way cfg random u v) ∙ h)

  module _ (s : String) where
    to_left :
        (r c : ℕ)
        → r < cfg.rows
        → c < cfg.cols
        → Reach city s (node_id r c)
        → Reach city s (node_id r 0)
    to_left r zero low_r low_c k = k
    to_left r (suc c) low_r low_c k =
        to_left r c low_r (omega (arith, low_c)) (on k (back _ _ (right_of r c low_r low_c)))

    to_top :
        (r : ℕ)
        → r < cfg.rows
        → 0 < cfg.cols
        → Reach city s (node_id r 0)
        → Reach city s (node_id 0 0)
    to_top zero low_r low_c k = k
    to_top (suc r) low_r low_c k =
        to_top r (omega (arith, low_r)) low_c (on k (back _ _ (below r 0 low_r low_c)))

    from_top :
        (r : ℕ)
        → r < cfg.rows
        → 0 < cfg.cols
        → Reach city s (node_id 0 0)
        → Reach city s (node_id r 0)
    from_top zero low_r low_c k = k
    from_top (suc r) low_r low_c k =
        on (from_top r (omega (arith, low_r)) low_c k) (road _ _ (below r 0 low_r low_c))

    from_left :
        (r c : ℕ)
        → r < cfg.rows
        → c < cfg.cols
        → Reach city s (node_id r 0)
        → Reach city s (node_id r c)
    from_left r zero low_r low_c k = k
    from_left r (suc c) low_r low_c k =
        on (from_left r c low_r (omega (arith, low_c)) k) (road _ _ (right_of r c low_r low_c))

  on_map : (r c : ℕ) → r < cfg.rows → c < cfg.cols → has (node_id r c) city.nodes ≡ true
  unfolding generate_grid
  on_map = place_nodes-has cfg random

  forward : (u : String) → IsForward (outgoing city u)
  forward u = IsForward_all city.nodes u (outgoing city u) (generate_grid-Plain cfg random roots u)

  -- The router finds what is on the map and can be reached.
  found_route :
      (laws : FloatLaws F) (start goal : String)
      → has start city.nodes ≡ true
      → has goal city.nodes ≡ true
      → Reach city start goal
      → (route : Route F) × (find_route city start goal ≡ some route)
        × Walk city start goal route.nodes
  found_route laws start goal h k reach = elim (find_route_correct laws city start goal forward) [
    | inl found ↦ found
    | inr (lost, inl p) ↦ cc (h, p)
    | inr (lost, inr (inl p)) ↦ cc (k, p)
    | inr (lost, inr (inr p)) ↦ absurd (p reach)
  ]

  -- Between any two places of a generated city the router finds a route, a walk over roads of the
  -- city from the one to the other, over floats without NaN whose square roots are not below zero.
  pub find_route-generate_grid :
      FloatLaws F
      → (r c r2 c2 : ℕ) → r < cfg.rows
      → c < cfg.cols
      → r2 < cfg.rows
      → c2 < cfg.cols
      → (route : Route F) × (find_route (generate_grid cfg random) (node_id r c) (node_id r2 c2)
          ≡ some route)
        × Walk (generate_grid cfg random) (node_id r c) (node_id r2 c2) route.nodes
  find_route-generate_grid laws r c r2 c2 low_r low_c low_r2 low_c2 =
      let start = node_id r c in
      let goal = node_id r2 c2 in
      let some_col : 0 < cfg.cols = omega (arith, low_c) in
      let reach : Reach city start goal = from_left start r2 c2 low_r2 low_c2 (
        from_top start r2 low_r2 some_col
          (to_top start r low_r some_col (to_left start r c low_r low_c here))) in
      found_route laws start goal (on_map r c low_r low_c) (on_map r2 c2 low_r2 low_c2) reach
