-- ===== src/Grid/Roads.antt =====
-- internal/city/generate.go: the roads of a generated city.
use dispatch_lab.Prelude.{
  ℕ, ◌+◌, ◌<◌, String, ◌≡◌, refl, ap, ◌∙◌, Bool, true, false, ◌&&◌, ◌||◌, List, [], ◌∷◌, ◌++◌,
  arith, All, All-append, exists, ltb, ltb→lt, str_eq, str_eq_iff, of_if,
}
use dispatch_lab.Prelude.Map.{lookup, lookup_or, insert, has}
use dispatch_lab.Prelude.Float.{FloatOps, flt, num}
use dispatch_lab.Domain.Defs.{Node, Edge}
use dispatch_lab.Domain.City.{outgoing}
use dispatch_lab.Routing.Rounds.{IsForward}
use dispatch_lab.Grid.Loops.{
  count_up-keeps, count_up-reaches, has-insert_self, has-insert_kept, lookup_or-insert,
}
use dispatch_lab.Grid.{
  GridConfig, count_up, node_id, Draft, place_node, place_nodes, add_edge, add_pair, connect,
  connect_all, generate_grid,
}

-- The root of a number is not below zero.
abbrev pub HasRoots : (F : Type 0) → ⦃fl : FloatOps F⦄ → Type 0
HasRoots F ⦃fl⦄ = (a : F) → fl.lt (fl.sqrt a) (num 0) ≡ false

module _ {F : Type 0} ⦃fl : FloatOps F⦄ where
  -- Every place of the grid is on the map.
  pub place_nodes-has :
      (cfg : GridConfig F) (random : ℕ → F) (r c : ℕ)
      → r < cfg.rows
      → c < cfg.cols
      → has (node_id r c) (place_nodes cfg random).nodes ≡ true
  unfolding place_nodes place_node
  place_nodes-has cfg random r c low_r low_c =
      count_up-reaches
        (λ (d : Draft F) i. (k : ℕ) → k < cfg.cols → has (node_id i k) d.nodes ≡ true)
        (λ d i. count_up cfg.cols 0 (place_node cfg random i) d) cfg.rows 0
        (record { drawn = 0; nodes = [] })
        (λ d i k low.
          count_up-reaches (λ (e : Draft F) j. has (node_id i j) e.nodes ≡ true)
            (place_node cfg random i) cfg.cols 0 d (λ e j. has-insert_self (node_id i j) _ e.nodes)
            (λ e j j2 h. has-insert_kept (node_id i j) (node_id i j2) _ e.nodes h) k (omega arith)
            (omega (arith, low)))
        (λ d i j h k low.
          count_up-keeps (λ (e : Draft F). has (node_id j k) e.nodes ≡ true)
            (place_node cfg random i) cfg.cols 0 d
            (λ e l lt g. has-insert_kept (node_id i l) (node_id j k) _ e.nodes g) (h k low))
        r (omega arith) (omega (arith, low_r)) c low_c

  -- Whether a road leads from one node to the other.
  abbrev pub leads : List (String × List (Edge F)) → String → String → Bool
  leads edges u v = exists (λ (e : Edge F). str_eq e.to v) (lookup_or [] u edges)

  exists-append :
      (p : Edge F → Bool) (xs : List (Edge F)) (e : Edge F)
      → exists p (xs ++ e ∷ []) ≡ (exists p xs || p e)
  exists-append p [] e = ground arith
  exists-append p (x ∷ xs) e = ground (arith, exists-append p xs e)

  leads-insert :
      (edges : List (String × List (Edge F))) (a u v : String) (e : Edge F)
      → leads (insert a (lookup_or [] a edges ++ e ∷ []) edges) u v
        ≡ (leads edges u v || (str_eq a u && str_eq e.to v))
  leads-insert edges a u v e =
      let es = lookup_or [] a edges ++ e ∷ [] in
      let leads_to = exists (λ (x : Edge F). str_eq x.to v) in
      ap leads_to (lookup_or-insert [] a u es edges)
      ∙ of_if (λ l. leads_to l ≡ (leads edges u v || (str_eq a u && str_eq e.to v))) (str_eq a u) es
          (lookup_or [] u edges)
          (λ h.
            let here = ap (λ x. leads_to (lookup_or [] x edges)) ((str_eq_iff a u).0 h) in
            exists-append (λ x. str_eq x.to v) (lookup_or [] a edges) e ∙ cc (here, h))
          (λ h. ground (arith, h))

  pub leads-add_edge :
      (nodes : List (String × Node F)) (edges : List (String × List (Edge F))) (a b u v : String)
      → leads (add_edge nodes edges a b) u v ≡ (leads edges u v || (str_eq a u && str_eq b v))
  unfolding add_edge
  leads-add_edge nodes edges a b u v = leads-insert edges a u v _

  -- Where a road leads, another leads back.
  TwoWay : List (String × List (Edge F)) → Type 0
  TwoWay edges = (u v : String) → leads edges u v ≡ leads edges v u

  add_pair-TwoWay :
      (nodes : List (String × Node F)) (edges : List (String × List (Edge F))) (a b : String)
      → TwoWay edges
      → TwoWay (add_pair nodes edges a b)
  unfolding add_pair TwoWay
  add_pair-TwoWay nodes edges a b h u v = ground (
    arith,
    h u v,
    leads-add_edge nodes (add_edge nodes edges a b) b a u v,
    leads-add_edge nodes (add_edge nodes edges a b) b a v u,
    leads-add_edge nodes edges a b u v,
    leads-add_edge nodes edges a b v u,
  )

  -- A road starts where it is listed, ends on the map, is open, and is not shorter than nothing.
  pub record Plain (nodes : List (String × Node F)) (u : String) (e : Edge F) : Type 0 where
    pub starts : e.from ≡ u
    pub ends : has e.to nodes ≡ true
    pub not_closed : e.closed ≡ false
    pub forward : flt e.weight (num 0) ≡ false

  AllPlain : List (String × Node F) → List (String × List (Edge F)) → Type 0
  AllPlain nodes edges = (u : String) → All (Plain nodes u) (lookup_or [] u edges)

  insert-AllPlain :
      (nodes : List (String × Node F)) (edges : List (String × List (Edge F))) (a : String)
      (e : Edge F)
      → Plain nodes a e
      → AllPlain nodes edges
      → AllPlain nodes (insert a (lookup_or [] a edges ++ e ∷ []) edges)
  unfolding AllPlain
  insert-AllPlain nodes edges a e p all u =
      let es = lookup_or [] a edges ++ e ∷ [] in
      rw (lookup_or-insert [] a u es edges) (
        of_if (All (Plain nodes u)) (str_eq a u) es (lookup_or [] u edges)
          (λ h.
            rw (← (str_eq_iff a u).0 h)
              (All-append (Plain nodes a) (lookup_or [] a edges) e (all a) p))
          (λ h. all u))

  add_pair-AllPlain :
      HasRoots F
      → (nodes : List (String × Node F)) (edges : List (String × List (Edge F))) (a b : String)
      → has a nodes ≡ true
      → has b nodes ≡ true
      → AllPlain nodes edges
      → AllPlain nodes (add_pair nodes edges a b)
  unfolding add_pair add_edge
  add_pair-AllPlain roots nodes edges a b at_a at_b all =
      insert-AllPlain nodes _ b _
        (record { starts = refl; ends = at_a; not_closed = refl; forward = roots _ })
        (insert-AllPlain nodes edges a _
          (record { starts = refl; ends = at_b; not_closed = refl; forward = roots _ }) all)

  -- What the roads keep when two places of the grid are joined, the double loop keeps.
  connect_all-keeps :
      (I : List (String × List (Edge F)) → Type 0) (cfg : GridConfig F)
      (nodes : List (String × Node F))
      → ((edges : List (String × List (Edge F))) (r c r2 c2 : ℕ)
          → r < cfg.rows
          → c < cfg.cols
          → r2 < cfg.rows
          → c2 < cfg.cols
          → I edges
          → I (add_pair nodes edges (node_id r c) (node_id r2 c2)))
      → I []
      → I (connect_all cfg nodes)
  unfolding connect_all connect
  connect_all-keeps I cfg nodes keeps start =
      count_up-keeps I _ cfg.rows 0 []
        (λ edges r low_r h.
          count_up-keeps I (connect cfg nodes r) cfg.cols 0 edges
            (λ t c low_c k.
              let in_r : r < cfg.rows = omega (arith, low_r) in
              let in_c : c < cfg.cols = omega (arith, low_c) in
              let right =
                of_if I (ltb (c + 1) cfg.cols) (add_pair nodes t (node_id r c) (node_id r (c + 1)))
                  t (λ q. keeps t r c r (c + 1) in_r in_c in_r (ltb→lt (c + 1) cfg.cols q) k)
                  (λ q. k) in
              of_if I (ltb (r + 1) cfg.rows) _ _
                (λ q. keeps _ r c (r + 1) c in_r in_c (ltb→lt (r + 1) cfg.rows q) in_c right)
                (λ q. right))
            h)
        start

  module _ (cfg : GridConfig F) (random : ℕ → F) where
    -- In a generated city two places are joined in both directions or in neither.
    pub generate_grid-two_way :
        (u v : String)
        → leads (generate_grid cfg random).edges u v ≡ leads (generate_grid cfg random).edges v u
    unfolding generate_grid TwoWay lookup
    generate_grid-two_way =
        let nodes = (place_nodes cfg random).nodes in
        connect_all-keeps TwoWay cfg nodes
          (λ edges r c r2 c2 h1 h2 h3 h4 k.
            add_pair-TwoWay nodes edges (node_id r c) (node_id r2 c2) k)
          (λ u v. refl)

    -- Every road of a generated city starts at the node that lists it, ends at a node of the city,
    -- is open and has no length below zero, as long as no square root is below zero.
    pub generate_grid-Plain :
        HasRoots F
        → (u : String)
        → All (Plain (generate_grid cfg random).nodes u) (outgoing (generate_grid cfg random) u)
    unfolding generate_grid AllPlain lookup
    generate_grid-Plain roots =
        let nodes = (place_nodes cfg random).nodes in
        connect_all-keeps (AllPlain nodes) cfg nodes
          (λ edges r c r2 c2 h1 h2 h3 h4 k.
            add_pair-AllPlain roots nodes edges (node_id r c) (node_id r2 c2)
              (place_nodes-has cfg random r c h1 h2) (place_nodes-has cfg random r2 c2 h3 h4) k)
          (λ u. tt)

    forward_all :
        (nodes : List (String × Node F)) (u : String) (es : List (Edge F))
        → All (Plain nodes u) es
        → IsForward es
    forward_all nodes u [] a = tt
    forward_all nodes u (e ∷ es) a = (a.0.forward, forward_all nodes u es a.1)
