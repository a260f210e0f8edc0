-- ===== src/Grid.antt =====
-- internal/city/generate.go: the generated city. `random` gives the numbers that rng.Float64
-- returns, in the order of the calls; Rows and Cols of at most 0 make an empty city, like 0.
pub mod Loops
pub mod Roads
pub mod Connected
use dispatch_lab.Prelude.{
  ℕ, zero, suc, ◌+◌, String, Bool, false, List, [], ◌∷◌, ◌++◌, ltb, if◌then◌else◌,
}
use dispatch_lab.Prelude.Int.{ℤ}
use dispatch_lab.Prelude.Map.{lookup_or, insert}
use dispatch_lab.Prelude.Text.{decimal, dashed, signed}
use dispatch_lab.Prelude.Float.{FloatOps, ◌⊕◌, ◌⊖◌, ◌⊗◌, num}
use dispatch_lab.Domain.Defs.{Node, Edge, City}

pub record GridConfig (F : Type 0) : Type 0 where
  pub seed : ℤ
  pub rows : ℕ
  pub cols : ℕ
  pub cell_spacing : F
  pub jitter_fraction : F

-- `for i := from; i < from+n; i++`
unfoldable pub count_up {ℓ} : {S : Type ℓ} → (n from : ℕ) → (S → ℕ → S) → S → S
count_up zero from body s = s
count_up (suc n) from body s = count_up n (suc from) body (body s from)

unfoldable pub node_id : ℕ → ℕ → String
unfolding decimal dashed
node_id r c = dashed "n" (dashed (decimal r) (decimal c))

-- The nodes so far, and how many random numbers they took.
pub record Draft (F : Type 0) : Type 0 where
  pub drawn : ℕ
  pub nodes : List (String × Node F)

module _ {F : Type 0} ⦃fl : FloatOps F⦄ where
  unfoldable pub default_grid_config : ℤ → GridConfig F
  default_grid_config seed = record {
    seed = seed;
    rows = 6;
    cols = 6;
    cell_spacing = num 100;
    jitter_fraction = fl.literal 15 100;
  }

  abbrev pub jitter : GridConfig F → F → F
  jitter cfg x = (x ⊗ num 2 ⊖ num 1) ⊗ cfg.jitter_fraction ⊗ cfg.cell_spacing

  unfoldable pub place_node : GridConfig F → (random : ℕ → F) → (r : ℕ) → Draft F → ℕ → Draft F
  unfolding node_id
  place_node cfg random r d c =
      let jitter_x = jitter cfg (random d.drawn) in
      let jitter_y = jitter cfg (random (d.drawn + 1)) in
      record {
        drawn = d.drawn + 2;
        nodes =
            insert (node_id r c)
              (record {
                id = node_id r c;
                x = num c ⊗ cfg.cell_spacing ⊕ jitter_x;
                y = num r ⊗ cfg.cell_spacing ⊕ jitter_y;
              })
              d.nodes;
      }

  unfoldable pub place_nodes : GridConfig F → (random : ℕ → F) → Draft F
  unfolding count_up place_node
  place_nodes cfg random =
      count_up cfg.rows 0 (λ d r. count_up cfg.cols 0 (place_node cfg random r) d)
        (record { drawn = 0; nodes = [] })

  -- What a map of nodes gives for an id that it does not have.
  abbrev pub no_node : Node F
  no_node = record { id = ""; x = num 0; y = num 0 }

  -- `addEdge`
  unfoldable pub add_edge :
      List (String × Node F)
      → List (String × List (Edge F))
      → (from to : String) → List (String × List (Edge F))
  unfolding dashed
  add_edge nodes edges from to =
      let a = lookup_or no_node from nodes in
      let b = lookup_or no_node to nodes in
      let dx = a.x ⊖ b.x in
      let dy = a.y ⊖ b.y in
      let e : Edge F = record {
        id = dashed "e" (dashed from to);
        from = from;
        to = to;
        weight = fl.sqrt (dx ⊗ dx ⊕ dy ⊗ dy);
        closed = false;
      } in
      insert from (lookup_or [] from edges ++ e ∷ []) edges

  unfoldable pub add_pair :
      List (String × Node F)
      → List (String × List (Edge F))
      → (a b : String) → List (String × List (Edge F))
  unfolding add_edge
  add_pair nodes edges a b = add_edge nodes (add_edge nodes edges a b) b a

  -- The body of the second double loop.
  unfoldable pub connect :
      GridConfig F
      → List (String × Node F)
      → (r : ℕ) → List (String × List (Edge F))
      → ℕ
      → List (String × List (Edge F))
  unfolding add_pair node_id
  connect cfg nodes r edges c =
      let id = node_id r c in
      let edges1 =
        (if ltb (c + 1) cfg.cols then add_pair nodes edges id (node_id r (c + 1)) else edges) in
      if ltb (r + 1) cfg.rows then add_pair nodes edges1 id (node_id (r + 1) c) else edges1

  unfoldable pub connect_all : GridConfig F → List (String × Node F) → List (String × List (Edge F))
  unfolding connect count_up
  connect_all cfg nodes =
      count_up cfg.rows 0 (λ edges r. count_up cfg.cols 0 (connect cfg nodes r) edges) []

  unfoldable pub generate_grid : GridConfig F → (random : ℕ → F) → City F
  unfolding place_nodes connect_all signed
  generate_grid cfg random =
      let d = place_nodes cfg random in
      record {
        id = dashed "city" (signed cfg.seed);
        version = 1;
        nodes = d.nodes;
        edges = connect_all cfg d.nodes;
      }
