-- ===== src/Spatial/Agreement.antt =====
-- internal/spatial/grid.go: the map of cells and the map of points stay two views of the same
-- points under Set and Remove.
use dispatch_lab.Prelude.{
  String, ◌≡◌, refl, ap, ◌∙◌, ◌↔◌, true, Option, none, some, List, [], ◌∷◌, arith, length,
  str_eq_iff, if◌then◌else◌, ◌==◌, of_if, of_option,
}
use dispatch_lab.Prelude.Int.{ℤ, pos, negsuc, eqb_ℤ}
use dispatch_lab.Prelude.Float.{FloatOps}
use dispatch_lab.Prelude.Map.{lookup, insert, erase, lookup-insert, lookup-erase}
use dispatch_lab.Spatial.{
  Point, CellKey, Grid, same_cell, bucket, put_bucket, drop_bucket, new_grid, cell_of, remove,
  set_point,
}

eqb_ℤ_iff : (a b : ℤ) → (eqb_ℤ a b ≡ true) ↔ (a ≡ b)
eqb_ℤ_iff (pos a) (pos b) = ground arith
eqb_ℤ_iff (pos a) (negsuc b) = ground arith
eqb_ℤ_iff (negsuc a) (pos b) = ground arith
eqb_ℤ_iff (negsuc a) (negsuc b) = ground arith

same_cell_iff : (a b : CellKey) → (same_cell a b ≡ true) ↔ (a ≡ b)
unfolding same_cell
same_cell_iff a b = ground (arith, eqb_ℤ_iff a.cx b.cx, eqb_ℤ_iff a.cy b.cy)

module _ {F : Type 0} where
  bucket-put_bucket :
      (k j : CellKey) (b : List (String × Point F)) (m : List (CellKey × List (String × Point F)))
      → bucket j (put_bucket k b m) ≡ (if same_cell k j then b else bucket j m)
  unfolding bucket put_bucket
  bucket-put_bucket k j b [] = refl
  bucket-put_bucket k j b ((i, c) ∷ m) =
      ground
        (arith, bucket-put_bucket k j b m, same_cell_iff i k, same_cell_iff i j, same_cell_iff k j)

  bucket-drop_bucket :
      (k j : CellKey) (m : List (CellKey × List (String × Point F)))
      → bucket j (drop_bucket k m) ≡ (if same_cell k j then [] else bucket j m)
  unfolding bucket drop_bucket
  bucket-drop_bucket k j [] = ground arith
  bucket-drop_bucket k j ((i, c) ∷ m) =
      ground
        (arith, bucket-drop_bucket k j m, same_cell_iff i k, same_cell_iff i j, same_cell_iff k j)

  empty_of_length : (b : List (String × Point F)) → (length b == 0) ≡ true → b ≡ []
  empty_of_length [] h = refl
  empty_of_length (x ∷ b) h = absurd (ground arith)

  -- The point, if its cell is `key`.
  abbrev pub within : (Point F → CellKey) → CellKey → Option (Point F) → Option (Point F)
  within cell key none = none
  within cell key (some p) = if same_cell (cell p) key then some p else none

  -- A cell lists an id with its point exactly if the point is the id's and lies in the cell.
  abbrev pub AgreesBy :
      (Point F → CellKey)
      → List (CellKey × List (String × Point F))
      → List (String × Point F)
      → Type 0
  AgreesBy cell cells points =
      (key : CellKey) (id : String)
      → lookup id (bucket key cells) ≡ within cell key (lookup id points)

  erased :
      (cell : Point F → CellKey) (cells cells' : List (CellKey × List (String × Point F)))
      (points : List (String × Point F)) (id : String) (old : Point F)
      → AgreesBy cell cells points
      → lookup id points ≡ some old
      → ((j : CellKey)
          → bucket j cells' ≡ (
              if same_cell (cell old) j
              then erase id (bucket (cell old) cells)
              else bucket j cells))
      → AgreesBy cell cells' (erase id points)
  erased cell cells cells' points id old h e reads key i =
      ap (lookup i) (reads key)
      ∙ ground (
        arith,
        h key i,
        h (cell old) i,
        e,
        lookup-erase id i points,
        lookup-erase id i (bucket (cell old) cells),
        str_eq_iff id i,
        same_cell_iff (cell old) key,
        λ (q : cell old ≡ key). ap (λ k. lookup i (bucket k cells)) q,
        λ (q : id ≡ i). ap (λ k. lookup k points) q,
      )

  written :
      (cell : Point F → CellKey) (cells : List (CellKey × List (String × Point F)))
      (points : List (String × Point F)) (id : String) (p : Point F)
      → AgreesBy cell cells points
      → lookup id points ≡ none
      → AgreesBy cell
          (put_bucket (cell p) (insert id p (bucket (cell p) cells)) cells)
          (insert id p points)
  written cell cells points id p h e key i =
      ap (lookup i) (bucket-put_bucket (cell p) key (insert id p (bucket (cell p) cells)) cells)
      ∙ ground (
        arith,
        h key i,
        h (cell p) i,
        e,
        lookup-insert id i p points,
        lookup-insert id i p (bucket (cell p) cells),
        str_eq_iff id i,
        same_cell_iff (cell p) key,
        λ (q : cell p ≡ key). ap (λ k. lookup i (bucket k cells)) q,
        λ (q : id ≡ i). ap (λ k. lookup k points) q,
      )

module _ {F : Type 0} ⦃fl : FloatOps F⦄ where
  abbrev pub Agrees : Grid F → Type 0
  Agrees g = AgreesBy (cell_of g) g.cells g.points

  -- What Remove writes to the cells reads like a cell without the id.
  removed_bucket :
      (key j : CellKey) (left : List (String × Point F))
      (m : List (CellKey × List (String × Point F)))
      → bucket j (if length left == 0 then drop_bucket key m else put_bucket key left m)
        ≡ (if same_cell key j then left else bucket j m)
  removed_bucket key j left m =
      of_if (λ c. bucket j c ≡ (if same_cell key j then left else bucket j m)) (length left == 0) _
        _ (λ e. rw (empty_of_length left e) (bucket-drop_bucket key j m))
        (λ _. bucket-put_bucket key j left m)

  remove-Agrees : (g : Grid F) (id : String) → Agrees g → Agrees (remove g id)
  unfolding remove cell_of
  remove-Agrees g id h =
      of_option Agrees (lookup id g.points) _ _ (λ _. h)
        λ old e. erased (cell_of g) g.cells _ g.points id old h e (λ j.
          removed_bucket (cell_of g old) j (erase id (bucket (cell_of g old) g.cells)) g.cells)

  removed : (g : Grid F) (id : String) → lookup id (remove g id).points ≡ none
  unfolding remove
  removed g id =
      of_option (λ (t : Grid F). lookup id t.points ≡ none) (lookup id g.points) _ _ (λ e. e)
        (λ old e. ground (arith, lookup-erase id id g.points, str_eq_iff id id))

  set_point-Agrees : (g : Grid F) (id : String) (p : Point F) → Agrees g → Agrees (set_point g id p)
  unfolding set_point cell_of
  set_point-Agrees g id p h =
      let g' = remove g id in
      written (cell_of g') g'.cells g'.points id p (remove-Agrees g id h) (removed g id)

-- The calls that change a grid.
pub data Call (F : Type 0) : Type 0 where
  set_call : String → Point F → Call F
  remove_call : String → Call F

module _ {F : Type 0} ⦃fl : FloatOps F⦄ where
  abbrev pub after : Grid F → List (Call F) → Grid F
  after g [] = g
  after g (set_call id p ∷ cs) = after (set_point g id p) cs
  after g (remove_call id ∷ cs) = after (remove g id) cs

  after-Agrees : (g : Grid F) (cs : List (Call F)) → Agrees g → Agrees (after g cs)
  after-Agrees g [] h = h
  after-Agrees g (set_call id p ∷ cs) h =
      after-Agrees (set_point g id p) cs (set_point-Agrees g id p h)
  after-Agrees g (remove_call id ∷ cs) h = after-Agrees (remove g id) cs (remove-Agrees g id h)

  -- After every sequence of Set and Remove on a new grid, a cell lists an id with a point exactly
  -- if the grid has that point for the id and the point lies in the cell.
  pub bucket-within :
      (size : F) (cs : List (Call F)) (key : CellKey) (id : String)
      → let g = after (new_grid size) cs in
        lookup id (bucket key g.cells) ≡ within (cell_of g) key (lookup id g.points)
  unfolding new_grid lookup bucket
  bucket-within size cs = after-Agrees (new_grid size) cs (λ key id. refl)
