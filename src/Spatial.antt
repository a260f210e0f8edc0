-- ===== src/Spatial.antt =====
-- internal/spatial/grid.go: a uniform grid over points, with the ring search for candidates.
pub mod Agreement
use dispatch_lab.Prelude.{
  ℕ, zero, suc, ◌+◌, ◌*◌, String, Bool, not, ◌||◌, ◌&&◌, Option, none, some, List, [], ◌∷◌, ltb,
  length, take, str_lt, if◌then◌else◌, ◌==◌,
}
use Prim.Native.Nat.{max}
use dispatch_lab.Prelude.Int.{ℤ, pos, pos_part, neg_part, ◌+ℤ◌, ◌-ℤ◌, eqb_ℤ}
use dispatch_lab.Prelude.Float.{FloatOps, flt, fle, feq, ◌⊕◌, ◌⊖◌, ◌⊗◌, ◌⊘◌, num}
use dispatch_lab.Prelude.Map.{lookup, insert, erase, keys}
use dispatch_lab.Prelude.Sort as Sort

pub record Point (F : Type 0) : Type 0 where
  pub x : F
  pub y : F

pub record CellKey : Type 0 where
  pub cx : ℤ
  pub cy : ℤ

-- Both maps of the source: `cells` from a cell to its ids, `points` from an id to its position.
pub record Grid (F : Type 0) : Type 0 where
  pub cell_size : F
  pub cells : List (CellKey × List (String × Point F))
  pub points : List (String × Point F)

unfoldable pub same_cell : CellKey → CellKey → Bool
same_cell a b = eqb_ℤ a.cx b.cx && eqb_ℤ a.cy b.cy

-- How many rings out from `a` the cell `b` lies.
unfoldable pub cell_distance : CellKey → CellKey → ℕ
cell_distance a b =
    let dx = a.cx -ℤ b.cx in
    let dy = a.cy -ℤ b.cy in max (pos_part dx + neg_part dx) (pos_part dy + neg_part dy)

module _ {F : Type 0} where
  -- `g.cells[key]`, where a missing key reads as the empty map.
  unfoldable pub bucket :
      CellKey → List (CellKey × List (String × Point F)) → List (String × Point F)
  bucket k [] = []
  bucket k ((j, b) ∷ m) = if same_cell j k then b else bucket k m

  -- `g.cells[key] = b`.
  unfoldable pub put_bucket :
      CellKey
      → List (String × Point F)
      → List (CellKey × List (String × Point F))
      → List (CellKey × List (String × Point F))
  put_bucket k b [] = (k, b) ∷ []
  put_bucket k b ((j, c) ∷ m) = if same_cell j k then (j, b) ∷ m else (j, c) ∷ put_bucket k b m

  -- `delete(g.cells, key)`.
  unfoldable pub drop_bucket :
      CellKey → List (CellKey × List (String × Point F)) → List (CellKey × List (String × Point F))
  drop_bucket k [] = []
  drop_bucket k ((j, c) ∷ m) = if same_cell j k then drop_bucket k m else (j, c) ∷ drop_bucket k m

module _ {F : Type 0} ⦃fl : FloatOps F⦄ where
  unfoldable pub new_grid : F → Grid F
  new_grid cell_size = record {
    cell_size = if fle cell_size (num 0) then num 1 else cell_size;
    cells = [];
    points = [];
  }

  unfoldable pub cell_of : Grid F → Point F → CellKey
  cell_of g p = record { cx = fl.floor (p.x ⊘ g.cell_size); cy = fl.floor (p.y ⊘ g.cell_size) }

  unfoldable pub remove : Grid F → String → Grid F
  unfolding bucket put_bucket drop_bucket cell_of
  remove g id = elim (lookup id g.points) [
    | none ↦ g
    | some old ↦
        let key = cell_of g old in
        let left = erase id (bucket key g.cells) in
        record g {
          cells = if length left == 0 then drop_bucket key g.cells else put_bucket key left g.cells;
          points = erase id g.points;
        }
  ]

  unfoldable pub set_point : Grid F → String → Point F → Grid F
  unfolding remove bucket put_bucket cell_of
  set_point g id p =
      let g' = remove g id in
      let key = cell_of g' p in
      record g' {
        cells = put_bucket key (insert id p (bucket key g'.cells)) g'.cells;
        points = insert id p g'.points;
      }

  unfoldable pub size : Grid F → ℕ
  size g = length g.points

  unfoldable pub dist_sq : Point F → Point F → F
  dist_sq a b = let dx = a.x ⊖ b.x in let dy = a.y ⊖ b.y in dx ⊗ dx ⊕ dy ⊗ dy

  unfoldable pub insert_all :
      List (String × Point F) → List (String × Point F) → List (String × Point F)
  insert_all found [] = found
  insert_all found ((id, p) ∷ b) = insert_all (insert id p found) b

  -- One column of a ring: cy from `origin.cy - radius`, `n` cells up.
  unfoldable pub scan_column :
      Grid F → CellKey → ℕ → ℤ → ℕ → ℕ → List (String × Point F) → List (String × Point F)
  unfolding insert_all bucket
  scan_column g origin radius cx zero i found = found
  scan_column g origin radius cx (suc n) i found =
      let cy = origin.cy -ℤ pos radius +ℤ pos i in
      let on_ring =
        radius == 0
        || eqb_ℤ cx (origin.cx -ℤ pos radius)
        || eqb_ℤ cx (origin.cx +ℤ pos radius)
        || eqb_ℤ cy (origin.cy -ℤ pos radius)
        || eqb_ℤ cy (origin.cy +ℤ pos radius) in
      let cell : CellKey = record { cx = cx; cy = cy } in
      scan_column g origin radius cx n (i + 1)
        (if on_ring then insert_all found (bucket cell g.cells) else found)

  unfoldable pub scan_rows :
      Grid F → CellKey → ℕ → ℕ → ℕ → List (String × Point F) → List (String × Point F)
  unfolding scan_column
  scan_rows g origin radius zero i found = found
  scan_rows g origin radius (suc n) i found =
      let cx = origin.cx -ℤ pos radius +ℤ pos i in
      scan_rows g origin radius n (i + 1) (scan_column g origin radius cx (2 * radius + 1) 0 found)

  unfoldable pub scan_ring :
      Grid F → CellKey → ℕ → List (String × Point F) → List (String × Point F)
  unfolding scan_rows
  scan_ring g origin radius found = scan_rows g origin radius (2 * radius + 1) 0 found

  -- The loop over radii; `none` when the fuel runs out.
  unfoldable pub rings :
      ℕ → Grid F → CellKey → ℕ → ℕ → List (String × Point F) → Option (List (String × Point F))
  rings zero g origin limit radius found =
      if ltb (length found) limit && ltb (length found) (length g.points) then none else some found
  rings (suc fuel) g origin limit radius found =
      let rest = rings fuel g origin limit (radius + 1) (scan_ring g origin radius found) in
      if ltb (length found) limit && ltb (length found) (length g.points) then rest else some found

  unfoldable pub nearer : Point F → String × Point F → String × Point F → Bool
  nearer query (i, p) (j, q) =
      let di = dist_sq p query in
      let dj = dist_sq q query in if not (feq di dj) then flt di dj else str_lt i j

  unfoldable pub nearest : Point F → ℕ → List (String × Point F) → List String
  unfolding nearer
  nearest query limit found =
      let ids = keys (Sort.sort (nearer query) found) in
      if ltb limit (length ids) then take limit ids else ids

  -- The radius of the ring in which the farthest cell lies.
  unfoldable pub reach : CellKey → List (CellKey × List (String × Point F)) → ℕ
  unfolding cell_distance
  reach origin [] = 0
  reach origin ((k, b) ∷ m) = max (cell_distance origin k) (reach origin m)

  -- Rings are scanned until enough candidates are found; past the farthest cell there are no more.
  unfoldable pub candidates : Grid F → Point F → ℕ → Option (List String)
  unfolding rings nearest reach
  candidates g query limit =
      let origin = cell_of g query in
      let found = rings (suc (suc (reach origin g.cells))) g origin limit 0 [] in
      if limit == 0 || length g.points == 0
      then some []
      else elim found [ none ↦ none | some ids ↦ some (nearest query limit ids) ]
