-- ===== src/Matching/Assignment.antt =====
-- internal/matching/assignment.go: the Hungarian algorithm over a rectangular cost matrix.
-- Arrays are lists; every index that the source reads or writes is within its array.
use dispatch_lab.Prelude.{
  ℕ, zero, suc, ◌-◌, ◌^◌, Bool, true, false, Option, none, some, List, [], ◌∷◌, map, length, get_or,
  set, replicate, range, ltb, if◌then◌else◌, ◌==◌,
}
use dispatch_lab.Prelude.Float.{FloatOps, flt, ◌⊕◌, ◌⊖◌, num}
use dispatch_lab.Prelude.Sort as Sort

-- `Pair`.
pub record Pair (F : Type 0) : Type 0 where
  pub row : ℕ
  pub col : ℕ
  pub cost : F

-- The arrays of one call: potentials `u` and `v`, the row matched to each column (0 for none),
-- the way back, and the two arrays of one augmentation.
pub record Tableau (F : Type 0) : Type 0 where
  pub u : List F
  pub v : List F
  pub p : List ℕ
  pub way : List ℕ
  pub minv : List F
  pub used : List Bool

pub record Scan (F : Type 0) : Type 0 where
  pub tableau : Tableau F
  pub delta : F
  -- `none` is the initial `j1 = -1`.
  pub j1 : Option ℕ

abbrev pub row_at {ℓ} : {A : Type ℓ} → List (List A) → ℕ → List A
row_at m i = get_or m i []

-- `p[1:]`
abbrev pub tail_list : List ℕ → List ℕ
tail_list [] = []
tail_list (x ∷ xs) = xs

module _ {F : Type 0} ⦃fl : FloatOps F⦄ where
  abbrev pub cell : List (List F) → ℕ → ℕ → F
  cell m i j = get_or (row_at m i) j (num 0)

  -- `math.MaxFloat64 / 4`.
  abbrev pub infinity : F
  infinity = fl.literal (2 ^ 1022) 1

  unfoldable pub transpose : List (List F) → List (List F)
  transpose m =
      map (λ j. map (λ i. cell m i j) (range 0 (length m))) (range 0 (length (row_at m 0)))

  -- The body of the first loop over the columns, for an unused `j`.
  unfoldable pub scan_column : List (List F) → ℕ → ℕ → ℕ → Scan F → Scan F
  scan_column work i0 j0 j s =
      let t = s.tableau in
      let cur = cell work (i0 - 1) (j - 1) ⊖ get_or t.u i0 (num 0) ⊖ get_or t.v j (num 0) in
      let t' =
        (if flt cur (get_or t.minv j infinity)
          then record t { minv = set t.minv j cur; way = set t.way j j0 }
          else t) in
      let best = get_or t'.minv j infinity in
      if flt best s.delta
      then record { tableau = t'; delta = best; j1 = some j }
      else record s { tableau = t' }

  unfoldable pub scan_columns : List (List F) → ℕ → ℕ → List ℕ → Scan F → Scan F
  unfolding scan_column
  scan_columns work i0 j0 [] s = s
  scan_columns work i0 j0 (j ∷ js) s =
      scan_columns work i0 j0 js
        (if get_or s.tableau.used j false then s else scan_column work i0 j0 j s)

  -- The second loop: the potentials of the used columns move by `delta`, the slacks of the others.
  unfoldable pub shift_column : F → Tableau F → ℕ → Tableau F
  shift_column delta t j =
      let i = get_or t.p j 0 in
      if get_or t.used j false
      then record t {
        u = set t.u i (get_or t.u i (num 0) ⊕ delta);
        v = set t.v j (get_or t.v j (num 0) ⊖ delta);
      }
      else record t { minv = set t.minv j (get_or t.minv j infinity ⊖ delta) }

  unfoldable pub shift_columns : F → List ℕ → Tableau F → Tableau F
  unfolding shift_column
  shift_columns delta [] t = t
  shift_columns delta (j ∷ js) t = shift_columns delta js (shift_column delta t j)

  -- One round of the inner `for`: the new column and the arrays; `none` is the panic on `p[-1]`.
  unfoldable pub grow : List (List F) → ℕ → Tableau F → ℕ → Option (ℕ × Tableau F)
  unfolding scan_columns shift_columns
  grow work cols t j0 =
      let t' = record t { used = set t.used j0 true } in
      let i0 = get_or t'.p j0 0 in
      let s : Scan F = record { tableau = t'; delta = infinity; j1 = none } in
      let s' = scan_columns work i0 j0 (range 1 cols) s in
      elim s'.j1 [
        | none ↦ none
        | some j1 ↦ some (j1, shift_columns s'.delta (range 0 (suc cols)) s'.tableau)
      ]

  unfoldable pub augment : ℕ → List (List F) → ℕ → Tableau F → ℕ → Option (ℕ × Tableau F)
  augment zero work cols t j0 = none
  augment (suc fuel) work cols t j0 = elim (grow work cols t j0) [
    | none ↦ none
    | some (j1, t') ↦ elim (get_or t'.p j1 0 == 0) [
      | true ↦ some (j1, t')
      | false ↦ augment fuel work cols t' j1
    ]
  ]

  -- `for j0 != 0 { j1 := way[j0]; p[j0] = p[j1]; j0 = j1 }`
  unfoldable pub flip : ℕ → Tableau F → ℕ → Option (Tableau F)
  flip zero t j0 = if j0 == 0 then some t else none
  flip (suc fuel) t j0 =
      let j1 = get_or t.way j0 0 in
      let rest = flip fuel (record t { p = set t.p j0 (get_or t.p j1 0) }) j1 in
      if j0 == 0 then some t else rest

  -- The body of the loop over the rows.
  unfoldable pub add_row : List (List F) → ℕ → Tableau F → ℕ → Option (Tableau F)
  unfolding grow augment flip
  add_row work cols t i =
      let fresh = record t {
        p = set t.p 0 i;
        minv = replicate (suc cols) infinity;
        used = replicate (suc cols) false;
      } in
      elim (augment (suc cols) work cols fresh 0) [
        | none ↦ none
        | some (j0, t') ↦ flip (suc cols) t' j0
      ]

  unfoldable pub add_rows : List (List F) → ℕ → List ℕ → Tableau F → Option (Tableau F)
  add_rows work cols [] t = some t
  add_rows work cols (i ∷ is) t = elim (add_row work cols t i) [
    | none ↦ none
    | some t' ↦ add_rows work cols is t'
  ]

  unfoldable pub read_pairs : List (List F) → Bool → List ℕ → ℕ → List ℕ → List (Pair F)
  read_pairs original transposed p j [] = []
  read_pairs original transposed p j (i ∷ is) =
      let rest = read_pairs original transposed p (suc j) is in
      let r = if transposed then j - 1 else i - 1 in
      let c = if transposed then i - 1 else j - 1 in
      if i == 0 then rest else record { row = r; col = c; cost = cell original r c } ∷ rest

  unfoldable pub pair_less : Pair F → Pair F → Bool
  pair_less a b = ltb a.row b.row

  unfoldable pub solve : List (List F) → List (List F) → Bool → ℕ → ℕ → Option (List (Pair F))
  unfolding add_row add_rows read_pairs pair_less
  solve original work transposed rows cols =
      let start : Tableau F = record {
        u = replicate (suc rows) (num 0);
        v = replicate (suc cols) (num 0);
        p = replicate (suc cols) 0;
        way = replicate (suc cols) 0;
        minv = [];
        used = [];
      } in
      elim (add_rows work cols (range 1 rows) start) [
        | none ↦ none
        | some t ↦ some (Sort.sort pair_less (read_pairs original transposed t.p 1 (tail_list t.p)))
      ]

  -- `none` where the source would panic.
  unfoldable pub min_cost_assignment : List (List F) → Option (List (Pair F))
  unfolding transpose solve
  min_cost_assignment cost =
      let rows = length cost in
      let cols = length (row_at cost 0) in
      if rows == 0
      then some []
      else if cols == 0
      then some []
      else if ltb cols rows
      then solve cost (transpose cost) true cols rows
      else solve cost cost false rows cols
