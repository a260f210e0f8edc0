-- ===== src/Replay/Agreement/Loaded.antt =====
-- internal/replay/state.go: a builder that was loaded from a simulation's snapshot shows it.
use dispatch_lab.Prelude.{
  String, ◌≡◌, refl, ap, ◌∙◌, none, some, List, [], ◌∷◌, ◌++◌, map, arith, IsDistinct, str_eq,
  str_eq_iff, str_lt, if◌then◌else◌, Bool-cases, inl, inr,
}
use dispatch_lab.Prelude.Float.{FloatOps}
use dispatch_lab.Prelude.Map.{lookup, insert, keys, values, by_key, elem-keys, lookup-insert}
use dispatch_lab.Prelude.Keyed.{lookup-sort, sort-IsDistinct, str_lt_ne}
use dispatch_lab.Prelude.Sort as Sort
use dispatch_lab.Domain.Defs.{City, Edge, Driver}
use dispatch_lab.Domain.City.{edge_in, edge_in_lists, edge_by_id}
use dispatch_lab.Simulation.State.{Sim, all_edges, views}
use dispatch_lab.Replay.Fold.{load_each}
use dispatch_lab.Replay.Agreement.Views.{find_edge, replay_closed, city_closed, Roads}
use dispatch_lab.Replay.Agreement.Snapshots.{edge_view, plain, driver_view}

-- Every value names its key.
abbrev pub Keyed {ℓ κ} :
    {V : Type ℓ} {A : Type κ} → (A → String) → (V → A) → List (String × V) → Type 0
Keyed id f [] = Unit
Keyed id f ((k, v) ∷ m) = (id (f v) ≡ k) × Keyed id f m

-- Loading the values of a map gives the map.
load_each-lookup :
    {V A : Type 0} (id : A → String) (f : V → A) (m : List (String × V)) (o : List String)
    (M : List (String × A)) (k : String)
    → IsDistinct (keys m)
    → Keyed id f m
    → lookup k (load_each id (o, M) (map f (values m))).1
      ≡ elim (lookup k m) [ none ↦ lookup k M | some v ↦ some (f v) ]
unfolding load_each lookup
load_each-lookup id f [] o M k d n = refl
load_each-lookup id f ((j, v) ∷ m) o M k d n = ground (
  arith,
  load_each-lookup id f m (o ++ id (f v) ∷ []) (insert (id (f v)) (f v) M) k d.1 n.1,
  lookup-insert (id (f v)) k (f v) M,
  str_eq_iff j k,
  n.0,
  d.0,
  elem-keys k m,
)

Keyed-insert_sorted :
    {V A : Type 0} (id : A → String) (f : V → A) (k : String) (v : V) (m : List (String × V))
    → id (f v) ≡ k
    → Keyed id f m
    → Keyed id f (Sort.insert (by_key) (k, v) m)
unfolding Sort.insert
Keyed-insert_sorted id f k v [] e n = (e, tt)
Keyed-insert_sorted id f k v ((j, w) ∷ m) e n = elim (Bool-cases (str_lt j k)) [
  | inl q ↦ rw q (n.0, Keyed-insert_sorted id f k v m e n.1)
  | inr q ↦ rw q (e, n)
]

Keyed-sort :
    {V A : Type 0} (id : A → String) (f : V → A) (m : List (String × V))
    → Keyed id f m
    → Keyed id f (Sort.sort (by_key) m)
unfolding Sort.sort
Keyed-sort id f [] n = tt
Keyed-sort id f ((k, v) ∷ m) n =
    Keyed-insert_sorted id f k v (Sort.sort (by_key) m) n.0 (Keyed-sort id f m n.1)

-- A map that was sorted, sent and loaded.
pub loaded-lookup :
    {V A : Type 0} (id : A → String) (f : V → A) (m : List (String × V)) (k : String)
    → IsDistinct (keys m)
    → Keyed id f m
    → lookup k (load_each id ([], []) (map f (values (Sort.sort (by_key) m)))).1
      ≡ elim (lookup k m) [ none ↦ none | some v ↦ some (f v) ]
unfolding lookup
loaded-lookup id f m k d n =
    load_each-lookup id f (Sort.sort (by_key) m) [] [] k (sort-IsDistinct m d) (Keyed-sort id f m n)
    ∙ ap (λ o. elim o [ none ↦ none | some v ↦ some (f v) ]) (lookup-sort k m)

module _ {F : Type 0} where
  edge_in-insert_sorted :
      (id : String) (e : Edge F) (es : List (Edge F))
      → edge_in id (Sort.insert (λ a b. str_lt a.id b.id) e es)
        ≡ (if str_eq e.id id then some e else edge_in id es)
  unfolding Sort.insert edge_in
  edge_in-insert_sorted id e [] = refl
  edge_in-insert_sorted id e (x ∷ es) = ground (
    arith,
    edge_in-insert_sorted id e es,
    str_lt_ne x.id e.id,
    str_eq_iff x.id e.id,
    str_eq_iff e.id id,
    str_eq_iff x.id id,
  )

  edge_in-sort :
      (id : String) (es : List (Edge F))
      → edge_in id (Sort.sort (λ a b. str_lt a.id b.id) es) ≡ edge_in id es
  unfolding Sort.sort edge_in
  edge_in-sort id [] = refl
  edge_in-sort id (e ∷ es) = ground (
    arith,
    edge_in-insert_sorted id e (Sort.sort (λ a b. str_lt a.id b.id) es),
    edge_in-sort id es,
  )

  edge_in-append :
      (id : String) (xs ys : List (Edge F))
      → edge_in id (xs ++ ys) ≡ elim (edge_in id xs) [ none ↦ edge_in id ys | some e ↦ some e ]
  unfolding edge_in
  edge_in-append id [] ys = refl
  edge_in-append id (x ∷ xs) ys = ground (arith, edge_in-append id xs ys)

  edge_in-all_edges :
      (id : String) (m : List (String × List (Edge F)))
      → edge_in id (all_edges m) ≡ edge_in_lists id m
  unfolding edge_in_lists all_edges edge_in
  edge_in-all_edges id [] = refl
  edge_in-all_edges id ((k, es) ∷ m) =
      edge_in-append id es (all_edges m)
      ∙ ap (λ o. elim (edge_in id es) [ none ↦ o | some e ↦ some e ]) (edge_in-all_edges id m)

  find_edge-views :
      (id : String) (es : List (Edge F))
      → replay_closed (find_edge id (map edge_view es)) ≡ city_closed (edge_in id es)
  unfolding find_edge edge_in edge_view
  find_edge-views id [] = refl
  find_edge-views id (e ∷ es) = ground (arith, find_edge-views id es)

  -- The roads of a snapshot are those of the city.
  pub loaded-Roads :
      (c : City F)
      → Roads (map edge_view (Sort.sort (λ a b. str_lt a.id b.id) (all_edges c.edges))) c
  unfolding edge_by_id
  loaded-Roads c id =
      find_edge-views id (Sort.sort (λ a b. str_lt a.id b.id) (all_edges c.edges))
      ∙ ap city_closed (edge_in-sort id (all_edges c.edges) ∙ edge_in-all_edges id c.edges)

module _ {F : Type 0} ⦃fl : FloatOps F⦄ where
  pub views-plain :
      (s : Sim F) (m : List (String × Driver F))
      → map driver_view (views s m) ≡ map plain (values m)
  unfolding views driver_view plain
  views-plain s [] = refl
  views-plain s ((id, d) ∷ m) = ap (λ vs. plain d ∷ vs) (views-plain s m)
