-- ===== src/Routing/Total.antt =====
-- internal/routing/astar.go: FindRoute answers on every map of forward roads. The fuel of the
-- main loop covers what is queued and the roads of the nodes that were not expanded yet.
use dispatch_lab.Prelude.{
  some-injective, ℕ, zero, suc, ◌+◌, ◌≤◌, String, ◌≡◌, refl, sym, ap, ◌∙◌, ◌⊎◌, inl, inr, true,
  false, not, Option, none, some, List, [], ◌∷◌, arith, elem, length, str_eq, str_eq_iff,
  str_eq_refl, if◌then◌else◌, Bool-cases, of_bool, of_if, of_option,
}
use dispatch_lab.Prelude.Float.{FloatOps, FloatLaws, num}
use dispatch_lab.Prelude.Map.{lookup, lookup_or, has, has_value}
use dispatch_lab.Domain.Defs.{Edge, City}
use dispatch_lab.Domain.City.{outgoing}
use dispatch_lab.Routing.{
  Route, Item, Search, Outcome, found, no_route, stuck, path_back, reconstruct, expand, loop,
  count_edges, initial, search_route, find_route,
}
use dispatch_lab.Routing.Walks.{Walk, stay, Reach}
use dispatch_lab.Routing.Chains.{Chain, root, Chain-le-length}
use dispatch_lab.Routing.Relax.{Inv, scored}
use dispatch_lab.Routing.Rounds.{IsForward, Relaxed, expand-Relaxed}
use dispatch_lab.Routing.Correct.{path_back-Walk, pop_skip, pop_visit, Closed, exhausted}

List-cases {ℓ} : {A : Type ℓ} (xs : List A) → (xs ≡ []) ⊎ ((x : A) × (ys : List A) × (xs ≡ x ∷ ys))
List-cases [] = inl refl
List-cases (x ∷ xs) = inr (x, xs, refl)

module _ {F : Type 0} ⦃fl : FloatOps F⦄ where
  -- The roads from nodes that are not among `seen`.
  abbrev unspent : List String → List (String × List (Edge F)) → ℕ
  unspent seen [] = 0
  unspent seen ((k, es) ∷ m) = if elem k seen then unspent seen m else length es + unspent seen m

  unspent_none : (m : List (String × List (Edge F))) → unspent [] m ≡ count_edges m
  unfolding count_edges
  unspent_none [] = refl
  unspent_none ((k, es) ∷ m) = omega (arith, unspent_none m)

  unspent_mono :
      (v : String) (seen : List String) (m : List (String × List (Edge F)))
      → unspent (v ∷ seen) m ≤ unspent seen m
  unspent_mono v seen [] = omega arith
  unspent_mono v seen ((k, es) ∷ m) = ground (arith, unspent_mono v seen m)

  spend :
      (v : String) (seen : List String) (m : List (String × List (Edge F)))
      → elem v seen ≡ false
      → length (lookup_or [] v m) + unspent (v ∷ seen) m ≤ unspent seen m
  unfolding lookup
  spend v seen [] h = omega arith
  spend v seen ((k, es) ∷ m) h = elim (Bool-cases (str_eq k v)) [
    | inl e ↦ ground (
      arith,
      unspent_mono v seen m,
      str_eq_iff k v,
      str_eq_iff v k,
      ap (λ x. elem x seen) ((str_eq_iff k v).0 e),
    )
    | inr e ↦ ground (arith, spend v seen m h, str_eq_iff k v, str_eq_iff v k)
  ]

-- What an answer claims.
data Verdict {F : Type 0} (c : City F) (start goal : String) : Outcome F → Type 0 where
  arrives : (r : Route F) → Walk c start goal r.nodes → Verdict c start goal (found r)
  cut_off : ¬ Reach c start goal → Verdict c start goal no_route

module _ {F : Type 0} ⦃fl : FloatOps F⦄ (laws : FloatLaws F) (c : City F) (start goal : String)
    (forward : (u : String) → IsForward (outgoing c u)) where
  reconstruct-Verdict :
      (s : Search F) (rest : List (Item F))
      → Inv c start s
      → scored s goal ≡ true
      → Verdict c start goal (reconstruct (record s { open_set = rest }) start goal)
  unfolding reconstruct
  reconstruct-Verdict s rest i h =
      let (n, k) = i.chained goal h in
      let (path, e, w) =
        path_back-Walk c start (suc (length s.came_from)) (λ x u p. (i.linked x u p).0) k
          (omega (arith, Chain-le-length n s.came_from k)) in
      of_option (Verdict c start goal) (path_back (suc (length s.came_from)) s.came_from start goal)
        _ _ (λ p. cc (e, p)) (λ a p. arrives _ (rw (some-injective (sym p ∙ e)) w))

  -- Expanding a node leaves no road from a visited node to one without a distance.
  Closed-expand :
      (v : String) (b : F) (s : Search F)
      → Closed c start s
      → Relaxed laws c start goal v b
          (outgoing c v)
          (record s { visited = v ∷ s.visited })
          (expand c goal v s)
      → Closed c start (expand c goal v s)
  Closed-expand v b s cl r u w seen road = elim (Bool-cases (str_eq v u)) [
    | inl e ↦ r.reached w (rw ((str_eq_iff v u).0 e) road)
    | inr e ↦ r.still w (cl u w (ground (arith, r.visited)) road)
  ]

  module _ (fuel : ℕ) (s : Search F) (item : Item F) (rest : List (Item F)) (i : Inv c start s)
      (cl : Closed c start s) (far : elem goal s.visited ≡ false) (e : s.open_set ≡ item ∷ rest)
      (h : length s.open_set + unspent s.visited c.edges ≤ suc fuel)
      (next : (t : Search F)
        → Inv c start t
        → Closed c start t
        → elem goal t.visited ≡ false
        → length t.open_set + unspent t.visited c.edges ≤ fuel
        → Verdict c start goal (loop c start goal fuel t)) where
    abbrev popped : Search F
    popped = record s { open_set = rest }

    room : length rest + unspent s.visited c.edges ≤ fuel
    room = ground (arith, ap length e)

    known : scored s item.node ≡ true
    known = i.waiting_scored item.node (ground (arith, str_eq_refl item.node))

    expand-Verdict :
        elem item.node s.visited ≡ false
        → str_eq item.node goal ≡ false
        → Verdict c start goal (loop c start goal fuel (expand c goal item.node popped))
    expand-Verdict fresh apart =
        let (b, at_b) = has_value item.node s.g_score known in
        let r =
          expand-Relaxed laws c start goal item.node b popped (pop_visit c start s item rest i e)
            at_b (forward item.node) in
        next (expand c goal item.node popped) r.inv (Closed-expand item.node b popped cl r)
          (ground (arith, r.visited))
          (ground (
            arith,
            r.visited,
            r.queued,
            room,
            spend item.node s.visited c.edges fresh,
            ap (λ x. unspent x c.edges) r.visited,
          ))

    round-Verdict : Verdict c start goal (elim (elem item.node s.visited) [
      | true ↦ loop c start goal fuel popped
      | false ↦ elim (str_eq item.node goal) [
        | true ↦ reconstruct popped start goal
        | false ↦ loop c start goal fuel (expand c goal item.node popped)
      ]
    ])
    round-Verdict =
        of_bool (Verdict c start goal) (elem item.node s.visited) _ _
          (λ old. next popped (pop_skip c start s item rest i e old) cl far room)
          (λ fresh.
            of_bool (Verdict c start goal) (str_eq item.node goal) _ _
              (λ same.
                reconstruct-Verdict s rest i (rw (← (str_eq_iff item.node goal).0 same) known))
              (expand-Verdict fresh))

  emptied-Verdict :
      (fuel : ℕ) (s : Search F)
      → Inv c start s
      → Closed c start s
      → elem goal s.visited ≡ false
      → s.open_set ≡ []
      → Verdict c start goal (loop c start goal fuel s)
  unfolding loop
  emptied-Verdict zero s i cl far e = rw e (cut_off (λ r. cc (far, exhausted c start s i cl e r)))
  emptied-Verdict (suc n) s i cl far e =
      rw e (cut_off (λ r. cc (far, exhausted c start s i cl e r)))

  loop-Verdict :
      (fuel : ℕ) (s : Search F)
      → Inv c start s
      → Closed c start s
      → elem goal s.visited ≡ false
      → length s.open_set + unspent s.visited c.edges ≤ fuel
      → Verdict c start goal (loop c start goal fuel s)
  unfolding loop
  loop-Verdict zero s i cl far h = elim (List-cases s.open_set) [
    | inl e ↦ emptied-Verdict zero s i cl far e
    | inr (item, rest, e) ↦ absurd (ground (arith, ap length e))
  ]
  loop-Verdict (suc fuel) s i cl far h = elim (List-cases s.open_set) [
    | inl e ↦ emptied-Verdict (suc fuel) s i cl far e
    | inr (item, rest, e) ↦ rw e (round-Verdict fuel s item rest i cl far e h (loop-Verdict fuel))
  ]

  initial-Inv : Inv c start (initial c start goal)
  unfolding initial lookup
  initial-Inv = record {
    scored_start = ground (arith, str_eq_refl start);
    frontier = λ v h. ground arith;
    waiting_scored = λ v h. ground arith;
    visited_scored = λ v h. ground arith;
    linked = λ v u h. ground arith;
    chained = λ v h. (0, at_start v h);
    ordered = λ v u a h. ground arith;
  }
    where
      at_start : (v : String) → has {V = F} v ((start, num 0) ∷ []) ≡ true → Chain start [] 0 v
      at_start v h = rw (← (str_eq_iff start v).0 (ground arith)) root

  -- The search, once both nodes are known to be on the map.
  main-Verdict :
      Verdict c start goal (loop c start goal (suc (count_edges c.edges)) (initial c start goal))
  unfolding initial
  main-Verdict =
      loop-Verdict (suc (count_edges c.edges)) (initial c start goal) initial-Inv
        (λ u v h. ground arith) refl (omega (arith, unspent_none c.edges))

  abbrev pub Answers : Option (Route F) → Type 0
  Answers answer =
      ((r : Route F) × (answer ≡ some r) × Walk c start goal r.nodes)
      ⊎ ((answer ≡ none)
          × ((has start c.nodes ≡ false) ⊎ ((has goal c.nodes ≡ false) ⊎ (¬ Reach c start goal))))

  of_Verdict :
      {o : Outcome F}
      → Verdict c start goal o
      → Answers (elim o [ found r ↦ some r | no_route ↦ none | stuck ↦ none ])
  of_Verdict (arrives r w) = inl (r, refl, w)
  of_Verdict (cut_off lost) = inr (refl, inr (inr lost))

  -- On a map without negative roads, over floats without NaN, FindRoute returns a route whose
  -- nodes are a walk over open roads from the start to the goal; or it returns none, and then the
  -- start or the goal is not on the map or the goal cannot be reached over open roads.
  pub find_route_correct : Answers (find_route c start goal)
  unfolding find_route search_route
  find_route_correct =
      of_if
        (λ (o : Outcome F). Answers (elim o [ found r ↦ some r | no_route ↦ none | stuck ↦ none ]))
        (str_eq start goal) _ _
        (λ same. inl (_, refl, rw (← (str_eq_iff start goal).0 same) (stay start)))
        (λ apart.
          of_if
            (λ (o : Outcome F).
              Answers (elim o [ found r ↦ some r | no_route ↦ none | stuck ↦ none ]))
            (not (has start c.nodes)) _ _ (λ h. inr (refl, inl (ground arith)))
            (λ h.
              of_if
                (λ (o : Outcome F).
                  Answers (elim o [ found r ↦ some r | no_route ↦ none | stuck ↦ none ]))
                (not (has goal c.nodes)) _ _ (λ k. inr (refl, inr (inl (ground arith))))
                (λ k. of_Verdict main-Verdict)))
