-- ===== src/Routing/Relax.antt =====
-- internal/routing/astar.go: what holds of the search between two rounds, and that relaxing the
-- edges of a node keeps it.
use mathlib.Core.Path.{subst₂}
use dispatch_lab.Prelude.{
  some-injective, length, ℕ, suc, String, ◌≡◌, refl, sym, ap, ◌∙◌, ◌⊎◌, inl, inr, Bool, true, false,
  some, List, [], ◌∷◌, arith, elem, str_eq, str_eq_iff, if◌then◌else◌, Bool-cases,
}
use dispatch_lab.Prelude.Float.{FloatOps, FloatLaws, flt, ◌⊕◌}
use dispatch_lab.Prelude.Map.{
  lookup, insert, has, lookup-insert, lookup-insert_hit, lookup-insert_miss, has_value,
  has_of_lookup, has-insert,
}
use dispatch_lab.Prelude.Sort as Sort
use dispatch_lab.Domain.Defs.{Edge, City}
use dispatch_lab.Routing.{Item, Search, push, improves, improve, heuristic}
use dispatch_lab.Routing.Walks.{Road}
use dispatch_lab.Routing.Chains.{Chain, root, link}

module _ {F : Type 0} ⦃fl : FloatOps F⦄ where
  -- Some item of the open set is for the node.
  abbrev pub waits : String → List (Item F) → Bool
  waits v [] = false
  waits v (i ∷ is) = if str_eq i.node v then true else waits v is

  pub waits-push :
      (v : String) (i : Item F) (is : List (Item F))
      → waits v (push i is) ≡ (if str_eq i.node v then true else waits v is)
  unfolding push Sort.insert
  waits-push v i [] = refl
  waits-push v i (j ∷ is) = ground (arith, waits-push v i is)

  pub length-push : (i : Item F) (is : List (Item F)) → length (push i is) ≡ suc (length is)
  unfolding push Sort.insert
  length-push i [] = refl
  length-push i (j ∷ is) = ground (arith, length-push i is)

  abbrev pub scored : Search F → String → Bool
  scored s v = has v s.g_score

  -- The recorded distance is not above `b`.
  abbrev pub AtMost : Search F → String → F → Type 0
  AtMost s v b = (a : F) → lookup v s.g_score ≡ some a → flt b a ≡ false

module _ {F : Type 0} ⦃fl : FloatOps F⦄ (c : City F) (start : String) where
  pub record Inv (s : Search F) : Type 0 where
    pub scored_start : scored s start ≡ true
    pub frontier :
        (v : String) → scored s v ≡ true → (elem v s.visited ≡ true) ⊎ (waits v s.open_set ≡ true)
    pub waiting_scored : (v : String) → waits v s.open_set ≡ true → scored s v ≡ true
    pub visited_scored : (v : String) → elem v s.visited ≡ true → scored s v ≡ true
    pub linked :
        (v u : String)
        → lookup v s.came_from ≡ some u
        → Road c u v × (scored s u ≡ true) × (scored s v ≡ true)
    pub chained : (v : String) → scored s v ≡ true → (n : ℕ) × Chain start s.came_from n v
    pub ordered :
        (v u : String) (a : F)
        → lookup v s.came_from ≡ some u
        → lookup v s.g_score ≡ some a
        → AtMost s u a

  -- One improvement: the edge `e` leaves the visited node `current`, recorded at `b`, and `t` is
  -- the sum that beats what was recorded for the edge's end.
  module _ (laws : FloatLaws F) (goal current : String) (s : Search F) (e : Edge F) (b : F)
      (inv : Inv s) (visited : elem current s.visited ≡ true)
      (at_b : lookup current s.g_score ≡ some b) (grows : flt (b ⊕ e.weight) b ≡ false)
      (better : improves (b ⊕ e.weight) (lookup e.to s.g_score) ≡ true)
      (road : Road c current e.to) where
    beaten : (a : F) → lookup e.to s.g_score ≡ some a → flt (b ⊕ e.weight) a ≡ true
    unfolding improves
    beaten a h = rw h at better

    not_kept : (x : String) → scored s x ≡ true → AtMost s x (b ⊕ e.weight) → str_eq e.to x ≡ false
    not_kept x known low = elim (Bool-cases (str_eq e.to x)) [
      | inl p ↦
          let (a, q) = has_value x s.g_score known in
          cc (low a q, beaten a (rw ((str_eq_iff e.to x).0 p) q))
      | inr p ↦ p
    ]

    lower_trans : (x y z : F) → flt x y ≡ false → flt y z ≡ false → flt x z ≡ false
    lower_trans x y z h k = elim (Bool-cases (flt x z)) [
      | inl p ↦ cc (laws.lt_le_trans x z y p k)
      | inr p ↦ p
    ]

    not_above :
        (a o : F) → flt a o ≡ false → flt (b ⊕ e.weight) o ≡ true → flt a (b ⊕ e.weight) ≡ false
    not_above a o h k = elim (Bool-cases (flt a (b ⊕ e.weight))) [
      | inl p ↦ cc (laws.lt_trans a (b ⊕ e.weight) o p k)
      | inr p ↦ p
    ]

    low_current : AtMost s current (b ⊕ e.weight)
    low_current a h = ground arith

    keep-Chain :
        {n : ℕ} {x : String}
        → Chain start s.came_from n x
        → AtMost s x (b ⊕ e.weight)
        → Chain start (insert e.to current s.came_from) n x × (str_eq e.to start ≡ false)
    keep-Chain root low = (root, not_kept start inv.scored_start low)
    keep-Chain (link x u ne p k) low =
        let (_, _, known) = inv.linked x u p in
        let apart = not_kept x known low in
        let (k', far) = keep-Chain k (low_parent known) in
        (link x u ne (rw (lookup-insert e.to x current s.came_from) (rw apart p)) k', far)
      where
        low_parent : scored s x ≡ true → AtMost s u (b ⊕ e.weight)
        low_parent known d q =
            let (a, r) = has_value x s.g_score known in
            lower_trans (b ⊕ e.weight) a d (low a r) (inv.ordered x u a p r d q)

    far_start : str_eq e.to start ≡ false
    far_start =
        let (n, k) = inv.chained current (has_of_lookup current s.g_score b at_b) in
        (keep-Chain k low_current).1

    pub far_current : str_eq e.to current ≡ false
    far_current = not_kept current (has_of_lookup current s.g_score b at_b) low_current

    -- Every chain is still one, or now goes through `current`.
    new-Chain :
        {n : ℕ} {x : String}
        → Chain start s.came_from n x
        → (m : ℕ) × Chain start (insert e.to current s.came_from) m x
    new-Chain root = (0, root)
    new-Chain (link x u ne p k) =
        let (m, k') = new-Chain k in
        elim (Bool-cases (str_eq e.to x)) [
          | inl q ↦ through x ((str_eq_iff e.to x).0 q)
          | inr q ↦ (suc m, link x u ne (rw (lookup-insert e.to x current s.came_from) (rw q p)) k')
        ]
      where
        through :
            (x : String) → e.to ≡ x → (m : ℕ) × Chain start (insert e.to current s.came_from) m x
        through x q =
            let (n, k) = inv.chained current (has_of_lookup current s.g_score b at_b) in
            (
              suc n,
              link x current (λ r. cc (far_start, (str_eq_iff e.to start).1 (q ∙ r)))
                  (ground (arith, lookup-insert e.to x current s.came_from, str_eq_iff e.to x))
                  (keep-Chain k low_current).0,
            )

    abbrev next : Search F
    next = improve c goal current s e (b ⊕ e.weight)

    abbrev queued : Item F
    queued = record { node = e.to; priority = (b ⊕ e.weight) ⊕ heuristic c goal e.to; seq = s.seq }

    -- What had a score keeps one.
    still : (x : String) → scored s x ≡ true → scored next x ≡ true
    unfolding improve
    still x h = ground (arith, has-insert e.to x (b ⊕ e.weight) s.g_score)

    linked_next :
        (v u : String)
        → lookup v (insert e.to current s.came_from) ≡ some u
        → Road c u v × (scored next u ≡ true) × (scored next v ≡ true)
    unfolding improve
    linked_next v u h = elim (Bool-cases (str_eq e.to v)) [
      | inl q ↦
          let same : current ≡ u =
            some-injective (sym (lookup-insert_hit e.to v current s.came_from q) ∙ h) in
          (
            subst₂ (λ x y. Road c x y) same ((str_eq_iff e.to v).0 q) road,
            rw (← same) (still current (has_of_lookup current s.g_score b at_b)),
            ground (arith, has-insert e.to v (b ⊕ e.weight) s.g_score),
          )
      | inr q ↦
          let (r, su, sv) =
            inv.linked v u (sym (lookup-insert_miss e.to v current s.came_from q) ∙ h) in
          (r, still u su, still v sv)
    ]

    chained_next :
        (v : String)
        → scored next v ≡ true
        → (n : ℕ) × Chain start (insert e.to current s.came_from) n v
    unfolding improve
    chained_next v h = elim (Bool-cases (str_eq e.to v)) [
      | inl q ↦
          let (n, k) = inv.chained current (has_of_lookup current s.g_score b at_b) in
          (
            suc n,
            link v current
                (λ r. cc (far_start, (str_eq_iff e.to start).1 ((str_eq_iff e.to v).0 q ∙ r)))
                (lookup-insert_hit e.to v current s.came_from q) (keep-Chain k low_current).0,
          )
      | inr q ↦
          let (n, k) = inv.chained v (ground (arith, has-insert e.to v (b ⊕ e.weight) s.g_score)) in
          new-Chain k
    ]

    ordered_next :
        (v u : String) (a : F)
        → lookup v (insert e.to current s.came_from) ≡ some u
        → lookup v next.g_score ≡ some a
        → AtMost next u a
    unfolding improve
    ordered_next v u a h k d r = elim (Bool-cases (str_eq e.to v)) [
      | inl q ↦
          let same : current ≡ u =
            some-injective (sym (lookup-insert_hit e.to v current s.came_from q) ∙ h) in
          let a_is : b ⊕ e.weight ≡ a =
            some-injective (sym (lookup-insert_hit e.to v (b ⊕ e.weight) s.g_score q) ∙ k) in
          let at_d : lookup current s.g_score ≡ some d =
            sym (lookup-insert_miss e.to current (b ⊕ e.weight) s.g_score far_current)
            ∙ ap (λ x. lookup x (insert e.to (b ⊕ e.weight) s.g_score)) same
            ∙ r in
          let d_is : b ≡ d = some-injective (sym at_b ∙ at_d) in rw (← a_is, ← d_is) grows
      | inr q ↦
          let h' = sym (lookup-insert_miss e.to v current s.came_from q) ∙ h in
          let k' = sym (lookup-insert_miss e.to v (b ⊕ e.weight) s.g_score q) ∙ k in
          elim (Bool-cases (str_eq e.to u)) [
            | inl p ↦
                let (_, known, _) = inv.linked v u h' in
                let (o, w) = has_value u s.g_score known in
                let w' : lookup e.to s.g_score ≡ some o = rw ((str_eq_iff e.to u).0 p) w in
                let d_is : b ⊕ e.weight ≡ d =
                  some-injective (sym (lookup-insert_hit e.to u (b ⊕ e.weight) s.g_score p) ∙ r) in
                rw (← d_is) (not_above a o (inv.ordered v u a h' k' o w) (beaten o w'))
            | inr p ↦
                inv.ordered v u a h' k' d
                  (sym (lookup-insert_miss e.to u (b ⊕ e.weight) s.g_score p) ∙ r)
          ]
    ]

    pub improve-Inv : Inv next
    unfolding improve
    improve-Inv = record {
      scored_start =
          ground (arith, has-insert e.to start (b ⊕ e.weight) s.g_score, inv.scored_start);
      frontier = λ v h. ground (
        arith,
        inv.frontier v,
        has-insert e.to v (b ⊕ e.weight) s.g_score,
        waits-push v queued s.open_set,
      );
      waiting_scored = λ v h. ground (
        arith,
        inv.waiting_scored v,
        has-insert e.to v (b ⊕ e.weight) s.g_score,
        waits-push v queued s.open_set,
      );
      visited_scored =
          λ v h. ground (arith, inv.visited_scored v, has-insert e.to v (b ⊕ e.weight) s.g_score);
      linked = linked_next;
      chained = chained_next;
      ordered = ordered_next;
    }
