-- ===== src/Routing/Rounds.antt =====
-- internal/routing/astar.go: one round of the main loop, for a node that is visited first.
use mathlib.Core.Path.{subst}
use dispatch_lab.Prelude.{
  of_if, str_eq_refl, some, ◌+◌, ◌≤◌, String, ◌≡◌, refl, sym, ◌∙◌, true, false, List, [], ◌∷◌,
  arith, elem, length, All, str_eq, str_eq_iff, Bool-cases, inl, inr,
}
use dispatch_lab.Prelude.Float.{FloatOps, FloatLaws, flt, ◌⊕◌, num}
use dispatch_lab.Prelude.Map.{lookup, lookup_or, has, lookup-insert_miss, has-insert}
use dispatch_lab.Domain.Defs.{Edge, City}
use dispatch_lab.Domain.City.{outgoing}
use dispatch_lab.Routing.{Search, improves, improve, relax_edge, relax, expand}
use dispatch_lab.Routing.Walks.{has_road, Road}
use dispatch_lab.Routing.Relax.{Inv, scored, improve-Inv, far_current, length-push}

module _ {F : Type 0} ⦃fl : FloatOps F⦄ where
  -- No road is shorter than nothing.
  abbrev pub IsForward : List (Edge F) → Type 0
  IsForward = All (λ e. flt e.weight (num 0) ≡ false)

  improves_known :
      (t : F) (v : String) (g : List (String × F))
      → improves t (lookup v g) ≡ false
      → has v g ≡ true
  unfolding improves
  improves_known t v g h = ground arith

  one_road :
      (x : String) (e : Edge F)
      → has_road x (e ∷ []) ≡ true
      → (str_eq e.to x ≡ true) × (e.closed ≡ false)
  one_road x e h = ground arith

module _ {F : Type 0} ⦃fl : FloatOps F⦄ (laws : FloatLaws F) (c : City F)
    (start goal current : String) where
  -- What relaxing some edges of `current`, recorded at `b`, makes of `s`.
  pub record Relaxed (b : F) (es : List (Edge F)) (s t : Search F) : Type 0 where
    pub inv : Inv c start t
    pub visited : t.visited ≡ s.visited
    pub at_b : lookup current t.g_score ≡ some b
    pub still : (x : String) → scored s x ≡ true → scored t x ≡ true
    pub reached : (x : String) → has_road x es ≡ true → scored t x ≡ true
    pub queued : length t.open_set ≤ length s.open_set + length es

  Relaxed-same :
      (b : F) (e : Edge F) (s : Search F)
      → Inv c start s
      → lookup current s.g_score ≡ some b
      → (e.closed ≡ false → scored s e.to ≡ true)
      → Relaxed b (e ∷ []) s s
  Relaxed-same b e s i h known = record {
    inv = i;
    visited = refl;
    at_b = h;
    still = λ x k. k;
    reached = λ x k. only x k;
    queued = omega arith;
  }
    where
      only : (x : String) → has_road x (e ∷ []) ≡ true → scored s x ≡ true
      only x k = rw (← (str_eq_iff e.to x).0 (one_road x e k).0) (known (one_road x e k).1)

  -- The edge improves its end.
  improve-Relaxed :
      (b : F) (e : Edge F) (s : Search F)
      → Inv c start s
      → elem current s.visited ≡ true
      → lookup current s.g_score ≡ some b
      → flt e.weight (num 0) ≡ false
      → Road c current e.to
      → improves (b ⊕ e.weight) (lookup e.to s.g_score) ≡ true
      → Relaxed b (e ∷ []) s (improve c goal current s e (b ⊕ e.weight))
  unfolding improve
  improve-Relaxed b e s i vis h fwd road q =
      let grows = laws.add_grows b e.weight fwd in
      let known = λ (x : String). has-insert e.to x (b ⊕ e.weight) s.g_score in
      record {
        inv = improve-Inv c start laws goal current s e b i vis h grows q road;
        visited = refl;
        at_b =
            lookup-insert_miss e.to current (b ⊕ e.weight) s.g_score
              (far_current c start laws goal current s e b i vis h grows q road)
            ∙ h;
        still = λ x k. ground (arith, known x);
        reached = λ x k. ground (arith, known x, (one_road x e k).0);
        queued = grind (arith, length-push);
      }

  relax_edge-Relaxed :
      (b : F) (e : Edge F) (s : Search F)
      → Inv c start s
      → elem current s.visited ≡ true
      → lookup current s.g_score ≡ some b
      → flt e.weight (num 0) ≡ false
      → (e.closed ≡ false → Road c current e.to)
      → Relaxed b (e ∷ []) s (relax_edge c goal current s e)
  unfolding relax_edge
  relax_edge-Relaxed b e s i vis h fwd road =
      let read : lookup_or (num 0) current s.g_score ≡ b = ground arith in
      of_if (Relaxed b (e ∷ []) s) e.closed _ _ (λ p. Relaxed-same b e s i h (λ q. cc))
        λ p.
          of_if (Relaxed b (e ∷ []) s)
            (improves (lookup_or (num 0) current s.g_score ⊕ e.weight) (lookup e.to s.g_score)) _ _
            (λ q.
              subst (λ x. Relaxed b (e ∷ []) s (improve c goal current s e (x ⊕ e.weight)))
                (sym read)
                (improve-Relaxed b e s i vis h fwd (road p)
                  (subst (λ x. improves (x ⊕ e.weight) (lookup e.to s.g_score) ≡ true) read q)))
            (λ q. Relaxed-same b e s i h (λ _. improves_known _ e.to s.g_score q))

  relax-Relaxed :
      (b : F) (es : List (Edge F)) (s : Search F)
      → Inv c start s
      → elem current s.visited ≡ true
      → lookup current s.g_score ≡ some b
      → IsForward es
      → ((x : String) → has_road x es ≡ true → Road c current x)
      → Relaxed b es s (relax c goal current s es)
  unfolding relax
  relax-Relaxed b [] s i vis h fwd road = record {
    inv = i;
    visited = refl;
    at_b = h;
    still = λ x k. k;
    reached = λ x k. cc;
    queued = omega arith;
  }
  relax-Relaxed b (e ∷ es) s i vis h fwd road =
      let s1 = relax_edge c goal current s e in
      let one =
        relax_edge-Relaxed b e s i vis h fwd.0
          (λ p. road e.to (ground (arith, str_eq_refl e.to))) in
      let all =
        relax-Relaxed b es s1 one.inv (rw one.visited vis) one.at_b fwd.1
          (λ x k. road x (ground arith)) in
      record {
        inv = all.inv;
        visited = all.visited ∙ one.visited;
        at_b = all.at_b;
        still = λ x k. all.still x (one.still x k);
        reached = λ x k. elim (Bool-cases (has_road x es)) [
          | inl p ↦ all.reached x p
          | inr p ↦ all.still x (one.reached x (ground arith))
        ];
        queued = omega (arith, one.queued, all.queued);
      }

  -- After a node is expanded the invariant holds, and every node that an open road from it leads
  -- to has a recorded distance.
  pub expand-Relaxed :
      (b : F) (s : Search F)
      → Inv c start (record s { visited = current ∷ s.visited })
      → lookup current s.g_score ≡ some b
      → IsForward (outgoing c current)
      → Relaxed b
          (outgoing c current)
          (record s { visited = current ∷ s.visited })
          (expand c goal current s)
  unfolding expand
  expand-Relaxed b s i h fwd =
      relax-Relaxed b (outgoing c current) (record s { visited = current ∷ s.visited }) i
        (ground (arith, str_eq_refl current)) h fwd (λ x k. k)
