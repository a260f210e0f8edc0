-- ===== src/Simulation/Lifecycle/Hops.antt =====
-- internal/simulation/simulation.go: a walk over open roads passes routeUsesClosedEdge.
use dispatch_lab.Prelude.{
  String, ◌≡◌, refl, inl, inr, true, false, some, List, [], ◌∷◌, arith, exists, str_eq, str_eq_iff,
  Bool-cases,
}
use dispatch_lab.Domain.Defs.{City, Edge}
use dispatch_lab.Domain.City.{outgoing}
use dispatch_lab.Routing.Walks.{has_road, Walk, stay, go}
use dispatch_lab.Simulation.State.{edge_to, edge_between}
use dispatch_lab.Simulation.Roads.{hop_blocked, blocked}

module _ {F : Type 0} where
  -- No two of the roads lead to the same node.
  abbrev pub IsSimple : List (Edge F) → Type 0
  IsSimple [] = Unit
  IsSimple (e ∷ es) = (exists (λ x. str_eq x.to e.to) es ≡ false) × IsSimple es

  no_road :
      (v : String) (es : List (Edge F))
      → exists (λ x. str_eq x.to v) es ≡ false
      → has_road v es ≡ false
  no_road v [] h = refl
  no_road v (e ∷ es) h = ground (arith, no_road v es)

  -- The road that edgeBetween finds is the open one.
  open_hop :
      (v : String) (es : List (Edge F))
      → IsSimple es
      → has_road v es ≡ true
      → (e : Edge F) × (edge_to v es ≡ some e) × (e.closed ≡ false)
  unfolding edge_to
  open_hop v [] h r = cc r
  open_hop v (e ∷ es) (h, hs) r = elim (Bool-cases (str_eq e.to v)) [
    | inl p ↦
        let none_left = no_road v es (rw ((str_eq_iff e.to v).0 p) at h) in
        (e, ground (arith, p), ground (arith, p, none_left))
    | inr p ↦ let (x, q, o) = open_hop v es hs (ground arith) in (x, ground (arith, p, q), o)
  ]

  pub Walk-blocked :
      (c : City F) {u v : String} {path : List String}
      → ((x : String) → IsSimple (outgoing c x))
      → Walk c u v path
      → blocked c path ≡ false
  unfolding blocked hop_blocked edge_between
  Walk-blocked c simple (stay u) = refl
  Walk-blocked c simple (go {u} {v} r (stay v')) =
      let (e, q, o) = open_hop v' (outgoing c u) (simple u) r in ground (arith, q, o)
  Walk-blocked c simple (go {u} {v} r (go r' w)) =
      let (e, q, o) = open_hop v (outgoing c u) (simple u) r in
      ground (arith, q, o, Walk-blocked c simple (go r' w))
