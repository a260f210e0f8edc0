-- ===== src/Matching/Baseline/Nearest.antt =====
-- internal/matching/baseline.go: Baseline finds an idle driver that no other idle driver beats.
use mathlib.Core.Path.{subst₂}
use dispatch_lab.Prelude.{
  ap, sym, not, ◌&&◌, str_lt, ◌∙◌, String, ◌≡◌, ◌⊎◌, inl, inr, true, false, Option, none, some,
  List, [], ◌∷◌, arith, elem, str_eq, str_eq_iff, elem-keep, Bool-cases, Option-cases,
}
use dispatch_lab.Prelude.Float.{FloatOps, FloatLaws, flt}
use dispatch_lab.Prelude.Map.{lookup, keys, elem-keys}
use dispatch_lab.Prelude.Sort.{elem-sort}
use dispatch_lab.Prelude.Sort as Sort
use dispatch_lab.Domain.Defs.{Driver, City}
use dispatch_lab.Routing.{Route, find_route}
use dispatch_lab.Matching.Baseline.{
  idle_key, free_ids, is_closer, consider, pick_nearest, baseline_excluding,
}

module _ {F : Type 0} ⦃fl : FloatOps F⦄ (c : City F) (ds : List (String × Driver F))
    (pickup : String) where
  -- The driver `id` stands where `r` is the route to the pickup.
  abbrev pub Reaches : String → Route F → Type 0
  Reaches id r =
      (d : Driver F) × (lookup id ds ≡ some d) × (find_route c d.position pickup ≡ some r)

  -- A candidate is passed over for want of a route, taken as the best so far, or not.
  data Considered (best : Option (String × Route F)) (id : String) (out : Option (String × Route F))
      : Type 0 where
    passed : ((r : Route F) → ¬ Reaches id r) → out ≡ best → Considered best id out
    taken :
        (r : Route F)
        → Reaches id r
        → is_closer r best ≡ true
        → out ≡ some (id, r)
        → Considered best id out
    kept :
        (r : Route F)
        → Reaches id r
        → is_closer r best ≡ false
        → out ≡ best
        → Considered best id out

  consider-Considered :
      (best : Option (String × Route F)) (id : String)
      → Considered best id (consider c ds pickup best id)
  unfolding consider
  consider-Considered best id = elim (Option-cases (lookup id ds)) [
    | inl e ↦ passed (λ r (d, h, k). ground arith) (rw (e, consider))
    | inr (d, e) ↦ elim (Option-cases (find_route c d.position pickup)) [
      | inl f ↦ passed (λ r (d', h, k). ground arith) (rw (e, consider) (rw f))
      | inr (r, f) ↦ elim (Bool-cases (is_closer r best)) [
        | inl b ↦ taken r (d, e, f) b (rw (e, consider) (rw f (rw b)))
        | inr b ↦ kept r (d, e, f) b (rw (e, consider) (rw f (rw b)))
      ]
    ]
  ]

  Reaches-eq :
      {i j : String} {q r : Route F}
      → ◌≡◌ {A = Option (String × Route F)} (some (i, q)) (some (j, r))
      → Reaches i q
      → Reaches j r
  Reaches-eq e h = subst₂ Reaches (ground arith) (ground arith) h

  pick_sound :
      (best : Option (String × Route F)) (ids : List String) (j : String) (r : Route F)
      → pick_nearest c ds pickup best ids ≡ some (j, r)
      → (best ≡ some (j, r)) ⊎ ((elem j ids ≡ true) × Reaches j r)
  unfolding pick_nearest
  pick_sound best [] j r h = inl h
  pick_sound best (id ∷ ids) j r h =
      step (pick_sound (consider c ds pickup best id) ids j r h) (consider-Considered best id)
    where
      step :
          (consider c ds pickup best id ≡ some (j, r)) ⊎ ((elem j ids ≡ true) × Reaches j r)
          → Considered best id (consider c ds pickup best id)
          → (best ≡ some (j, r)) ⊎ ((elem j (id ∷ ids) ≡ true) × Reaches j r)
      step (inr (m, reach)) _ = inr (ground arith, reach)
      step (inl e) (passed _ f) = inl (sym f ∙ e)
      step (inl e) (kept q reach b f) = inl (sym f ∙ e)
      step (inl e) (taken q reach b f) =
          inr (ground (arith, str_eq_iff id j, sym f ∙ e), Reaches-eq (sym f ∙ e) reach)

  Reaches-unique : (i : String) (q r : Route F) → Reaches i q → Reaches i r → q ≡ r
  Reaches-unique i q r (d, e, f) (d', e', f') = ground arith

  kept-ne-none :
      (best : Option (String × Route F)) (q : Route F) → is_closer q best ≡ false → ¬ (best ≡ none)
  unfolding is_closer
  kept-ne-none none q b e = cc
  kept-ne-none (some p) q b e = cc

  -- A best that was replaced was farther, and one that was kept was not.
  closer_some :
      (best : Option (String × Route F)) (q t : Route F) (i : String)
      → best ≡ some (i, q)
      → is_closer t best ≡ flt t.distance q.distance
  unfolding is_closer
  closer_some best q t i e = rw e

  pick_none :
      (best : Option (String × Route F)) (ids : List String)
      → pick_nearest c ds pickup best ids ≡ none
      → (best ≡ none) × ((i : String) (r : Route F) → elem i ids ≡ true → ¬ Reaches i r)
  unfolding pick_nearest
  pick_none best [] h = (h, λ i r m reach. cc)
  pick_none best (id ∷ ids) h =
      step (pick_none (consider c ds pickup best id) ids h) (consider-Considered best id)
    where
      step :
          (consider c ds pickup best id ≡ none)
            × ((i : String) (r : Route F) → elem i ids ≡ true → ¬ Reaches i r)
          → Considered best id (consider c ds pickup best id)
          → (best ≡ none) × ((i : String) (r : Route F) → elem i (id ∷ ids) ≡ true → ¬ Reaches i r)
      step (e, others) (passed no_route f) = (
        sym f ∙ e,
        λ i r m reach. elim (Bool-cases (str_eq id i)) [
          | inl p ↦ no_route r (rw ((str_eq_iff id i).0 p) reach)
          | inr p ↦ others i r (rw p at m) reach
        ],
      )
      step (e, others) (taken q reach b f) = cc
      step (e, others) (kept q reach b f) = absurd (kept-ne-none best q b (sym f ∙ e))

  module _ (laws : FloatLaws F) where
    lt_asym : (t q : Route F) → flt t.distance q.distance ≡ true → flt q.distance t.distance ≡ false
    lt_asym t q h = elim (Bool-cases (flt q.distance t.distance)) [
      | inl p ↦ cc (laws.lt_trans t.distance q.distance t.distance h p, laws.lt_irrefl t.distance)
      | inr p ↦ p
    ]

    not_closer_trans :
        (q b r : Route F)
        → flt q.distance b.distance ≡ false
        → flt b.distance r.distance ≡ false
        → flt q.distance r.distance ≡ false
    not_closer_trans q b r h k = elim (Bool-cases (flt q.distance r.distance)) [
      | inl p ↦ cc (laws.lt_le_trans q.distance r.distance b.distance p k)
      | inr p ↦ p
    ]

    pick_minimal :
        (best : Option (String × Route F)) (ids : List String) (j : String) (r : Route F)
        → pick_nearest c ds pickup best ids ≡ some (j, r)
        → ((i : String) (q : Route F) → best ≡ some (i, q) → flt q.distance r.distance ≡ false)
          × ((i : String) (q : Route F)
              → elem i ids ≡ true
              → Reaches i q
              → flt q.distance r.distance ≡ false)
    unfolding pick_nearest
    pick_minimal best [] j r h =
        (λ i q e. ground (arith, laws.lt_irrefl r.distance), λ i q m reach. cc)
    pick_minimal best (id ∷ ids) j r h =
        step (pick_minimal (consider c ds pickup best id) ids j r h) (consider-Considered best id)
      where
        step :
            ((i : String) (q : Route F)
                → consider c ds pickup best id ≡ some (i, q)
                → flt q.distance r.distance ≡ false)
              × ((i : String) (q : Route F)
                  → elem i ids ≡ true
                  → Reaches i q
                  → flt q.distance r.distance ≡ false)
            → Considered best id (consider c ds pickup best id)
            → ((i : String) (q : Route F) → best ≡ some (i, q) → flt q.distance r.distance ≡ false)
              × ((i : String) (q : Route F)
                  → elem i (id ∷ ids) ≡ true
                  → Reaches i q
                  → flt q.distance r.distance ≡ false)
        step (old, others) (passed no_route f) = (
          λ i q e. old i q (f ∙ e),
          λ i q m reach. elim (Bool-cases (str_eq id i)) [
            | inl p ↦ absurd (no_route q (rw ((str_eq_iff id i).0 p) reach))
            | inr p ↦ others i q (rw p at m) reach
          ],
        )
        step (old, others) (taken t here b f) = (
          λ i q e.
              not_closer_trans q t r (lt_asym t q (sym (closer_some best q t i e) ∙ b))
                (old id t f),
          λ i q m reach. elim (Bool-cases (str_eq id i)) [
            | inl p ↦ old id q (
                f
                ∙ ap (λ x. some (id, x))
                    (Reaches-unique id t q here (rw ((str_eq_iff id i).0 p) reach)))
            | inr p ↦ others i q (rw p at m) reach
          ],
        )
        step (old, others) (kept t here b f) = (
          λ i q e. old i q (f ∙ e),
          λ i q m reach. elim (Bool-cases (str_eq id i)) [
            | inl p ↦ kept_lem q i p reach (Option-cases best)
            | inr p ↦ others i q (rw p at m) reach
          ],
        )
          where
            kept_lem :
                (q : Route F) (i : String)
                → str_eq id i ≡ true
                → Reaches i q
                → (best ≡ none) ⊎ ((x : String × Route F) × (best ≡ some x))
                → flt q.distance r.distance ≡ false
            kept_lem q i p reach (inl e) = absurd (kept-ne-none best t b e)
            kept_lem q i p reach (inr (x, e)) =
                rw (← Reaches-unique id t q here (rw ((str_eq_iff id i).0 p) reach)) (
                  not_closer_trans t x.1 r (sym (closer_some best x.1 t x.0 e) ∙ b)
                    (old x.0 x.1 (f ∙ e)))

module _ {F : Type 0} ⦃fl : FloatOps F⦄ where
  -- The driver is idle and not claimed by the batch.
  abbrev pub IsFree : List (String × Driver F) → List String → String → Type 0
  IsFree ds exclude id = (idle_key ds id ≡ true) × (elem id exclude ≡ false)

  elem-free_ids :
      (ds : List (String × Driver F)) (exclude : List String) (id : String)
      → elem id (Sort.sort str_lt (free_ids exclude ds)) ≡ true
      → IsFree ds exclude id
  unfolding free_ids
  elem-free_ids ds exclude id m = ground (
    arith,
    elem-sort str_lt id (free_ids exclude ds),
    elem-keep id (λ k. idle_key ds k && not (elem k exclude)) (keys ds),
  )

  free_ids-elem :
      (ds : List (String × Driver F)) (exclude : List String) (id : String) (d : Driver F)
      → lookup id ds ≡ some d
      → IsFree ds exclude id
      → elem id (Sort.sort str_lt (free_ids exclude ds)) ≡ true
  unfolding free_ids
  free_ids-elem ds exclude id d e free = ground (
    arith,
    elem-sort str_lt id (free_ids exclude ds),
    elem-keep id (λ k. idle_key ds k && not (elem k exclude)) (keys ds),
    elem-keys id ds,
  )

  -- A driver that the matcher picks is idle, not claimed, and comes with its own route to the
  -- pickup.
  pub baseline_sound :
      (c : City F) (ds : List (String × Driver F)) (pickup : String) (exclude : List String)
      (j : String) (r : Route F)
      → baseline_excluding c ds pickup exclude ≡ some (j, r)
      → IsFree ds exclude j × Reaches c ds pickup j r
  unfolding baseline_excluding
  baseline_sound c ds pickup exclude j r h =
      let ids = Sort.sort str_lt (free_ids exclude ds) in
      elim (pick_sound c ds pickup none ids j r h) [
        | inl e ↦ cc
        | inr (m, reach) ↦ (elem-free_ids ds exclude j m, reach)
      ]

  -- Over floats without NaN no idle driver that is not claimed has a shorter route to the pickup
  -- than the one that the matcher picks.
  pub baseline_nearest :
      (laws : FloatLaws F) (c : City F) (ds : List (String × Driver F)) (pickup : String)
      (exclude : List String) (j : String) (r : Route F)
      → baseline_excluding c ds pickup exclude ≡ some (j, r)
      → (i : String) (q : Route F) → IsFree ds exclude i
      → Reaches c ds pickup i q
      → flt q.distance r.distance ≡ false
  unfolding baseline_excluding
  baseline_nearest laws c ds pickup exclude j r h i q free reach =
      (pick_minimal c ds pickup laws none (Sort.sort str_lt (free_ids exclude ds)) j r h).1 i q
        (free_ids-elem ds exclude i reach.0 reach.1 free) reach

  -- The matcher finds nobody only if no free driver has a route to the pickup.
  pub baseline_none :
      (c : City F) (ds : List (String × Driver F)) (pickup : String) (exclude : List String)
      → baseline_excluding c ds pickup exclude ≡ none
      → (i : String) (r : Route F) → IsFree ds exclude i
      → ¬ Reaches c ds pickup i r
  unfolding baseline_excluding
  baseline_none c ds pickup exclude h i r free reach =
      (pick_none c ds pickup none (Sort.sort str_lt (free_ids exclude ds)) h).1 i r
        (free_ids-elem ds exclude i reach.0 reach.1 free) reach
