-- ===== src/Matching/Baseline/Batch.antt =====
-- internal/matching/baseline.go: BaselineBatch gives no driver two orders.
use dispatch_lab.Prelude.{
  IsDistinct, String, ◌≡◌, refl, true, false, List, [], ◌∷◌, arith, elem, All, str_eq_iff,
  of_option,
}
use dispatch_lab.Prelude.Float.{FloatOps}
use dispatch_lab.Prelude.Sort as Sort
use dispatch_lab.Domain.Defs.{Driver, Order, City}
use dispatch_lab.Matching.Baseline.{
  Assignment, idle_key, order_less, baseline_excluding, batch_loop, baseline_batch,
}
use dispatch_lab.Matching.Baseline.Nearest.{baseline_sound}

module _ {F : Type 0} where
  -- The drivers of a list of assignments, in order.
  abbrev pub drivers_of : List (Assignment F) → List String
  drivers_of [] = []
  drivers_of (a ∷ as') = a.driver_id ∷ drivers_of as'

module _ {F : Type 0} ⦃fl : FloatOps F⦄ (c : City F) (ds : List (String × Driver F)) where
  -- The drivers of a batch are distinct, idle, and none that was taken before.
  abbrev Fresh : List String → List (Assignment F) → Type 0
  Fresh taken as' =
      IsDistinct (drivers_of as')
      × All (λ id. (idle_key ds id ≡ true) × (elem id taken ≡ false)) (drivers_of as')

  weaken :
      (id : String) (taken ids : List String)
      → All (λ j. (idle_key ds j ≡ true) × (elem j (id ∷ taken) ≡ false)) ids
      → All (λ j. (idle_key ds j ≡ true) × (elem j taken ≡ false)) ids × (elem id ids ≡ false)
  weaken id taken [] h = (tt, refl)
  weaken id taken (j ∷ js) h =
      let (rest, out) = weaken id taken js h.1 in
      (
        ((h.0.0, ground (arith, h.0.1)), rest),
        ground (arith, h.0.1, out, str_eq_iff id j, str_eq_iff j id),
      )

  batch_loop-Fresh :
      (taken : List String) (os : List (Order F)) → Fresh taken (batch_loop c ds taken os)
  unfolding batch_loop
  batch_loop-Fresh taken [] = (tt, tt)
  batch_loop-Fresh taken (o ∷ os) =
      of_option (Fresh taken) (baseline_excluding c ds o.pickup taken) _ _
        (λ _. batch_loop-Fresh taken os)
        (λ (id, r) e.
          let (distinct, fresh) = batch_loop-Fresh (id ∷ taken) os in
          let (rest, out) = weaken id taken _ fresh in
          let (idle, _) = baseline_sound c ds o.pickup taken id r e in
          ((out, distinct), (idle, rest)))

  -- The drivers that a batch is given to are pairwise different, and all of them are idle.
  pub baseline_batch-IsDistinct :
      (os : List (Order F))
      → IsDistinct (drivers_of (baseline_batch c ds os))
        × All (λ id. idle_key ds id ≡ true) (drivers_of (baseline_batch c ds os))
  unfolding baseline_batch
  baseline_batch-IsDistinct os =
      let (distinct, fresh) = batch_loop-Fresh [] (Sort.sort order_less os) in
      (distinct, idle _ fresh)
    where
      idle :
          (ids : List String)
          → All (λ id. (idle_key ds id ≡ true) × (elem id [] ≡ false)) ids
          → All (λ id. idle_key ds id ≡ true) ids
      idle [] h = tt
      idle (id ∷ ids) h = (h.0.0, idle ids h.1)
