-- ===== src/Simulation/Stream/Dispatch.antt =====
-- Dispatch only ever adds numbered events, on both strategies.
use dispatch_lab.Prelude.{
  ◌&&◌, leb, length, ◌==◌, ◌||◌, not, refl, List, [], ◌∷◌, String, of_if, of_option,
}
use dispatch_lab.Prelude.Float.{FloatOps, flt, ◌⊖◌}
use dispatch_lab.Domain.Defs.{Driver, Order}
use dispatch_lab.Prelude.Map.{lookup}
use dispatch_lab.Routing.{Route, find_route}
use dispatch_lab.Matching.Baseline.{Assignment, baseline}
use dispatch_lab.Simulation.State.{Sim}
use dispatch_lab.Simulation.Dispatch.{
  is_pending, orders_of, solved, has_idle_driver, refuse, commit, apply_assignment, assign_baseline,
  retry_one, retry_all, retry_pending_baseline, apply_all, refuse_all, settle, solve_batch,
  run_batch, offer_first, dispatch_immediate, wait_or_dispatch, dispatch_optimized,
}
use dispatch_lab.Simulation.Stream.Extends.{
  Extends, same, then, emit-Extends, keep_all, set_driver-Extends, set_order-Extends, crash-Extends,
  refuse-Extends,
}

module _ {F : Type 0} ⦃fl : FloatOps F⦄ where
  commit-Extends :
      (s : Sim F) (oid : String) (o : Order F) (did : String) (d : Driver F) (p q : Route F)
      → Extends s (commit s oid o did d p q)
  unfolding commit
  commit-Extends s oid o did d p q = then (set_driver-Extends s did _) (
      then (set_order-Extends _ oid _) (
        then (same refl refl)
          (then (emit-Extends _ _ _) (then (emit-Extends _ _ _) (emit-Extends _ _ _)))))

  apply_assignment-Extends : (s : Sim F) (a : Assignment F) → Extends s (apply_assignment s a)
  unfolding apply_assignment
  apply_assignment-Extends s a =
      of_option (Extends s) (lookup a.order_id s.orders) _ _ (λ _. crash-Extends s)
        λ o _.
          of_option (Extends s) (find_route s.city o.pickup o.destination) _ _
            (λ _. refuse-Extends s _ o _)
            λ r _.
              of_option (Extends s) (lookup a.driver_id s.drivers) _ _ (λ _. crash-Extends s)
                λ d _. commit-Extends s _ o _ d _ r

  pub assign_baseline-Extends :
      (s : Sim F) (id : String) (o : Order F) → Extends s (assign_baseline s id o)
  unfolding assign_baseline
  assign_baseline-Extends s id o =
      of_option (Extends s) (baseline s.city s.drivers o.pickup) _ _
        (λ _.
          of_if (Extends s) (has_idle_driver s) _ _ (λ _. refuse-Extends s id o _)
            (λ _. same refl refl))
        (λ b _. apply_assignment-Extends s _)

  retry_one-Extends : (s : Sim F) (id : String) → Extends s (retry_one s id)
  unfolding retry_one
  retry_one-Extends s id =
      of_option (Extends s) (lookup id s.orders) _ _ (λ _. keep_all)
        λ o _.
          of_if (Extends s) (is_pending o.status) _ _ (λ _. assign_baseline-Extends s id o)
            (λ _. keep_all)

  retry_all-Extends : (s : Sim F) (ids : List String) → Extends s (retry_all s ids)
  unfolding retry_all
  retry_all-Extends s [] = keep_all
  retry_all-Extends s (id ∷ ids) =
      then (retry_one-Extends s id) (retry_all-Extends (retry_one s id) ids)

  pub retry_pending_baseline-Extends : (s : Sim F) → Extends s (retry_pending_baseline s)
  unfolding retry_pending_baseline
  retry_pending_baseline-Extends s =
      of_if (Extends s) (length s.pending_orders == 0 || not (has_idle_driver s)) _ _
        (λ _. keep_all) (λ _. then (same refl refl) (retry_all-Extends _ s.pending_orders))

  apply_all-Extends : (s : Sim F) (xs : List (Assignment F)) → Extends s (apply_all s xs)
  unfolding apply_all
  apply_all-Extends s [] = keep_all
  apply_all-Extends s (a ∷ xs) =
      then (apply_assignment-Extends s a) (apply_all-Extends (apply_assignment s a) xs)

  refuse_all-Extends : (s : Sim F) (ids : List String) → Extends s (refuse_all s ids)
  unfolding refuse_all
  refuse_all-Extends s [] = keep_all
  refuse_all-Extends s (id ∷ ids) =
      of_option (Extends s) (lookup id s.orders) _ _
        (λ _. then (refuse_all-Extends s ids) (crash-Extends _))
        λ o _.
          then (refuse-Extends s id o "no available driver can reach the pickup")
            (refuse_all-Extends (refuse s id o "no available driver can reach the pickup") ids)

  settle-Extends :
      (s : Sim F) (xs : List (Assignment F)) (ids : List String) → Extends s (settle s xs ids)
  unfolding settle
  settle-Extends s xs ids =
      then (apply_all-Extends s xs) (then (refuse_all-Extends _ ids) (same refl refl))

  solve_batch-Extends : (s : Sim F) (os : List (Order F)) → Extends s (solve_batch s os)
  unfolding solve_batch
  solve_batch-Extends s os =
      of_option (Extends s) (solved s os) _ _ (λ _. crash-Extends s) λ r _. settle-Extends s r.0 r.1

  run_batch-Extends : (s : Sim F) → Extends s (run_batch s)
  unfolding run_batch
  run_batch-Extends s =
      of_if (Extends s) (length s.pending_orders == 0) _ _ (λ _. keep_all)
        λ _.
          of_option (Extends s) (orders_of s s.pending_orders) _ _
            (λ _. then (same refl refl) (crash-Extends _))
            λ os _. then (same refl refl) (solve_batch-Extends _ os)

  offer_first-Extends : (s : Sim F) (ids : List String) → Extends s (offer_first s ids)
  unfolding offer_first
  offer_first-Extends s [] = keep_all
  offer_first-Extends s (id ∷ ids) =
      of_option (Extends s) (lookup id s.orders) _ _ (λ _. same refl refl)
        λ o _.
          of_if (Extends s) (is_pending o.status) _ _
            (λ _. then (same refl refl) (assign_baseline-Extends _ id o)) (λ _. same refl refl)

  pub dispatch_immediate-Extends : (s : Sim F) → Extends s (dispatch_immediate s)
  unfolding dispatch_immediate
  dispatch_immediate-Extends s = offer_first-Extends s s.pending_orders

  wait_or_dispatch-Extends : (s : Sim F) (ids : List String) → Extends s (wait_or_dispatch s ids)
  unfolding wait_or_dispatch
  wait_or_dispatch-Extends s [] = keep_all
  wait_or_dispatch-Extends s (id ∷ ids) =
      of_option (Extends s) (lookup id s.orders) _ _ (λ _. same refl refl)
        λ o _.
          of_if (Extends s) (not (is_pending o.status)) _ _ (λ _. same refl refl)
            λ _.
              of_if (Extends s) (flt (s.virtual_time ⊖ o.created_at) s.max_wait) _ _ (λ _. keep_all)
                λ _.
                  of_if (Extends s) (leb 2 (length s.pending_orders)) _ _ (λ _. run_batch-Extends s)
                    (λ _. dispatch_immediate-Extends s)

  pub dispatch_optimized-Extends : (s : Sim F) → Extends s (dispatch_optimized s)
  unfolding dispatch_optimized
  dispatch_optimized-Extends s =
      of_if (Extends s) (length s.pending_orders == 0) _ _ (λ _. keep_all)
        λ _.
          of_if (Extends s) (leb s.min_batch_size (length s.pending_orders)) _ _
            (λ _. run_batch-Extends s)
            λ _.
              of_if (Extends s) (length s.pending_orders == 1 && has_idle_driver s) _ _
                (λ _. dispatch_immediate-Extends s)
                (λ _. wait_or_dispatch-Extends s s.pending_orders)
