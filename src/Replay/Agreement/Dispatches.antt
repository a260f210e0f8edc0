-- ===== src/Replay/Agreement/Dispatches.antt =====
-- internal/simulation/simulation.go: replay shows what dispatching does, for both strategies.
use dispatch_lab.Prelude.{
  ℕ, ◌+◌, String, ◌≡◌, refl, sym, ap, ◌∙◌, Bool, not, ◌||◌, ◌&&◌, some, none, List, [], ◌∷◌, ◌++◌,
  arith, inl, inr, str_eq, str_eq_iff, Option-cases, length, leb, ◌==◌, of_if, of_option,
  some-injective, Bool-cases,
}
use dispatch_lab.Prelude.Float.{FloatOps, flt, ◌⊖◌}
use dispatch_lab.Prelude.Map.{
  lookup, insert, lookup-insert_hit, lookup-insert_miss, lookup-insert_self,
}
use dispatch_lab.Prelude.Text.{short_id, short_id_injective}
use dispatch_lab.Domain.Defs.{City, Order, EventType}
use dispatch_lab.Routing.{find_route}
use dispatch_lab.Matching.Baseline.{Assignment}
use dispatch_lab.Matching.Baseline.{baseline}
use dispatch_lab.Simulation.State.{Sim, emit, stamped, set_order, crash, placed}
use dispatch_lab.Simulation.Dispatch.{
  is_pending, is_optimized, has_idle_driver, refuse, apply_assignment, assign_baseline, retry_one,
  retry_all, retry_pending_baseline, apply_all, refuse_all, settle, solved, solve_batch, orders_of,
  run_batch, offer_first, dispatch_immediate, wait_or_dispatch, dispatch_optimized,
}
use dispatch_lab.Simulation.Actor.{record_order, handle_place_order}
use dispatch_lab.Replay.Wire.{order_status_name}
use dispatch_lab.Replay.State as Replay
use dispatch_lab.Replay.State.{ok, Builder, order, change_order, blank_order}
use dispatch_lab.Replay.Agreement.Views.{order_view, order_shown, Named, Orders-overwrite}
use dispatch_lab.Replay.Agreement.Events.{next, apply-placed}
use dispatch_lab.Replay.Agreement.Steps.{Tracks, unseen, replayed-emit}
use dispatch_lab.Replay.Agreement.Assigned.{refuse-Shown, commit-Shown}

module _ {F : Type 0} where
  -- The next id is not in use.
  fresh :
      (n : ℕ) (O : List (String × Order F)) → Named n O → lookup (short_id "order" (n + 1)) O ≡ none
  fresh n O named = elim (Option-cases (lookup (short_id "order" (n + 1)) O)) [
    | inl e ↦ e
    | inr (o, e) ↦
        let (i, le, q) = (named (short_id "order" (n + 1)) o e).1 in
        absurd (omega (arith, le, short_id_injective "order" (n + 1) i q))
  ]

  -- The next order is named as well.
  placed-Named :
      (n : ℕ) (O : List (String × Order F)) (o : Order F)
      → Named n O
      → o.id ≡ short_id "order" (n + 1)
      → Named (n + 1) (insert o.id o O)
  placed-Named n O o named e k x h = elim (Bool-cases (str_eq o.id k)) [
    | inl q ↦
        let same : o ≡ x = some-injective (sym (lookup-insert_hit o.id k o O q) ∙ h) in
        let at : o.id ≡ k = (str_eq_iff o.id k).0 q in
        (ap (λ y. y.id) (sym same) ∙ at, (n + 1, omega arith, sym at ∙ e))
    | inr q ↦
        let (id, (i, le, r)) = named k x (sym (lookup-insert_miss o.id k o O q) ∙ h) in
        (id, (i, omega (arith, le), r))
  ]

module _ {F : Type 0} ⦃fl : FloatOps F⦄ where
  order_new :
      (b : Builder F) (id : String)
      → lookup id b.orders ≡ none
      → order b id ≡ (
        record b {
          orders = insert id (blank_order id) b.orders;
          order_order = b.order_order ++ id ∷ [];
        },
        blank_order id,
      )
  unfolding order
  order_new b id h = rw (order, h) refl

  change_order_new :
      (b : Builder F) (id : String) (f : Replay.Order F → Replay.Order F)
      → lookup id b.orders ≡ none
      → change_order b id f ≡ record b {
        orders = insert id (f (blank_order id)) (insert id (blank_order id) b.orders);
        order_order = b.order_order ++ id ∷ [];
      }
  unfolding change_order
  change_order_new b id f h =
      ap (λ p. record p.0 { orders = insert id (f p.1) p.0.orders }) (order_new b id h)

module _ {F : Type 0} ⦃fl : FloatOps F⦄ (clock : ℕ → ℕ) (b0 : Builder F) (away : String → Bool)
    (c : City F × City F) where
  abbrev Shown : Sim F → Type 0
  Shown s = Tracks clock b0 away c s

  record_order-Shown :
      (s : Sim F) (pickup destination : String)
      → Shown s
      → Shown (record_order s pickup destination).0
  unfolding record_order emit stamped set_order order_view order_status_name
  record_order-Shown s pickup destination g =
      let b = g.builder in
      let (s2, o) = record_order s pickup destination in
      let s1 = set_order (record s { next_order_id = s.next_order_id + 1 }) o.id o in
      let set : Replay.Order F → Replay.Order F = λ x. record x {
        pickup = pickup;
        destination = destination;
        status = "pending";
        created_at = s.virtual_time;
      } in
      let at : lookup o.id b.orders ≡ none =
        g.shows.orders o.id ∙ ap order_shown (fresh s.next_order_id s.orders g.shows.named) in
      let e = change_order_new (next clock b s1) o.id set at in
      record {
        builder = _;
        folded =
            replayed-emit clock b0 s1 EventType.order_placed (placed o.id pickup destination) b _
              g.folded (apply-placed clock b s1 o.id pickup destination ∙ ap ok e);
        shows = record {
          drivers = g.shows.drivers;
          orders =
              Orders-overwrite o.id (blank_order o.id) (set (blank_order o.id)) o b.orders s.orders
                g.shows.orders refl;
          named = placed-Named s.next_order_id s.orders o g.shows.named refl;
          roads = g.shows.roads;
          city = g.shows.city;
          paused = g.shows.paused;
          speed = g.shows.speed;
          running = g.shows.running;
          sequence = refl;
        };
      }

  crash-Shown : (s : Sim F) → Shown s → Shown (crash s)
  unfolding crash
  crash-Shown s g = unseen clock b0 g refl

  apply_assignment-Shown : (s : Sim F) (a : Assignment F) → Shown s → Shown (apply_assignment s a)
  unfolding apply_assignment
  apply_assignment-Shown s a g =
      of_option Shown (lookup a.order_id s.orders) _ _ (λ _. crash-Shown s g)
        λ o known.
          of_option Shown (find_route s.city o.pickup o.destination) _ _
            (λ _. refuse-Shown clock b0 away c s a.order_id o _ g known)
            λ r _.
              of_option Shown (lookup a.driver_id s.drivers) _ _ (λ _. crash-Shown s g)
                λ d at. commit-Shown clock b0 away c s a.order_id o a.driver_id d _ r g known at

  assign_baseline-Shown :
      (s : Sim F) (id : String) (o : Order F)
      → Shown s
      → lookup id s.orders ≡ some o
      → Shown (assign_baseline s id o)
  unfolding assign_baseline
  assign_baseline-Shown s id o g known =
      of_option Shown (baseline s.city s.drivers o.pickup) _ _
        (λ _.
          of_if Shown (has_idle_driver s) _ _ (λ _. refuse-Shown clock b0 away c s id o _ g known)
            (λ _. unseen clock b0 g refl))
        (λ b _. apply_assignment-Shown s _ g)

  retry_one-Shown : (s : Sim F) (id : String) → Shown s → Shown (retry_one s id)
  unfolding retry_one
  retry_one-Shown s id g =
      of_option Shown (lookup id s.orders) _ _ (λ _. g)
        λ o known.
          of_if Shown (is_pending o.status) _ _ (λ _. assign_baseline-Shown s id o g known) (λ _. g)

  retry_all-Shown : (s : Sim F) (ids : List String) → Shown s → Shown (retry_all s ids)
  unfolding retry_all
  retry_all-Shown s [] g = g
  retry_all-Shown s (id ∷ ids) g = retry_all-Shown (retry_one s id) ids (retry_one-Shown s id g)

  pub retry_pending_baseline-Shown : (s : Sim F) → Shown s → Shown (retry_pending_baseline s)
  unfolding retry_pending_baseline
  retry_pending_baseline-Shown s g =
      of_if Shown (length s.pending_orders == 0 || not (has_idle_driver s)) _ _ (λ _. g)
        (λ _. retry_all-Shown _ s.pending_orders (unseen clock b0 g refl))

  apply_all-Shown : (s : Sim F) (xs : List (Assignment F)) → Shown s → Shown (apply_all s xs)
  unfolding apply_all
  apply_all-Shown s [] g = g
  apply_all-Shown s (a ∷ xs) g =
      apply_all-Shown (apply_assignment s a) xs (apply_assignment-Shown s a g)

  refuse_all-Shown : (s : Sim F) (ids : List String) → Shown s → Shown (refuse_all s ids)
  unfolding refuse_all
  refuse_all-Shown s [] g = g
  refuse_all-Shown s (id ∷ ids) g =
      of_option Shown (lookup id s.orders) _ _
        (λ _. crash-Shown (refuse_all s ids) (refuse_all-Shown s ids g))
        λ o known.
          refuse_all-Shown (refuse s id o "no available driver can reach the pickup") ids
            (refuse-Shown clock b0 away c s id o _ g known)

  settle-Shown :
      (s : Sim F) (xs : List (Assignment F)) (ids : List String) → Shown s → Shown (settle s xs ids)
  unfolding settle
  settle-Shown s xs ids g =
      unseen clock b0 {s = refuse_all (apply_all s xs) ids}
        (refuse_all-Shown (apply_all s xs) ids (apply_all-Shown s xs g)) refl

  solve_batch-Shown : (s : Sim F) (os : List (Order F)) → Shown s → Shown (solve_batch s os)
  unfolding solve_batch
  solve_batch-Shown s os g =
      of_option Shown (solved s os) _ _ (λ _. crash-Shown s g) λ r _. settle-Shown s r.0 r.1 g

  run_batch-Shown : (s : Sim F) → Shown s → Shown (run_batch s)
  unfolding run_batch
  run_batch-Shown s g =
      let s1 = record s { batch_dispatches = s.batch_dispatches + 1 } in
      let g1 : Shown s1 = unseen clock b0 g refl in
      of_if Shown (length s.pending_orders == 0) _ _ (λ _. g)
        λ _.
          of_option Shown (orders_of s s.pending_orders) _ _ (λ _. crash-Shown s1 g1)
            λ os _. solve_batch-Shown s1 os g1

  offer_first-Shown : (s : Sim F) (ids : List String) → Shown s → Shown (offer_first s ids)
  unfolding offer_first
  offer_first-Shown s [] g = g
  offer_first-Shown s (id ∷ ids) g =
      of_option Shown (lookup id s.orders) _ _ (λ _. unseen clock b0 g refl)
        λ o known.
          of_if Shown (is_pending o.status) _ _
            (λ _. assign_baseline-Shown _ id o (unseen clock b0 g refl) known)
            (λ _. unseen clock b0 g refl)

  pub dispatch_immediate-Shown : (s : Sim F) → Shown s → Shown (dispatch_immediate s)
  unfolding dispatch_immediate
  dispatch_immediate-Shown s g = offer_first-Shown s s.pending_orders g

  wait_or_dispatch-Shown :
      (s : Sim F) (ids : List String) → Shown s → Shown (wait_or_dispatch s ids)
  unfolding wait_or_dispatch
  wait_or_dispatch-Shown s [] g = g
  wait_or_dispatch-Shown s (id ∷ ids) g =
      of_option Shown (lookup id s.orders) _ _ (λ _. unseen clock b0 g refl)
        λ o _.
          of_if Shown (not (is_pending o.status)) _ _ (λ _. unseen clock b0 g refl)
            λ _.
              of_if Shown (flt (s.virtual_time ⊖ o.created_at) s.max_wait) _ _ (λ _. g)
                λ _.
                  of_if Shown (leb 2 (length s.pending_orders)) _ _ (λ _. run_batch-Shown s g)
                    (λ _. dispatch_immediate-Shown s g)

  pub dispatch_optimized-Shown : (s : Sim F) → Shown s → Shown (dispatch_optimized s)
  unfolding dispatch_optimized
  dispatch_optimized-Shown s g =
      of_if Shown (length s.pending_orders == 0) _ _ (λ _. g)
        λ _.
          of_if Shown (leb s.min_batch_size (length s.pending_orders)) _ _
            (λ _. run_batch-Shown s g)
            λ _.
              of_if Shown (length s.pending_orders == 1 && has_idle_driver s) _ _
                (λ _. dispatch_immediate-Shown s g)
                (λ _. wait_or_dispatch-Shown s s.pending_orders g)

  pub handle_place_order-Shown :
      (s : Sim F) (pickup destination : String)
      → Shown s
      → Shown (handle_place_order s pickup destination)
  unfolding handle_place_order record_order emit set_order
  handle_place_order-Shown s pickup destination g =
      let (s1, o) = record_order s pickup destination in
      let s2 = record s1 { pending_orders = s1.pending_orders ++ o.id ∷ [] } in
      let g1 = record_order-Shown s pickup destination g in
      let g2 : Shown s2 = unseen clock b0 g1 refl in
      of_if Shown (is_optimized s1.strategy) _ _
        (λ _.
          of_if Shown (length s2.pending_orders == 1 && has_idle_driver s2) _ _
            (λ _. dispatch_immediate-Shown s2 g2) (λ _. g2))
        (λ _. assign_baseline-Shown s1 o.id o g1 (lookup-insert_self o.id o s.orders))
