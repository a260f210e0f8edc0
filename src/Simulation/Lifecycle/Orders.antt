-- ===== src/Simulation/Lifecycle/Orders.antt =====
-- internal/simulation/simulation.go: placing, assigning and retrying orders under the baseline
-- strategy keeps drivers, orders and the queue consistent, and never panics.
use dispatch_lab.Prelude.{
  ◌+◌, String, ◌≡◌, refl, ap, ◌∙◌, Bool, true, false, not, some, List, [], ◌∷◌, ◌++◌, arith, str_eq,
  if◌then◌else◌, elem-append, of_if, of_option, length, ◌==◌, ◌||◌,
}
use dispatch_lab.Prelude.Float.{FloatOps}
use dispatch_lab.Prelude.Map.{lookup, lookup-insert_self}
use dispatch_lab.Prelude.Text.{short_id}
use dispatch_lab.Domain.Defs.{Driver, Order, DriverStatus, OrderStatus, EventType}
use dispatch_lab.Routing.{Route, find_route}
use dispatch_lab.Matching.Baseline.{is_idle, idle_key, baseline}
use dispatch_lab.Matching.Baseline.Nearest.{baseline_sound}
use dispatch_lab.Simulation.State.{Sim, Payload, emit, set_driver, set_order}
use dispatch_lab.Simulation.Dispatch.{
  is_pending, is_optimized, has_idle_driver, refuse, commit, apply_assignment, assign_baseline,
  retry_one, retry_all, retry_pending_baseline,
}
use dispatch_lab.Simulation.Actor.{record_order, handle_place_order}
use dispatch_lab.Simulation.Lifecycle.Consistent.{is_matched, Consistent, lookup_unique}
use dispatch_lab.Simulation.Lifecycle.Queue.{
  engaged-Consistent, refused-Consistent, queued-Consistent, left-Consistent, placed-Consistent,
}

module _ {F : Type 0} where
  -- A baseline simulation that has not panicked and whose maps agree; the ids of `waiting` are
  -- about to be dealt with and count as queued.
  pub record Good (waiting : List String) (s : Sim F) : Type 0 where
    pub base : is_optimized s.strategy ≡ false
    pub alive : s.crashed ≡ false
    pub agree : Consistent s.drivers s.orders s.next_order_id (waiting ++ s.pending_orders)

  pub emit-Good :
      (s : Sim F) (w : List String) (kind : EventType) (p : Payload F)
      → Good w s
      → Good w (emit s kind p)
  unfolding emit
  emit-Good s w kind p g = record { base = g.base; alive = g.alive; agree = g.agree }

  refuse-Good :
      (s : Sim F) (w : List String) (id : String) (o : Order F) (reason : String)
      → Good (id ∷ w) s
      → lookup id s.orders ≡ some o
      → is_pending o.status ≡ true
      → Good w (refuse s id o reason)
  unfolding refuse emit set_order
  refuse-Good s w id o reason g known waits = record {
    base = g.base;
    alive = g.alive;
    agree =
        let o' = record o { status = OrderStatus.unassignable } in
        left-Consistent (refused-Consistent g.agree id o o' known (ground arith) refl refl refl) id
          _ refl (λ q h. ground (arith, lookup-insert_self id o' s.orders));
  }

statuses_match :
    (at : Bool)
    → is_matched
        (if at then DriverStatus.delivering else DriverStatus.en_route_to_pickup)
        (if at then OrderStatus.en_route else OrderStatus.assigned)
      ≡ true
statuses_match at = ground arith

module _ {F : Type 0} ⦃fl : FloatOps F⦄ where
  commit-Good :
      (s : Sim F) (w : List String) (id : String) (o : Order F) (did : String) (d : Driver F)
      (a b : Route F)
      → Good (id ∷ w) s
      → lookup id s.orders ≡ some o
      → is_pending o.status ≡ true
      → lookup did s.drivers ≡ some d
      → is_idle d.status ≡ true
      → Good w (commit s id o did d a b)
  unfolding commit emit set_order set_driver
  commit-Good s w id o did d a b g known waits at idle = record {
    base = g.base;
    alive = g.alive;
    agree =
        engaged-Consistent g.agree did id d _ o _ (w ++ s.pending_orders) refl at idle known waits
          refl refl refl (statuses_match (str_eq d.position o.pickup));
  }

  apply_assignment-Good :
      (s : Sim F) (w : List String) (id did : String) (o : Order F) (d : Driver F) (r : Route F)
      → Good (id ∷ w) s
      → lookup id s.orders ≡ some o
      → is_pending o.status ≡ true
      → lookup did s.drivers ≡ some d
      → is_idle d.status ≡ true
      → Good w (apply_assignment s (record { order_id = id; driver_id = did; to_pickup = r }))
  unfolding apply_assignment
  apply_assignment-Good s w id did o d r g known waits at idle =
      of_option (Good w) (lookup id s.orders) _ _ (λ e. cc (known, e))
        (λ q e.
          let q_waits =
            ap (λ x. is_pending x.status) (lookup_unique id q o s.orders e known) ∙ waits in
          of_option (Good w) (find_route s.city q.pickup q.destination) _ _
            (λ _. refuse-Good s w id q _ g e q_waits)
            (λ b _.
              of_option (Good w) (lookup did s.drivers) _ _ (λ f. cc (at, f))
                (λ x f.
                  commit-Good s w id q did x r b g e q_waits f
                    (ap (λ y. is_idle y.status) (lookup_unique did x d s.drivers f at) ∙ idle))))

  pub assign_baseline-Good :
      (s : Sim F) (w : List String) (id : String) (o : Order F)
      → Good (id ∷ w) s
      → lookup id s.orders ≡ some o
      → is_pending o.status ≡ true
      → Good w (assign_baseline s id o)
  unfolding assign_baseline baseline idle_key
  assign_baseline-Good s w id o g known waits =
      of_option (Good w) (baseline s.city s.drivers o.pickup) _ _
        (λ _.
          of_if (Good w) (has_idle_driver s) _ _ (λ _. refuse-Good s w id o _ g known waits)
            (λ _. record {
              base = g.base;
              alive = g.alive;
              agree = queued-Consistent g.agree (w ++ (s.pending_orders ++ id ∷ [])) (λ k q h p m.
                  ground (
                    arith,
                    m,
                    elem-append k (id ∷ w) s.pending_orders,
                    elem-append k w s.pending_orders,
                    elem-append k w (s.pending_orders ++ id ∷ []),
                    elem-append k s.pending_orders (id ∷ []),
                  ));
            }))
        (λ (did, r) e.
          let (idle, (d, at, _)) = baseline_sound s.city s.drivers o.pickup [] did r e in
          apply_assignment-Good s w id did o d r g known waits at (ground (arith, idle.0, at)))

  retry_one-Good :
      (s : Sim F) (w : List String) (id : String) → Good (id ∷ w) s → Good w (retry_one s id)
  unfolding retry_one
  retry_one-Good s w id g =
      of_option (Good w) (lookup id s.orders) _ _
        (λ none_is. record {
          base = g.base;
          alive = g.alive;
          agree = left-Consistent g.agree id (w ++ s.pending_orders) refl (λ o h. cc (none_is, h));
        })
        (λ o known.
          of_if (Good w) (is_pending o.status) _ _
            (λ waits. assign_baseline-Good s w id o g known waits)
            (λ gone. record {
              base = g.base;
              alive = g.alive;
              agree =
                  left-Consistent g.agree id (w ++ s.pending_orders) refl
                    (λ q h. ground (arith, gone, known, h));
            }))

  retry_all-Good : (s : Sim F) (ids : List String) → Good ids s → Good [] (retry_all s ids)
  unfolding retry_all
  retry_all-Good s [] g = g
  retry_all-Good s (id ∷ ids) g = retry_all-Good (retry_one s id) ids (retry_one-Good s ids id g)

  pub retry_pending_baseline-Good : (s : Sim F) → Good [] s → Good [] (retry_pending_baseline s)
  unfolding retry_pending_baseline
  retry_pending_baseline-Good s g =
      of_if (Good []) (length s.pending_orders == 0 || not (has_idle_driver s)) _ _ (λ _. g)
        (λ _.
          retry_all-Good (record s { pending_orders = [] }) s.pending_orders
            (record {
              base = g.base;
              alive = g.alive;
              agree =
                  queued-Consistent g.agree (s.pending_orders ++ [])
                    (λ k o h p m. ground (arith, m, elem-append k s.pending_orders []));
            }))

  -- A placed order waits, and the maps agree on it.
  record_order-Good :
      (s : Sim F) (pickup destination : String)
      → Good [] s
      → Good (short_id "order" (s.next_order_id + 1) ∷ []) (record_order s pickup destination).0
  unfolding record_order emit set_order
  record_order-Good s pickup destination g = record {
    base = g.base;
    alive = g.alive;
    agree = placed-Consistent g.agree (record_order s pickup destination).1 refl refl;
  }

  pub handle_place_order-Good :
      (s : Sim F) (pickup destination : String)
      → Good [] s
      → Good [] (handle_place_order s pickup destination)
  unfolding handle_place_order record_order emit set_order
  handle_place_order-Good s pickup destination g =
      let (s1, o) = record_order s pickup destination in
      of_if (Good []) (is_optimized s1.strategy) _ _ (λ e. cc (g.base, e))
        (λ _.
          assign_baseline-Good s1 [] o.id o (record_order-Good s pickup destination g)
            (lookup-insert_self o.id o s.orders) refl)
