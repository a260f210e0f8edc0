-- ===== src/Replay/Agreement/Assigned.antt =====
-- internal/simulation/simulation.go: replay shows an assignment and a refusal.
use dispatch_lab.Prelude.Int.{pos}
use dispatch_lab.Prelude.{
  ℕ, String, ◌≡◌, refl, ap, ◌∙◌, ◌⊎◌, inl, inr, Bool, true, false, some, ◌++◌, arith, str_eq,
  str_eq_iff, if◌then◌else◌, drop,
}
use dispatch_lab.Prelude.Float.{FloatOps, ◌⊕◌, ◌⊘◌}
use dispatch_lab.Prelude.Map.{lookup, insert, lookup-insert, lookup-insert_self}
use dispatch_lab.Domain.Defs.{City, Driver, Order, DriverStatus, OrderStatus, EventType}
use dispatch_lab.Routing.{Route}
use dispatch_lab.Simulation.State.{
  Sim, emit, stamped, set_driver, set_order, assigned_to, refused, routed, status_of,
}
use dispatch_lab.Simulation.Dispatch.{refuse, commit, driver_speed, unindex}
use dispatch_lab.Replay.Wire.{driver_status_name, order_status_name}
use dispatch_lab.Replay.State as Replay
use dispatch_lab.Replay.State.{ok, Builder, change_driver, change_order, with_status, driver}
use dispatch_lab.Replay.Fold.{change_status}
use dispatch_lab.Replay.Agreement.Views.{order_view, known_driver, Others-shown, Others-Drivers}
use dispatch_lab.Replay.Agreement.Events.{
  next, apply-refused, apply-routed, apply-assigned_to, apply-status_of,
}
use dispatch_lab.Replay.Agreement.Steps.{
  Tracks, order_step, replayed-emit, renamed, holding_driver, holding_order, change_driver_known,
  change_order_known,
}
use dispatch_lab.Replay.Agreement.Moves.{order_id, key_ne_empty, change_status_delivering}

-- The statuses of an assignment: the driver is on its way, or stands at the pickup.
abbrev pub Paired : DriverStatus → OrderStatus → Type 0
Paired a b =
    ((a ≡ DriverStatus.en_route_to_pickup) × (b ≡ OrderStatus.assigned))
    ⊎ ((a ≡ DriverStatus.delivering) × (b ≡ OrderStatus.en_route))

statuses_Paired :
    (at : Bool)
    → Paired
        (if at then DriverStatus.delivering else DriverStatus.en_route_to_pickup)
        (if at then OrderStatus.en_route else OrderStatus.assigned)
statuses_Paired true = inr (refl, refl)
statuses_Paired false = inl (refl, refl)

module _ {F : Type 0} where
  -- What the status event of an assignment makes of a builder.
  record Started (b t : Builder F) (id k : String) (v : Replay.Driver) (o : Replay.Order F)
      : Type 0 where
    drivers : t.drivers ≡ insert id v b.drivers
    orders : (j : String) → lookup j t.orders ≡ (if str_eq k j then some o else lookup j b.orders)
    edges : t.edges ≡ b.edges
    paused : t.paused ≡ b.paused
    speed : t.speed ≡ b.speed
    sequence : t.sequence ≡ b.sequence

module _ {F : Type 0} ⦃fl : FloatOps F⦄ where
  start :
      (b : Builder F) (id k : String) (v : Replay.Driver) (o : Replay.Order F) (dst : DriverStatus)
      (ost : OrderStatus)
      → lookup id b.drivers ≡ some v
      → v.assigned_order ≡ k
      → str_eq k "" ≡ false
      → lookup k b.orders ≡ some o
      → o.status ≡ "assigned"
      → Paired dst ost
      → Started b
          (change_status b id (driver_status_name dst))
          id
          k
          (record v { status = driver_status_name dst })
          (record o { status = order_status_name ost })
  unfolding change_status with_status driver_status_name order_status_name str_eq
  start b id k v o dst ost h e ne h' a (inl (p, q)) =
      let f : Replay.Driver → Replay.Driver = λ d. with_status d "en_route_to_pickup" in
      let known = change_driver_known b id f v h in
      rw (p, q, known)
        (record {
          drivers = refl;
          orders = λ j. ground (arith, h', a, str_eq_iff k j);
          edges = refl;
          paused = refl;
          speed = refl;
          sequence = refl;
        })
  start b id k v o dst ost h e ne h' a (inr (p, q)) =
      rw (p, q, change_status_delivering b id k v o h e ne h')
        (record {
          drivers = refl;
          orders = λ j. lookup-insert k j (record o { status = "en_route" }) b.orders;
          edges = refl;
          paused = refl;
          speed = refl;
          sequence = refl;
        })

module _ {F : Type 0} ⦃fl : FloatOps F⦄ (clock : ℕ → ℕ) (b0 : Builder F) (away : String → Bool)
    (c : City F × City F) where
  pub refuse-Shown :
      (s : Sim F) (id : String) (o : Order F) (reason : String)
      → Tracks clock b0 away c s
      → lookup id s.orders ≡ some o
      → Tracks clock b0 away c (refuse s id o reason)
  unfolding refuse order_view order_status_name
  refuse-Shown s id o reason g known =
      let f : Replay.Order F → Replay.Order F = λ x. record x { status = "unassignable" } in
      order_step clock b0 g id o (record o { status = OrderStatus.unassignable })
        EventType.order_unassignable (refused o.id reason) f known refl
        (λ b.
          apply-refused clock b s o.id reason
          ∙ ap (λ j. ok (change_order (next clock b s) j f))
              (order_id s.next_order_id s.orders g.shows.named id o known))
        refl

  pub commit-Shown :
      (s : Sim F) (id : String) (o : Order F) (did : String) (d : Driver F) (x y : Route F)
      → Tracks clock b0 away c s
      → lookup id s.orders ≡ some o
      → lookup did s.drivers ≡ some d
      → Tracks clock b0 away c (commit s id o did d x y)
  unfolding commit emit stamped set_driver set_order order_view order_status_name
  commit-Shown s id o did d x y g known at =
      let b = g.builder in
      let (v, h, l) =
        known_driver (away did) (lookup did b.drivers) d (rw at at (g.shows.drivers did)) in
      let h' : lookup id b.orders ≡ some (order_view o) = rw (g.shows.orders id, known) refl in
      let full = x.nodes ++ drop 1 y.nodes in
      let a = str_eq d.position o.pickup in
      let dst = (if a then DriverStatus.delivering else DriverStatus.en_route_to_pickup) in
      let ost = (if a then OrderStatus.en_route else OrderStatus.assigned) in
      let d1 = record d { route = full; route_index = 0; status = dst; assigned_order = o.id } in
      let o1 = record o { status = ost; assigned_driver = did } in
      let s1 = set_order (set_driver s did d1) id o1 in
      let s2 = record s1 { driver_index = unindex s1.driver_index did } in
      let p2 = routed did full (x.distance ⊕ y.distance) in
      let s3 = emit s2 EventType.route_computed p2 in
      let p3 = assigned_to o.id did (s.virtual_time ⊕ x.distance ⊘ driver_speed) x.distance in
      let s4 = emit s3 EventType.order_assigned p3 in
      let v1 = record v { route = full; route_index = pos 0 } in
      let b1 = holding_driver (next clock b s2) did v1 in
      let w1 = record (order_view o) { status = "assigned"; assigned_driver = did } in
      let v2 = record v1 { assigned_order = o.id } in
      let b2 = holding_driver (holding_order (next clock b1 s3) o.id w1) did v2 in
      let b3 = change_status (next clock b2 s4) did (driver_status_name dst) in
      let q = order_id s.next_order_id s.orders g.shows.named id o known in
      let at_id : lookup o.id b.orders ≡ some (order_view o) = ap (λ k. lookup k b.orders) q ∙ h' in
      let ne =
        ap (λ k. str_eq k "") q ∙ key_ne_empty s.next_order_id s.orders g.shows.named id o known in
      let st =
        start (next clock b2 s4) did o.id v2 w1 dst ost
          (lookup-insert_self did v2 (insert did v1 b.drivers)) refl ne
          (lookup-insert_self o.id w1 b.orders) refl (statuses_Paired a) in
      let assign : Replay.Order F → Replay.Order F =
        λ z. record z { status = "assigned"; assigned_driver = did } in
      let name : Replay.Driver → Replay.Driver = λ z. record z { assigned_order = o.id } in
      let route : Replay.Driver → Replay.Driver =
        λ z. record z { route = full; route_index = pos 0 } in
      let folded1 = replayed-emit clock b0 s2 EventType.route_computed p2 b b1 g.folded (
        apply-routed clock b s2 did full (x.distance ⊕ y.distance)
        ∙ ap ok (change_driver_known (next clock b s2) did route v h)) in
      let folded2 = replayed-emit clock b0 s3 EventType.order_assigned p3 b1 b2 folded1 (
        apply-assigned_to clock b1 s3 o.id did (s.virtual_time ⊕ x.distance ⊘ driver_speed)
          x.distance
        ∙ ap ok (
            ap (λ t. change_driver t did name)
              (change_order_known (next clock b1 s3) o.id assign (order_view o) at_id)
            ∙ change_driver_known (holding_order (next clock b1 s3) o.id w1) did name v1
                (lookup-insert_self did v1 b.drivers))) in
      let others =
        Others-shown away (insert did v1 b.drivers) s.drivers did v2
          (Others-shown away b.drivers s.drivers did v1 (λ k _. g.shows.drivers k)) in
      let shown =
        Others-Drivers away (insert did v2 (insert did v1 b.drivers)) s.drivers did away
          (record v2 { status = driver_status_name dst }) d1 others (λ k _. refl)
          (record {
            id = l.id;
            status = refl;
            route = refl;
            index = refl;
            assigned_order = refl;
            position = l.position;
          }) in
      record {
        builder = b3;
        folded =
            replayed-emit clock b0 s4 EventType.driver_status_changed (status_of did dst) b2 b3
              folded2 (apply-status_of clock b2 s4 did dst);
        shows = record {
          drivers = λ k. rw st.drivers (shown k);
          orders = λ j. ground (
            arith,
            st.orders j,
            lookup-insert o.id j w1 b.orders,
            lookup-insert id j o1 s.orders,
            g.shows.orders j,
            q,
          );
          named = renamed id o o1 s.orders s.next_order_id known refl g.shows.named;
          roads = λ k. rw st.edges (g.shows.roads k);
          city = g.shows.city;
          paused = st.paused ∙ g.shows.paused;
          speed = st.speed ∙ g.shows.speed;
          running = g.shows.running;
          sequence = st.sequence;
        };
      }
