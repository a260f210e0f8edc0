-- ===== src/Replay/Agreement/Moves.antt =====
-- internal/simulation/simulation.go: replay shows the drivers that move, pick up and deliver.
use dispatch_lab.Prelude.{
  ℕ, String, ◌≡◌, refl, sym, ap, ◌∙◌, Bool, false, ◌&&◌, some, List, [], str_eq, str_eq_iff, of_if,
  of_option, Bool-cases, length, get_or, ltb, inl, inr,
}
use dispatch_lab.Prelude.Float.{FloatOps, num}
use dispatch_lab.Prelude.Map.{lookup, lookup-insert_self}
use dispatch_lab.Prelude.Text.{short_id_ne_empty}
use dispatch_lab.Domain.Defs.{City, Driver, Order, DriverStatus, OrderStatus, EventType}
use dispatch_lab.Simulation.State.{
  Sim, emit, set_driver, set_order, stamped, status_of, delivered_by,
}
use dispatch_lab.Simulation.Movement.{
  pick_up, deliver, at_end, finish, at_pickup, at_order, at_node,
}
use dispatch_lab.Replay.Wire.{driver_status_name, order_status_name}
use dispatch_lab.Replay.State as Replay
use dispatch_lab.Replay.State.{
  ok, next_hop, Builder, driver, moved_to, with_status, change_driver, change_order,
}
use dispatch_lab.Replay.Fold.{change_status, carry}
use dispatch_lab.Replay.Agreement.Views.{
  order_view, Like, Named, known_driver, Others-Drivers, Orders-insert,
}
use dispatch_lab.Replay.Agreement.Events.{next, apply-delivered_by, apply-status_of}
use dispatch_lab.Replay.Agreement.Steps.{
  Tracks, unseen, order_step, driver_step, replayed-emit, renamed, holding_driver, holding_order,
  driver_known, change_driver_known, change_order_known,
}

-- Only the driver that moves is away.
abbrev pub only : String → String → Bool
only id k = str_eq id k

module _ {F : Type 0} where
  -- The idle status empties the hands of a driver.
  pub idled :
      (a : Bool) (v : Replay.Driver) (d d1 : Driver F)
      → Like a v d
      → d1.id ≡ d.id
      → d1.status ≡ DriverStatus.idle
      → d1.route ≡ []
      → d1.assigned_order ≡ ""
      → d1.position ≡ d.position
      → Like a (with_status v "idle") d1
  unfolding with_status str_eq driver_status_name
  idled a v d d1 l i t r o p = record {
    id = l.id ∙ sym i;
    status = ap driver_status_name (sym t);
    route = sym r;
    index = refl;
    assigned_order = sym o;
    position = λ h. l.position h ∙ sym p;
  }

  pub moved_to-Like :
      (a : Bool) (v : Replay.Driver) (d : Driver F)
      → Like a v d
      → Like false (moved_to v d.position) d
  unfolding moved_to
  moved_to-Like a v d l =
      of_if (λ (w : Replay.Driver). Like false w d)
        (ltb (next_hop v.route_index) (length v.route)
          && str_eq (get_or v.route (next_hop v.route_index) "") d.position)
        _ _
        (λ _. record {
          id = l.id;
          status = l.status;
          route = l.route;
          index = refl;
          assigned_order = l.assigned_order;
          position = λ _. refl;
        })
        (λ _. record {
          id = l.id;
          status = l.status;
          route = l.route;
          index = l.index;
          assigned_order = l.assigned_order;
          position = λ _. refl;
        })

module _ {F : Type 0} ⦃fl : FloatOps F⦄ (b : Builder F) where
  pub change_status_idle :
      (id : String) → change_status b id "idle" ≡ change_driver b id (λ d. with_status d "idle")
  unfolding change_status str_eq
  change_status_idle id = refl

  -- A driver that starts to deliver takes its order on the way.
  pub change_status_delivering :
      (id k : String) (v : Replay.Driver) (o : Replay.Order F)
      → lookup id b.drivers ≡ some v
      → v.assigned_order ≡ k
      → str_eq k "" ≡ false
      → lookup k b.orders ≡ some o
      → change_status b id "delivering"
        ≡ holding_order
            (holding_driver b id (record v { status = "delivering" }))
            k
            (record o { status = "en_route" })
  unfolding change_status carry with_status str_eq
  change_status_delivering id k v o h e ne h' =
      let f : Replay.Driver → Replay.Driver = λ d. with_status d "delivering" in
      let b1 = holding_driver b id (record v { status = "delivering" }) in
      let set : Replay.Order F → Replay.Order F = λ x. record x { status = "en_route" } in
      ap (λ x. carry x (driver b id).1.assigned_order) (change_driver_known b id f v h)
      ∙ ap (λ p. carry b1 p.1.assigned_order) (driver_known b id v h)
      ∙ ap (carry b1) e
      ∙ rw (carry, ne) (change_order_known b1 k set o h')

module _ {F : Type 0} (n : ℕ) (O : List (String × Order F)) (named : Named n O) where
  -- The name of an order is its key, and not empty.
  pub order_id : (k : String) (o : Order F) → lookup k O ≡ some o → o.id ≡ k
  order_id k o h = (named k o h).0

  pub key_ne_empty : (k : String) (o : Order F) → lookup k O ≡ some o → str_eq k "" ≡ false
  key_ne_empty k o h =
      let (i, _, q) = (named k o h).1 in
      elim (Bool-cases (str_eq k "")) [
        | inl e ↦ absurd (short_id_ne_empty i (sym q ∙ (str_eq_iff k "").0 e))
        | inr e ↦ e
      ]

module _ {F : Type 0} ⦃fl : FloatOps F⦄ (clock : ℕ → ℕ) (b0 : Builder F) (away : String → Bool)
    (c : City F × City F) where
  abbrev pub Shown : Sim F → Type 0
  Shown s = Tracks clock b0 away c s

  -- A driver and the order that it names.
  abbrev pub Serving : Sim F → String → Driver F → Order F → Type 0
  Serving s id d o =
      Shown s × (lookup id s.drivers ≡ some d) × (lookup d.assigned_order s.orders ≡ some o)

  pick_up-Shown :
      (s : Sim F) (id : String) (d : Driver F) (o : Order F)
      → Serving s id d o
      → Shown (pick_up s id d d.assigned_order o)
  unfolding pick_up emit stamped set_driver set_order driver_status_name order_view
      order_status_name
  pick_up-Shown s id d o (g, at, known) =
      let b = g.builder in
      let k = d.assigned_order in
      let d1 = record d { status = DriverStatus.delivering } in
      let o1 = record o { status = OrderStatus.en_route } in
      let s1 = set_order (set_driver s id d1) k o1 in
      let (v, h, l) =
        known_driver (away id) (lookup id b.drivers) d (rw at at (g.shows.drivers id)) in
      let h' : lookup k b.orders ≡ some (order_view o) = rw (g.shows.orders k, known) refl in
      let e =
        change_status_delivering (next clock b s) id k v (order_view o) h l.assigned_order
          (key_ne_empty s.next_order_id s.orders g.shows.named k o known) h' in
      record {
        builder = _;
        folded =
            replayed-emit clock b0 s1 EventType.driver_status_changed
              (status_of id DriverStatus.delivering) b _ g.folded
              (apply-status_of clock b s1 id DriverStatus.delivering ∙ ap ok e);
        shows = record {
          drivers =
              Others-Drivers away b.drivers s.drivers id away (record v { status = "delivering" })
                d1 (λ j _. g.shows.drivers j) (λ j _. refl)
                (record {
                  id = l.id;
                  status = refl;
                  route = l.route;
                  index = l.index;
                  assigned_order = l.assigned_order;
                  position = l.position;
                });
          orders =
              Orders-insert k (record (order_view o) { status = "en_route" }) o1 b.orders s.orders
                g.shows.orders refl;
          named = renamed k o o1 s.orders s.next_order_id known refl g.shows.named;
          roads = g.shows.roads;
          city = g.shows.city;
          paused = g.shows.paused;
          speed = g.shows.speed;
          running = g.shows.running;
          sequence = refl;
        };
      }

  deliver-Shown :
      (s : Sim F) (id : String) (d : Driver F) (o : Order F)
      → Serving s id d o
      → Shown (deliver s id d d.assigned_order o)
  unfolding deliver emit stamped set_driver set_order driver_status_name order_view
      order_status_name
  deliver-Shown s id d o (g, at, known) =
      let k = d.assigned_order in
      let done : Replay.Order F → Replay.Order F = λ x. record x { status = "delivered" } in
      let g1 =
        order_step clock b0 g k o (record o { status = OrderStatus.delivered })
          EventType.order_delivered (delivered_by o.id id) done known refl
          (λ b.
            apply-delivered_by clock b s o.id id
            ∙ ap (λ j. ok (change_order (next clock b s) j done))
                (order_id s.next_order_id s.orders g.shows.named k o known))
          refl in
      let d1 = record d {
        status = DriverStatus.idle;
        route = [];
        route_index = 0;
        route_progress = num 0;
        assigned_order = "";
        idle_since = s.virtual_time;
      } in
      let s1 =
        emit (set_order s k (record o { status = OrderStatus.delivered })) EventType.order_delivered
          (delivered_by o.id id) in
      let g2 =
        driver_step clock b0 g1 away id d d1 EventType.driver_status_changed
          (status_of id DriverStatus.idle) (λ x. with_status x "idle") at
          (λ b _ _ _.
            apply-status_of clock b s1 id DriverStatus.idle
            ∙ ap ok (change_status_idle (next clock b s1) id))
          (λ v l. idled (away id) v d d1 l refl refl refl refl refl) (λ j _. refl) in
      unseen clock b0 g2 refl

  finish-Shown :
      (s : Sim F) (id : String) (d : Driver F) (o : Order F)
      → Serving s id d o
      → Shown (finish s id d d.assigned_order o)
  unfolding finish
  finish-Shown s id d o h = of_if Shown (at_end d) _ _ (λ _. deliver-Shown s id d o h) (λ _. h.0)

  at_order-Shown :
      (s : Sim F) (id : String) (d : Driver F) (o : Order F)
      → Serving s id d o
      → Shown (at_order s id d d.assigned_order o)
  unfolding at_order pick_up emit set_driver set_order
  at_order-Shown s id d o h =
      let d1 = record d { status = DriverStatus.delivering } in
      let o1 = record o { status = OrderStatus.en_route } in
      of_if Shown (at_pickup d o) _ _
        (λ _. finish-Shown (pick_up s id d d.assigned_order o) id d1 o1 (
          pick_up-Shown s id d o h,
          lookup-insert_self id d1 s.drivers,
          lookup-insert_self d.assigned_order o1 s.orders,
        ))
        (λ _. finish-Shown s id d o h)

  pub at_node-Shown :
      (s : Sim F) (id : String) (d : Driver F)
      → Shown s
      → lookup id s.drivers ≡ some d
      → Shown (at_node s id d)
  unfolding at_node
  at_node-Shown s id d g at =
      of_option Shown (lookup d.assigned_order s.orders) _ _ (λ _. g)
        (λ o known. at_order-Shown s id d o (g, at, known))
