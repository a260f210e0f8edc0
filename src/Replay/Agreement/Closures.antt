-- ===== src/Replay/Agreement/Closures.antt =====
-- internal/simulation/simulation.go: replay shows the roads that are closed and reopened, and the
-- drivers that a closure reroutes or strands.
use dispatch_lab.Prelude.Int.{pos}
use dispatch_lab.Prelude.{
  ℕ, String, ◌≡◌, refl, sym, ap, ◌∙◌, Bool, true, false, Option, none, some, List, [], ◌∷◌, arith,
  str_eq, str_lt, str_eq_iff, of_if, of_option, inl, inr, Bool-cases, if◌then◌else◌,
}
use dispatch_lab.Prelude.Float.{FloatOps}
use dispatch_lab.Prelude.Map.{lookup, keys}
use dispatch_lab.Prelude.Sort as Sort
use dispatch_lab.Domain.Defs.{City, Edge, Driver, Order, DriverStatus, EventType}
use dispatch_lab.Domain.City.{edge_by_id, set_closed}
use dispatch_lab.Domain.City.Closing.{flagged, set_closed-edge_by_id, set_closed_other}
use dispatch_lab.Routing.{Route, find_route}
use dispatch_lab.Simulation.State.{
  Sim, emit, stamped, set_order, edge_between, invalidated, status_of, routed, closed_roads,
  reopened_roads, Payload,
}
use dispatch_lab.Simulation.Dispatch.{refuse}
use dispatch_lab.Simulation.Roads.{
  target_of, strand, take_route, redirect, reroute_driver, is_affected, recalculate_one,
  recalculate_all, recalculate_affected_routes, set_road, close_edge, handle_close_road, open_edge,
  handle_reopen_road,
}
use dispatch_lab.Replay.Wire.{recorded, driver_status_name}
use dispatch_lab.Replay.State as Replay
use dispatch_lab.Replay.State.{ok, Builder, mark, mark_all, with_status}
use dispatch_lab.Replay.Fold.{apply}
use dispatch_lab.Replay.Agreement.Views.{Roads, find_edge, replay_closed, city_closed, nobody}
use dispatch_lab.Replay.Agreement.Events.{
  next, apply-invalidated, apply-status_of, apply-routed, apply-closed_roads, apply-reopened_roads,
}
use dispatch_lab.Replay.Agreement.Steps.{Tracks, unseen, driver_step, replayed-emit}
use dispatch_lab.Replay.Agreement.Moves.{idled, change_status_idle}
use dispatch_lab.Replay.Agreement.Assigned.{refuse-Shown}

mark-find_edge :
    (id j : String) (flag : Bool) (es : List Replay.Edge)
    → replay_closed (find_edge j (mark id flag es)) ≡ (
        if str_eq id j
        then elim (find_edge j es) [ none ↦ none | some _ ↦ some flag ]
        else replay_closed (find_edge j es))
unfolding mark find_edge
mark-find_edge id j flag [] = ground arith
mark-find_edge id j flag (e ∷ es) =
    ground
      (arith, mark-find_edge id j flag es, str_eq_iff id j, str_eq_iff e.id id, str_eq_iff e.id j)

module _ {F : Type 0} where
  reflag :
      (flag : Bool) (x : Option Replay.Edge) (y : Option (Edge F))
      → replay_closed x ≡ city_closed y
      → elim x [ none ↦ none | some _ ↦ some flag ] ≡ city_closed (flagged flag y)
  reflag flag none none h = refl
  reflag flag none (some y) h = cc h
  reflag flag (some x) none h = cc h
  reflag flag (some x) (some y) h = refl

  mark-Roads :
      (es : List Replay.Edge) (c : City F) (id : String) (flag : Bool)
      → Roads es c
      → Roads (mark id flag es) (set_closed c id flag).0
  mark-Roads es c id flag h j = elim (Bool-cases (str_eq id j)) [
    | inl e ↦
        let q : id ≡ j = (str_eq_iff id j).0 e in
        rw (mark-find_edge id j flag es, e, sym q, (set_closed-edge_by_id c id flag).0)
          (reflag flag (find_edge id es) (edge_by_id c id) (h id))
    | inr e ↦
        rw
          (
            mark-find_edge id j flag es,
            e,
            set_closed_other c id j flag (λ q. cc (e, (str_eq_iff id j).1 q)),
          )
          (h j)
  ]

module _ {F : Type 0} ⦃fl : FloatOps F⦄ where
  -- The same flag on the same roads.
  set_road-Roads :
      (es : List Replay.Edge) (c : City F) (e : Edge F) (flag : Bool)
      → Roads es c
      → Roads (mark_all (set_road c e flag).1 flag es) (set_road c e flag).0
  unfolding set_road mark_all
  set_road-Roads es c e flag h =
      let c1 = (set_closed c e.id flag).0 in
      let h1 = mark-Roads es c e.id flag h in
      of_option (λ (p : City F × List String). Roads (mark_all p.1 flag es) p.0)
        (edge_between c1 e.to e.from) _ _ (λ _. h1)
        (λ r _. mark-Roads (mark e.id flag es) c1 r.id flag h1)

module _ {F : Type 0} ⦃fl : FloatOps F⦄ (clock : ℕ → ℕ) (b0 : Builder F) (c : City F × City F) where
  abbrev Shown : Sim F → Type 0
  Shown s = Tracks clock b0 nobody c s

  -- An event that replay takes no notice of but for its number.
  invalidated-Shown :
      (s : Sim F) (id oid : String)
      → Shown s
      → Shown (emit s EventType.route_invalidated (invalidated id oid))
  unfolding emit stamped
  invalidated-Shown s id oid g = record {
    builder = next clock g.builder s;
    folded =
        replayed-emit clock b0 s EventType.route_invalidated (invalidated id oid) g.builder _
          g.folded (apply-invalidated clock g.builder s id oid);
    shows = record {
      drivers = g.shows.drivers;
      orders = g.shows.orders;
      named = g.shows.named;
      roads = g.shows.roads;
      city = g.shows.city;
      paused = g.shows.paused;
      speed = g.shows.speed;
      running = g.shows.running;
      sequence = refl;
    };
  }

  strand-Shown :
      (s : Sim F) (id : String) (d : Driver F) (o : Order F) (reason : String)
      → Shown s
      → lookup id s.drivers ≡ some d
      → lookup d.assigned_order s.orders ≡ some o
      → Shown (strand s id d o reason)
  unfolding strand refuse emit stamped set_order driver_status_name
  strand-Shown s id d o reason g at known =
      let d1 = record d {
        status = DriverStatus.idle;
        route = [];
        route_index = 0;
        assigned_order = "";
      } in
      let s1 = refuse s d.assigned_order o reason in
      driver_step clock b0 (refuse-Shown clock b0 nobody c s d.assigned_order o reason g known)
        nobody id d d1 EventType.driver_status_changed (status_of id DriverStatus.idle)
        (λ x. with_status x "idle") at
        (λ b _ _ _.
          apply-status_of clock b s1 id DriverStatus.idle
          ∙ ap ok (change_status_idle (next clock b s1) id))
        (λ v l. idled false v d d1 l refl refl refl refl refl) (λ k _. refl)

  take_route-Shown :
      (s : Sim F) (id : String) (d : Driver F) (r : Route F)
      → Shown s
      → lookup id s.drivers ≡ some d
      → Shown (take_route s id d r)
  unfolding take_route
  take_route-Shown s id d r g at =
      driver_step clock b0 g nobody id d (record d { route = r.nodes; route_index = 0 })
        EventType.route_computed (routed id r.nodes r.distance)
        (λ v. record v { route = r.nodes; route_index = pos 0 }) at
        (λ b _ _ _. apply-routed clock b s id r.nodes r.distance)
        (λ v l. record {
          id = l.id;
          status = l.status;
          route = refl;
          index = refl;
          assigned_order = l.assigned_order;
          position = l.position;
        })
        (λ k _. refl)

  redirect-Shown :
      (s : Sim F) (id : String) (d : Driver F) (o : Order F) (t : Option (String × String))
      → Shown s
      → lookup id s.drivers ≡ some d
      → lookup d.assigned_order s.orders ≡ some o
      → Shown (redirect s id d o t)
  unfolding redirect emit
  redirect-Shown s id d o none g at known = g
  redirect-Shown s id d o (some (target, reason)) g at known =
      let s1 = emit s EventType.route_invalidated (invalidated id o.id) in
      let g1 = invalidated-Shown s id o.id g in
      of_option Shown (find_route s.city d.position target) _ _
        (λ _. strand-Shown s1 id d o reason g1 at known) (λ r _. take_route-Shown s1 id d r g1 at)

  reroute_driver-Shown :
      (s : Sim F) (id : String) (d : Driver F)
      → Shown s
      → lookup id s.drivers ≡ some d
      → Shown (reroute_driver s id d)
  unfolding reroute_driver
  reroute_driver-Shown s id d g at =
      of_option Shown (lookup d.assigned_order s.orders) _ _ (λ _. g)
        (λ o known. redirect-Shown s id d o (target_of d o) g at known)

  recalculate_one-Shown :
      (s : Sim F) (n : ℕ) (id : String) → Shown s → Shown (recalculate_one (s, n) id).0
  unfolding recalculate_one
  recalculate_one-Shown s n id g =
      let P : Sim F × ℕ → Type 0 = λ p. Shown p.0 in
      of_option P (lookup id s.drivers) _ _ (λ _. g)
        λ d at. of_if P (is_affected s d) _ _ (λ _. reroute_driver-Shown s id d g at) (λ _. g)

  pub recalculate_all-Shown :
      (p : Sim F × ℕ) (ids : List String) → Shown p.0 → Shown (recalculate_all p ids).0
  unfolding recalculate_all
  recalculate_all-Shown p [] g = g
  recalculate_all-Shown (s, n) (id ∷ ids) g =
      recalculate_all-Shown (recalculate_one (s, n) id) ids (recalculate_one-Shown s n id g)

-- A simulation whose own roads are shown.
abbrev pub Current :
    {F : Type 0} ⦃fl : FloatOps F⦄ (clock : ℕ → ℕ) (b0 : Builder F) → Sim F → Type 0
Current clock b0 s = Tracks clock b0 nobody (s.city, s.city) s

module _ {F : Type 0} ⦃fl : FloatOps F⦄ (clock : ℕ → ℕ) (b0 : Builder F) where
  -- The event that publishes the roads that were set.
  published :
      (c : City F × City F) (s : Sim F) (kind : EventType) (p : Payload F) (ids : List String)
      (flag : Bool)
      → Tracks clock b0 nobody c s
      → ((b : Builder F)
          → apply b (recorded clock (stamped s kind p))
            ≡ ok (record (next clock b s) { edges = mark_all ids flag b.edges }))
      → ((es : List Replay.Edge) → Roads es c.0 → Roads (mark_all ids flag es) c.1)
      → Current clock b0 (emit s kind p)
  unfolding emit stamped
  published c s kind p ids flag g law same = record {
    builder = record (next clock g.builder s) { edges = mark_all ids flag g.builder.edges };
    folded = replayed-emit clock b0 s kind p g.builder _ g.folded (law g.builder);
    shows = record {
      drivers = g.shows.drivers;
      orders = g.shows.orders;
      named = g.shows.named;
      roads = λ j. rw g.shows.city (same g.builder.edges g.shows.roads j);
      city = refl;
      paused = g.shows.paused;
      speed = g.shows.speed;
      running = g.shows.running;
      sequence = refl;
    };
  }

  -- The city is another one, and replay still shows the roads of the old one.
  rebuilt :
      (s : Sim F) (c : City F) (cause : String)
      → Current clock b0 s
      → Tracks clock b0 nobody (s.city, c) (record s { city = c; current_causation = cause })
  rebuilt s c cause g = record {
    builder = g.builder;
    folded = g.folded;
    shows = record {
      drivers = g.shows.drivers;
      orders = g.shows.orders;
      named = g.shows.named;
      roads = g.shows.roads;
      city = refl;
      paused = g.shows.paused;
      speed = g.shows.speed;
      running = g.shows.running;
      sequence = g.shows.sequence;
    };
  }

  close_edge-Current :
      (s : Sim F) (e : Edge F) (command_id : String)
      → Current clock b0 s
      → Current clock b0 (close_edge s e command_id)
  unfolding close_edge recalculate_affected_routes
  close_edge-Current s e command_id g =
      let (c, ids) = set_road s.city e true in
      let s1 = record s { city = c; current_causation = command_id } in
      let (s2, affected) = recalculate_affected_routes s1 in
      let g2 =
        recalculate_all-Shown clock b0 (s.city, c) (s1, 0) (Sort.sort str_lt (keys s1.drivers))
          (rebuilt s c command_id g) in
      let p = closed_roads ids e.from e.to affected in
      let g3 =
        published (s.city, c) s2 EventType.road_closed p ids true g2
          (λ b. apply-closed_roads clock b s2 ids e.from e.to affected)
          (λ es. set_road-Roads es s.city e true) in
      unseen clock b0 g3 refl

  pub handle_close_road-Current :
      (s : Sim F) (id command_id : String)
      → Current clock b0 s
      → Current clock b0 (handle_close_road s id command_id)
  unfolding handle_close_road
  handle_close_road-Current s id command_id g =
      of_option (Current clock b0) (edge_by_id s.city id) _ _ (λ _. g)
        λ e _.
          of_if (Current clock b0) e.closed _ _ (λ _. g) (λ _. close_edge-Current s e command_id g)

  open_edge-Current :
      (s : Sim F) (e : Edge F) → Current clock b0 s → Current clock b0 (open_edge s e)
  unfolding open_edge
  open_edge-Current s e g =
      let (c, ids) = set_road s.city e false in
      let s1 = record s { city = c } in
      published (s.city, c) s1 EventType.road_reopened (reopened_roads ids e.from e.to) ids false
        (rebuilt s c s.current_causation g) (λ b. apply-reopened_roads clock b s1 ids e.from e.to)
        (λ es. set_road-Roads es s.city e false)

  pub handle_reopen_road-Current :
      (s : Sim F) (id : String) → Current clock b0 s → Current clock b0 (handle_reopen_road s id)
  unfolding handle_reopen_road
  handle_reopen_road-Current s id g =
      of_option (Current clock b0) (edge_by_id s.city id) _ _ (λ _. g)
        λ e _. of_if (Current clock b0) e.closed _ _ (λ _. open_edge-Current s e g) (λ _. g)
