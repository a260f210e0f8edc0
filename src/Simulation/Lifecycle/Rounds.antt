-- ===== src/Simulation/Lifecycle/Rounds.antt =====
-- internal/simulation/simulation.go: the loop of moveDriver ends.
use dispatch_lab.Prelude.{
  ℕ, zero, suc, ◌+◌, ◌-◌, ◌≤◌, String, ◌≡◌, refl, ap, ◌∙◌, none, some, [], arith, of_if, of_bool,
  of_option, same_option, same_bool,
}
use dispatch_lab.Prelude.Float.{FloatOps, ◌⊖◌, fle, num}
use dispatch_lab.Prelude.Map.{lookup, lookup-insert_self}
use dispatch_lab.Domain.Defs.{Driver, Order, DriverStatus}
use dispatch_lab.Simulation.State.{Sim, emit, set_driver, set_order, edge_between}
use dispatch_lab.Simulation.Movement.{
  pick_up, deliver, at_end, finish, at_pickup, at_order, at_node, hops, advance, next_node, stops,
  drive,
}

module _ {F : Type 0} ⦃fl : FloatOps F⦄ where
  -- The hops that the driver has left.
  abbrev pub ahead : Sim F → String → ℕ
  ahead s id = elim (lookup id s.drivers) [ none ↦ 0 | some d ↦ hops d ]

  abbrev AtMost : String → ℕ → Sim F → Type 0
  AtMost id n s = ahead s id ≤ n

  deliver-ahead :
      (s : Sim F) (id : String) (d : Driver F) (key : String) (o : Order F) (n : ℕ)
      → AtMost id n (deliver s id d key o)
  unfolding deliver emit set_driver set_order
  deliver-ahead s id d key o n = ground (
    arith,
    lookup-insert_self id
        (record d {
          status = DriverStatus.idle;
          route = [];
          route_index = 0;
          route_progress = num 0;
          assigned_order = "";
          idle_since = s.virtual_time;
        })
        s.drivers,
  )

  finish-ahead :
      (s : Sim F) (id : String) (d : Driver F) (key : String) (o : Order F) (n : ℕ)
      → AtMost id n s
      → AtMost id n (finish s id d key o)
  unfolding finish
  finish-ahead s id d key o n h =
      of_if (AtMost id n) (at_end d) _ _ (λ _. deliver-ahead s id d key o n) (λ _. h)

  pick_up-ahead :
      (s : Sim F) (id : String) (d : Driver F) (key : String) (o : Order F)
      → AtMost id (hops d) (pick_up s id d key o)
  unfolding pick_up emit set_driver set_order
  pick_up-ahead s id d key o =
      ground
        (arith, lookup-insert_self id (record d { status = DriverStatus.delivering }) s.drivers)

  at_node-ahead :
      (s : Sim F) (id : String) (d : Driver F)
      → AtMost id (hops d) s
      → AtMost id (hops d) (at_node s id d)
  unfolding at_node at_order
  at_node-ahead s id d h =
      of_option (AtMost id (hops d)) (lookup d.assigned_order s.orders) _ _ (λ _. h)
        λ o _.
          of_if (AtMost id (hops d)) (at_pickup d o) _ _
            (λ _. finish-ahead _ id _ _ _ (hops d) (pick_up-ahead s id d d.assigned_order o))
            (λ _. finish-ahead s id d _ o (hops d) h)

  advance-ahead :
      (s : Sim F) (id : String) (d : Driver F) (next : String)
      → ahead (advance s id d next) id ≤ hops d - 1
  unfolding advance set_driver
  advance-ahead s id d next =
      let d' = record d {
        route_progress = num 0;
        route_index = d.route_index + 1;
        position = next;
      } in
      let h =
        at_node-ahead (set_driver s id d') id d'
          (ground (arith, lookup-insert_self id d' s.drivers)) in
      omega (arith, h)

  -- One more round than there are hops ahead changes nothing.
  drive_step :
      (n : ℕ) (s : Sim F) (id : String) (budget : F)
      → ahead s id ≤ n
      → drive (suc n) s id budget ≡ drive n s id budget
  unfolding drive
  drive_step zero s id budget h =
      of_option (λ t. t ≡ s) (lookup id s.drivers) _ _ (λ _. refl)
        λ d at.
          of_option (λ t. t ≡ s) (edge_between s.city d.position (next_node d)) _ _ (λ _. refl)
            λ e _.
              of_bool (λ t. t ≡ s) (stops budget d e) _ _ (λ _. refl)
                (λ p. absurd (ground (arith, h, at, p)))
  drive_step (suc n) s id budget h = same_option (lookup id s.drivers) _ _ _ λ d at.
      same_option (edge_between s.city d.position (next_node d)) _ _ _ λ e _.
        same_bool (stops budget d e) _ _ _ _ (λ _. refl)
          λ p.
            same_bool (fle (e.weight ⊖ d.route_progress) budget) _ _ _ _
              (λ _.
                drive_step n (advance s id d (next_node d)) id
                  (budget ⊖ (e.weight ⊖ d.route_progress))
                  (ground (arith, h, at, advance-ahead s id d (next_node d))))
              (λ _. refl)

  -- The rounds that the model gives the loop of moveDriver are enough: any more give the same
  -- state, when the driver has at most `n` hops left.
  pub drive_enough :
      (k n : ℕ) (s : Sim F) (id : String) (budget : F)
      → ahead s id ≤ n
      → drive (k + n) s id budget ≡ drive n s id budget
  drive_enough zero n s id budget h = ap (λ x. drive x s id budget) (omega arith)
  drive_enough (suc k) n s id budget h =
      ap (λ x. drive x s id budget) (omega arith)
      ∙ drive_step (k + n) s id budget (omega (arith, h))
      ∙ drive_enough k n s id budget h
