-- ===== src/Replay/Agreement/Drives.antt =====
-- internal/simulation/simulation.go: replay shows the drivers after their moves.
use dispatch_lab.Prelude.{
  ℕ, zero, suc, ◌+◌, String, ◌≡◌, refl, false, some, List, [], ◌∷◌, arith, str_eq, of_if, of_bool,
  of_option, str_eq_refl, str_eq_iff, Bool-cases, inl, inr, none, sym, ap, ◌∙◌,
}
use dispatch_lab.Prelude.Float.{FloatOps, ◌⊖◌, ◌⊗◌, fle, num}
use dispatch_lab.Prelude.Map.{lookup, insert, lookup-insert, lookup-insert_self}
use dispatch_lab.Domain.Defs.{City, Driver, EventType}
use dispatch_lab.Simulation.State.{
  Sim, emit, stamped, set_driver, edge_between, emit_driver_position, driver_position, moved,
}
use dispatch_lab.Simulation.Dispatch.{driver_speed}
use dispatch_lab.Simulation.Movement.{
  is_parked, hops, advance, next_node, stops, drive, move_driver, move_all,
}
use dispatch_lab.Replay.State.{Builder, moved_to, oversteps}
use dispatch_lab.Replay.Agreement.Views.{nobody, Match-loosen, Match-absent}
use dispatch_lab.Replay.Agreement.Events.{next, apply-moved}
use dispatch_lab.Replay.Agreement.Steps.{
  Tracks, driver_known, driver_step, silent_step, kept, regarded,
}
use dispatch_lab.Replay.Agreement.Moves.{only, moved_to-Like, at_node-Shown}

module _ {F : Type 0} ⦃fl : FloatOps F⦄ (clock : ℕ → ℕ) (b0 : Builder F) (c : City F × City F) where
  -- A driver sets off.
  leave : (id : String) (s : Sim F) → Tracks clock b0 nobody c s → Tracks clock b0 (only id) c s
  leave id s g =
      regarded clock b0 nobody (only id) c s g
        (λ b k m. Match-loosen (str_eq id k) (lookup k b.drivers) (lookup k s.drivers) m)

  advance-Shown :
      (s : Sim F) (id : String) (d : Driver F) (node : String)
      → Tracks clock b0 (only id) c s
      → lookup id s.drivers ≡ some d
      → Tracks clock b0 (only id) c (advance s id d node)
  unfolding advance set_driver
  advance-Shown s id d node g at =
      let d1 = record d {
        route_progress = num 0;
        route_index = d.route_index + 1;
        position = node;
      } in
      at_node-Shown clock b0 (only id) c (set_driver s id d1) id d1
        (silent_step clock b0 g id d d1 at (λ v l. record {
          id = l.id;
          status = l.status;
          route = l.route;
          index = l.index;
          assigned_order = l.assigned_order;
          position = λ h. cc (h, str_eq_refl id);
        }))
        (lookup-insert_self id d1 s.drivers)

  drive-Shown :
      (n : ℕ) (s : Sim F) (id : String) (budget : F)
      → Tracks clock b0 (only id) c s
      → Tracks clock b0 (only id) c (drive n s id budget)
  unfolding drive
  drive-Shown zero s id budget g = g
  drive-Shown (suc n) s id budget g =
      let P = Tracks clock b0 (only id) c in
      of_option P (lookup id s.drivers) _ _ (λ _. g)
        λ d at.
          of_option P (edge_between s.city d.position (next_node d)) _ _ (λ _. g)
            λ e _.
              of_bool P (stops budget d e) _ _ (λ _. g)
                λ _.
                  of_bool P (fle (e.weight ⊖ d.route_progress) budget) _ _
                    (λ _.
                      drive-Shown n (advance s id d (next_node d)) id
                        (budget ⊖ (e.weight ⊖ d.route_progress))
                        (advance-Shown s id d (next_node d) g at))
                    (λ _. silent_step clock b0 g id d _ at (λ v l. record {
                      id = l.id;
                      status = l.status;
                      route = l.route;
                      index = l.index;
                      assigned_order = l.assigned_order;
                      position = l.position;
                    }))

  -- The position that a driver publishes at the end of its move.
  arrive :
      (s : Sim F) (id : String) (d : Driver F)
      → Tracks clock b0 (only id) c s
      → lookup id s.drivers ≡ some d
      → Tracks clock b0 nobody c (emit_driver_position s id d)
  unfolding emit_driver_position emit stamped set_driver
  arrive s id d g at =
      let (x, y) = driver_position s d in
      let p = moved id d.position x y d.route_index d.route_progress in
      kept clock b0 nobody c (emit (set_driver s id d) EventType.driver_position_updated p) _
        (driver_step clock b0 g nobody id d d EventType.driver_position_updated p
          (λ v. moved_to v d.position) at
          (λ b v h i.
            apply-moved clock b s id d.position x y d.route_index d.route_progress
              (ap (λ q. oversteps q.1.route_index) (driver_known (next clock b s) id v h) ∙ i))
          (λ v l. moved_to-Like (str_eq id id) v d l) (λ k e. sym e))
        (λ k. rewritten k) refl refl refl refl refl refl refl
    where
      rewritten : (k : String) → lookup k s.drivers ≡ lookup k (insert id d s.drivers)
      rewritten k = ground (arith, lookup-insert id k d s.drivers, str_eq_iff id k, at)

  -- A driver that is gone has no position.
  gone :
      (s : Sim F) (id : String)
      → Tracks clock b0 (only id) c s
      → lookup id s.drivers ≡ none
      → Tracks clock b0 nobody c s
  gone s id g e = regarded clock b0 (only id) nobody c s g (λ b k m.
      elim (Bool-cases (str_eq id k)) [
        | inl q ↦
            let at : lookup k s.drivers ≡ none =
              ap (λ j. lookup j s.drivers) (sym ((str_eq_iff id k).0 q)) ∙ e in
            rw at (Match-absent (str_eq id k) false (lookup k b.drivers) (rw at at m))
        | inr q ↦ rw q at m
      ])

  move_driver-Shown :
      (s : Sim F) (id : String)
      → Tracks clock b0 nobody c s
      → Tracks clock b0 nobody c (move_driver s id)
  unfolding move_driver
  move_driver-Shown s id g =
      of_option (Tracks clock b0 nobody c) (lookup id s.drivers) _ _ (λ _. g)
        λ d _.
          let s1 = drive (hops d) s id (driver_speed ⊗ num 1) in
          let g1 = drive-Shown (hops d) s id (driver_speed ⊗ num 1) (leave id s g) in
          of_if (Tracks clock b0 nobody c) (is_parked d) _ _ (λ _. g)
            λ _.
              of_option (Tracks clock b0 nobody c) (lookup id s1.drivers) _ _ (gone s1 id g1)
                λ d1 at. arrive s1 id d1 g1 at

  pub move_all-Shown :
      (s : Sim F) (ids : List String)
      → Tracks clock b0 nobody c s
      → Tracks clock b0 nobody c (move_all s ids)
  unfolding move_all
  move_all-Shown s [] g = g
  move_all-Shown s (id ∷ ids) g = move_all-Shown (move_driver s id) ids (move_driver-Shown s id g)
