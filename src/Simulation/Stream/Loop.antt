-- ===== src/Simulation/Stream/Loop.antt =====
-- The events of a command, of a tick and of the loop as a whole are numbered without a gap.
use dispatch_lab.Prelude.{
  ◌+◌, ◌≡◌, refl, String, List, [], ◌∷◌, ◌++◌, arith, length, length-append, of_if, ◌==◌, ◌&&◌,
  str_eq, ◌∙◌, ap,
}
use dispatch_lab.Prelude.Float.{FloatOps, flt, num}
use dispatch_lab.Domain.Defs.{City}
use dispatch_lab.Simulation.State.{Sim, Event, emit, take_pending}
use dispatch_lab.Simulation.Dispatch.{is_optimized, has_idle_driver}
use dispatch_lab.Simulation.Actor.{
  Command, place_order, set_paused, reset, set_speed, close_road, reopen_road, Input, command,
  query, ticker, Config, new_with_config, record_order, handle_place_order, reset_sim, handle,
  handle_traced, move_tick, redispatch, tick, start, round, rounds, run,
}
use dispatch_lab.Simulation.Stream.Extends.{
  Numbered, Numbered-append, Extends, same, then, emit-Extends, keep_all, set_order-Extends,
}
use dispatch_lab.Simulation.Stream.Movement.{move_all-Extends}
use dispatch_lab.Simulation.Stream.Dispatch.{
  assign_baseline-Extends, retry_pending_baseline-Extends, dispatch_immediate-Extends,
  dispatch_optimized-Extends,
}
use dispatch_lab.Simulation.Stream.Roads.{handle_close_road-Extends, handle_reopen_road-Extends}

module _ {F : Type 0} ⦃fl : FloatOps F⦄ where
  record_order-Extends :
      (s : Sim F) (pickup destination : String) → Extends s (record_order s pickup destination).0
  unfolding record_order
  record_order-Extends s pickup destination =
      then (same refl refl) (then (set_order-Extends _ _ _) (emit-Extends _ _ _))

  handle_place_order-Extends :
      (s : Sim F) (pickup destination : String)
      → Extends s (handle_place_order s pickup destination)
  unfolding handle_place_order
  handle_place_order-Extends s pickup destination =
      let placed = record_order-Extends s pickup destination in
      let (s1, o) = record_order s pickup destination in
      let s2 = record s1 { pending_orders = s1.pending_orders ++ o.id ∷ [] } in
      let queued : Extends s1 s2 = same refl refl in
      then placed (
        of_if (Extends s1) (is_optimized s1.strategy) _ _
          (λ _.
            of_if (Extends s1) (length s2.pending_orders == 1 && has_idle_driver s2) _ _
              (λ _. then queued (dispatch_immediate-Extends s2)) (λ _. queued))
          (λ _. assign_baseline-Extends s1 o.id o))

  -- A command leaves the numbering intact: it puts events behind the buffer, numbered from the
  -- counter on, and counts them.
  pub handle-Extends : (s : Sim F) (c : Command F) → Extends s (handle s c)
  unfolding handle reset_sim
  handle-Extends s (place_order pickup destination) =
      handle_place_order-Extends s pickup destination
  handle-Extends s (set_paused b) = then (same refl refl) (emit-Extends _ _ _)
  handle-Extends s reset = then (same refl refl) (emit-Extends _ _ _)
  handle-Extends s (set_speed m) =
      of_if (Extends s) (flt (num 0) m) _ _ (λ _. then (same refl refl) (emit-Extends _ _ _))
        (λ _. keep_all)
  handle-Extends s (close_road edge_id command_id) = handle_close_road-Extends s edge_id command_id
  handle-Extends s (reopen_road edge_id) = handle_reopen_road-Extends s edge_id

  handle_traced-Extends : (s : Sim F) (c : Command F) (t : String) → Extends s (handle_traced s c t)
  unfolding handle_traced
  handle_traced-Extends s c t =
      of_if (Extends s) (str_eq t "") _ _ (λ _. handle-Extends s c)
        (λ _. then (same refl refl) (then (handle-Extends _ c) (same refl refl)))

  move_tick-Extends : (s : Sim F) → Extends s (move_tick s)
  unfolding move_tick
  move_tick-Extends s = then (same refl refl) (move_all-Extends _ _)

  redispatch-Extends : (s : Sim F) → Extends s (redispatch s)
  unfolding redispatch
  redispatch-Extends s =
      of_if (Extends s) (is_optimized s.strategy) _ _ (λ _. dispatch_optimized-Extends s)
        (λ _. retry_pending_baseline-Extends s)

  tick-Extends : (s : Sim F) → Extends s (tick s)
  unfolding tick
  tick-Extends s =
      of_if (Extends s) s.paused _ _ (λ _. keep_all)
        (λ _. then (move_tick-Extends s) (redispatch-Extends (move_tick s)))

  -- Between two rounds the buffer is empty.
  abbrev pub Drained : Sim F → Type 0
  Drained s = s.pending ≡ []

  -- What a step publishes from a drained state, and the state after it.
  abbrev Published : Sim F → Sim F × List (Event F) → Type 0
  Published s (t, events) =
      Numbered s.sequence events × (t.sequence ≡ s.sequence + length events) × Drained t

  published : (s t : Sim F) → Drained s → Extends s t → Published s (take_pending t)
  unfolding take_pending
  published s t d x =
      let e : t.pending ≡ x.events = x.buffer ∙ ap (λ p. p ++ x.events) d in
      (rw e x.numbered, rw e x.counter, refl)

  round_numbered :
      (s : Sim F) (i : Input F) → Drained s → Published s ((round s i).0, (round s i).1)
  unfolding round
  round_numbered s (command c trace) d =
      published s (handle_traced s c trace) d (handle_traced-Extends s c trace)
  round_numbered s query d = (tt, omega arith, d)
  round_numbered s ticker d = published s (tick s) d (tick-Extends s)

  rounds_numbered : (s : Sim F) (is : List (Input F)) → Drained s → Published s (rounds s is)
  unfolding rounds
  rounds_numbered s [] d = (tt, omega arith, d)
  rounds_numbered s (i ∷ is) d =
      let (n, c, d') = round_numbered s i d in
      let (n', c', d'') = rounds_numbered (round s i).0 is d' in
      (
        Numbered-append s.sequence (round s i).1 (rounds (round s i).0 is).1 n (rw c at n'),
        omega (arith, c, c', length-append (round s i).1 (rounds (round s i).0 is).1),
        d'',
      )

  -- A new simulation publishes, for every sequence of commands, queries and ticks, events numbered
  -- 1, 2, 3 and so on without a gap; its counter is the number of events, and none stays buffered.
  pub run-Numbered :
      (cfg : Config F) (c : City F) (spacing : F) (is : List (Input F))
      → let (t, events) = run (new_with_config cfg c spacing) is in
        Numbered 0 events × (t.sequence ≡ length events) × (t.pending ≡ [])
  unfolding run new_with_config start
  run-Numbered cfg c spacing is =
      let s = new_with_config cfg c spacing in
      let (n, k, d) = published s (emit s _ _) refl (emit-Extends s _ _) in
      let (n', k', d') = rounds_numbered (start s).0 is d in
      (
        Numbered-append 0 (start s).1 (rounds (start s).0 is).1 n (rw k at n'),
        omega (arith, k, k', length-append (start s).1 (rounds (start s).0 is).1),
        d',
      )
