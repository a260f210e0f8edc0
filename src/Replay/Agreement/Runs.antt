-- ===== src/Replay/Agreement/Runs.antt =====
-- internal/replay/state.go and internal/simulation/simulation.go: over every sequence of inputs, replay
-- of the published events shows the simulation.
use dispatch_lab.Prelude.{
  ℕ, String, ◌≡◌, refl, sym, ap, ◌∙◌, true, false, none, List, [], ◌∷◌, ◌++◌, map, str_eq, str_lt,
  of_if,
}
use mathlib.Core.List.{map-append}
use dispatch_lab.Prelude.Float.{FloatOps, flt, feq, num, ◌⊕◌}
use dispatch_lab.Prelude.Int.{pos}
use dispatch_lab.Prelude.Map.{lookup, keys}
use dispatch_lab.Prelude.Sort as Sort
use dispatch_lab.Domain.Defs.{City, EventType}
use dispatch_lab.Simulation.State.{Sim, Event, emit, stamped, take_pending, paused_is, speed_is}
use dispatch_lab.Simulation.Dispatch.{is_optimized}
use dispatch_lab.Simulation.Actor.{
  Command, place_order, set_paused, reset, set_speed, close_road, reopen_road, Input, command,
  query, ticker, Config, place_drivers, new_with_config, reset_sim, handle, handle_traced,
  move_tick, redispatch, tick, start, round, rounds, run,
}
use dispatch_lab.Replay.Wire.{recorded}
use dispatch_lab.Replay.State as Replay
use dispatch_lab.Replay.State.{Builder, ok, new_state_builder}
use dispatch_lab.Replay.Fold.{fold, base_builder, state_at}
use dispatch_lab.Replay.Agreement.Views.{Roads, Shows, Match, order_shown, nobody}
use dispatch_lab.Replay.Agreement.Events.{next, apply-paused_is, apply-speed_is}
use dispatch_lab.Replay.Agreement.Steps.{Tracks, unseen, replayed, replayed-emit, fold-append}
use dispatch_lab.Replay.Agreement.Drives.{move_all-Shown}
use dispatch_lab.Replay.Agreement.Dispatches.{
  handle_place_order-Shown, retry_pending_baseline-Shown, dispatch_optimized-Shown,
}
use dispatch_lab.Replay.Agreement.Closures.{
  Current, handle_close_road-Current, handle_reopen_road-Current,
}
use mathlib.Core.Path.{subst}
use dispatch_lab.Replay.Coherent.{
  find, driver_id, order_id, fold-Whole, base_builder-Whole, Whole-state,
}
use dispatch_lab.Replay.Agreement.Live.{snapshot_step, parked-Intact}

-- The laws of the tests on floats that the speed needs.
pub record SpeedLaws (F : Type 0) ⦃fl : FloatOps F⦄ : Type 0 where
  pub one_ne_zero : fl.eq (fl.of_int (pos 1)) (fl.of_int (pos 0)) ≡ false
  pub positive_ne_zero :
      (m : F) → fl.lt (fl.of_int (pos 0)) m ≡ true → fl.eq m (fl.of_int (pos 0)) ≡ false

module _ {F : Type 0} ⦃fl : FloatOps F⦄ (clock : ℕ → ℕ) (laws : SpeedLaws F) (b0 : Builder F) where
  current : (c : City F) (s : Sim F) → Tracks clock b0 nobody (c, c) s → Current clock b0 s
  current c s g = subst (λ x. Tracks clock b0 nobody (x, x) s) (sym g.shows.city) g

  reset_sim-Current : (s : Sim F) → Current clock b0 s → Current clock b0 (reset_sim s)
  unfolding reset_sim
  reset_sim-Current s g =
      snapshot_step clock b0 _ g.builder (parked-Intact _ s.driver_count refl refl g.shows.running)
        g.folded

  pub handle-Current :
      (s : Sim F) (c : Command F) → Current clock b0 s → Current clock b0 (handle s c)
  unfolding handle emit stamped
  handle-Current s (place_order pickup destination) g =
      current s.city _
        (handle_place_order-Shown clock b0 nobody (s.city, s.city) s pickup destination g)
  handle-Current s (set_paused p) g = record {
    builder = record (next clock g.builder s) { paused = p };
    folded =
        replayed-emit clock b0 (record s { paused = p }) EventType.simulation_paused (paused_is p)
          g.builder _ g.folded (apply-paused_is clock g.builder (record s { paused = p }) p);
    shows = record {
      drivers = g.shows.drivers;
      orders = g.shows.orders;
      named = g.shows.named;
      roads = g.shows.roads;
      city = g.shows.city;
      paused = refl;
      speed = g.shows.speed;
      running = g.shows.running;
      sequence = refl;
    };
  }
  handle-Current s reset g = reset_sim-Current s g
  handle-Current s (set_speed m) g =
      of_if (Current clock b0) (flt (num 0) m) _ _
        (λ positive. record {
          builder = record (next clock g.builder s) { speed = m };
          folded =
              replayed-emit clock b0 (record s { speed = m }) EventType.simulation_speed_changed
                (speed_is m) g.builder _ g.folded
                (apply-speed_is clock g.builder (record s { speed = m }) m);
          shows = record {
            drivers = g.shows.drivers;
            orders = g.shows.orders;
            named = g.shows.named;
            roads = g.shows.roads;
            city = g.shows.city;
            paused = g.shows.paused;
            speed = refl;
            running = laws.positive_ne_zero m positive;
            sequence = refl;
          };
        })
        (λ _. g)
  handle-Current s (close_road edge_id command_id) g =
      handle_close_road-Current clock b0 s edge_id command_id g
  handle-Current s (reopen_road edge_id) g = handle_reopen_road-Current clock b0 s edge_id g

  pub handle_traced-Current :
      (s : Sim F) (c : Command F) (t : String)
      → Current clock b0 s
      → Current clock b0 (handle_traced s c t)
  unfolding handle_traced
  handle_traced-Current s c t g =
      of_if (Current clock b0) (str_eq t "") _ _ (λ _. handle-Current s c g)
        λ _.
          unseen clock b0
            (handle-Current (record s { current_trace = t }) c (unseen clock b0 g refl)) refl

  pub tick-Current : (s : Sim F) → Current clock b0 s → Current clock b0 (tick s)
  unfolding tick move_tick redispatch
  tick-Current s g =
      of_if (Current clock b0) s.paused _ _ (λ _. g)
        λ _.
          let c : City F × City F = (s.city, s.city) in
          let s1 = record s { virtual_time = s.virtual_time ⊕ num 1 } in
          let g1 =
            move_all-Shown clock b0 c s1 (Sort.sort str_lt (keys s.drivers))
              (unseen clock b0 g refl) in
          of_if (Current clock b0) (is_optimized (move_tick s).strategy) _ _
            (λ _. current s.city _ (dispatch_optimized-Shown clock b0 nobody c (move_tick s) g1))
            (λ _.
              current s.city _ (retry_pending_baseline-Shown clock b0 nobody c (move_tick s) g1))

module _ {F : Type 0} ⦃fl : FloatOps F⦄ (clock : ℕ → ℕ) (laws : SpeedLaws F) where
  -- Between two rounds: everything is published, and a builder shows the simulation.
  pub record Synced (b : Builder F) (s : Sim F) : Type 0 where
    pub shows : Shows nobody (s.city, s.city) b s
    pub empty : s.pending ≡ []

  before : (b : Builder F) (s : Sim F) → Synced b s → Current clock b s
  unfolding fold
  before b s g = record {
    builder = b;
    folded = ap (λ es. fold none 0 b (map (recorded clock) es)) g.empty;
    shows = g.shows;
  }

  -- What the folded events of a step lead to.
  abbrev Reaches : Builder F → Sim F → List (Event F) → Type 0
  Reaches b0 s events = (b : Builder F) × (replayed clock b0 events ≡ ok b) × Synced b s

  drained :
      (b0 : Builder F) (s : Sim F)
      → Current clock b0 s
      → Reaches b0 (take_pending s).0 (take_pending s).1
  unfolding take_pending
  drained b0 s g = (
    g.builder,
    g.folded,
    record {
      shows = record {
        drivers = g.shows.drivers;
        orders = g.shows.orders;
        named = g.shows.named;
        roads = g.shows.roads;
        city = g.shows.city;
        paused = g.shows.paused;
        speed = g.shows.speed;
        running = g.shows.running;
        sequence = g.shows.sequence;
      };
      empty = refl;
    },
  )

  round-Reaches :
      (b : Builder F) (s : Sim F) (i : Input F) → Synced b s → Reaches b (round s i).0 (round s i).1
  unfolding round fold
  round-Reaches b s (command c trace) g =
      drained b (handle_traced s c trace)
        (handle_traced-Current clock laws b s c trace (before b s g))
  round-Reaches b s query g = (b, refl, g)
  round-Reaches b s ticker g = drained b (tick s) (tick-Current clock laws b s (before b s g))

  joined :
      (b0 b1 : Builder F) (s : Sim F) (xs ys : List (Event F))
      → replayed clock b0 xs ≡ ok b1
      → Reaches b1 s ys
      → Reaches b0 s (xs ++ ys)
  joined b0 b1 s xs ys h (b, k, g) = (
    b,
    rw (map-append (recorded clock) xs ys)
        (fold-append b0 b1 (map (recorded clock) xs) (map (recorded clock) ys) h ∙ k),
    g,
  )

  rounds-Reaches :
      (b : Builder F) (s : Sim F) (is : List (Input F))
      → Synced b s
      → Reaches b (rounds s is).0 (rounds s is).1
  unfolding rounds fold
  rounds-Reaches b s [] g = (b, refl, g)
  rounds-Reaches b s (i ∷ is) g =
      let (b1, h, g1) = round-Reaches b s i g in
      joined b b1 _ (round s i).1 (rounds (round s i).0 is).1 h
        (rounds-Reaches b1 (round s i).0 is g1)

  start-Reaches :
      (b : Builder F) (s : Sim F) (n : ℕ)
      → s.drivers ≡ place_drivers s.city n
      → s.orders ≡ []
      → s.pending ≡ []
      → feq s.speed (num 0) ≡ false
      → Reaches b (start s).0 (start s).1
  unfolding start fold
  start-Reaches b s n d o p r = drained b _ (
      snapshot_step clock b s b (parked-Intact s n d o r)
        (ap (λ es. fold none 0 b (map (recorded clock) es)) p))

  run-Shows :
      (id : String) (cfg : Config F) (c : City F) (spacing : F) (is : List (Input F))
      → let (s, events) = run (new_with_config cfg c spacing) is in
        (b : Builder F) × (fold none 0 (new_state_builder id) (map (recorded clock) events) ≡ ok b)
        × Shows nobody (s.city, s.city) b s
  unfolding run new_with_config
  run-Shows id cfg c spacing is =
      let s = new_with_config cfg c spacing in
      let b0 = new_state_builder id in
      let (b1, h, g) = start-Reaches b0 s cfg.driver_count refl refl refl laws.one_ne_zero in
      let (b, k, e) =
        joined b0 b1 _ (start s).1 (rounds (start s).0 is).1 h
          (rounds-Reaches b1 (start s).0 is g) in
      (b, k, e.shows)

  -- Reconstructing the state from all persisted events of a run, whatever its commands and ticks
  -- were and whatever its strategy, succeeds and gives the simulation as it is at the end: every
  -- order with all its fields, every driver with its position, status, route and order, every road
  -- with whether it is closed, the pause, the speed and the number of the last event, and no order
  -- and no driver besides. It takes that 1 and the positive numbers differ from 0, since a speed
  -- of 0 in a snapshot reads as 1.
  pub state_at-run :
      (id : String) (cfg : Config F) (c : City F) (spacing : F) (is : List (Input F))
      → let (s, events) = run (new_with_config cfg c spacing) is in
        (t : Replay.State F) × (state_at id none (map (recorded clock) events) 0 ≡ ok t)
        × ((k : String) → find order_id k t.orders ≡ order_shown (lookup k s.orders))
        × ((k : String) → Match false (find driver_id k t.drivers) (lookup k s.drivers))
        × Roads t.edges s.city
        × (t.paused ≡ s.paused)
        × (t.speed ≡ s.speed)
        × (t.sequence ≡ s.sequence)
  unfolding state_at base_builder
  state_at-run id cfg c spacing is =
      let b0 = new_state_builder id in
      let events = (run (new_with_config cfg c spacing) is).1 in
      let (b, h, shows) = run-Shows id cfg c spacing is in
      let w = fold-Whole none 0 b0 (map (recorded clock) events) (base_builder-Whole id none) in
      let (t, e, ds, os, edges, paused, speed, sequence) = Whole-state b (rw h at w) in
      (
        t,
        rw (state_at, h) e,
        λ k. os k ∙ shows.orders k,
        λ k. rw (ds k) (shows.drivers k),
        rw edges shows.roads,
        paused ∙ shows.paused,
        speed ∙ shows.speed,
        sequence ∙ shows.sequence,
      )
