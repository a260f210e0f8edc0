-- ===== src/Replay/Agreement/Live.antt =====
-- internal/replay/state.go and internal/simulation/simulation.go: replay of a run's events shows the
-- simulation that published them.
use dispatch_lab.Prelude.{
  ℕ, zero, suc, ◌+◌, String, ◌≡◌, refl, sym, ap, ◌∙◌, false, Option, none, some, List, [], ◌∷◌,
  IsDistinct, length, ltb, str_eq, str_eq_iff, str_lt, if◌then◌else◌, Bool-cases, inl, inr,
}
use dispatch_lab.Prelude.Float.{FloatOps, feq, num}
use dispatch_lab.Prelude.Map.{lookup, insert, keys, by_key}
use dispatch_lab.Prelude.Keyed.{insert-IsDistinct}
use dispatch_lab.Prelude.Text.{short_id}
use dispatch_lab.Prelude.Sort as Sort
use dispatch_lab.Domain.Defs.{Driver, Order, EventType}
use dispatch_lab.Simulation.State.{Sim, emit, stamped, whole_state, snapshot_payload}
use dispatch_lab.Simulation.Actor.{idle_at, place_from, place_drivers}
use dispatch_lab.Replay.Wire.{recorded, event_from}
use dispatch_lab.Replay.State as Replay
use dispatch_lab.Replay.State.{returned, ok, Builder, new_state_builder}
use dispatch_lab.Replay.Fold.{load, load_each, apply, apply_kind, apply_snapshot}
use dispatch_lab.Replay.Agreement.Views.{
  Shows, Match, both, neither, Named, order_shown, order_view, nobody,
}
use dispatch_lab.Replay.Agreement.Events.{next}
use dispatch_lab.Replay.Agreement.Steps.{replayed, replayed-emit}
use dispatch_lab.Replay.Agreement.Closures.{Current}
use dispatch_lab.Replay.Agreement.Snapshots.{plain, snapshot_view, decode_snapshot-encode}
use dispatch_lab.Replay.Agreement.Loaded.{Keyed, loaded-lookup, loaded-Roads, views-plain}

module _ {F : Type 0} where
  plain-Match :
      (v : Option Replay.Driver) (o : Option (Driver F))
      → v ≡ elim o [ none ↦ none | some d ↦ some (plain d) ]
      → Match false v o
  unfolding plain
  plain-Match v none h = rw h neither
  plain-Match v (some d) h = rw h (
      both (record {
        id = refl;
        status = refl;
        route = refl;
        index = refl;
        assigned_order = refl;
        position = λ _. refl;
      }))

module _ {F : Type 0} ⦃fl : FloatOps F⦄ where
  -- A simulation whose maps are keyed by the ids that their values name.
  pub record Intact (s : Sim F) : Type 0 where
    pub distinct_drivers : IsDistinct (keys s.drivers)
    pub keyed_drivers : Keyed (λ (d : Replay.Driver). d.id) plain s.drivers
    pub distinct_orders : IsDistinct (keys s.orders)
    pub keyed_orders : Keyed (λ (o : Replay.Order F). o.id) order_view s.orders
    pub named : Named s.next_order_id s.orders
    pub running : feq s.speed (num 0) ≡ false

  -- A builder that loads the snapshot shows the simulation.
  pub load-Shows :
      (b : Builder F) (s : Sim F)
      → Intact s
      → b.sequence ≡ s.sequence
      → Shows nobody (s.city, s.city) (load b (snapshot_view (whole_state s))) s
  unfolding load snapshot_view
  load-Shows b s w q = record {
    drivers = λ k. plain-Match _ (lookup k s.drivers) (
        ap (λ vs. lookup k (load_each (λ (d : Replay.Driver). d.id) ([], []) vs).1)
          (views-plain s (Sort.sort (by_key) s.drivers))
        ∙ loaded-lookup (λ (d : Replay.Driver). d.id) plain s.drivers k w.distinct_drivers
            w.keyed_drivers);
    orders = λ k.
        loaded-lookup (λ (o : Replay.Order F). o.id) order_view s.orders k w.distinct_orders
          w.keyed_orders
        ∙ shown (lookup k s.orders);
    named = w.named;
    roads = loaded-Roads s.city;
    city = refl;
    paused = refl;
    speed = rw w.running refl;
    running = w.running;
    sequence = q;
  }
    where
      shown :
          (o : Option (Order F))
          → elim o [ none ↦ none | some v ↦ some (order_view v) ] ≡ order_shown o
      shown none = refl
      shown (some o) = refl

module _ {F : Type 0} ⦃fl : FloatOps F⦄ (clock : ℕ → ℕ) where
  apply-snapshot :
      (b : Builder F) (s : Sim F)
      → apply b (recorded clock (stamped s EventType.simulation_snapshot (snapshot_payload s)))
        ≡ ok (load (next clock b s) (snapshot_view (whole_state s)))
  unfolding apply apply_kind apply_snapshot recorded event_from stamped snapshot_payload
  apply-snapshot b s = rw (decode_snapshot-encode (whole_state s)) refl

  -- The snapshot event of a start or a reset: whatever was replayed before is replaced.
  pub snapshot_step :
      (b0 : Builder F) (s : Sim F) (b : Builder F)
      → Intact s
      → replayed clock b0 s.pending ≡ ok b
      → Current clock b0 (emit s EventType.simulation_snapshot (snapshot_payload s))
  unfolding emit stamped snapshot_view load snapshot_payload
  snapshot_step b0 s b w h =
      let b1 = next clock b s in
      let g = load-Shows (record b1 { sequence = s.sequence }) s w refl in
      record {
        builder = load b1 (snapshot_view (whole_state s));
        folded =
            replayed-emit clock b0 s EventType.simulation_snapshot (snapshot_payload s) b _ h
              (apply-snapshot b s);
        shows = record {
          drivers = g.drivers;
          orders = g.orders;
          named = g.named;
          roads = g.roads;
          city = refl;
          paused = g.paused;
          speed = g.speed;
          running = g.running;
          sequence = refl;
        };
      }

module _ {F : Type 0} ⦃fl : FloatOps F⦄ where
  Keyed-insert :
      (id : String) (d : Driver F) (m : List (String × Driver F))
      → d.id ≡ id
      → Keyed (λ (d : Replay.Driver). d.id) plain m
      → Keyed (λ (d : Replay.Driver). d.id) plain (insert id d m)
  unfolding insert plain
  Keyed-insert id d [] e n = (e, tt)
  Keyed-insert id d ((j, w) ∷ m) e n = elim (Bool-cases (str_eq j id)) [
    | inl q ↦ rw q (e ∙ sym ((str_eq_iff j id).0 q), n.1)
    | inr q ↦ rw q (n.0, Keyed-insert id d m e n.1)
  ]

placed_keys :
    (F : Type 0) ⦃fl : FloatOps F⦄ (ids : List String) (count i n : ℕ)
    → IsDistinct (keys (place_from {F = F} ids count i n))
      × Keyed (λ (d : Replay.Driver). d.id) (plain {F = F}) (place_from ids count i n)
unfolding place_from idle_at
placed_keys F ids count i zero = (tt, tt)
placed_keys F ids count i (suc n) =
    let (d, k) = placed_keys F ids count (i + 1) n in
    let id = short_id "driver" i in
    (
      insert-IsDistinct id _ (place_from ids count (i + 1) n) d,
      Keyed-insert id _ (place_from ids count (i + 1) n) refl k,
    )

module _ {F : Type 0} ⦃fl : FloatOps F⦄ where
  -- Parked drivers and no orders.
  pub parked-Intact :
      (s : Sim F) (n : ℕ)
      → s.drivers ≡ place_drivers s.city n
      → s.orders ≡ []
      → feq s.speed (num 0) ≡ false
      → Intact s
  unfolding place_drivers lookup
  parked-Intact s n d o r =
      let ids = Sort.sort str_lt (keys s.city.nodes) in
      let (x, y) = placed_keys F ids n 0 (if ltb n (length ids) then n else length ids) in
      record {
        distinct_drivers = rw d x;
        keyed_drivers = rw d y;
        distinct_orders = rw o tt;
        keyed_orders = rw o tt;
        named = rw o (λ k x h. cc h);
        running = r;
      }
