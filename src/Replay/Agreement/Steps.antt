-- ===== src/Replay/Agreement/Steps.antt =====
-- internal/replay/state.go beside internal/simulation/simulation.go: a simulation whose published
-- events add up to what it holds, and the steps that keep it so.
use dispatch_lab.Prelude.{
  ℕ, String, ◌≡◌, refl, sym, ap, ◌∙◌, Bool, false, none, some, List, [], ◌∷◌, ◌++◌, str_eq, map,
  str_eq_iff, inl, inr, Bool-cases, some-injective,
}
use mathlib.Core.List.{map-append}
use dispatch_lab.Prelude.Float.{FloatOps}
use dispatch_lab.Prelude.Map.{lookup, insert, lookup-insert_hit, lookup-insert_miss}
use dispatch_lab.Domain.Defs.{Driver, Order, City, EventType}
use dispatch_lab.Simulation.State.{Sim, Event, Payload, stamped, emit, set_driver, set_order}
use dispatch_lab.Store.Memory.{StoredEvent}
use dispatch_lab.Replay.Json.{Raw}
use dispatch_lab.Replay.Wire.{recorded}
use dispatch_lab.Replay.State as Replay
use dispatch_lab.Replay.State.{
  Result, ok, oversteps, Result-cases, Builder, driver, order, change_driver, change_order,
}
use dispatch_lab.Replay.Fold.{apply, fold}
use dispatch_lab.Replay.Agreement.Views.{
  order_view, Like, Match, Named, Shows, known_driver, Others-Drivers, both, Orders-insert,
}
use dispatch_lab.Replay.Agreement.Events.{next}

-- An order keeps its name.
pub renamed :
    {F : Type 0} (k : String) (o o1 : Order F) (O : List (String × Order F)) (n : ℕ)
    → lookup k O ≡ some o
    → o1.id ≡ o.id
    → Named n O
    → Named n (insert k o1 O)
renamed k o o1 O n known same named j x h = elim (Bool-cases (str_eq k j)) [
  | inl e ↦
      let q : k ≡ j = (str_eq_iff k j).0 e in
      let (id, numbered) = named k o known in
      let at : o1 ≡ x = some-injective (sym (lookup-insert_hit k j o1 O e) ∙ h) in
      (ap (λ y. y.id) (sym at) ∙ same ∙ id ∙ q, rw q at numbered)
  | inr e ↦ named j x (sym (lookup-insert_miss k j o1 O e) ∙ h)
]

-- The builder whose map holds another driver, another order.
module _ {F : Type 0} where
  abbrev pub holding_driver : Builder F → String → Replay.Driver → Builder F
  holding_driver b id v = record b { drivers = insert id v b.drivers }

  abbrev pub holding_order : Builder F → String → Replay.Order F → Builder F
  holding_order b id v = record b { orders = insert id v b.orders }

  pub driver_known :
      (b : Builder F) (id : String) (v : Replay.Driver)
      → lookup id b.drivers ≡ some v
      → driver b id ≡ (b, v)
  unfolding driver
  driver_known b id v h = rw (driver, h) refl

  pub change_driver_known :
      (b : Builder F) (id : String) (f : Replay.Driver → Replay.Driver) (v : Replay.Driver)
      → lookup id b.drivers ≡ some v
      → change_driver b id f ≡ holding_driver b id (f v)
  unfolding change_driver
  change_driver_known b id f v h = ap (λ p. holding_driver p.0 id (f p.1)) (driver_known b id v h)

module _ {F : Type 0} ⦃fl : FloatOps F⦄ where
  order_known :
      (b : Builder F) (id : String) (v : Replay.Order F)
      → lookup id b.orders ≡ some v
      → order b id ≡ (b, v)
  unfolding order
  order_known b id v h = rw (order, h) refl

  pub change_order_known :
      (b : Builder F) (id : String) (f : Replay.Order F → Replay.Order F) (v : Replay.Order F)
      → lookup id b.orders ≡ some v
      → change_order b id f ≡ holding_order b id (f v)
  unfolding change_order
  change_order_known b id f v h = ap (λ p. holding_order p.0 id (f p.1)) (order_known b id v h)

  -- Folding on from where a fold ended.
  pub fold-append :
      (a b : Builder F) (es fs : List (StoredEvent F (Raw F)))
      → fold none 0 a es ≡ ok b
      → fold none 0 a (es ++ fs) ≡ fold none 0 b fs
  unfolding fold
  fold-append a b [] fs h = cc h
  fold-append a b (x ∷ xs) fs h = elim (Result-cases (apply a x)) [
    | inl (a1, q) ↦ rw (fold, q) (fold-append a1 b xs fs (rw (fold, q) at h))
    | inr (inl q) ↦ cc (rw (fold, q) at h)
    | inr (inr q) ↦ cc (rw (fold, q) at h)
  ]

  fold-one :
      (a b : Builder F) (e : StoredEvent F (Raw F))
      → apply a e ≡ ok b
      → fold none 0 a (e ∷ []) ≡ ok b
  unfolding fold
  fold-one a b e h = rw (fold, h) refl

module _ {F : Type 0} ⦃fl : FloatOps F⦄ (clock : ℕ → ℕ) (b0 : Builder F) where
  -- The builder after all of the events.
  abbrev pub replayed : List (Event F) → Result (Builder F)
  replayed es = fold none 0 b0 (map (recorded clock) es)

  -- One event more.
  pub replayed-emit :
      (s : Sim F) (kind : EventType) (p : Payload F) (b b1 : Builder F)
      → replayed s.pending ≡ ok b
      → apply b (recorded clock (stamped s kind p)) ≡ ok b1
      → replayed (emit s kind p).pending ≡ ok b1
  unfolding emit
  replayed-emit s kind p b b1 h k =
      rw (map-append (recorded clock) s.pending (stamped s kind p ∷ [])) (
        fold-append b0 b (map (recorded clock) s.pending) (recorded clock (stamped s kind p) ∷ []) h
        ∙ fold-one b b1 (recorded clock (stamped s kind p)) k)

  -- The published events, folded, show the simulation.
  pub record Tracks (away : String → Bool) (c : City F × City F) (s : Sim F) : Type 0 where
    pub builder : Builder F
    pub folded : replayed s.pending ≡ ok builder
    pub shows : Shows away c builder s

  -- A change of what replay does not show.
  pub kept :
      (away : String → Bool) (c : City F × City F) (s t : Sim F)
      → Tracks away c s
      → ((k : String) → lookup k t.drivers ≡ lookup k s.drivers)
      → t.orders ≡ s.orders
      → t.next_order_id ≡ s.next_order_id
      → t.paused ≡ s.paused
      → t.speed ≡ s.speed
      → t.sequence ≡ s.sequence
      → t.pending ≡ s.pending
      → t.city ≡ s.city
      → Tracks away c t
  kept away c s t g d o n p v q e m = record {
    builder = g.builder;
    folded = ap replayed e ∙ g.folded;
    shows = record {
      drivers = λ k. rw (d k) (g.shows.drivers k);
      orders = λ k. rw o (g.shows.orders k);
      named = rw (n, o) g.shows.named;
      roads = g.shows.roads;
      city = m ∙ g.shows.city;
      paused = g.shows.paused ∙ sym p;
      speed = g.shows.speed ∙ sym v;
      running = rw v g.shows.running;
      sequence = g.shows.sequence ∙ sym q;
    };
  }

  -- What replay shows of a simulation.
  abbrev pub seen :
      Sim F
      → List (String × Driver F)
        × List (String × Order F)
        × ℕ
        × Bool
        × F
        × ℕ
        × List (Event F)
        × City F
  seen s = (s.drivers, s.orders, s.next_order_id, s.paused, s.speed, s.sequence, s.pending, s.city)

  pub unseen :
      {away : String → Bool} {c : City F × City F} {s t : Sim F}
      → Tracks away c s
      → seen t ≡ seen s
      → Tracks away c t
  unseen {away} {c} {s} {t} g e =
      kept away c s t g (λ k. ap (λ p. lookup k p.0) e) (ap (λ p. p.1) e) (ap (λ p. p.2) e)
        (ap (λ p. p.3) e) (ap (λ p. p.4) e) (ap (λ p. p.5) e) (ap (λ p. p.6) e) (ap (λ p. p.7) e)

  -- Other drivers are away.
  pub regarded :
      (away away1 : String → Bool) (c : City F × City F) (s : Sim F)
      → Tracks away c s
      → ((b : Builder F) (k : String)
          → Match (away k) (lookup k b.drivers) (lookup k s.drivers)
          → Match (away1 k) (lookup k b.drivers) (lookup k s.drivers))
      → Tracks away1 c s
  regarded away away1 c s g h = record {
    builder = g.builder;
    folded = g.folded;
    shows = record {
      drivers = λ k. h g.builder k (g.shows.drivers k);
      orders = g.shows.orders;
      named = g.shows.named;
      roads = g.shows.roads;
      city = g.shows.city;
      paused = g.shows.paused;
      speed = g.shows.speed;
      running = g.shows.running;
      sequence = g.shows.sequence;
    };
  }

  module _ {away : String → Bool} {c : City F × City F} {s : Sim F} (g : Tracks away c s) where
    -- The event that sets one field of an order, with the change of the order.
    pub order_step :
        (k : String) (o o1 : Order F) (kind : EventType) (p : Payload F)
        (f : Replay.Order F → Replay.Order F)
        → lookup k s.orders ≡ some o
        → o1.id ≡ o.id
        → ((b : Builder F)
            → apply b (recorded clock (stamped s kind p)) ≡ ok (change_order (next clock b s) k f))
        → f (order_view o) ≡ order_view o1
        → Tracks away c (emit (set_order s k o1) kind p)
    unfolding emit set_order stamped
    order_step k o o1 kind p f known same law agree =
        let b = g.builder in
        let h : lookup k b.orders ≡ some (order_view o) = rw (g.shows.orders k, known) refl in
        let e = change_order_known (next clock b s) k f (order_view o) h in
        record {
          builder = holding_order (next clock b s) k (f (order_view o));
          folded = replayed-emit s kind p b _ g.folded (rw (law b, e) refl);
          shows = record {
            drivers = g.shows.drivers;
            orders = Orders-insert k (f (order_view o)) o1 b.orders s.orders g.shows.orders agree;
            named = renamed k o o1 s.orders s.next_order_id known same g.shows.named;
            roads = g.shows.roads;
            city = g.shows.city;
            paused = g.shows.paused;
            speed = g.shows.speed;
            running = g.shows.running;
            sequence = refl;
          };
        }

    -- The event that changes one driver, with the change of the driver.
    pub driver_step :
        (away1 : String → Bool) (id : String) (d d1 : Driver F) (kind : EventType) (p : Payload F)
        (f : Replay.Driver → Replay.Driver)
        → lookup id s.drivers ≡ some d
        → ((b : Builder F) (v : Replay.Driver)
            → lookup id b.drivers ≡ some v
            → oversteps v.route_index ≡ false
            → apply b (recorded clock (stamped s kind p))
              ≡ ok (change_driver (next clock b s) id f))
        → ((v : Replay.Driver) → Like (away id) v d → Like (away1 id) (f v) d1)
        → ((k : String) → str_eq id k ≡ false → away1 k ≡ away k)
        → Tracks away1 c (emit (set_driver s id d1) kind p)
    unfolding emit set_driver stamped
    driver_step away1 id d d1 kind p f known law agree same =
        let b = g.builder in
        let (v, h, l) =
          known_driver (away id) (lookup id b.drivers) d (rw known at (g.shows.drivers id)) in
        let e = change_driver_known (next clock b s) id f v h in
        record {
          builder = holding_driver (next clock b s) id (f v);
          folded = replayed-emit s kind p b _ g.folded (rw (law b v h l.index, e) refl);
          shows = record {
            drivers =
                Others-Drivers away b.drivers s.drivers id away1 (f v) d1 (λ k _. g.shows.drivers k)
                  same (agree v l);
            orders = g.shows.orders;
            named = g.shows.named;
            roads = g.shows.roads;
            city = g.shows.city;
            paused = g.shows.paused;
            speed = g.shows.speed;
            running = g.shows.running;
            sequence = refl;
          };
        }

    -- A change of a driver that replay need not show.
    pub silent_step :
        (id : String) (d d1 : Driver F)
        → lookup id s.drivers ≡ some d
        → ((v : Replay.Driver) → Like (away id) v d → Like (away id) v d1)
        → Tracks away c (set_driver s id d1)
    unfolding set_driver
    silent_step id d d1 known agree =
        let b = g.builder in
        record {
          builder = b;
          folded = g.folded;
          shows = record {
            drivers = λ k. relooked k;
            orders = g.shows.orders;
            named = g.shows.named;
            roads = g.shows.roads;
            city = g.shows.city;
            paused = g.shows.paused;
            speed = g.shows.speed;
            running = g.shows.running;
            sequence = g.shows.sequence;
          };
        }
      where
        relooked :
            (k : String)
            → Match (away k) (lookup k g.builder.drivers) (lookup k (insert id d1 s.drivers))
        relooked k = elim (Bool-cases (str_eq id k)) [
          | inl e ↦
              let q : id ≡ k = (str_eq_iff id k).0 e in
              let (v, h, l) =
                known_driver (away id) (lookup id g.builder.drivers) d
                  (rw known at (g.shows.drivers id)) in
              rw (lookup-insert_hit id k d1 s.drivers e, sym q, h) (both (agree v l))
          | inr e ↦ rw (lookup-insert_miss id k d1 s.drivers e) (g.shows.drivers k)
        ]
