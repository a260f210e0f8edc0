-- ===== src/Replay/Agreement/Views.antt =====
-- When the builder of internal/replay/state.go shows the maps of internal/simulation.
use dispatch_lab.Prelude.{
  ℕ, ◌≤◌, String, ◌≡◌, refl, sym, Bool, false, Option, none, some, List, [], ◌∷◌, arith, inl, inr,
  str_eq, str_eq_iff, Bool-cases, if◌then◌else◌,
}
use dispatch_lab.Prelude.Float.{FloatOps, feq, num}
use dispatch_lab.Prelude.Map.{lookup, insert, lookup-insert, lookup-insert_hit, lookup-insert_miss}
use dispatch_lab.Prelude.Text.{short_id}
use dispatch_lab.Domain.Defs.{Driver, Order, Edge, City}
use dispatch_lab.Domain.City.{edge_by_id}
use dispatch_lab.Simulation.State.{Sim}
use dispatch_lab.Replay.Wire.{driver_status_name, order_status_name}
use dispatch_lab.Replay.State as Replay
use dispatch_lab.Replay.State.{oversteps, Builder}

unfoldable pub find_edge : String → List Replay.Edge → Option Replay.Edge
find_edge id [] = none
find_edge id (e ∷ es) = if str_eq e.id id then some e else find_edge id es

abbrev pub replay_closed : Option Replay.Edge → Option Bool
replay_closed none = none
replay_closed (some e) = some e.closed

-- Nobody is away.
abbrev pub nobody : String → Bool
nobody k = false

module _ {F : Type 0} where
  -- An order as replay shows it.
  unfoldable pub order_view : Order F → Replay.Order F
  order_view o = record {
    id = o.id;
    pickup = o.pickup;
    destination = o.destination;
    status = order_status_name o.status;
    assigned_driver = o.assigned_driver;
    created_at = o.created_at;
  }

  abbrev pub order_shown : Option (Order F) → Option (Replay.Order F)
  order_shown none = none
  order_shown (some o) = some (order_view o)

  -- A driver as replay shows it, its place on the route apart. While a driver is `away`, its
  -- position is left out too: it is published at the end of its move.
  pub record Like (away : Bool) (v : Replay.Driver) (d : Driver F) : Type 0 where
    pub id : v.id ≡ d.id
    pub status : v.status ≡ driver_status_name d.status
    pub route : v.route ≡ d.route
    pub index : oversteps v.route_index ≡ false
    pub assigned_order : v.assigned_order ≡ d.assigned_order
    pub position : away ≡ false → v.position ≡ d.position

  pub data Match (away : Bool) : Option Replay.Driver → Option (Driver F) → Type 0 where
    neither : Match away none none
    both : {v : Replay.Driver} → {d : Driver F} → Like away v d → Match away (some v) (some d)

  abbrev pub Drivers :
      (String → Bool) → List (String × Replay.Driver) → List (String × Driver F) → Type 0
  Drivers away m D = (k : String) → Match (away k) (lookup k m) (lookup k D)

  -- The same for every driver but one.
  abbrev pub Others :
      String → (String → Bool) → List (String × Replay.Driver) → List (String × Driver F) → Type 0
  Others id away m D = (k : String) → str_eq id k ≡ false → Match (away k) (lookup k m) (lookup k D)

  abbrev pub Orders : List (String × Replay.Order F) → List (String × Order F) → Type 0
  Orders m O = (k : String) → lookup k m ≡ order_shown (lookup k O)

  -- Every order has the key that it names, made from a number up to the counter.
  abbrev pub Named : ℕ → List (String × Order F) → Type 0
  Named n O =
      (k : String) (o : Order F)
      → lookup k O ≡ some o
      → (o.id ≡ k) × ((i : ℕ) × (i ≤ n) × (k ≡ short_id "order" i))

  abbrev pub city_closed : Option (Edge F) → Option Bool
  city_closed none = none
  city_closed (some e) = some e.closed

  abbrev pub Roads : List Replay.Edge → City F → Type 0
  Roads es c = (id : String) → replay_closed (find_edge id es) ≡ city_closed (edge_by_id c id)

  pub known_driver :
      (away : Bool) (v : Option Replay.Driver) (d : Driver F)
      → Match away v (some d)
      → (w : Replay.Driver) × (v ≡ some w) × Like away w d
  known_driver away v d (both {v = w} l) = (w, refl, l)

  pub Match-Like :
      (away : Bool) (v : Replay.Driver) (d : Driver F)
      → Match away (some v) (some d)
      → Like away v d
  Match-Like away v d (both l) = l

  -- Less is asked of a driver that is away.
  pub Match-loosen :
      (a : Bool) (v : Option Replay.Driver) (d : Option (Driver F)) → Match false v d → Match a v d
  Match-loosen a none none neither = neither
  Match-loosen a none (some d) m = elim m [ ]
  Match-loosen a (some v) none m = elim m [ ]
  Match-loosen a (some v) (some d) (both l) = both (record {
    id = l.id;
    status = l.status;
    route = l.route;
    index = l.index;
    assigned_order = l.assigned_order;
    position = λ _. l.position refl;
  })

  module _ (away : String → Bool) (m : List (String × Replay.Driver))
      (D : List (String × Driver F)) where
    pub Others-shown :
        (id : String) (v : Replay.Driver) → Others id away m D → Others id away (insert id v m) D
    Others-shown id v h k e = rw (lookup-insert_miss id k v m e) (h k e)

    pub Others-held :
        (id : String) (d : Driver F) → Others id away m D → Others id away m (insert id d D)
    Others-held id d h k e = rw (lookup-insert_miss id k d D e) (h k e)

    -- The one driver is looked at again.
    pub Others-Drivers :
        (id : String) (away' : String → Bool) (v : Replay.Driver) (d : Driver F)
        → Others id away m D
        → ((k : String) → str_eq id k ≡ false → away' k ≡ away k)
        → Like (away' id) v d
        → Drivers away' (insert id v m) (insert id d D)
    Others-Drivers id away' v d h same l k = elim (Bool-cases (str_eq id k)) [
      | inl e ↦
          rw
            (
              lookup-insert_hit id k v m e,
              lookup-insert_hit id k d D e,
              sym ((str_eq_iff id k).0 e),
            )
            (both l)
      | inr e ↦ rw (lookup-insert_miss id k v m e, lookup-insert_miss id k d D e, same k e) (h k e)
    ]

  pub Orders-insert :
      (k : String) (v : Replay.Order F) (o : Order F) (m : List (String × Replay.Order F))
      (O : List (String × Order F))
      → Orders m O
      → v ≡ order_view o
      → Orders (insert k v m) (insert k o O)
  Orders-insert k v o m O h e j =
      ground (arith, lookup-insert k j v m, lookup-insert k j o O, h j, e)

  -- Of two writes to a key the second one counts.
  pub Orders-overwrite :
      (k : String) (w v : Replay.Order F) (o : Order F) (m : List (String × Replay.Order F))
      (O : List (String × Order F))
      → Orders m O
      → v ≡ order_view o
      → Orders (insert k v (insert k w m)) (insert k o O)
  Orders-overwrite k w v o m O h e j = ground (
    arith,
    lookup-insert k j v (insert k w m),
    lookup-insert k j w m,
    lookup-insert k j o O,
    h j,
    e,
  )

module _ {F : Type 0} where
  -- The builder shows the simulation, whose city is the second one of `c`, with the roads of the
  -- first one.
  pub record Shows ⦃fl : FloatOps F⦄ (away : String → Bool) (c : City F × City F) (b : Builder F)
      (s : Sim F) : Type 0 where
    pub drivers : Drivers away b.drivers s.drivers
    pub orders : Orders b.orders s.orders
    pub named : Named s.next_order_id s.orders
    pub roads : Roads b.edges c.0
    pub city : s.city ≡ c.1
    pub paused : b.paused ≡ s.paused
    pub speed : b.speed ≡ s.speed
    pub running : feq s.speed (num 0) ≡ false
    pub sequence : b.sequence ≡ s.sequence

pub Match-absent :
    {F : Type 0} (a a1 : Bool) (v : Option Replay.Driver)
    → Match {F = F} a v none
    → Match {F = F} a1 v none
Match-absent a a1 none neither = neither
Match-absent a a1 (some v) m = elim m [ ]
