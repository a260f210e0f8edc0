-- ===== src/Replay/State.antt =====
-- internal/replay/state.go: the state that a snapshot and the events after it add up to. A map is
-- an association list beside the list of its ids in the order of their first appearance.
use dispatch_lab.Prelude.{
  ℕ, zero, suc, ◌≡◌, refl, ◌⊎◌, inl, inr, String, Bool, true, false, ◌&&◌, Option, none, some, List,
  [], ◌∷◌, ◌++◌, length, get_or, ltb, str_eq, if◌then◌else◌,
}
use dispatch_lab.Prelude.Int.{ℤ, pos, negsuc}
use dispatch_lab.Prelude.Float.{FloatOps, num}
use dispatch_lab.Prelude.Map.{lookup, insert}

pub record Node (F : Type 0) : Type 0 where
  pub id : String
  pub x : F
  pub y : F

pub record Edge : Type 0 where
  pub id : String
  pub from : String
  pub to : String
  pub closed : Bool

-- A status is any text, the empty one before the first event that sets it.
pub record Driver : Type 0 where
  pub id : String
  pub position : String
  pub status : String
  pub route : List String
  -- Any number that a stored snapshot may hold, also below 0; the largest `int` is left out.
  pub route_index : ℤ
  pub assigned_order : String

pub record Order (F : Type 0) : Type 0 where
  pub id : String
  pub pickup : String
  pub destination : String
  pub status : String
  pub assigned_driver : String
  pub created_at : F

pub record State (F : Type 0) : Type 0 where
  pub simulation_id : String
  pub sequence : ℕ
  pub virtual_time : F
  pub nodes : List (Node F)
  pub edges : List Edge
  pub drivers : List Driver
  pub orders : List (Order F)
  pub paused : Bool
  pub speed : F

-- `snapshotPayload`
pub record Snapshot (F : Type 0) : Type 0 where
  pub nodes : List (Node F)
  pub edges : List Edge
  pub drivers : List Driver
  pub orders : List (Order F)
  pub paused : Bool
  pub speed : F

-- `stateBuilder`
pub record Builder (F : Type 0) : Type 0 where
  pub simulation_id : String
  pub sequence : ℕ
  pub virtual_time : F
  pub nodes : List (Node F)
  pub edges : List Edge
  pub driver_order : List String
  pub drivers : List (String × Driver)
  pub order_order : List String
  pub orders : List (String × Order F)
  pub paused : Bool
  pub speed : F

-- What a call ends with: a value, an error that it returns, or a panic: a nil dereference or an
-- index below 0.
pub data Result {ℓ} (A : Type ℓ) : Type ℓ where
  ok : A → Result A
  failed crashed : Result A

-- The result of a call whose only failure is an error.
abbrev pub returned {ℓ} : {A : Type ℓ} → Option A → Result A
returned none = failed
returned (some a) = ok a

pub Result-cases {ℓ} :
    {A : Type ℓ} (r : Result A) → ((a : A) × (r ≡ ok a)) ⊎ ((r ≡ failed) ⊎ (r ≡ crashed))
Result-cases (ok a) = inl (a, refl)
Result-cases failed = inr (inl refl)
Result-cases crashed = inr (inr refl)

pub same_result {ℓ κ} :
    {A : Type ℓ} {B : Type κ} (r : Result A) (f g : A → Result B)
    → ((a : A) → r ≡ ok a → f a ≡ g a)
    → elim r [ ok a ↦ f a | failed ↦ failed | crashed ↦ crashed ]
      ≡ elim r [ ok a ↦ g a | failed ↦ failed | crashed ↦ crashed ]
same_result (ok a) f g h = h a refl
same_result failed f g h = refl
same_result crashed f g h = refl

-- `&Driver{ID: id}`
abbrev pub blank_driver : String → Driver
blank_driver id = record {
  id = id;
  position = "";
  status = "";
  route = [];
  route_index = pos 0;
  assigned_order = "";
}

-- The loops over the edges, for one id and then for all of them.
unfoldable pub mark : String → Bool → List Edge → List Edge
mark id flag [] = []
mark id flag (e ∷ es) = (if str_eq e.id id then record e { closed = flag } else e) ∷ mark id flag es

unfoldable pub mark_all : List String → Bool → List Edge → List Edge
unfolding mark
mark_all [] flag es = es
mark_all (id ∷ ids) flag es = mark_all ids flag (mark id flag es)

-- `RouteIndex + 1`, where that is not below 0.
abbrev pub next_hop : ℤ → ℕ
next_hop (pos n) = suc n
next_hop (negsuc n) = 0

-- Whether `RouteIndex + 1` is below 0: the guard against the length lets it through, and reading the
-- route there panics.
abbrev pub oversteps : ℤ → Bool
oversteps (pos n) = false
oversteps (negsuc zero) = false
oversteps (negsuc (suc n)) = true

-- A step of the position along the route, when the next node of the route is reached.
unfoldable pub moved_to : Driver → String → Driver
moved_to d node =
    let next = next_hop d.route_index in
    if ltb next (length d.route) && str_eq (get_or d.route next "") node
    then record d { position = node; route_index = pos next }
    else record d { position = node }

unfoldable pub with_status : Driver → String → Driver
with_status d status =
    if str_eq status "delivering"
    then record d { status = status }
    else if str_eq status "idle"
    then record d { status = status; route = []; route_index = pos 0; assigned_order = "" }
    else record d { status = status }

-- The values that the maps hold for the ids, as long as there is one for each.
unfoldable pub collect {ℓ} : {A : Type ℓ} → List (String × A) → List String → Result (List A)
collect m [] = ok []
collect m (id ∷ ids) = elim (lookup id m) [
  | none ↦ crashed
  | some v ↦ elim (collect m ids) [ ok vs ↦ ok (v ∷ vs) | failed ↦ failed | crashed ↦ crashed ]
]

module _ {F : Type 0} where
  -- `order` and `driver`: the pointer in the map, to a new value if there was none.
  unfoldable pub driver : Builder F → String → Builder F × Driver
  driver b id = elim (lookup id b.drivers) [
    | some d ↦ (b, d)
    | none ↦ (
      record b {
        drivers = insert id (blank_driver id) b.drivers;
        driver_order = b.driver_order ++ id ∷ [];
      },
      blank_driver id,
    )
  ]

  unfoldable pub change_driver : Builder F → String → (Driver → Driver) → Builder F
  unfolding driver
  change_driver b id f =
      let (b1, d) = driver b id in record b1 { drivers = insert id (f d) b1.drivers }

  abbrev pub flattened : Builder F → List Driver → List (Order F) → State F
  flattened b drivers orders = record {
    simulation_id = b.simulation_id;
    sequence = b.sequence;
    virtual_time = b.virtual_time;
    nodes = b.nodes;
    edges = b.edges;
    drivers = drivers;
    orders = orders;
    paused = b.paused;
    speed = b.speed;
  }

  unfoldable pub state : Builder F → Result (State F)
  unfolding collect
  state b = elim (collect b.drivers b.driver_order) [
    | failed ↦ failed
    | crashed ↦ crashed
    | ok drivers ↦ elim (collect b.orders b.order_order) [
      | failed ↦ failed
      | crashed ↦ crashed
      | ok orders ↦ ok (flattened b drivers orders)
    ]
  ]

module _ {F : Type 0} ⦃fl : FloatOps F⦄ where
  abbrev pub blank_order : String → Order F
  blank_order id = record {
    id = id;
    pickup = "";
    destination = "";
    status = "";
    assigned_driver = "";
    created_at = num 0;
  }

  unfoldable pub order : Builder F → String → Builder F × Order F
  order b id = elim (lookup id b.orders) [
    | some o ↦ (b, o)
    | none ↦ (
      record b {
        orders = insert id (blank_order id) b.orders;
        order_order = b.order_order ++ id ∷ [];
      },
      blank_order id,
    )
  ]

  unfoldable pub change_order : Builder F → String → (Order F → Order F) → Builder F
  unfolding order
  change_order b id f = let (b1, o) = order b id in record b1 { orders = insert id (f o) b1.orders }

  unfoldable pub new_state_builder : String → Builder F
  new_state_builder simulation_id = record {
    simulation_id = simulation_id;
    sequence = 0;
    virtual_time = num 0;
    nodes = [];
    edges = [];
    driver_order = [];
    drivers = [];
    order_order = [];
    orders = [];
    paused = false;
    speed = num 1;
  }
