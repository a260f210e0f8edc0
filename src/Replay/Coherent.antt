-- ===== src/Replay/Coherent.antt =====
-- internal/replay/state.go: the lists of ids and the maps of the builder list the same keys, so
-- that flattening them never finds a nil pointer.
use dispatch_lab.Prelude.{
  ℕ, ltb, length, get_or, ◌&&◌, String, ◌≡◌, refl, sym, ◌∙◌, true, Option, none, some, List, [],
  ◌∷◌, ◌++◌, arith, elem, elem-append, str_eq, str_eq_iff, str_eq_refl, if◌then◌else◌, ◌>>=◌, of_if,
  of_bool, of_option, Option-cases, inl, inr,
}
use dispatch_lab.Prelude.Int.{pos}
use dispatch_lab.Prelude.Float.{FloatOps}
use dispatch_lab.Prelude.Map.{lookup, insert, has, lookup-insert, has-insert, lookup-insert_self}
use dispatch_lab.Domain.Defs.{EventType}
use dispatch_lab.Store.Memory.{StoredEvent, StoredSnapshot}
use dispatch_lab.Replay.Json.{Raw, open_object, value_at, as_text, as_truth, as_real, as_list}
use dispatch_lab.Replay.State.{
  Driver, Order, State, Builder, Result, ok, crashed, collect, driver, order, flattened,
  change_driver, change_order, blank_driver, blank_order, state, new_state_builder, moved_to,
  failed, returned, oversteps, next_hop, Result-cases, with_status,
}
use dispatch_lab.Replay.Fold.{
  load_each, load, apply_snapshot, decode_snapshot, carry, change_status, apply_kind, apply, fold,
  base_builder, is_past, covers, moved_driver, move,
}

-- A list of ids and a map beside it: the map's keys are listed, and a value names its key.
pub record Coherent {A : Type 0} (id : A → String) (ids : List String) (m : List (String × A))
    : Type 0 where
  pub listed : (k : String) → elem k ids ≡ has k m
  pub named : (k : String) (v : A) → lookup k m ≡ some v → id v ≡ k

module _ {A : Type 0} (id : A → String) where
  -- A new key at the end of the list.
  appended :
      (ids : List String) (m : List (String × A)) (k : String) (v : A)
      → Coherent id ids m
      → id v ≡ k
      → Coherent id (ids ++ k ∷ []) (insert k v m)
  appended ids m k v c e = record {
    listed = λ j. ground (arith, elem-append j ids (k ∷ []), has-insert k j v m, c.listed j);
    named = λ j w h. ground (arith, lookup-insert k j v m, h, c.named j w, e, str_eq_iff k j);
  }

  -- Another value for a key.
  rewritten :
      (ids : List String) (m : List (String × A)) (k : String) (v w : A)
      → Coherent id ids m
      → lookup k m ≡ some w
      → id v ≡ k
      → Coherent id ids (insert k v m)
  rewritten ids m k v w c at e = record {
    listed = λ j. ground (arith, has-insert k j v m, c.listed j, at, str_eq_iff k j);
    named = λ j x h. ground (arith, lookup-insert k j v m, h, c.named j x, e, str_eq_iff k j);
  }

  load_each-Coherent :
      (ids : List String) (m : List (String × A)) (xs : List A)
      → Coherent id ids m
      → Coherent id (load_each id (ids, m) xs).0 (load_each id (ids, m) xs).1
  unfolding load_each
  load_each-Coherent ids m [] c = c
  load_each-Coherent ids m (x ∷ xs) c =
      load_each-Coherent (ids ++ id x ∷ []) (insert (id x) x m) xs (appended ids m (id x) x c refl)

  empty-Coherent : Coherent id [] []
  unfolding lookup
  empty-Coherent = record { listed = λ k. refl; named = λ k v h. cc h }

  -- The value of an id in a list of values.
  unfoldable pub find : String → List A → Option A
  find k [] = none
  find k (x ∷ xs) = if str_eq (id x) k then some x else find k xs

  collect-find :
      (m : List (String × A)) (ids : List String)
      → ((k : String) (v : A) → lookup k m ≡ some v → id v ≡ k)
      → ((k : String) → elem k ids ≡ true → has k m ≡ true)
      → (vs : List A) × (collect m ids ≡ ok vs)
        × ((k : String) → find k vs ≡ (if elem k ids then lookup k m else none))
  unfolding collect find
  collect-find m [] n h = ([], refl, λ k. refl)
  collect-find m (i ∷ ids) n h =
      let (vs, e, f) = collect-find m ids n (λ k g. h k (ground (arith, g))) in
      elim (Option-cases (lookup i m)) [
        | inl q ↦ absurd (ground (arith, q, h i, str_eq_refl i))
        | inr (v, q) ↦ (
          v ∷ vs,
          rw (collect, q, e) refl,
          λ k. ground (arith, f k, q, n i v q, str_eq_iff i k, str_eq_iff (id v) k),
        )
      ]

  -- Flattening finds every value, and the values by their ids are those of the map.
  pub Coherent-collect :
      (ids : List String) (m : List (String × A))
      → Coherent id ids m
      → (vs : List A) × (collect m ids ≡ ok vs) × ((k : String) → find k vs ≡ lookup k m)
  Coherent-collect ids m c =
      let (vs, e, f) = collect-find m ids c.named (λ k h. sym (c.listed k) ∙ h) in
      (vs, e, λ k. f k ∙ ground (arith, c.listed k))

abbrev pub driver_id : Driver → String
driver_id d = d.id

kept_id : (status : String) (d : Driver) → (with_status d status).id ≡ d.id
unfolding with_status
kept_id status d =
    of_if (λ (e : Driver). e.id ≡ d.id) (str_eq status "delivering") _ _ (λ _. refl)
      λ _. of_if (λ (e : Driver). e.id ≡ d.id) (str_eq status "idle") _ _ (λ _. refl) (λ _. refl)

moved_id : (d : Driver) (node : String) → (moved_to d node).id ≡ d.id
unfolding moved_to
moved_id d node =
    of_if (λ (e : Driver). e.id ≡ d.id)
      (ltb (next_hop d.route_index) (length d.route)
        && str_eq (get_or d.route (next_hop d.route_index) "") node)
      _ _ (λ _. refl) (λ _. refl)

module _ {F : Type 0} where
  abbrev pub order_id : Order F → String
  order_id o = o.id

  pub record Whole (b : Builder F) : Type 0 where
    pub drivers : Coherent driver_id b.driver_order b.drivers
    pub orders : Coherent order_id b.order_order b.orders

  driver-Whole :
      (b : Builder F) (id : String)
      → Whole b
      → Whole (driver b id).0 × (lookup id (driver b id).0.drivers ≡ some (driver b id).1)
  unfolding driver
  driver-Whole b id w =
      of_option (λ (p : Builder F × Driver). Whole p.0 × (lookup id p.0.drivers ≡ some p.1))
        (lookup id b.drivers) _ _
        (λ _. (
          record {
            drivers =
                appended driver_id b.driver_order b.drivers id (blank_driver id) w.drivers refl;
            orders = w.orders;
          },
          lookup-insert_self id (blank_driver id) b.drivers,
        ))
        (λ d e. (w, e))

  change_driver-Whole :
      (b : Builder F) (id : String) (f : Driver → Driver)
      → Whole b
      → ((d : Driver) → (f d).id ≡ d.id)
      → Whole (change_driver b id f)
  unfolding change_driver
  change_driver-Whole b id f w keep =
      let (b1, d) = driver b id in
      let (w1, at) = driver-Whole b id w in
      record {
        drivers =
            rewritten driver_id b1.driver_order b1.drivers id (f d) d w1.drivers at
              (keep d ∙ w1.drivers.named id d at);
        orders = w1.orders;
      }

module _ {F : Type 0} ⦃fl : FloatOps F⦄ where
  order-Whole :
      (b : Builder F) (id : String)
      → Whole b
      → Whole (order b id).0 × (lookup id (order b id).0.orders ≡ some (order b id).1)
  unfolding order
  order-Whole b id w =
      of_option (λ (p : Builder F × Order F). Whole p.0 × (lookup id p.0.orders ≡ some p.1))
        (lookup id b.orders) _ _
        (λ _. (
          record {
            drivers = w.drivers;
            orders = appended order_id b.order_order b.orders id (blank_order id) w.orders refl;
          },
          lookup-insert_self id (blank_order id) b.orders,
        ))
        (λ o e. (w, e))

  change_order-Whole :
      (b : Builder F) (id : String) (f : Order F → Order F)
      → Whole b
      → ((o : Order F) → (f o).id ≡ o.id)
      → Whole (change_order b id f)
  unfolding change_order
  change_order-Whole b id f w keep =
      let (b1, o) = order b id in
      let (w1, at) = order-Whole b id w in
      record {
        drivers = w1.drivers;
        orders =
            rewritten order_id b1.order_order b1.orders id (f o) o w1.orders at
              (keep o ∙ w1.orders.named id o at);
      }

  -- The builder of a call that does not fail.
  abbrev pub IfWhole : Result (Builder F) → Type 0
  IfWhole (ok b) = Whole b
  IfWhole failed = Unit
  IfWhole crashed = Unit

  bound {κ} :
      {A : Type κ} (o : Option A) (f : A → Option (Builder F))
      → ((a : A) → IfWhole (returned (f a)))
      → IfWhole (returned (o >>= f))
  bound none f h = tt
  bound (some a) f h = h a

  load-Whole : (b : Builder F) (p : Raw F) → IfWhole (returned (apply_snapshot b p))
  unfolding apply_snapshot load
  load-Whole b p = bound (decode_snapshot p) _ (λ s. record {
    drivers = load_each-Coherent driver_id [] [] s.drivers (empty-Coherent driver_id);
    orders = load_each-Coherent order_id [] [] s.orders (empty-Coherent order_id);
  })

  change_status-Whole :
      (b : Builder F) (id status : String) → Whole b → Whole (change_status b id status)
  unfolding change_status carry
  change_status-Whole b id status w =
      let b1 = change_driver b id (λ d. with_status d status) in
      let w1 = change_driver-Whole b id (λ d. with_status d status) w (kept_id status) in
      of_if Whole (str_eq status "delivering") _ _
        (λ _.
          of_if Whole (str_eq (driver b id).1.assigned_order "") _ _ (λ _. w1)
            (λ _.
              change_order-Whole b1 (driver b id).1.assigned_order
                (λ o. record o { status = "en_route" }) w1 (λ o. refl)))
        (λ _. w1)

  move-Whole : (b : Builder F) (id node : String) → Whole b → IfWhole (move b id node)
  unfolding move
  move-Whole b id node w =
      of_if IfWhole (oversteps (driver b id).1.route_index) _ _ (λ _. tt)
        (λ _. change_driver-Whole b id (λ d. moved_to d node) w (λ d. moved_id d node))

  apply_kind-Whole :
      (kind : EventType) (b : Builder F) (p : Raw F) → Whole b → IfWhole (apply_kind kind b p)
  unfolding apply_kind
  apply_kind-Whole EventType.simulation_snapshot b p w = load-Whole b p
  apply_kind-Whole EventType.order_placed b p w = bound (open_object p) _ λ fs.
      bound (as_text (value_at "orderId" fs)) _ λ id.
        bound (as_text (value_at "pickupNodeId" fs)) _ λ x.
          bound (as_text (value_at "destinationNodeId" fs)) _ λ y.
            change_order-Whole b id
              (λ o. record o {
                pickup = x;
                destination = y;
                status = "pending";
                created_at = b.virtual_time;
              })
              w (λ o. refl)
  apply_kind-Whole EventType.order_assigned b p w = bound (open_object p) _ λ fs.
      bound (as_text (value_at "orderId" fs)) _ λ id.
        bound (as_text (value_at "driverId" fs)) _ λ did.
          change_driver-Whole _ did (λ d. record d { assigned_order = id })
            (change_order-Whole b id (λ o. record o { status = "assigned"; assigned_driver = did })
              w (λ o. refl))
            (λ d. refl)
  apply_kind-Whole EventType.order_unassignable b p w = bound (open_object p) _ λ fs.
      bound (as_text (value_at "orderId" fs)) _
        λ id. change_order-Whole b id (λ o. record o { status = "unassignable" }) w (λ o. refl)
  apply_kind-Whole EventType.order_delivered b p w = bound (open_object p) _ λ fs.
      bound (as_text (value_at "orderId" fs)) _
        λ id. change_order-Whole b id (λ o. record o { status = "delivered" }) w (λ o. refl)
  apply_kind-Whole EventType.driver_position_updated b p w =
      of_option IfWhole (moved_driver p) _ _ (λ _. tt) (λ m _. move-Whole b m.0 m.1 w)
  apply_kind-Whole EventType.driver_status_changed b p w = bound (open_object p) _ λ fs.
      bound (as_text (value_at "driverId" fs)) _
        λ id. bound (as_text (value_at "status" fs)) _ λ status. change_status-Whole b id status w
  apply_kind-Whole EventType.route_computed b p w = bound (open_object p) _ λ fs.
      bound (as_text (value_at "driverId" fs)) _ λ id.
        bound (as_list as_text (value_at "nodeIds" fs)) _ λ nodes.
          change_driver-Whole b id (λ d. record d { route = nodes; route_index = pos 0 }) w
            (λ d. refl)
  apply_kind-Whole EventType.road_closed b p w = bound (open_object p) _ λ fs.
      bound (as_list as_text (value_at "edgeIds" fs)) _
        λ edges. record { drivers = w.drivers; orders = w.orders }
  apply_kind-Whole EventType.road_reopened b p w = bound (open_object p) _ λ fs.
      bound (as_list as_text (value_at "edgeIds" fs)) _
        λ edges. record { drivers = w.drivers; orders = w.orders }
  apply_kind-Whole EventType.simulation_paused b p w = bound (open_object p) _ λ fs.
      bound (as_truth (value_at "paused" fs)) _
        λ q. record { drivers = w.drivers; orders = w.orders }
  apply_kind-Whole EventType.simulation_speed_changed b p w = bound (open_object p) _ λ fs.
      bound (as_real (value_at "multiplier" fs)) _
        λ q. record { drivers = w.drivers; orders = w.orders }
  apply_kind-Whole EventType.route_invalidated b p w = w

  pub fold-Whole :
      (base : Option ℕ) (target : ℕ) (b : Builder F) (es : List (StoredEvent F (Raw F)))
      → Whole b
      → IfWhole (fold base target b es)
  unfolding fold apply
  fold-Whole base target b [] w = w
  fold-Whole base target b (e ∷ es) w =
      of_bool IfWhole (is_past target e.sequence) _ _ (λ _. w)
        λ _.
          of_bool IfWhole (covers base e.sequence) _ _ (λ _. fold-Whole base target b es w)
            λ _.
              let b1 = record b { sequence = e.sequence; virtual_time = e.virtual_time } in
              let w1 =
                apply_kind-Whole e.kind b1 e.payload
                  (record { drivers = w.drivers; orders = w.orders }) in
              elim (Result-cases (apply_kind e.kind b1 e.payload)) [
                | inl (t, h) ↦ rw h (fold-Whole base target t es (rw h at w1))
                | inr (inl h) ↦ rw h tt
                | inr (inr h) ↦ rw h tt
              ]

  pub base_builder-Whole :
      (id : String) (base : Option (StoredSnapshot F (Raw F)))
      → IfWhole (returned (base_builder id base))
  unfolding base_builder new_state_builder
  base_builder-Whole id none = record {
    drivers = empty-Coherent driver_id;
    orders = empty-Coherent order_id;
  }
  base_builder-Whole id (some s) =
      let w = load-Whole (new_state_builder id) s.payload in
      of_option (λ o. IfWhole (returned o)) (apply_snapshot (new_state_builder id) s.payload) _ _
        (λ _. tt) λ b h. let w1 = rw h at w in record { drivers = w1.drivers; orders = w1.orders }

  -- The state of a builder whose lists and maps agree: the drivers and the orders by their ids.
  pub Whole-state :
      (b : Builder F)
      → Whole b
      → (t : State F) × (state b ≡ ok t)
        × ((k : String) → find driver_id k t.drivers ≡ lookup k b.drivers)
        × ((k : String) → find order_id k t.orders ≡ lookup k b.orders)
        × (t.edges ≡ b.edges)
        × (t.paused ≡ b.paused)
        × (t.speed ≡ b.speed)
        × (t.sequence ≡ b.sequence)
  unfolding state
  Whole-state b w =
      let (ds, e, f) = Coherent-collect driver_id b.driver_order b.drivers w.drivers in
      let (os, g, h) = Coherent-collect order_id b.order_order b.orders w.orders in
      (flattened b ds os, rw (state, e, g) refl, f, h, refl, refl, refl, refl)
