-- ===== src/Service/Manager.antt =====
-- internal/service/manager.go: the live simulations and the commands that reach them. The mutex makes
-- each section between Lock and Unlock one step; a request is a sequence of such sections. Of an
-- entry, the simulation is the buffer of its commands; what it does with them is in
-- Simulation/Actor. An identifier that is generated is an argument. Hubs, recorders and the rows
-- that Create writes are left out, with metrics and logs.
pub mod Limits
pub mod Private
pub mod Slots
pub mod Placed
use dispatch_lab.Prelude.{
  ℕ, suc, ◌+◌, ◌-◌, String, Bool, true, false, not, ◌&&◌, ◌||◌, Option, none, some, List, [], ◌∷◌,
  ◌++◌, length, ltb, leb, str_eq, if◌then◌else◌, ◌==◌,
}
use dispatch_lab.Prelude.Map.{lookup, insert, has}
use dispatch_lab.Simulation.Actor.{
  Command, place_order, set_paused, reset, set_speed, close_road, reopen_road,
}
use dispatch_lab.Store.Memory.{
  Memory, StoredEvent, StoredSnapshot, mark_showcase, save_snapshot, append_events,
}
use dispatch_lab.Service.Sessions.{Sessions, check_quota}

abbrev pub max_orders_per_run : ℕ
max_orders_per_run = 200

-- The size of a simulation's command buffer.
abbrev pub command_buffer : ℕ
command_buffer = 32

-- How a request ends: well, or with one of the errors.
pub data Answer : Type 0 where
  done not_found no_capacity busy order_limit over_quota store_failed : Answer

pub record Entry (F : Type 0) : Type 0 where
  pub commands : List (Command F)
  pub owner : String
  pub orders : ℕ

abbrev pub is_done : Answer → Bool
is_done done = true
is_done a = false

-- `Manager`; a `max` of 0 is no limit.
pub record Manager (F : Type 0) : Type 0 where
  pub max : ℕ
  pub entries : List (String × Entry F)

module _ {F : Type 0} where
  unfoldable pub new_manager : ℕ → Manager F
  new_manager max = record { max = max; entries = [] }

  -- `e.owner == "" || e.owner == token`
  unfoldable pub authorize : Entry F → String → Bool
  authorize e token = str_eq e.owner "" || str_eq e.owner token

  unfoldable pub held_by : String → List (String × Entry F) → ℕ
  held_by owner [] = 0
  held_by owner ((id, e) ∷ es) =
      if str_eq e.owner owner then suc (held_by owner es) else held_by owner es

  -- `checkQuota`; it lets go of the mutex before `Create` takes it.
  unfoldable pub check_run_quota :
      {P : Type 0} → Manager F → Option (Sessions F P) → String → (up : Bool) → Bool
  unfolding held_by check_quota
  check_run_quota m none owner up = true
  check_run_quota m (some s) owner up =
      if str_eq owner "" then true else check_quota s owner (held_by owner m.entries) up

  -- What `Create` does under the mutex.
  unfoldable pub create_locked :
      Manager F → (owner id generated : String) → Manager F × (Answer × String)
  create_locked m owner id generated =
      if (ltb 0 m.max && leb m.max (length m.entries)) && not (has id m.entries)
      then (m, (no_capacity, ""))
      else let id1 = (if str_eq id "" then generated else id) in
        if has id1 m.entries then (m, (done, id1)) else (
          record m {
            entries = insert id1 (record { commands = []; owner = owner; orders = 0 }) m.entries;
          },
          (done, id1),
        )

  -- `Create`
  unfoldable pub create :
      {P : Type 0}
      → Manager F
      → Option (Sessions F P)
      → (owner id generated : String) → (up : Bool) → Manager F × (Answer × String)
  unfolding check_run_quota create_locked
  create m sessions owner id generated up =
      if check_run_quota m sessions owner up
      then create_locked m owner id generated
      else (m, (over_quota, ""))

  -- `submit` with `TrySubmitCtx`
  unfoldable pub submit : Manager F → (id token : String) → Command F → Manager F × Answer
  unfolding authorize
  submit m id token cmd = elim (lookup id m.entries) [
    | none ↦ (m, not_found)
    | some e ↦
        if not (authorize e token)
        then (m, not_found)
        else if ltb (length e.commands) command_buffer
        then (
          record m {
            entries = insert id (record e { commands = e.commands ++ cmd ∷ [] }) m.entries;
          },
          done,
        )
        else (m, busy)
  ]

  unfoldable pub reserve_order : Manager F → (id token : String) → Manager F × Answer
  unfolding authorize
  reserve_order m id token = elim (lookup id m.entries) [
    | none ↦ (m, not_found)
    | some e ↦
        if not (authorize e token)
        then (m, not_found)
        else if leb max_orders_per_run e.orders
        then (m, order_limit)
        else (record m { entries = insert id (record e { orders = e.orders + 1 }) m.entries }, done)
  ]

  unfoldable pub release_order : Manager F → String → Manager F
  release_order m id = elim (lookup id m.entries) [
    | none ↦ m
    | some e ↦
        if ltb 0 e.orders
        then record m { entries = insert id (record e { orders = e.orders - 1 }) m.entries }
        else m
  ]

  unfoldable pub clear_orders : Manager F → String → Manager F
  clear_orders m id = elim (lookup id m.entries) [
    | none ↦ m
    | some e ↦ record m { entries = insert id (record e { orders = 0 }) m.entries }
  ]

  -- `PlaceOrder`
  unfoldable pub order : Manager F → (id token pickup destination : String) → Manager F × Answer
  unfolding reserve_order submit release_order
  order m id token pickup destination =
      let (m1, a) = reserve_order m id token in
      if not (is_done a)
      then (m1, a)
      else let (m2, b) = submit m1 id token (place_order pickup destination) in
        if is_done b then (m2, done) else (release_order m2 id, b)

  -- `Reset`
  unfoldable pub reset_run : Manager F → (id token : String) → Manager F × Answer
  unfolding submit clear_orders
  reset_run m id token =
      let (m1, a) = submit m id token reset in
      if is_done a then (clear_orders m1 id, done) else (m1, a)

  -- `StreamLookup`: whether the session may see the run's stream.
  unfoldable pub stream_lookup : Manager F → (id token : String) → Bool
  unfolding authorize
  stream_lookup m id token = elim (lookup id m.entries) [
    | none ↦ false
    | some e ↦ authorize e token
  ]

  -- `Authorize`
  unfoldable pub authorize_run : Manager F → (id token : String) → Answer
  unfolding authorize
  authorize_run m id token = elim (lookup id m.entries) [
    | none ↦ not_found
    | some e ↦ if authorize e token then done else not_found
  ]

  -- What `Shutdown` does to the map.
  unfoldable pub shutdown : Manager F → Manager F
  shutdown m = record m { entries = [] }

-- The requests on one run. With the wish to keep it as a showcase come what lies outside: the final
-- snapshot, if it could be written, the rows that the recorder flushes, the clock's reading, and
-- whether the store answers.
pub data Request (F P : Type 0) : Type 0 where
  order_of : (pickup destination : String) → Request F P
  pause : Bool → Request F P
  start_over : Request F P
  play_at : F → Request F P
  close : (edge_id command_id : String) → Request F P
  reopen : (edge_id : String) → Request F P
  snapshot_of stream : Request F P
  keep_forever :
      Option (StoredSnapshot F P) → List (StoredEvent F P) → (now : ℕ) → (up : Bool) → Request F P

module _ {F P : Type 0} where
  -- The call of the store that ends MarkShowcase.
  abbrev pub mark_in_store :
      Memory F P → String → (now : ℕ) → (up : Bool) → Option (Memory F P) × Answer
  mark_in_store db id now up =
      if up
      then elim (mark_showcase db id now) [
        | none ↦ (some db, not_found)
        | some marked ↦ (some marked, done)
      ]
      else (some db, store_failed)

  abbrev pub with_snapshot : Memory F P → Option (StoredSnapshot F P) → Memory F P
  with_snapshot db none = db
  with_snapshot db (some s) = save_snapshot db s

  -- `MarkShowcase`, with `writeFinalSnapshot` and the flush of a live run.
  unfoldable pub mark_run :
      Manager F
      → Option (Memory F P)
      → (id token : String) → Option (StoredSnapshot F P)
      → List (StoredEvent F P)
      → (now : ℕ) → (up : Bool) → Option (Memory F P) × Answer
  unfolding authorize_run mark_showcase save_snapshot append_events
  mark_run m none id token final rows now up = (none, not_found)
  mark_run m (some db) id token final rows now up =
      if has id m.entries
      then if is_done (authorize_run m id token)
        then mark_in_store (append_events (with_snapshot db final) rows) id now up
        else (some db, authorize_run m id token)
      else mark_in_store db id now up

  -- PlaceOrder, SetPaused, Reset, SetSpeed, CloseRoad, ReopenRoad, the checks of Snapshot and of
  -- StreamLookup, MarkShowcase.
  unfoldable pub serve :
      Manager F
      → Option (Memory F P)
      → (id token : String) → Request F P
      → Manager F × Option (Memory F P) × Answer
  unfolding order reset_run submit authorize_run stream_lookup mark_run
  serve m db id token (order_of pickup destination) =
      let (n, a) = order m id token pickup destination in (n, db, a)
  serve m db id token (pause b) = let (n, a) = submit m id token (set_paused b) in (n, db, a)
  serve m db id token start_over = let (n, a) = reset_run m id token in (n, db, a)
  serve m db id token (play_at x) = let (n, a) = submit m id token (set_speed x) in (n, db, a)
  serve m db id token (close edge_id command_id) =
      let (n, a) = submit m id token (close_road edge_id command_id) in (n, db, a)
  serve m db id token (reopen edge_id) =
      let (n, a) = submit m id token (reopen_road edge_id) in (n, db, a)
  serve m db id token snapshot_of = (m, db, authorize_run m id token)
  serve m db id token stream = (m, db, if stream_lookup m id token then done else not_found)
  serve m db id token (keep_forever final rows now up) =
      let (d, a) = mark_run m db id token final rows now up in (m, d, a)
