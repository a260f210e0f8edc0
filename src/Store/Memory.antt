-- ===== src/Store/Memory.antt =====
-- internal/store/store.go and memory.go: the rows and the in-process store. A payload is an opaque
-- type, an instant is a number of nanoseconds, the mutex makes each call one step. `none` is
-- ErrNotFound where a call can fail; contexts, Ping and Close do nothing and are left out.
use dispatch_lab.Prelude.{
  ℕ, suc, String, Bool, true, not, Option, none, some, List, [], ◌∷◌, ◌++◌, ltb, leb, keep, take,
  exists, str_eq, if◌then◌else◌, ◌==◌,
}
use dispatch_lab.Prelude.Map.{lookup, lookup_or, insert, erase, has}
use dispatch_lab.Prelude.Sort as Sort
use dispatch_lab.Domain.Defs.{EventType}

pub record GuestSession : Type 0 where
  pub token : String
  pub created_at : ℕ
  pub last_seen_at : ℕ
  pub expires_at : ℕ

-- `Expired`
unfoldable pub expired : GuestSession → ℕ → Bool
expired g now = not (ltb now g.expires_at)

pub record Simulation : Type 0 where
  pub id : String
  pub seed : ℕ
  pub drivers : ℕ
  pub strategy : String
  pub created_at : ℕ
  pub completed_at : Option ℕ
  pub showcase : Bool
  pub guest_token : String
  pub expires_at : Option ℕ

pub record StoredEvent (F P : Type 0) : Type 0 where
  pub simulation_id : String
  pub sequence : ℕ
  pub virtual_time : F
  pub kind : EventType
  pub payload : P
  pub trace_id : String
  pub recorded_at : ℕ

pub record StoredSnapshot (F P : Type 0) : Type 0 where
  pub simulation_id : String
  pub sequence : ℕ
  pub virtual_time : F
  pub payload : P
  pub recorded_at : ℕ

pub record Comparison (P : Type 0) : Type 0 where
  pub id : String
  pub seed : ℕ
  pub drivers : ℕ
  pub result : P
  pub created_at : ℕ

pub record PurgeResult : Type 0 where
  pub simulations : ℕ
  pub sessions : ℕ

-- `Memory`; `seen` lists the numbers that the source's map marks.
pub record Memory (F P : Type 0) : Type 0 where
  pub sessions : List (String × GuestSession)
  pub simulations : List (String × Simulation)
  pub events : List (String × List (StoredEvent F P))
  pub seen : List (String × List ℕ)
  pub snapshots : List (String × List (StoredSnapshot F P))
  pub comparisons : List (String × Comparison P)

-- The runs of a guest, counted.
unfoldable pub count_owned : String → List (String × Simulation) → ℕ
count_owned token [] = 0
count_owned token ((id, sim) ∷ m) =
    if str_eq sim.guest_token token then suc (count_owned token m) else count_owned token m

-- `sim.Showcase || sim.ExpiresAt == nil || now.Before(*sim.ExpiresAt)`
unfoldable pub is_kept : ℕ → Simulation → Bool
is_kept now sim =
    if sim.showcase then true else elim sim.expires_at [ none ↦ true | some t ↦ ltb now t ]

-- The runs of a purged guest belong to nobody.
unfoldable pub disown : String → List (String × Simulation) → List (String × Simulation)
disown token [] = []
disown token ((id, sim) ∷ m) =
    (id, if str_eq sim.guest_token token then record sim { guest_token = "" } else sim)
    ∷ disown token m

module _ {F P : Type 0} where
  unfoldable pub new_memory : Memory F P
  new_memory = record {
    sessions = [];
    simulations = [];
    events = [];
    seen = [];
    snapshots = [];
    comparisons = [];
  }

  unfoldable pub create_guest_session : Memory F P → GuestSession → Memory F P
  create_guest_session m g =
      if has g.token m.sessions then m else record m { sessions = insert g.token g m.sessions }

  unfoldable pub touch_guest_session : Memory F P → String → ℕ → ℕ → Option (Memory F P)
  touch_guest_session m token last_seen expires_at = elim (lookup token m.sessions) [
    | none ↦ none
    | some g ↦ some (record m {
      sessions =
          insert token (record g { last_seen_at = last_seen; expires_at = expires_at }) m.sessions;
    })
  ]

  unfoldable pub create_simulation : Memory F P → Simulation → Memory F P
  create_simulation m sim =
      if has sim.id m.simulations
      then m
      else record m { simulations = insert sim.id sim m.simulations }

  unfoldable pub mark_showcase : Memory F P → String → ℕ → Option (Memory F P)
  mark_showcase m id completed_at = elim (lookup id m.simulations) [
    | none ↦ none
    | some sim ↦ some (record m {
      simulations =
          insert id (record sim { showcase = true; completed_at = some completed_at })
            m.simulations;
    })
  ]

  -- One event of AppendEvents, with the ids that were touched so far.
  unfoldable pub append_one : Memory F P × List String → StoredEvent F P → Memory F P × List String
  append_one (m, touched) e =
      let id = e.simulation_id in
      let seen = lookup_or [] id m.seen in
      if exists (λ n. n == e.sequence) seen then (m, touched) else (
        record m {
          seen = insert id (e.sequence ∷ seen) m.seen;
          events = insert id (lookup_or [] id m.events ++ e ∷ []) m.events;
        },
        id ∷ touched,
      )

  unfoldable pub append_each :
      Memory F P × List String → List (StoredEvent F P) → Memory F P × List String
  append_each mt [] = mt
  append_each mt (e ∷ es) = append_each (append_one mt e) es

  unfoldable pub by_sequence : StoredEvent F P → StoredEvent F P → Bool
  by_sequence a b = ltb a.sequence b.sequence

  unfoldable pub sort_touched : Memory F P → List String → Memory F P
  sort_touched m [] = m
  sort_touched m (id ∷ ids) =
      sort_touched
        (record m {
          events = insert id (Sort.sort by_sequence (lookup_or [] id m.events)) m.events;
        })
        ids

  unfoldable pub append_events : Memory F P → List (StoredEvent F P) → Memory F P
  append_events m es = let (t, touched) = append_each (m, []) es in sort_touched t touched

  -- `Events`, where a limit of 0 is none.
  unfoldable pub events_after : Memory F P → String → ℕ → ℕ → List (StoredEvent F P)
  events_after m id from limit =
      let later = keep (λ (e : StoredEvent F P). ltb from e.sequence) (lookup_or [] id m.events) in
      if limit == 0 then later else take limit later

  unfoldable pub last_sequence : List (StoredEvent F P) → ℕ
  last_sequence [] = 0
  last_sequence (e ∷ []) = e.sequence
  last_sequence (e ∷ d ∷ es) = last_sequence (d ∷ es)

  unfoldable pub latest_sequence : Memory F P → String → ℕ
  latest_sequence m id = last_sequence (lookup_or [] id m.events)

  -- The list with the snapshot in the place of the first one of its number, if there is one.
  unfoldable pub replace :
      StoredSnapshot F P → List (StoredSnapshot F P) → Option (List (StoredSnapshot F P))
  replace s [] = none
  replace s (x ∷ xs) =
      if x.sequence == s.sequence
      then some (s ∷ xs)
      else elim (replace s xs) [ none ↦ none | some ys ↦ some (x ∷ ys) ]

  unfoldable pub save_snapshot : Memory F P → StoredSnapshot F P → Memory F P
  save_snapshot m s =
      let list = lookup_or [] s.simulation_id m.snapshots in
      let saved : List (StoredSnapshot F P) = elim (replace s list) [
        | none ↦
            Sort.sort (λ (a : StoredSnapshot F P) b. ltb a.sequence b.sequence) (list ++ s ∷ [])
        | some ys ↦ ys
      ] in
      record m { snapshots = insert s.simulation_id saved m.snapshots }

  unfoldable pub newest_until :
      ℕ → Option (StoredSnapshot F P) → List (StoredSnapshot F P) → Option (StoredSnapshot F P)
  newest_until n best [] = best
  newest_until n best (s ∷ ss) = if leb s.sequence n then newest_until n (some s) ss else best

  unfoldable pub snapshot_at_or_before : Memory F P → String → ℕ → Option (StoredSnapshot F P)
  snapshot_at_or_before m id n = newest_until n none (lookup_or [] id m.snapshots)

  -- The first loop of PurgeExpired, over the entries of the map.
  unfoldable pub purge_simulations : ℕ → Memory F P → List (String × Simulation) → Memory F P × ℕ
  purge_simulations now m [] = (m, 0)
  purge_simulations now m ((id, sim) ∷ entries) =
      let deleted = record m {
        simulations = erase id m.simulations;
        events = erase id m.events;
        seen = erase id m.seen;
        snapshots = erase id m.snapshots;
      } in
      let (t, n) = purge_simulations now deleted entries in
      if is_kept now sim then purge_simulations now m entries else (t, suc n)

  -- The second loop: the sessions, and the runs that outlive them.
  unfoldable pub purge_sessions : ℕ → Memory F P → List (String × GuestSession) → Memory F P × ℕ
  purge_sessions now m [] = (m, 0)
  purge_sessions now m ((token, g) ∷ entries) =
      let deleted = record m {
        sessions = erase token m.sessions;
        simulations = disown token m.simulations;
      } in
      let (t, n) = purge_sessions now deleted entries in
      if expired g now then (t, suc n) else purge_sessions now m entries

  unfoldable pub purge_expired : Memory F P → ℕ → Memory F P × PurgeResult
  purge_expired m now =
      let (m1, runs) = purge_simulations now m m.simulations in
      let (m2, guests) = purge_sessions now m1 m1.sessions in
      (m2, record { simulations = runs; sessions = guests })

  unfoldable pub save_comparison : Memory F P → Comparison P → Memory F P
  save_comparison m c = record m { comparisons = insert c.id c m.comparisons }

  -- The reads by key: GetGuestSession, GetSimulation and GetComparison.
  unfoldable pub get_guest_session : Memory F P → String → Option GuestSession
  get_guest_session m token = lookup token m.sessions

  unfoldable pub get_simulation : Memory F P → String → Option Simulation
  get_simulation m id = lookup id m.simulations

  unfoldable pub get_comparison : Memory F P → String → Option (Comparison P)
  get_comparison m id = lookup id m.comparisons

  unfoldable pub count_simulations_for_token : Memory F P → String → ℕ
  unfolding count_owned
  count_simulations_for_token m token = count_owned token m.simulations
