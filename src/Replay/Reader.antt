-- ===== src/Replay/Reader.antt =====
-- internal/replay/reader.go: one page of a run's history, and its state at a sequence number. The
-- store is a record of the calls that the reader makes. A number below 0 is given as 0, which the
-- source treats alike.
use dispatch_lab.Prelude.{
  ℕ, zero, suc, ◌+◌, String, Bool, true, false, Option, none, some, List, [], ◌∷◌, ◌++◌, length,
  leb, ltb, take, if◌then◌else◌, ◌==◌,
}
use dispatch_lab.Prelude.Float.{FloatOps}
use dispatch_lab.Store.Memory.{
  Memory, StoredEvent, StoredSnapshot, Simulation, last_sequence, events_after, latest_sequence,
  snapshot_at_or_before, get_simulation,
}
use dispatch_lab.Replay.Json.{Raw}
use dispatch_lab.Replay.Wire.{Decoded, domain}
use dispatch_lab.Replay.State.{State, Result, ok, failed, crashed}
use dispatch_lab.Replay.Fold.{state_at}

-- What a call ends with: a value, ErrNotFound, another error, a panic; or its loop has
-- used up its fuel.
pub data Answer {ℓ} (A : Type ℓ) : Type ℓ where
  answer : A → Answer A
  not_found broken panicked unfinished : Answer A

infixl 10 ◌>>=◌
abbrev pub ◌>>=◌ {ℓ κ} : {A : Type ℓ} {B : Type κ} → Answer A → (A → Answer B) → Answer B
answer a >>= f = f a
not_found >>= f = not_found
broken >>= f = broken
panicked >>= f = panicked
unfinished >>= f = unfinished

-- The store's ErrNotFound, passed on with its context, is not the reader's own.
abbrev pub wrapped {ℓ} : {A : Type ℓ} → Answer A → Answer A
wrapped not_found = broken
wrapped r = r

-- ErrNotFound is no error where the value is optional.
abbrev pub optional {ℓ} : {A : Type ℓ} → Answer A → Answer (Option A)
optional (answer a) = answer (some a)
optional not_found = answer none
optional _ = broken

abbrev pub found {ℓ} : {A : Type ℓ} → Option A → Answer A
found none = not_found
found (some a) = answer a

-- The part of `store.Store` that a reader calls.
pub record LogStore (F : Type 0) : Type 0 where
  pub get_simulation : String → Answer Simulation
  pub events : (id : String) (from limit : ℕ) → Answer (List (StoredEvent F (Raw F)))
  pub latest_sequence : String → Answer ℕ
  pub snapshot_at_or_before : String → ℕ → Answer (StoredSnapshot F (Raw F))

-- `Log`
pub record Log (F : Type 0) : Type 0 where
  pub simulation : Simulation
  pub events : List (Decoded F)
  pub from_sequence : ℕ
  pub latest_sequence : ℕ
  pub has_more : Bool

abbrev pub default_page_size : ℕ
default_page_size = 5000

abbrev pub max_page_size : ℕ
max_page_size = 20000

-- The limit that `Load` works with.
unfoldable pub page_limit : ℕ → ℕ
page_limit limit =
    let l = (if limit == 0 then default_page_size else limit) in
    if ltb max_page_size l then max_page_size else l

-- `store.Simulation{ID: id}`
abbrev pub bare_simulation : String → Simulation
bare_simulation id = record {
  id = id;
  seed = 0;
  drivers = 0;
  strategy = "";
  created_at = 0;
  completed_at = none;
  showcase = false;
  guest_token = "";
  expires_at = none;
}

module _ {F : Type 0} where
  -- The loop of `Load` over the records.
  unfoldable pub decode_all : List (StoredEvent F (Raw F)) → Answer (List (Decoded F))
  unfolding domain
  decode_all [] = answer []
  decode_all (r ∷ rs) = elim (domain r) [
    | none ↦ broken
    | some e ↦ decode_all rs >>= λ es. answer (e ∷ es)
  ]

  -- The calls on the in-process store.
  unfoldable pub memory_store : Memory F (Raw F) → LogStore F
  unfolding events_after latest_sequence snapshot_at_or_before get_simulation
  memory_store m = record {
    get_simulation = λ id. found (get_simulation m id);
    events = λ id from limit. answer (events_after m id from limit);
    latest_sequence = λ id. answer (latest_sequence m id);
    snapshot_at_or_before = λ id n. found (snapshot_at_or_before m id n);
  }

module _ {F : Type 0} (st : LogStore F) where
  -- `simulation`: a run without its row is known by its events.
  unfoldable pub simulation : String → Answer Simulation
  simulation id = elim (st.get_simulation id) [
    | answer s ↦ answer s
    | not_found ↦ wrapped (st.latest_sequence id) >>= λ latest.
        if latest == 0 then not_found else answer (bare_simulation id)
    | r ↦ broken
  ]

  -- `Load`
  unfoldable pub load_log : String → (from limit : ℕ) → Answer (Log F)
  unfolding simulation page_limit decode_all
  load_log id from limit = do
    sim ← simulation id
    records ← wrapped (st.events id from (page_limit limit + 1))
    latest ← wrapped (st.latest_sequence id)
    let more = ltb (page_limit limit) (length records)
    events ← decode_all (if more then take (page_limit limit) records else records)
    answer (record {
      simulation = sim;
      events = events;
      from_sequence = from;
      latest_sequence = latest;
      has_more = more;
    })

  -- The loop of `StateAt`: pages from `from` on, until one is empty or reaches the target.
  unfoldable pub read_pages :
      (fuel : ℕ) (id : String) (sequence from : ℕ) → Answer (List (StoredEvent F (Raw F)))
  unfolding last_sequence
  read_pages zero id sequence from = unfinished
  read_pages (suc fuel) id sequence from = wrapped (st.events id from max_page_size) >>= λ page.
      elim (length page == 0) [
        | true ↦ answer []
        | false ↦ elim (leb sequence (last_sequence page)) [
          | true ↦ answer page
          | false ↦
              read_pages fuel id sequence (last_sequence page) >>= λ rest. answer (page ++ rest)
        ]
      ]

  -- The sequence number that `StateAt` reconstructs.
  unfoldable pub target_of : String → ℕ → Answer ℕ
  target_of id sequence = if sequence == 0 then wrapped (st.latest_sequence id) else answer sequence

  -- The snapshot to start from, if there is one.
  unfoldable pub base_of : String → ℕ → Answer (Option (StoredSnapshot F (Raw F)))
  base_of id sequence = optional (st.snapshot_at_or_before id sequence)

abbrev pub start_of : {F : Type 0} → Option (StoredSnapshot F (Raw F)) → ℕ
start_of none = 0
start_of (some s) = s.sequence

abbrev pub of_result {ℓ} : {A : Type ℓ} → Result A → Answer A
of_result (ok a) = answer a
of_result failed = broken
of_result crashed = panicked

module _ {F : Type 0} ⦃fl : FloatOps F⦄ (st : LogStore F) where
  -- `StateAt`. A page ends after the one before it, so there are at most as many as the target.
  unfoldable pub read_state : String → ℕ → Answer (State F)
  unfolding simulation target_of base_of read_pages state_at
  read_state id sequence = do
    sim ← simulation st id
    target ← target_of st id sequence
    base ← base_of st id target
    events ← read_pages st (suc target) id target (start_of base)
    of_result (state_at id base events target)
