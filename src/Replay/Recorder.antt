-- ===== src/Replay/Recorder.antt =====
-- internal/replay/recorder.go: the recorder of one simulation. Its goroutines share channels; here
-- each communication is one step, and a run is a list of steps in the order in which they happened.
-- `up` says whether the store accepts its n-th batch, and `clock` gives the time of an event's row.
-- Every payload of a simulation can be marshalled, so EventFrom does not fail.
pub mod Kept
pub mod Flushes
pub mod Bounds
pub mod Due
use dispatch_lab.Prelude.{
  ℕ, suc, ◌+◌, String, Bool, true, false, List, [], ◌∷◌, ◌++◌, length, leb, ltb, if◌then◌else◌,
  ◌==◌,
}
use dispatch_lab.Store.Memory.{StoredEvent, StoredSnapshot}
use dispatch_lab.Simulation.State.{Event}
use dispatch_lab.Replay.Json.{Raw, json}
use dispatch_lab.Replay.Wire.{encode, recorded}

pub record RecorderConfig : Type 0 where
  pub batch_size : ℕ
  pub snapshot_every : ℕ
  pub buffer_size : ℕ

abbrev or_default : ℕ → ℕ → ℕ
or_default d n = if n == 0 then d else n

-- A setting of at most 0 falls back to the default.
unfoldable pub with_defaults : RecorderConfig → RecorderConfig
with_defaults c = record {
  batch_size = or_default 200 c.batch_size;
  snapshot_every = or_default 500 c.snapshot_every;
  buffer_size = or_default 4096 c.buffer_size;
}

-- Where the write loop stands: at its select, in the loop that serves a flush, or returned.
pub data Mode : Type 0 where
  waiting draining stopped : Mode

abbrev pub is_waiting : Mode → Bool
is_waiting waiting = true
is_waiting m = false

abbrev pub is_draining : Mode → Bool
is_draining draining = true
is_draining m = false

-- What the forwarding loop has in hand: nothing, an event that came in, or one that has been offered
-- to the queue and is still to be sent on.
pub data Hand (F : Type 0) : Type 0 where
  empty : Hand F
  received offered : Event F → Hand F

-- `queue` is what the buffered channel holds; `out` what was sent on, `calls` the batches that the
-- store was given and its answers, `saved` the snapshots that it took, each in order.
pub record Recorder (F : Type 0) : Type 0 where
  pub config : RecorderConfig
  pub simulation_id : String
  pub queue : List (Event F)
  pub queue_closed : Bool
  pub hand : Hand F
  pub out : List (Event F)
  pub dropped : ℕ
  pub batch : List (StoredEvent F (Raw F))
  pub since_snapshot : ℕ
  pub snapshot_due : Bool
  pub mode : Mode
  pub acknowledged : ℕ
  pub calls : List (Bool × List (StoredEvent F (Raw F)))
  pub saved : List (StoredSnapshot F (Raw F))

-- What can happen next: the forwarding loop takes an event or the end of the stream, offers its event
-- to the queue, or sends it on; the write loop takes an event, a tick, a request to flush or a
-- cancellation, or goes on with its drain; the snapshot loop is served.
pub data Step (F : Type 0) : Type 0 where
  arrives : Event F → Step F
  ends offers sends_on receives ticks flush_asked drains cancels : Step F
  snapshots : Event F → (now : ℕ) → (up : Bool) → Step F

module _ {F : Type 0} where
  unfoldable pub new_recorder : String → RecorderConfig → Recorder F
  unfolding with_defaults
  new_recorder id config = record {
    config = with_defaults config;
    simulation_id = id;
    queue = [];
    queue_closed = false;
    hand = empty;
    out = [];
    dropped = 0;
    batch = [];
    since_snapshot = 0;
    snapshot_due = false;
    mode = waiting;
    acknowledged = 0;
    calls = [];
    saved = [];
  }

  -- The communications of `forwardAndQueue`: it takes an event when it has none in hand,
  abbrev pub take_event : Recorder F → Event F → Recorder F
  take_event s e = elim s.hand [
    | empty ↦ if s.queue_closed then s else record s { hand = received e }
    | received d ↦ s
    | offered d ↦ s
  ]

  -- or finds that there are no more, and closes the queue;
  abbrev pub end_stream : Recorder F → Recorder F
  end_stream s = elim s.hand [
    | empty ↦ record s { queue_closed = true }
    | received d ↦ s
    | offered d ↦ s
  ]

  -- it offers the event to the queue, which drops it when it is full;
  unfoldable pub offer : Recorder F → Recorder F
  offer s = elim s.hand [
    | empty ↦ s
    | received e ↦
        if ltb (length s.queue) s.config.buffer_size
        then record s { hand = offered e; queue = s.queue ++ e ∷ [] }
        else record s { hand = offered e; dropped = s.dropped + 1 }
    | offered d ↦ s
  ]

  -- and it sends the event on, once the other side is ready for it.
  unfoldable pub send_on : Recorder F → Recorder F
  send_on s = elim s.hand [
    | empty ↦ s
    | received d ↦ s
    | offered e ↦ record s { hand = empty; out = s.out ++ e ∷ [] }
  ]

  -- `writeSnapshot`
  unfoldable pub write_snapshot : Recorder F → Event F → (now : ℕ) → (up : Bool) → Recorder F
  unfolding encode
  write_snapshot s e now up =
      let snapshot : StoredSnapshot F (Raw F) = record {
        simulation_id = s.simulation_id;
        sequence = e.sequence;
        virtual_time = e.virtual_time;
        payload = json (encode e.payload);
        recorded_at = now;
      } in
      if up then record s { saved = s.saved ++ snapshot ∷ [] } else s

  -- The one slot of `snapshotDue`: a second request adds nothing.
  abbrev pub request_snapshot : Recorder F → Recorder F
  request_snapshot s = record s { snapshot_due = true }

module _ {F : Type 0} (up : ℕ → Bool) where
  unfoldable pub write : Recorder F → Recorder F × ℕ
  write s =
      let taken = up (length s.calls) in
      (record s { calls = s.calls ++ (taken, s.batch) ∷ [] }, if taken then length s.batch else 0)

  unfoldable pub flush : Recorder F → Recorder F
  unfolding write
  flush s =
      if length s.batch == 0
      then s
      else let (t, written) = write s in
        let since = t.since_snapshot + written in
        if leb s.config.snapshot_every since
        then request_snapshot (record t { batch = []; since_snapshot = 0 })
        else record t { batch = []; since_snapshot = since }

  module _ (clock : ℕ → ℕ) where
    -- `enqueue`, for an event that was received.
    unfoldable pub enqueue : Recorder F → Event F → Recorder F
    unfolding flush
    enqueue s e =
        let t = record s { batch = s.batch ++ recorded clock e ∷ [] } in
        if leb s.config.batch_size (length t.batch) then flush t else t

    -- The case of the select that receives from the queue; an empty open queue blocks it.
    unfoldable pub receive : Recorder F → Recorder F
    unfolding enqueue
    receive s = elim s.queue [
      | [] ↦ if s.queue_closed then record (flush s) { mode = stopped } else s
      | e ∷ es ↦ enqueue (record s { queue = es }) e
    ]

    -- One round of the drain; an empty queue ends it, with the flush and its acknowledgement.
    unfoldable pub drain : Recorder F → Recorder F
    unfolding enqueue
    drain s = elim s.queue [
      | [] ↦ record (flush s) {
        mode = if s.queue_closed then stopped else waiting;
        acknowledged = suc s.acknowledged;
      }
      | e ∷ es ↦ enqueue (record s { queue = es }) e
    ]

    -- A step that its goroutine is not ready for does not happen.
    unfoldable pub step : Recorder F → Step F → Recorder F
    unfolding offer send_on write_snapshot receive drain
    step s (arrives e) = take_event s e
    step s ends = end_stream s
    step s offers = offer s
    step s sends_on = send_on s
    step s receives = if is_waiting s.mode then receive s else s
    step s ticks = if is_waiting s.mode then flush s else s
    step s flush_asked = if is_waiting s.mode then record s { mode = draining } else s
    step s drains = if is_draining s.mode then drain s else s
    step s cancels = if is_waiting s.mode then record (flush s) { mode = stopped } else s
    step s (snapshots e now taken) =
        if s.snapshot_due then write_snapshot (record s { snapshot_due = false }) e now taken else s

    abbrev pub steps : Recorder F → List (Step F) → Recorder F
    steps s [] = s
    steps s (x ∷ xs) = steps (step s x) xs
