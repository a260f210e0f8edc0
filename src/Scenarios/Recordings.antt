-- ===== src/Scenarios/Recordings.antt =====
-- A recorder with batches of two, whose store refuses its second batch.
use dispatch_lab.Prelude.{
  leb, All, ℕ, ◌+◌, ◌≡◌, refl, Bool, true, List, [], ◌∷◌, ◌++◌, map, not, ◌==◌, replicate,
}
use dispatch_lab.Domain.Defs.{EventType}
use dispatch_lab.Simulation.State.{Event, paused_is}
use dispatch_lab.Replay.Wire.{recorded}
use dispatch_lab.Replay.Recorder.{
  offers, sends_on, empty, RecorderConfig, Recorder, Step, arrives, receives, ticks, flush_asked,
  drains, snapshots, is_draining, new_recorder, with_defaults, steps, step, offer, send_on, receive,
  drain, enqueue, flush, write, write_snapshot,
}
use dispatch_lab.Replay.Recorder.Kept.{handed, to_send, handed-steps}
use dispatch_lab.Replay.Recorder.Flushes.{arrivals, in_hand, steps-out, Served, drains-Served}
use dispatch_lab.Replay.Recorder.Due.{is_other, persisted, snapshot_due-persisted}
use dispatch_lab.Replay.Recorder.Bounds.{Within, steps-Within}

abbrev config : RecorderConfig
config = record { batch_size = 2; snapshot_every = 2; buffer_size = 3 }

abbrev event : ℕ → Event ℕ
event n = record {
  simulation_id = "sim";
  sequence = n;
  virtual_time = n;
  kind = EventType.simulation_paused;
  payload = paused_is true;
  trace_id = "";
  causation_id = "";
}

abbrev up : ℕ → Bool
up n = not (n == 1)

abbrev clock : ℕ → ℕ
clock n = 100 + n

abbrev comes : ℕ → List (Step ℕ) → List (Step ℕ)
comes n xs = arrives (event n) ∷ offers ∷ sends_on ∷ xs

-- The second event is written before it is sent on.
abbrev recorded_two : List (Step ℕ) → List (Step ℕ)
recorded_two xs = comes 1 (arrives (event 2) ∷ offers ∷ receives ∷ receives ∷ sends_on ∷ xs)

abbrev happened : List (Step ℕ)
happened = recorded_two (
    snapshots (event 2) 200 true
    ∷ comes 3 (receives ∷ ticks ∷ comes 4 (arrives (event 5) ∷ offers ∷ flush_asked ∷ [])))

abbrev idle : Recorder ℕ
idle = new_recorder "sim" config

abbrev after : Recorder ℕ
after = steps up clock idle happened

none_dropped : after.dropped ≡ 0
unfolding step new_recorder with_defaults offer send_on receive drain enqueue flush write
    write_snapshot
none_dropped = refl

now_draining : is_draining after.mode ≡ true
unfolding step new_recorder with_defaults offer send_on receive drain enqueue flush write
    write_snapshot
now_draining = refl

two_waiting : after.queue ≡ event 4 ∷ event 5 ∷ []
unfolding step new_recorder with_defaults offer send_on receive drain enqueue flush write
    write_snapshot
two_waiting = refl

handed-steps_example :
    handed after.calls ++ after.batch ++ map (recorded clock) after.queue
    ≡ map (recorded clock) (after.out ++ to_send after.hand)
handed-steps_example = handed-steps up clock "sim" config happened none_dropped

drains-Served_example : Served up clock after (steps up clock after (replicate 3 drains))
drains-Served_example =
    drains-Served up clock after (event 4 ∷ event 5 ∷ []) two_waiting now_draining

steps-out_example :
    (after.out ++ in_hand after.hand
      ≡ idle.out ++ in_hand idle.hand ++ arrivals idle.queue_closed idle.hand happened)
    × ((steps up clock after (offers ∷ sends_on ∷ [])).hand ≡ empty)
steps-out_example = steps-out up clock idle happened

steps-Within_example : Within (with_defaults config) (with_defaults config).batch_size after
steps-Within_example = steps-Within up clock "sim" config happened

before_snapshot : All (λ x. is_other x ≡ true) (recorded_two [])
before_snapshot = (refl, (refl, (refl, (refl, (refl, (refl, (refl, (refl, tt))))))))

snapshot_due-persisted_example :
    (steps up clock idle (recorded_two [])).snapshot_due
    ≡ leb
        (with_defaults config).snapshot_every
        (persisted (steps up clock idle (recorded_two [])).calls)
snapshot_due-persisted_example =
    snapshot_due-persisted up clock "sim" config (recorded_two []) before_snapshot
