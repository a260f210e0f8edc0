-- ===== src/Scenarios/Rows.antt =====
-- A small store: a showcase, an expired guest run, and a batch that is sent twice.
use dispatch_lab.Prelude.{
  ℕ, String, ◌≡◌, refl, Bool, true, false, Option, none, some, List, [], ◌∷◌, IsDistinct, str_eq,
  if◌then◌else◌,
}
use dispatch_lab.Prelude.Map.{lookup, has, keys}
use dispatch_lab.Domain.Defs.{EventType}
use dispatch_lab.Store.Memory.{
  Memory, Simulation, StoredEvent, new_memory, append_events, purge_expired,
}
use dispatch_lab.Store.Newest.{IsNewest, save_all, snapshot_at_or_before-IsNewest}
use dispatch_lab.Store.Memory.{StoredSnapshot, snapshot_at_or_before}
use dispatch_lab.Prelude.Map.{lookup_or}
use dispatch_lab.Prelude.Rising.{IsRising}
use dispatch_lab.Store.Memory.{events_after}
use dispatch_lab.Store.Log.{append_all, events_after-IsRising}
use dispatch_lab.Store.Retry.{append_events_again}
use dispatch_lab.Store.Retention.{outlives, purge_expired-outlives}

abbrev event_row : String → ℕ → StoredEvent ℕ String
event_row id n = record {
  simulation_id = id;
  sequence = n;
  virtual_time = n;
  kind = EventType.order_placed;
  payload = "{}";
  trace_id = "";
  recorded_at = 100;
}

abbrev batch : List (StoredEvent ℕ String)
batch = event_row "show" 2 ∷ event_row "guest" 1 ∷ event_row "show" 1 ∷ []

abbrev run_row : String → Bool → Option ℕ → Simulation
run_row id showcase expires_at = record {
  id = id;
  seed = 1;
  drivers = 2;
  strategy = "baseline";
  created_at = 0;
  completed_at = none;
  showcase = showcase;
  guest_token = "";
  expires_at = expires_at;
}

abbrev rows : Memory ℕ String
rows = record (append_events new_memory batch) {
  simulations =
      ("show", run_row "show" true (some 5)) ∷ ("guest", run_row "guest" false (some 5)) ∷ [];
}

append_events_again_example :
    append_events (append_events rows batch) batch ≡ append_events rows batch
append_events_again_example = append_events_again rows batch

run_ids-IsDistinct : IsDistinct (keys rows.simulations)
unfolding str_eq
run_ids-IsDistinct = (refl, (refl, tt))

guest_row : lookup "guest" rows.simulations ≡ some (run_row "guest" false (some 5))
unfolding lookup str_eq
guest_row = refl

purge_expired-outlives_example :
    let t = (purge_expired rows 7).0 in
    let kept = outlives 7 false (some 5) in
    (has "guest" t.simulations ≡ kept)
    × (lookup "guest" t.events ≡ (if kept then lookup "guest" rows.events else none))
    × (lookup "guest" t.snapshots ≡ (if kept then lookup "guest" rows.snapshots else none))
purge_expired-outlives_example =
    purge_expired-outlives rows 7 "guest" (run_row "guest" false (some 5)) run_ids-IsDistinct
      guest_row

abbrev snapshot_row : ℕ → StoredSnapshot ℕ String
snapshot_row n = record {
  simulation_id = "show";
  sequence = n;
  virtual_time = n;
  payload = "{}";
  recorded_at = 100;
}

abbrev saved : List (StoredSnapshot ℕ String)
saved = snapshot_row 20 ∷ snapshot_row 5 ∷ snapshot_row 10 ∷ snapshot_row 5 ∷ []

snapshot_at_or_before-IsNewest_example :
    IsNewest 12
      (lookup_or [] "show" (save_all new_memory saved).snapshots)
      (snapshot_at_or_before (save_all new_memory saved) "show" 12)
snapshot_at_or_before-IsNewest_example = snapshot_at_or_before-IsNewest saved "show" 12

events_after-IsRising_example :
    IsRising
      (λ (e : StoredEvent ℕ String). e.sequence)
      2
      (events_after (append_all new_memory (batch ∷ batch ∷ [])) "show" 1 10)
events_after-IsRising_example = events_after-IsRising (batch ∷ batch ∷ []) "show" 1 10
