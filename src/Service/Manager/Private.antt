-- ===== src/Service/Manager/Private.antt =====
-- internal/service/manager.go: a run is out of reach of every session but its owner's.
use dispatch_lab.Prelude.{
  ℕ, List, Option, true, String, ◌≡◌, refl, Bool, false, not, none, some, arith, str_eq,
  if◌then◌else◌, ◌||◌, ap, of_if, of_option,
}
use dispatch_lab.Prelude.Map.{lookup, has}
use dispatch_lab.Simulation.Actor.{Command, reset, set_paused, set_speed, close_road, reopen_road}
use dispatch_lab.Store.Memory.{Memory, StoredEvent, StoredSnapshot}
use dispatch_lab.Service.Manager.{
  Manager, Entry, Answer, done, not_found, Request, order_of, pause, start_over, play_at, close,
  reopen, snapshot_of, stream, keep_forever, mark_run, serve, authorize, submit, reserve_order,
  order, reset_run, stream_lookup, authorize_run,
}

not_both : (b : Bool) → not b ≡ false → b ≡ false → ⊥
not_both b h k = ground (arith, h, k)

module _ {F : Type 0} where
  -- Whether the manager has a run of that name that the session may see.
  abbrev pub is_visible : Manager F → (id token : String) → Bool
  is_visible m id token = elim (lookup id m.entries) [
    | none ↦ false
    | some e ↦ str_eq e.owner "" || str_eq e.owner token
  ]

  visible_known :
      (m : Manager F) (id token : String) (e : Entry F)
      → lookup id m.entries ≡ some e
      → is_visible m id token ≡ false
      → authorize e token ≡ false
  unfolding authorize
  visible_known m id token e q h = cc (q, h)

  submit_hidden :
      (m : Manager F) (id token : String) (cmd : Command F)
      → is_visible m id token ≡ false
      → submit m id token cmd ≡ (m, not_found)
  unfolding submit
  submit_hidden m id token cmd h =
      of_option (λ x. x ≡ (m, not_found)) (lookup id m.entries) _ _ (λ q. refl)
        λ e q.
          of_if (λ x. x ≡ (m, not_found)) (not (authorize e token)) _ _ (λ p. refl)
            (λ p. absurd (not_both (authorize e token) p (visible_known m id token e q h)))

  reserve_hidden :
      (m : Manager F) (id token : String)
      → is_visible m id token ≡ false
      → reserve_order m id token ≡ (m, not_found)
  unfolding reserve_order
  reserve_hidden m id token h =
      of_option (λ x. x ≡ (m, not_found)) (lookup id m.entries) _ _ (λ q. refl)
        λ e q.
          of_if (λ x. x ≡ (m, not_found)) (not (authorize e token)) _ _ (λ p. refl)
            (λ p. absurd (not_both (authorize e token) p (visible_known m id token e q h)))

  authorize_hidden :
      (m : Manager F) (id token : String)
      → is_visible m id token ≡ false
      → (authorize_run m id token ≡ not_found) × (stream_lookup m id token ≡ false)
  unfolding authorize_run stream_lookup
  authorize_hidden m id token h = (
    of_option (λ x. x ≡ not_found) (lookup id m.entries) _ _ (λ q. refl)
        (λ e q. rw (visible_known m id token e q h) refl),
    of_option (λ x. x ≡ false) (lookup id m.entries) _ _ (λ q. refl)
        (λ e q. visible_known m id token e q h),
  )

  mark_hidden :
      {P : Type 0} (m : Manager F) (db : Option (Memory F P)) (id token : String)
      (final : Option (StoredSnapshot F P)) (rows : List (StoredEvent F P)) (now : ℕ) (up : Bool)
      → is_visible m id token ≡ false
      → has id m.entries ≡ true
      → mark_run m db id token final rows now up ≡ (db, not_found)
  unfolding mark_run
  mark_hidden m none id token final rows now up h live = refl
  mark_hidden m (some db) id token final rows now up h live =
      rw (mark_run, live, (authorize_hidden m id token h).0) refl

  -- Whether the request is one that the manager passes on to the store for a run that is over.
  abbrev pub is_marking : {P : Type 0} → Request F P → Bool
  is_marking (order_of pickup destination) = false
  is_marking (pause b) = false
  is_marking start_over = false
  is_marking (play_at x) = false
  is_marking (close edge_id command_id) = false
  is_marking (reopen edge_id) = false
  is_marking snapshot_of = false
  is_marking stream = false
  is_marking (keep_forever final rows now up) = true

  -- A request of a session on a run that it does not own and that is not public changes nothing,
  -- neither the runs nor the store, and is answered exactly like one on a run that does not exist.
  -- The wish to keep a run as a showcase is one of these requests only while the run is live.
  pub serve_hidden :
      {P : Type 0} (m : Manager F) (db : Option (Memory F P)) (id token : String) (r : Request F P)
      → is_visible m id token ≡ false
      → (not (is_marking r) || has id m.entries) ≡ true
      → serve m db id token r ≡ (m, db, not_found)
  unfolding serve order reset_run
  serve_hidden m db id token (order_of pickup destination) h k =
      rw (reserve_hidden m id token h) refl
  serve_hidden m db id token (pause b) h k = rw (submit_hidden m id token (set_paused b) h) refl
  serve_hidden m db id token start_over h k = rw (submit_hidden m id token reset h) refl
  serve_hidden m db id token (play_at x) h k = rw (submit_hidden m id token (set_speed x) h) refl
  serve_hidden m db id token (close edge_id command_id) h k =
      rw (submit_hidden m id token (close_road edge_id command_id) h) refl
  serve_hidden m db id token (reopen edge_id) h k =
      rw (submit_hidden m id token (reopen_road edge_id) h) refl
  serve_hidden m db id token snapshot_of h k =
      ap (λ a. (m, db, a)) (authorize_hidden m id token h).0
  serve_hidden m db id token stream h k =
      ap (λ b. (m, db, if b then done else not_found)) (authorize_hidden m id token h).1
  serve_hidden m db id token (keep_forever final rows now up) h k =
      ap (λ (p : Option (Memory F _) × Answer). (m, p.0, p.1))
        (mark_hidden m db id token final rows now up h k)
