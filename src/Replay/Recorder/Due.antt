-- ===== src/Replay/Recorder/Due.antt =====
-- internal/replay/recorder.go: when the write loop asks for a snapshot.
use dispatch_lab.Prelude.{
  ℕ, ◌+◌, String, ◌≡◌, refl, sym, ap, ◌∙◌, Bool, true, false, List, [], ◌∷◌, ◌++◌, arith, length,
  leb, ltb, All, if◌then◌else◌, ◌==◌, of_if, Bool-cases, inl, inr,
}
use dispatch_lab.Simulation.State.{Event}
use dispatch_lab.Replay.Wire.{recorded}
use dispatch_lab.Replay.Recorder.{
  RecorderConfig, with_defaults, Hand, empty, received, offered, is_waiting, is_draining, Recorder,
  Step, arrives, ends, offers, sends_on, receives, ticks, flush_asked, drains, cancels, snapshots,
  new_recorder, take_event, end_stream, offer, send_on, write, flush, enqueue, receive, drain, step,
  steps,
}

-- How many rows the store has taken.
abbrev pub persisted {ℓ} : {X : Type ℓ} → List (Bool × List X) → ℕ
persisted [] = 0
persisted ((taken, rows) ∷ calls) = (if taken then length rows else 0) + persisted calls

persisted-snoc {ℓ} :
    {X : Type ℓ} (calls : List (Bool × List X)) (taken : Bool) (rows : List X)
    → persisted (calls ++ (taken, rows) ∷ []) ≡ persisted calls + (if taken then length rows else 0)
persisted-snoc [] taken rows = omega arith
persisted-snoc ((b, xs) ∷ calls) taken rows = omega (arith, persisted-snoc calls taken rows)

-- The count starts over when the interval is reached.
reached :
    (every since n total : ℕ) (due : Bool)
    → due ≡ leb every total
    → (due ≡ false → since ≡ total)
    → leb every (since + n) ≡ true
    → true ≡ leb every (total + n)
reached every since n total due d s h = elim (Bool-cases due) [
  | inl p ↦ ground (arith, d, p)
  | inr p ↦ ground (arith, s p, h)
]

below :
    (every since n total : ℕ) (due : Bool)
    → due ≡ leb every total
    → (due ≡ false → since ≡ total)
    → leb every (since + n) ≡ false
    → (due ≡ leb every (total + n)) × (due ≡ false → since + n ≡ total + n)
below every since n total due d s h = elim (Bool-cases due) [
  | inl p ↦ (ground (arith, d, p), λ q. cc (p, q))
  | inr p ↦ (ground (arith, s p, h, p), λ q. omega (arith, s q))
]

module _ {F : Type 0} where
  -- The snapshot loop is not served.
  abbrev pub is_other : Step F → Bool
  is_other (arrives e) = true
  is_other ends = true
  is_other offers = true
  is_other sends_on = true
  is_other receives = true
  is_other ticks = true
  is_other flush_asked = true
  is_other drains = true
  is_other cancels = true
  is_other (snapshots e now taken) = false

  -- A snapshot is due if the rows are enough for one; before that, the count is that of the rows.
  abbrev Due : RecorderConfig → Recorder F → Type 0
  Due config s =
      (s.config ≡ config)
      × (s.snapshot_due ≡ leb config.snapshot_every (persisted s.calls))
      × (s.snapshot_due ≡ false → s.since_snapshot ≡ persisted s.calls)

  module _ (up : ℕ → Bool) (clock : ℕ → ℕ) (config : RecorderConfig) where
    flush-Due : (s : Recorder F) → Due config s → Due config (flush up s)
    unfolding flush write
    flush-Due s (same, due, since) =
        of_if (Due config) (length s.batch == 0) _ _ (λ h. (same, due, since))
          (λ h.
            let taken = up (length s.calls) in
            let n = (if taken then length s.batch else 0) in
            let total = persisted-snoc s.calls taken s.batch in
            let every = ap (λ c. c.snapshot_every) same in
            of_if (Due config) (leb s.config.snapshot_every _) _ _
              (λ q. (
                same,
                reached config.snapshot_every s.since_snapshot n (persisted s.calls) s.snapshot_due
                      due since (ap (λ k. leb k (s.since_snapshot + n)) (sym every) ∙ q)
                    ∙ ap (leb config.snapshot_every) (sym total),
                λ p. cc p,
              ))
              (λ q.
                let b =
                  below config.snapshot_every s.since_snapshot n (persisted s.calls) s.snapshot_due
                    due since (ap (λ k. leb k (s.since_snapshot + n)) (sym every) ∙ q) in
                (same, b.0 ∙ ap (leb config.snapshot_every) (sym total), λ p. b.1 p ∙ sym total)))

    enqueue-Due : (s : Recorder F) (e : Event F) → Due config s → Due config (enqueue up clock s e)
    unfolding enqueue
    enqueue-Due s e d =
        let t = record s { batch = s.batch ++ recorded clock e ∷ [] } in
        of_if (Due config) (leb s.config.batch_size (length t.batch)) (flush up t) t
          (λ full. flush-Due t d) (λ room. d)

    receive-Due : (s : Recorder F) → Due config s → Due config (receive up clock s)
    unfolding receive
    receive-Due s d = by_queue s.queue
      where
        by_queue : (q : List (Event F)) → Due config (receive up clock (record s { queue = q }))
        by_queue [] =
            of_if (Due config) s.queue_closed _ _ (λ h. flush-Due (record s { queue = [] }) d)
              (λ h. d)
        by_queue (e ∷ es) = enqueue-Due (record s { queue = es }) e d

    drain-Due : (s : Recorder F) → Due config s → Due config (drain up clock s)
    unfolding drain
    drain-Due s d = by_queue s.queue
      where
        by_queue : (q : List (Event F)) → Due config (drain up clock (record s { queue = q }))
        by_queue [] = flush-Due (record s { queue = [] }) d
        by_queue (e ∷ es) = enqueue-Due (record s { queue = es }) e d

    forward-Due :
        (s : Recorder F)
        → Due config s
        → ((e : Event F) → Due config (take_event s e))
          × Due config (end_stream s)
          × Due config (offer s)
          × Due config (send_on s)
    unfolding offer send_on
    forward-Due s d = by_hand s.hand
      where
        by_hand :
            (h : Hand F)
            → let t : Recorder F = record s { hand = h } in
              ((e : Event F) → Due config (take_event t e))
              × Due config (end_stream t)
              × Due config (offer t)
              × Due config (send_on t)
        by_hand empty = (λ e. of_if (Due config) s.queue_closed _ _ (λ q. d) (λ q. d), d, d, d)
        by_hand (received e) = (
          λ e. d,
          d,
          of_if (Due config) (ltb (length s.queue) s.config.buffer_size) _ _ (λ q. d) (λ q. d),
          d,
        )
        by_hand (offered e) = (λ e. d, d, d, d)

    step-Due :
        (s : Recorder F) (x : Step F)
        → is_other x ≡ true
        → Due config s
        → Due config (step up clock s x)
    unfolding step
    step-Due s (arrives e) o d = (forward-Due s d).0 e
    step-Due s ends o d = (forward-Due s d).1
    step-Due s offers o d = (forward-Due s d).2
    step-Due s sends_on o d = (forward-Due s d).3
    step-Due s receives o d =
        of_if (Due config) (is_waiting s.mode) _ _ (λ h. receive-Due s d) (λ h. d)
    step-Due s ticks o d = of_if (Due config) (is_waiting s.mode) _ _ (λ h. flush-Due s d) (λ h. d)
    step-Due s flush_asked o d = of_if (Due config) (is_waiting s.mode) _ _ (λ h. d) (λ h. d)
    step-Due s drains o d =
        of_if (Due config) (is_draining s.mode) _ _ (λ h. drain-Due s d) (λ h. d)
    step-Due s cancels o d =
        of_if (Due config) (is_waiting s.mode) _ _ (λ h. flush-Due s d) (λ h. d)
    step-Due s (snapshots e now taken) o d = cc o

    steps-Due :
        (s : Recorder F) (xs : List (Step F))
        → All (λ x. is_other x ≡ true) xs
        → Due config s
        → Due config (steps up clock s xs)
    steps-Due s [] a d = d
    steps-Due s (x ∷ xs) a d = steps-Due (step up clock s x) xs a.1 (step-Due s x a.0 d)

  -- Until the snapshot loop is served, a snapshot is due exactly when the store has taken at least
  -- as many rows as the interval between snapshots.
  pub snapshot_due-persisted :
      (up : ℕ → Bool) (clock : ℕ → ℕ) (id : String) (config : RecorderConfig) (xs : List (Step F))
      → All (λ x. is_other x ≡ true) xs
      → (steps up clock (new_recorder id config) xs).snapshot_due
        ≡ leb
            (with_defaults config).snapshot_every
            (persisted (steps up clock (new_recorder id config) xs).calls)
  unfolding new_recorder with_defaults
  snapshot_due-persisted up clock id config xs a =
      (steps-Due up clock (with_defaults config) (new_recorder id config) xs a
        (refl, ground arith, λ h. refl)).1
