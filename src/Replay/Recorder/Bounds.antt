-- ===== src/Replay/Recorder/Bounds.antt =====
-- internal/replay/recorder.go: the bounds of its buffers.
use dispatch_lab.Prelude.{
  ℕ, ◌+◌, ◌≤◌, ◌<◌, String, ◌≡◌, refl, ap, Bool, true, false, List, [], ◌∷◌, ◌++◌, arith, length,
  length-append, leb, ltb, All, All-append, ◌==◌, of_if,
}
use dispatch_lab.Store.Memory.{StoredEvent, StoredSnapshot}
use dispatch_lab.Simulation.State.{Event}
use dispatch_lab.Replay.Json.{Raw}
use dispatch_lab.Replay.Wire.{recorded}
use dispatch_lab.Replay.Recorder.{
  RecorderConfig, with_defaults, Mode, draining, stopped, is_waiting, is_draining, Recorder, Step,
  arrives, ends, receives, ticks, flush_asked, drains, cancels, snapshots, new_recorder, Hand,
  empty, received, offered, offers, sends_on, take_event, end_stream, offer, send_on,
  write_snapshot, write, flush, enqueue, receive, drain, step, steps,
}

not_reached : (k n m : ℕ) → k ≡ m → leb k n ≡ false → n < m
not_reached k n m e h = ground (arith, e, h)

one_more : (n size bound m : ℕ) → size ≡ bound → ltb n size ≡ true → m ≡ n + 1 → m ≤ bound
one_more n size bound m e h l = ground (arith, e, h, l)

module _ {F : Type 0} where
  -- A call of the store has at least one row and at most a batch.
  abbrev pub Fits : ℕ → Bool × List (StoredEvent F (Raw F)) → Type 0
  Fits size call = (1 ≤ length call.1) × (length call.1 ≤ size)

  -- The buffers keep to the settings; the batch holds fewer rows than `room`.
  pub record Within (config : RecorderConfig) (room : ℕ) (s : Recorder F) : Type 0 where
    pub same : s.config ≡ config
    pub queue : length s.queue ≤ config.buffer_size
    pub batch : length s.batch < room
    pub calls : All (Fits config.batch_size) s.calls

  module _ (up : ℕ → Bool) (clock : ℕ → ℕ) (config : RecorderConfig)
      (some_batch : 0 < config.batch_size) where
    abbrev Open : Recorder F → Type 0
    Open = Within config config.batch_size

    -- A batch that is full at last is flushed.
    flush-Within : (s : Recorder F) → Within config (config.batch_size + 1) s → Open (flush up s)
    unfolding flush write
    flush-Within s w =
        let full = λ (h : (length s.batch == 0) ≡ false).
          All-append (Fits config.batch_size) s.calls (up (length s.calls), s.batch) w.calls
            (ground (arith, h), omega (arith, w.batch)) in
        of_if Open (length s.batch == 0) _ _
          (λ h. record {
            same = w.same;
            queue = w.queue;
            batch = ground (arith, h, some_batch);
            calls = w.calls;
          })
          (λ h.
            of_if Open (leb s.config.snapshot_every _) _ _
              (λ q. record { same = w.same; queue = w.queue; batch = some_batch; calls = full h })
              (λ q. record { same = w.same; queue = w.queue; batch = some_batch; calls = full h }))

    flush-Open : (s : Recorder F) → Open s → Open (flush up s)
    flush-Open s w =
        flush-Within s (record {
          same = w.same;
          queue = w.queue;
          batch = omega (arith, w.batch);
          calls = w.calls;
        })

    enqueue-Open : (s : Recorder F) (e : Event F) → Open s → Open (enqueue up clock s e)
    unfolding enqueue
    enqueue-Open s e w =
        let t = record s { batch = s.batch ++ recorded clock e ∷ [] } in
        let longer = length-append s.batch (recorded clock e ∷ []) in
        of_if Open (leb s.config.batch_size (length t.batch)) (flush up t) t
          (λ full. flush-Within t (record {
            same = w.same;
            queue = w.queue;
            batch = omega (arith, w.batch, longer);
            calls = w.calls;
          }))
          (λ room. record {
            same = w.same;
            queue = w.queue;
            batch = not_reached _ _ _ (ap (λ c. c.batch_size) w.same) room;
            calls = w.calls;
          })

    shorter-Open :
        (s : Recorder F) (e : Event F) (es : List (Event F))
        → Open (record s { queue = e ∷ es })
        → Open (record s { queue = es })
    shorter-Open s e es w = record {
      same = w.same;
      queue = omega (arith, w.queue);
      batch = w.batch;
      calls = w.calls;
    }

    -- The mode and the count of acknowledgements do not matter.
    marked-Open :
        (s : Recorder F) (m : Mode) (n : ℕ)
        → Open s
        → Open (record s { mode = m; acknowledged = n })
    marked-Open s m n w = record {
      same = w.same;
      queue = w.queue;
      batch = w.batch;
      calls = w.calls;
    }

    receive-Open : (s : Recorder F) → Open s → Open (receive up clock s)
    unfolding receive
    receive-Open s w = by_queue s.queue w
      where
        by_queue :
            (q : List (Event F))
            → Open (record s { queue = q })
            → Open (receive up clock (record s { queue = q }))
        by_queue [] v =
            of_if Open s.queue_closed _ _
              (λ h.
                let t = flush up (record s { queue = [] }) in
                marked-Open t stopped t.acknowledged (flush-Open (record s { queue = [] }) v))
              (λ h. v)
        by_queue (e ∷ es) v = enqueue-Open (record s { queue = es }) e (shorter-Open s e es v)

    drain-Open : (s : Recorder F) → Open s → Open (drain up clock s)
    unfolding drain
    drain-Open s w = by_queue s.queue w
      where
        by_queue :
            (q : List (Event F))
            → Open (record s { queue = q })
            → Open (drain up clock (record s { queue = q }))
        by_queue [] v =
            marked-Open (flush up (record s { queue = [] })) _ _
              (flush-Open (record s { queue = [] }) v)
        by_queue (e ∷ es) v = enqueue-Open (record s { queue = es }) e (shorter-Open s e es v)

    -- Nor what the forwarding loop has in hand, what it sent on, and how many events it dropped.
    forwarded-Open :
        (s : Recorder F) (h : Hand F) (b : Bool) (out : List (Event F)) (n : ℕ)
        → Open s
        → Open (record s { hand = h; queue_closed = b; out = out; dropped = n })
    forwarded-Open s h b out n w = record {
      same = w.same;
      queue = w.queue;
      batch = w.batch;
      calls = w.calls;
    }

    queued-Open :
        (s : Recorder F) (e : Event F)
        → ltb (length s.queue) s.config.buffer_size ≡ true
        → Open s
        → Open (record s { hand = offered e; queue = s.queue ++ e ∷ [] })
    queued-Open s e room w = record {
      same = w.same;
      queue =
          one_more (length s.queue) s.config.buffer_size config.buffer_size
            (length (s.queue ++ e ∷ [])) (ap (λ c. c.buffer_size) w.same) room
            (length-append s.queue (e ∷ []));
      batch = w.batch;
      calls = w.calls;
    }

    -- The steps of the forwarding loop, by what it has in hand.
    forward-Open :
        (s : Recorder F)
        → Open s
        → ((e : Event F) → Open (take_event s e))
          × Open (end_stream s)
          × Open (offer s)
          × Open (send_on s)
    unfolding offer send_on
    forward-Open s w = by_hand s.hand w
      where
        by_hand :
            (h : Hand F) (w : Open (record s { hand = h }))
            → let t : Recorder F = record s { hand = h } in
              ((e : Event F) → Open (take_event t e))
              × Open (end_stream t)
              × Open (offer t)
              × Open (send_on t)
        by_hand empty w =
            let t : Recorder F = record s { hand = empty } in
            (
              λ e.
                  of_if Open s.queue_closed _ _ (λ q. w)
                    (λ q. forwarded-Open t (received e) s.queue_closed s.out s.dropped w),
              forwarded-Open t empty true s.out s.dropped w,
              w,
              w,
            )
        by_hand (received d) w =
            let t : Recorder F = record s { hand = received d } in
            (
              λ e. w,
              w,
              of_if Open (ltb (length s.queue) s.config.buffer_size) _ _
                  (λ room. queued-Open t d room w)
                  (λ full. forwarded-Open t (offered d) s.queue_closed s.out (s.dropped + 1) w),
              w,
            )
        by_hand (offered d) w =
            let t : Recorder F = record s { hand = offered d } in
            (λ e. w, w, w, forwarded-Open t empty s.queue_closed (s.out ++ d ∷ []) s.dropped w)

    step-Open : (s : Recorder F) (x : Step F) → Open s → Open (step up clock s x)
    unfolding step write_snapshot
    step-Open s (arrives e) w = (forward-Open s w).0 e
    step-Open s ends w = (forward-Open s w).1
    step-Open s offers w = (forward-Open s w).2
    step-Open s sends_on w = (forward-Open s w).3
    step-Open s receives w = of_if Open (is_waiting s.mode) _ _ (λ h. receive-Open s w) (λ h. w)
    step-Open s ticks w = of_if Open (is_waiting s.mode) _ _ (λ h. flush-Open s w) (λ h. w)
    step-Open s flush_asked w =
        of_if Open (is_waiting s.mode) _ _ (λ h. marked-Open s draining s.acknowledged w) (λ h. w)
    step-Open s drains w = of_if Open (is_draining s.mode) _ _ (λ h. drain-Open s w) (λ h. w)
    step-Open s cancels w =
        of_if Open (is_waiting s.mode) _ _
          (λ h. marked-Open (flush up s) stopped (flush up s).acknowledged (flush-Open s w))
          (λ h. w)
    step-Open s (snapshots e now taken) w =
        of_if Open s.snapshot_due _ _
          (λ h.
            let v : (l : List (StoredSnapshot F (Raw F)))
                → Open (record s { snapshot_due = false; saved = l }) =
              λ l. record { same = w.same; queue = w.queue; batch = w.batch; calls = w.calls } in
            of_if Open taken _ _ (λ q. v _) (λ q. v s.saved))
          (λ h. w)

    steps-Open : (s : Recorder F) (xs : List (Step F)) → Open s → Open (steps up clock s xs)
    steps-Open s [] w = w
    steps-Open s (x ∷ xs) w = steps-Open (step up clock s x) xs (step-Open s x w)

  -- Whatever happens, in every order: the queue holds no more events than its size, the batch fewer
  -- rows than the batch size, and each call of the store has at least one row and at most a full
  -- batch.
  pub steps-Within :
      (up : ℕ → Bool) (clock : ℕ → ℕ) (id : String) (config : RecorderConfig) (xs : List (Step F))
      → Within
          (with_defaults config)
          (with_defaults config).batch_size
          (steps up clock (new_recorder id config) xs)
  unfolding new_recorder with_defaults
  steps-Within up clock id config xs =
      let c = with_defaults config in
      let some_batch : 0 < c.batch_size = ground arith in
      steps-Open up clock c some_batch (new_recorder id config) xs
        (record { same = refl; queue = omega arith; batch = some_batch; calls = tt })
