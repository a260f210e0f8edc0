-- ===== src/Replay/Recorder/Flushes.antt =====
-- internal/replay/recorder.go: what is sent on, and what a flush brings about.
use mathlib.Core.List.{append_assoc, append-nil}
use dispatch_lab.Prelude.{
  ℕ, suc, ◌≡◌, refl, sym, ap, ◌∙◌, Bool, true, false, List, [], ◌∷◌, ◌++◌, length, ltb, map,
  replicate, if◌then◌else◌, of_if,
}
use dispatch_lab.Simulation.State.{Event}
use dispatch_lab.Replay.Wire.{recorded}
use dispatch_lab.Replay.Recorder.{
  waiting, stopped, is_waiting, is_draining, Recorder, Step, arrives, ends, receives, ticks,
  flush_asked, drains, cancels, snapshots, Hand, empty, received, offered, offers, sends_on, offer,
  send_on, write_snapshot, flush, enqueue, drain, step, steps,
}
use dispatch_lab.Replay.Recorder.Kept.{
  handed, kept, Keeps, taken_in, taken-Keeps, flush-Flushed, enqueue-Taken, flush-Keeps,
  receive-Keeps, drain-Keeps,
}

module _ {F : Type 0} where
  -- What the forwarding loop does, apart from the queue and the write loop: what it has in hand after
  -- a step, whether its stream has ended, and the event that came in.
  abbrev pub next_hand : (closed : Bool) → Hand F → Step F → Hand F
  next_hand closed h (arrives e) = elim h [
    | empty ↦ if closed then empty else received e
    | received d ↦ received d
    | offered d ↦ offered d
  ]
  next_hand closed h ends = h
  next_hand closed h offers = elim h [
    | empty ↦ empty
    | received d ↦ offered d
    | offered d ↦ offered d
  ]
  next_hand closed h sends_on = elim h [
    | empty ↦ empty
    | received d ↦ received d
    | offered d ↦ empty
  ]
  next_hand closed h receives = h
  next_hand closed h ticks = h
  next_hand closed h flush_asked = h
  next_hand closed h drains = h
  next_hand closed h cancels = h
  next_hand closed h (snapshots e now taken) = h

  abbrev pub has_ended : (closed : Bool) → Hand F → Step F → Bool
  has_ended closed h (arrives e) = closed
  has_ended closed h ends = elim h [ empty ↦ true | received d ↦ closed | offered d ↦ closed ]
  has_ended closed h offers = closed
  has_ended closed h sends_on = closed
  has_ended closed h receives = closed
  has_ended closed h ticks = closed
  has_ended closed h flush_asked = closed
  has_ended closed h drains = closed
  has_ended closed h cancels = closed
  has_ended closed h (snapshots e now taken) = closed

  abbrev pub came_in : (closed : Bool) → Hand F → Step F → List (Event F)
  came_in closed h (arrives e) = elim h [
    | empty ↦ if closed then [] else e ∷ []
    | received d ↦ []
    | offered d ↦ []
  ]
  came_in closed h ends = []
  came_in closed h offers = []
  came_in closed h sends_on = []
  came_in closed h receives = []
  came_in closed h ticks = []
  came_in closed h flush_asked = []
  came_in closed h drains = []
  came_in closed h cancels = []
  came_in closed h (snapshots e now taken) = []

  -- The events that come in, in order, before the stream ends.
  abbrev pub arrivals : (closed : Bool) → Hand F → List (Step F) → List (Event F)
  arrivals closed h [] = []
  arrivals closed h (x ∷ xs) =
      came_in closed h x ++ arrivals (has_ended closed h x) (next_hand closed h x) xs

  abbrev pub in_hand : Hand F → List (Event F)
  in_hand empty = []
  in_hand (received e) = e ∷ []
  in_hand (offered e) = e ∷ []

  -- What was sent on, with the event in hand.
  abbrev pub sent : Recorder F → List (Event F)
  sent s = s.out ++ in_hand s.hand

  -- What a step does to the stream.
  abbrev Forwards : Recorder F → Step F → Recorder F → Type 0
  Forwards s x t =
      (sent t ≡ sent s ++ came_in s.queue_closed s.hand x)
      × (t.queue_closed ≡ has_ended s.queue_closed s.hand x)
      × (t.hand ≡ next_hand s.queue_closed s.hand x)

  -- The stream is left as it is.
  abbrev Beside : Recorder F → Recorder F → Type 0
  Beside s t = (sent t ≡ sent s ++ []) × (t.queue_closed ≡ s.queue_closed) × (t.hand ≡ s.hand)

  same-Beside : (s : Recorder F) → Beside s s
  same-Beside s = (sym (append-nil (sent s)), refl, refl)

  module _ (up : ℕ → Bool) (clock : ℕ → ℕ) where
    Keeps-Beside : {s t : Recorder F} → Keeps up clock s t → Beside s t
    Keeps-Beside {s} {t} k = (
      ap (λ l. l ++ in_hand t.hand) k.out
          ∙ ap (λ h. s.out ++ in_hand h) k.hand
          ∙ sym (append-nil (sent s)),
      k.closed,
      k.hand,
    )

    arrives-Forwards :
        (s : Recorder F) (e : Event F) → Forwards s (arrives e) (step up clock s (arrives e))
    unfolding step
    arrives-Forwards s e = by_hand s.hand s.queue_closed
      where
        by_hand :
            (h : Hand F) (c : Bool)
            → Forwards
                (record s { hand = h; queue_closed = c })
                (arrives e)
                (step up clock (record s { hand = h; queue_closed = c }) (arrives e))
        by_hand empty true = same-Beside (record s { hand = empty; queue_closed = true })
        by_hand empty false = (ap (λ l. l ++ e ∷ []) (sym (append-nil s.out)), refl, refl)
        by_hand (received d) c = same-Beside (record s { hand = received d; queue_closed = c })
        by_hand (offered d) c = same-Beside (record s { hand = offered d; queue_closed = c })

    ends-Forwards : (s : Recorder F) → Forwards s ends (step up clock s ends)
    unfolding step
    ends-Forwards s = by_hand s.hand
      where
        by_hand :
            (h : Hand F)
            → Forwards (record s { hand = h }) ends (step up clock (record s { hand = h }) ends)
        by_hand empty = (sym (append-nil (s.out ++ [])), refl, refl)
        by_hand (received d) = same-Beside (record s { hand = received d })
        by_hand (offered d) = same-Beside (record s { hand = offered d })

    offers-Forwards : (s : Recorder F) → Forwards s offers (step up clock s offers)
    unfolding step offer
    offers-Forwards s = by_hand s.hand
      where
        by_hand :
            (h : Hand F)
            → Forwards (record s { hand = h }) offers (step up clock (record s { hand = h }) offers)
        by_hand empty = same-Beside (record s { hand = empty })
        by_hand (received e) =
            of_if (Forwards (record s { hand = received e }) offers)
              (ltb (length s.queue) s.config.buffer_size) _ _
              (λ q. (sym (append-nil (s.out ++ e ∷ [])), refl, refl))
              (λ q. (sym (append-nil (s.out ++ e ∷ [])), refl, refl))
        by_hand (offered d) = same-Beside (record s { hand = offered d })

    sends-Forwards : (s : Recorder F) → Forwards s sends_on (step up clock s sends_on)
    unfolding step send_on
    sends-Forwards s = by_hand s.hand
      where
        by_hand :
            (h : Hand F)
            → Forwards
                (record s { hand = h })
                sends_on
                (step up clock (record s { hand = h }) sends_on)
        by_hand empty = same-Beside (record s { hand = empty })
        by_hand (received d) = same-Beside (record s { hand = received d })
        by_hand (offered e) = (refl, refl, refl)

    step-Forwards : (s : Recorder F) (x : Step F) → Forwards s x (step up clock s x)
    unfolding step write_snapshot
    step-Forwards s (arrives e) = arrives-Forwards s e
    step-Forwards s ends = ends-Forwards s
    step-Forwards s offers = offers-Forwards s
    step-Forwards s sends_on = sends-Forwards s
    step-Forwards s receives =
        of_if (Beside s) (is_waiting s.mode) _ _ (λ h. Keeps-Beside (receive-Keeps up clock s))
          (λ h. same-Beside s)
    step-Forwards s ticks =
        of_if (Beside s) (is_waiting s.mode) _ _ (λ h. Keeps-Beside (flush-Keeps up clock s))
          (λ h. same-Beside s)
    step-Forwards s flush_asked =
        of_if (Beside s) (is_waiting s.mode) _ _ (λ h. same-Beside s) (λ h. same-Beside s)
    step-Forwards s drains =
        of_if (Beside s) (is_draining s.mode) _ _ (λ h. Keeps-Beside (drain-Keeps up clock s))
          (λ h. same-Beside s)
    step-Forwards s cancels =
        of_if (Beside s) (is_waiting s.mode) _ _ (λ h. Keeps-Beside (flush-Keeps up clock s))
          (λ h. same-Beside s)
    step-Forwards s (snapshots e now taken) =
        of_if (Beside s) s.snapshot_due _ _
          (λ h. of_if (Beside s) taken _ _ (λ q. same-Beside s) (λ q. same-Beside s))
          (λ h. same-Beside s)

    steps-sent :
        (s : Recorder F) (xs : List (Step F))
        → sent (steps up clock s xs) ≡ sent s ++ arrivals s.queue_closed s.hand xs
    steps-sent s [] = sym (append-nil (sent s))
    steps-sent s (x ∷ xs) =
        let t = step up clock s x in
        let (on, closed, hand) = step-Forwards s x in
        let h = next_hand s.queue_closed s.hand x in
        steps-sent t xs
        ∙ ap (λ l. l ++ arrivals t.queue_closed t.hand xs) on
        ∙ ap (λ c. (sent s ++ came_in s.queue_closed s.hand x) ++ arrivals c t.hand xs) closed
        ∙ ap
            (λ g.
              (sent s ++ came_in s.queue_closed s.hand x)
              ++ arrivals (has_ended s.queue_closed s.hand x) g xs)
            hand
        ∙ append_assoc (sent s) (came_in s.queue_closed s.hand x)
            (arrivals (has_ended s.queue_closed s.hand x) h xs)

    hand_emptied : (s : Recorder F) → (steps up clock s (offers ∷ sends_on ∷ [])).hand ≡ empty
    unfolding step offer send_on
    hand_emptied s = by_hand s.hand
      where
        by_hand :
            (h : Hand F)
            → (steps up clock (record s { hand = h }) (offers ∷ sends_on ∷ [])).hand ≡ empty
        by_hand empty = refl
        by_hand (received e) =
            of_if (λ (t : Recorder F). (send_on t).hand ≡ empty)
              (ltb (length s.queue) s.config.buffer_size) _ _ (λ q. refl) (λ q. refl)
        by_hand (offered e) = refl

    -- The events that come in before the stream ends are sent on, each once and in their order, but
    -- for one that is still in hand, whatever the queue, the write loop and the store do meanwhile;
    -- and after any steps two more of the forwarding loop send on what it has in hand.
    pub steps-out :
        (s : Recorder F) (xs : List (Step F))
        → ((steps up clock s xs).out ++ in_hand (steps up clock s xs).hand
            ≡ s.out ++ in_hand s.hand ++ arrivals s.queue_closed s.hand xs)
          × ((steps up clock (steps up clock s xs) (offers ∷ sends_on ∷ [])).hand ≡ empty)
    steps-out s xs = (steps-sent s xs, hand_emptied (steps up clock s xs))

    step-drains :
        (s : Recorder F) → is_draining s.mode ≡ true → step up clock s drains ≡ drain up clock s
    unfolding step
    step-drains s h = rw h refl

    drain_taken :
        (s : Recorder F) (e : Event F) (es : List (Event F))
        → s.queue ≡ e ∷ es
        → drain up clock s ≡ enqueue up clock (record s { queue = es }) e
    unfolding drain
    drain_taken s e es h = rw h refl

    -- A flush that was asked for is served: the write loop is back, or has returned, nothing is left
    -- in the queue or the batch, and the store was given what they held, in order.
    pub record Served (s t : Recorder F) : Type 0 where
      pub back : is_draining t.mode ≡ false
      pub acknowledged : t.acknowledged ≡ suc s.acknowledged
      pub no_queue : t.queue ≡ []
      pub no_batch : t.batch ≡ []
      pub given : handed t.calls ≡ kept up clock s

    drain_empty :
        (s : Recorder F)
        → s.queue ≡ []
        → drain up clock s ≡ record (flush up s) {
          mode = if s.queue_closed then stopped else waiting;
          acknowledged = suc s.acknowledged;
        }
    unfolding drain
    drain_empty s h = rw h refl

    last_drain : (s : Recorder F) → s.queue ≡ [] → Served s (drain up clock s)
    last_drain s h =
        let f = flush-Flushed up s in
        let t = flush up s in
        rw (drain_empty s h) (record {
          back =
              of_if (λ m. is_draining m ≡ false) s.queue_closed stopped waiting (λ q. refl)
                (λ q. refl);
          acknowledged = refl;
          no_queue = f.stream.queue ∙ h;
          no_batch = f.emptied;
          given =
              sym (ap (λ b. handed t.calls ++ b) f.emptied ∙ append-nil (handed t.calls))
              ∙ f.same
              ∙ sym (ap (λ q. taken_in s ++ map (recorded clock) q) h ∙ append-nil (taken_in s));
        })

    -- With as many rounds as the queue has events, and one more, a drain that no arrival interrupts
    -- is over: it is acknowledged, the write loop is back at its select or has returned, the queue
    -- and the batch are empty, and the store was given all that they held, in order.
    pub drains-Served :
        (s : Recorder F) (q : List (Event F))
        → s.queue ≡ q
        → is_draining s.mode ≡ true
        → Served s (steps up clock s (replicate (suc (length q)) drains))
    drains-Served s [] h m = rw (step-drains s m) (last_drain s h)
    drains-Served s (e ∷ es) h m =
        let u = enqueue up clock (record s { queue = es }) e in
        let k = enqueue-Taken up clock (record s { queue = es }) e in
        let v = drains-Served u es k.stream.queue (ap is_draining k.stream.mode ∙ m) in
        let same : steps up clock s (replicate (suc (length (e ∷ es))) drains)
            ≡ steps up clock u (replicate (suc (length es)) drains) =
          ap (λ t. steps up clock t (replicate (suc (length es)) drains))
            (step-drains s m ∙ drain_taken s e es h) in
        rw same (record {
          back = v.back;
          acknowledged = v.acknowledged ∙ ap suc k.count;
          no_queue = v.no_queue;
          no_batch = v.no_batch;
          given = v.given ∙ (taken-Keeps up clock s e es h).all;
        })
