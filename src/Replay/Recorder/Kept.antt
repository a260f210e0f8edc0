-- ===== src/Replay/Recorder/Kept.antt =====
-- internal/replay/recorder.go: what the recorder keeps of the stream, and in which order.
use mathlib.Core.List.{append_assoc, append-nil, map-append}
use dispatch_lab.Prelude.{
  ℕ, String, ◌≡◌, refl, sym, ap, ◌∙◌, Bool, true, List, [], ◌∷◌, ◌++◌, arith, length, leb, ltb, map,
  ◌==◌, of_if,
}
use dispatch_lab.Store.Memory.{StoredEvent}
use dispatch_lab.Simulation.State.{Event}
use dispatch_lab.Replay.Json.{Raw}
use dispatch_lab.Replay.Wire.{recorded}
use dispatch_lab.Replay.Recorder.{
  RecorderConfig, is_waiting, is_draining, Recorder, Step, arrives, ends, receives, ticks,
  flush_asked, drains, cancels, snapshots, new_recorder, Hand, empty, received, offered, offers,
  sends_on, take_event, end_stream, offer, send_on, write, flush, enqueue, receive, drain, step,
  steps,
}

-- The rows that the store was given, in order, whether it took them or not.
abbrev pub handed {ℓ} : {X : Type ℓ} → List (Bool × List X) → List X
handed [] = []
handed ((taken, rows) ∷ calls) = rows ++ handed calls

handed-snoc {ℓ} :
    {X : Type ℓ} (calls : List (Bool × List X)) (taken : Bool) (rows : List X)
    → handed (calls ++ (taken, rows) ∷ []) ≡ handed calls ++ rows
handed-snoc [] taken rows = append-nil rows
handed-snoc ((b, xs) ∷ calls) taken rows =
    ap (λ l. xs ++ l) (handed-snoc calls taken rows) ∙ sym (append_assoc xs (handed calls) rows)

-- The event that is in the queue already, or was dropped, and is still to be sent on.
abbrev pub to_send : {F : Type 0} → Hand F → List (Event F)
to_send empty = []
to_send (received e) = []
to_send (offered e) = e ∷ []

no_length {ℓ} : {X : Type ℓ} (xs : List X) → (length xs == 0) ≡ true → xs ≡ []
no_length [] h = refl
no_length (x ∷ xs) h = ground (arith, h)

module _ {F : Type 0} where
  -- What the write loop has taken from the queue, in order.
  abbrev pub taken_in : Recorder F → List (StoredEvent F (Raw F))
  taken_in s = handed s.calls ++ s.batch

  -- The two states differ at most in what the write loop keeps for itself.
  pub record SameStream (s t : Recorder F) : Type 0 where
    pub queue : t.queue ≡ s.queue
    pub closed : t.queue_closed ≡ s.queue_closed
    pub out : t.out ≡ s.out
    pub dropped : t.dropped ≡ s.dropped
    pub mode : t.mode ≡ s.mode
    pub hand : t.hand ≡ s.hand

  module _ (up : ℕ → Bool) where
    -- A flush hands over the batch, and nothing else of the stream changes.
    pub record Flushed (s t : Recorder F) : Type 0 where
      pub stream : SameStream s t
      pub same : taken_in t ≡ taken_in s
      pub emptied : t.batch ≡ []
      pub count : t.acknowledged ≡ s.acknowledged

    pub flush-Flushed : (s : Recorder F) → Flushed s (flush up s)
    unfolding flush write
    flush-Flushed s =
        of_if (Flushed s) (length s.batch == 0) _ _
          (λ h. record {
            stream = record {
              queue = refl;
              closed = refl;
              out = refl;
              dropped = refl;
              mode = refl;
              hand = refl;
            };
            same = refl;
            emptied = no_length s.batch h;
            count = refl;
          })
          (λ h.
            let moved =
              append-nil (handed (s.calls ++ (up (length s.calls), s.batch) ∷ []))
              ∙ handed-snoc s.calls (up (length s.calls)) s.batch in
            of_if (Flushed s) (leb s.config.snapshot_every _) _ _
              (λ q. record {
                stream = record {
                  queue = refl;
                  closed = refl;
                  out = refl;
                  dropped = refl;
                  mode = refl;
                  hand = refl;
                };
                same = moved;
                emptied = refl;
                count = refl;
              })
              (λ q. record {
                stream = record {
                  queue = refl;
                  closed = refl;
                  out = refl;
                  dropped = refl;
                  mode = refl;
                  hand = refl;
                };
                same = moved;
                emptied = refl;
                count = refl;
              }))

    module _ (clock : ℕ → ℕ) where
      abbrev pub row : Event F → StoredEvent F (Raw F)
      row = recorded clock

      -- An event was taken in.
      pub record Taken (s t : Recorder F) (e : Event F) : Type 0 where
        pub stream : SameStream s t
        pub added : taken_in t ≡ taken_in s ++ row e ∷ []
        pub count : t.acknowledged ≡ s.acknowledged

      pub enqueue-Taken : (s : Recorder F) (e : Event F) → Taken s (enqueue up clock s e) e
      unfolding enqueue
      enqueue-Taken s e =
          let t = record s { batch = s.batch ++ row e ∷ [] } in
          let added = sym (append_assoc (handed s.calls) s.batch (row e ∷ [])) in
          of_if (λ u. Taken s u e) (leb s.config.batch_size (length t.batch)) (flush up t) t
            (λ full.
              let f = flush-Flushed t in
              record {
                stream = record {
                  queue = f.stream.queue;
                  closed = f.stream.closed;
                  out = f.stream.out;
                  dropped = f.stream.dropped;
                  mode = f.stream.mode;
                  hand = f.stream.hand;
                };
                added = f.same ∙ added;
                count = f.count;
              })
            (λ room. record {
              stream = record {
                queue = refl;
                closed = refl;
                out = refl;
                dropped = refl;
                mode = refl;
                hand = refl;
              };
              added = added;
              count = refl;
            })

      -- What was taken in or waits in the queue, in order.
      abbrev pub kept : Recorder F → List (StoredEvent F (Raw F))
      kept s = taken_in s ++ map row s.queue

      -- The write loop keeps what there is, and does not touch the rest of the stream.
      pub record Keeps (s t : Recorder F) : Type 0 where
        pub out : t.out ≡ s.out
        pub hand : t.hand ≡ s.hand
        pub dropped : t.dropped ≡ s.dropped
        pub closed : t.queue_closed ≡ s.queue_closed
        pub all : kept t ≡ kept s

      pub flush-Keeps : (s : Recorder F) → Keeps s (flush up s)
      flush-Keeps s =
          let f = flush-Flushed s in
          record {
            out = f.stream.out;
            hand = f.stream.hand;
            dropped = f.stream.dropped;
            closed = f.stream.closed;
            all =
                ap (λ q. taken_in (flush up s) ++ map row q) f.stream.queue
                ∙ ap (λ l. l ++ map row s.queue) f.same;
          }

      pub taken-Keeps :
          (s : Recorder F) (e : Event F) (es : List (Event F))
          → s.queue ≡ e ∷ es
          → Keeps s (enqueue up clock (record s { queue = es }) e)
      taken-Keeps s e es h =
          let k = enqueue-Taken (record s { queue = es }) e in
          record {
            out = k.stream.out;
            hand = k.stream.hand;
            dropped = k.stream.dropped;
            closed = k.stream.closed;
            all =
                ap (λ q. taken_in (enqueue up clock (record s { queue = es }) e) ++ map row q)
                  k.stream.queue
                ∙ ap (λ l. l ++ map row es) k.added
                ∙ append_assoc (taken_in s) (row e ∷ []) (map row es)
                ∙ ap (λ q. taken_in s ++ map row q) (sym h);
          }

      pub receive-Keeps : (s : Recorder F) → Keeps s (receive up clock s)
      unfolding receive
      receive-Keeps s = by_queue s.queue
        where
          by_queue :
              (q : List (Event F))
              → Keeps (record s { queue = q }) (receive up clock (record s { queue = q }))
          by_queue [] =
              of_if (Keeps (record s { queue = [] })) s.queue_closed _ _
                (λ h.
                  let f = flush-Keeps (record s { queue = [] }) in
                  record {
                    out = f.out;
                    hand = f.hand;
                    dropped = f.dropped;
                    closed = f.closed;
                    all = f.all;
                  })
                (λ h. record { out = refl; hand = refl; dropped = refl; closed = refl; all = refl })
          by_queue (e ∷ es) = taken-Keeps (record s { queue = e ∷ es }) e es refl

      pub drain-Keeps : (s : Recorder F) → Keeps s (drain up clock s)
      unfolding drain
      drain-Keeps s = by_queue s.queue
        where
          by_queue :
              (q : List (Event F))
              → Keeps (record s { queue = q }) (drain up clock (record s { queue = q }))
          by_queue [] =
              let f = flush-Keeps (record s { queue = [] }) in
              record {
                out = f.out;
                hand = f.hand;
                dropped = f.dropped;
                closed = f.closed;
                all = f.all;
              }
          by_queue (e ∷ es) = taken-Keeps (record s { queue = e ∷ es }) e es refl

      -- Unless an event was dropped, what was sent on, and the event that is about to be, is kept.
      Balanced : Recorder F → Type 0
      Balanced s = s.dropped ≡ 0 → kept s ≡ map row (s.out ++ to_send s.hand)

      balanced : (s t : Recorder F) → Keeps s t → Balanced s → Balanced t
      unfolding Balanced
      balanced s t k b d =
          k.all
          ∙ b (sym k.dropped ∙ d)
          ∙ ap (λ l. map row (l ++ to_send s.hand)) (sym k.out)
          ∙ ap (λ h. map row (t.out ++ to_send h)) (sym k.hand)

      take_event-Balanced : (s : Recorder F) (e : Event F) → Balanced s → Balanced (take_event s e)
      unfolding Balanced
      take_event-Balanced s e b = by_hand s.hand b
        where
          by_hand :
              (h : Hand F)
              → Balanced (record s { hand = h })
              → Balanced (take_event (record s { hand = h }) e)
          by_hand empty b = of_if Balanced s.queue_closed _ _ (λ q. b) (λ q. b)
          by_hand (received d) b = b
          by_hand (offered d) b = b

      end_stream-Balanced : (s : Recorder F) → Balanced s → Balanced (end_stream s)
      unfolding Balanced
      end_stream-Balanced s b = by_hand s.hand b
        where
          by_hand :
              (h : Hand F)
              → Balanced (record s { hand = h })
              → Balanced (end_stream (record s { hand = h }))
          by_hand empty b = b
          by_hand (received d) b = b
          by_hand (offered d) b = b

      offer-Balanced : (s : Recorder F) → Balanced s → Balanced (offer s)
      unfolding Balanced offer
      offer-Balanced s b = by_hand s.hand b
        where
          by_hand :
              (h : Hand F)
              → Balanced (record s { hand = h })
              → Balanced (offer (record s { hand = h }))
          by_hand empty b = b
          by_hand (received e) b =
              of_if Balanced (ltb (length s.queue) s.config.buffer_size) _ _
                (λ room d.
                  ap (λ l. taken_in s ++ l) (map-append row s.queue (e ∷ []))
                  ∙ sym (append_assoc (taken_in s) (map row s.queue) (row e ∷ []))
                  ∙ ap (λ l. l ++ row e ∷ []) (b d ∙ ap (map row) (append-nil s.out))
                  ∙ sym (map-append row s.out (e ∷ [])))
                (λ full d. absurd (omega (arith, d)))
          by_hand (offered d) b = b

      send_on-Balanced : (s : Recorder F) → Balanced s → Balanced (send_on s)
      unfolding Balanced send_on
      send_on-Balanced s b = by_hand s.hand b
        where
          by_hand :
              (h : Hand F)
              → Balanced (record s { hand = h })
              → Balanced (send_on (record s { hand = h }))
          by_hand empty b = b
          by_hand (received d) b = b
          by_hand (offered e) b = λ d. b d ∙ ap (map row) (sym (append-nil (s.out ++ e ∷ [])))

      step-Balanced : (s : Recorder F) (x : Step F) → Balanced s → Balanced (step up clock s x)
      unfolding step Balanced
      step-Balanced s (arrives e) b = take_event-Balanced s e b
      step-Balanced s ends b = end_stream-Balanced s b
      step-Balanced s offers b = offer-Balanced s b
      step-Balanced s sends_on b = send_on-Balanced s b
      step-Balanced s receives b =
          of_if Balanced (is_waiting s.mode) _ _ (λ h. balanced s _ (receive-Keeps s) b) (λ h. b)
      step-Balanced s ticks b =
          of_if Balanced (is_waiting s.mode) _ _ (λ h. balanced s _ (flush-Keeps s) b) (λ h. b)
      step-Balanced s flush_asked b = of_if Balanced (is_waiting s.mode) _ _ (λ h. b) (λ h. b)
      step-Balanced s drains b =
          of_if Balanced (is_draining s.mode) _ _ (λ h. balanced s _ (drain-Keeps s) b) (λ h. b)
      step-Balanced s cancels b =
          of_if Balanced (is_waiting s.mode) _ _ (λ h. balanced s (flush up s) (flush-Keeps s) b)
            (λ h. b)
      step-Balanced s (snapshots e now taken) b =
          of_if Balanced s.snapshot_due _ _ (λ h. of_if Balanced taken _ _ (λ q. b) (λ q. b))
            (λ h. b)

      steps-Balanced :
          (s : Recorder F) (xs : List (Step F)) → Balanced s → Balanced (steps up clock s xs)
      steps-Balanced s [] b = b
      steps-Balanced s (x ∷ xs) b = steps-Balanced (step up clock s x) xs (step-Balanced s x b)

      -- However the recorder's goroutines take turns, and whatever the store answers, the rows that
      -- the store was given, then the batch, then the queue are the events that were sent on to the
      -- viewers, and the one that the forwarding loop has offered to the queue and not yet sent on,
      -- each once and in their order, unless an event was dropped at a full queue.
      pub handed-steps :
          (id : String) (config : RecorderConfig) (xs : List (Step F))
          → (steps up clock (new_recorder id config) xs).dropped ≡ 0
          → handed (steps up clock (new_recorder id config) xs).calls
              ++ (steps up clock (new_recorder id config) xs).batch
              ++ map (recorded clock) (steps up clock (new_recorder id config) xs).queue
            ≡ map (recorded clock) (
                (steps up clock (new_recorder id config) xs).out
                ++ to_send (steps up clock (new_recorder id config) xs).hand)
      unfolding new_recorder Balanced
      handed-steps id config xs = steps-Balanced (new_recorder id config) xs (λ d. refl)
