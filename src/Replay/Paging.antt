-- ===== src/Replay/Paging.antt =====
-- internal/replay/reader.go: the pages that the reader asks for make up the whole log, and a state
-- is reconstructed from all of it.
use dispatch_lab.Prelude.{
  ℕ, zero, suc, ◌+◌, ◌≤◌, ◌<◌, String, ◌≡◌, refl, sym, ap, ◌∙◌, List, [], ◌∷◌, ◌++◌, arith, length,
  ltb, leb, keep, take, drop, All, ◌==◌, of_bool,
}
use mathlib.Core.List.{append_assoc}
use dispatch_lab.Prelude.Rising.{IsRising, keep_above, lower}
use dispatch_lab.Store.Memory.{StoredEvent, StoredSnapshot, last_sequence}
use dispatch_lab.Replay.Json.{Raw}
use dispatch_lab.Replay.Reader.{Answer, answer, LogStore, max_page_size, read_pages}

module _ {F : Type 0} where
  abbrev pub number : StoredEvent F (Raw F) → ℕ
  number e = e.sequence

  -- The events after a number.
  abbrev pub after : ℕ → List (StoredEvent F (Raw F)) → List (StoredEvent F (Raw F))
  after n = keep (λ e. ltb n e.sequence)

  -- A store keeps one log for a run, by numbers that rise from 1 on, and answers from it; a snapshot
  -- is no newer than it was asked for.
  pub record LogLaws (st : LogStore F) (id : String) (log : List (StoredEvent F (Raw F)))
      : Type 0 where
    pub rising : IsRising number 1 log
    pub page :
        (from limit : ℕ)
        → st.events id from (suc limit) ≡ answer (take (suc limit) (after from log))
    pub snapshot :
        (n : ℕ) (s : StoredSnapshot F (Raw F))
        → st.snapshot_at_or_before id n ≡ answer s
        → s.sequence ≤ n

  after_all :
      (n : ℕ) (xs : List (StoredEvent F (Raw F))) → IsRising number (suc n) xs → after n xs ≡ xs
  after_all n [] r = refl
  after_all n (x ∷ xs) r = ground (
    arith,
    r.0,
    after_all n xs (lower number (suc n) (suc x.sequence) xs (omega (arith, r.0)) r.1),
  )

  after-after :
      (m n : ℕ) (xs : List (StoredEvent F (Raw F))) → m ≤ n → after n (after m xs) ≡ after n xs
  after-after m n [] h = refl
  after-after m n (x ∷ xs) h = ground (arith, after-after m n xs h)

  last_ge :
      (n k : ℕ) (x : StoredEvent F (Raw F)) (xs : List (StoredEvent F (Raw F)))
      → IsRising number k (x ∷ xs)
      → x.sequence ≤ last_sequence (x ∷ take n xs)
  unfolding last_sequence
  last_ge zero k x xs r = omega arith
  last_ge (suc n) k x [] r = omega arith
  last_ge (suc n) k x (y ∷ ys) r = omega (arith, r.1.0, last_ge n (suc x.sequence) y ys r.1)

  skip :
      (m : ℕ) (x : StoredEvent F (Raw F)) (xs : List (StoredEvent F (Raw F)))
      → x.sequence ≤ m
      → after m (x ∷ xs) ≡ after m xs
  skip m x xs h = ground (arith, h)

  -- After a page comes what the page leaves of the log.
  after-take :
      (n k : ℕ) (x : StoredEvent F (Raw F)) (xs : List (StoredEvent F (Raw F)))
      → IsRising number k (x ∷ xs)
      → after (last_sequence (x ∷ take n xs)) (x ∷ xs) ≡ drop n xs
  unfolding last_sequence
  after-take zero k x xs r = ground (arith, after_all x.sequence xs r.1)
  after-take (suc n) k x [] r = ground arith
  after-take (suc n) k x (y ∷ ys) r =
      skip (last_sequence (y ∷ take n ys)) x (y ∷ ys)
        (omega (arith, r.1.0, last_ge n (suc x.sequence) y ys r.1))
      ∙ after-take n (suc x.sequence) y ys r.1

  take-drop : (n : ℕ) (xs : List (StoredEvent F (Raw F))) → take n xs ++ drop n xs ≡ xs
  take-drop zero xs = refl
  take-drop (suc n) [] = refl
  take-drop (suc n) (x ∷ xs) = ap (λ ys. x ∷ ys) (take-drop n xs)

  All-above :
      (m k : ℕ) (xs : List (StoredEvent F (Raw F)))
      → m < k
      → IsRising number k xs
      → All (λ e. m < e.sequence) xs
  All-above m k [] h r = tt
  All-above m k (x ∷ xs) h r =
      (omega (arith, h, r.0), All-above m (suc x.sequence) xs (omega (arith, h, r.0)) r.1)

module _ {F : Type 0} (st : LogStore F) (id : String) (log : List (StoredEvent F (Raw F)))
    (laws : LogLaws st id log) where
  -- The reader has read what comes after `from`, but for events beyond the number.
  pub record HasRead (sequence from : ℕ) (es : List (StoredEvent F (Raw F))) : Type 0 where
    pub beyond : List (StoredEvent F (Raw F))
    pub complete : es ++ beyond ≡ after from log
    pub later : All (λ (e : StoredEvent F (Raw F)). sequence < e.sequence) beyond

  -- What the loop ends with.
  abbrev Reads : (sequence from : ℕ) → Answer (List (StoredEvent F (Raw F))) → Type 0
  Reads sequence from r =
      (es : List (StoredEvent F (Raw F))) × (r ≡ answer es) × HasRead sequence from es

  -- A page that is not empty rises from `from`.
  page_rises :
      (from : ℕ) (x : StoredEvent F (Raw F)) (xs : List (StoredEvent F (Raw F)))
      → after from log ≡ x ∷ xs
      → IsRising number (suc from) (x ∷ xs)
  page_rises from x xs e =
      let above : IsRising number (suc from) (after from log) =
        keep_above number from 1 log laws.rising in
      rw e at above

  last_page :
      (n sequence from : ℕ) (x : StoredEvent F (Raw F)) (xs : List (StoredEvent F (Raw F)))
      → after from log ≡ x ∷ xs
      → sequence ≤ last_sequence (x ∷ take n xs)
      → HasRead sequence from (x ∷ take n xs)
  last_page n sequence from x xs e h =
      let last = last_sequence (x ∷ take n xs) in
      let rise = keep_above number last (suc from) (x ∷ xs) (page_rises from x xs e) in
      record {
        beyond = drop n xs;
        complete = ap (λ ys. x ∷ ys) (take-drop n xs) ∙ sym e;
        later =
            All-above sequence (suc last) (drop n xs) (omega (arith, h))
              (rw (after-take n (suc from) x xs (page_rises from x xs e)) at rise);
      }

  more_pages :
      (n sequence from : ℕ) (x : StoredEvent F (Raw F)) (xs es : List (StoredEvent F (Raw F)))
      → after from log ≡ x ∷ xs
      → HasRead sequence (last_sequence (x ∷ take n xs)) es
      → HasRead sequence from ((x ∷ take n xs) ++ es)
  more_pages n sequence from x xs es e h =
      let last = last_sequence (x ∷ take n xs) in
      let rise = page_rises from x xs e in
      let left : after last log ≡ drop n xs =
        sym (after-after from last log (omega (arith, rise.0, last_ge n (suc from) x xs rise)))
        ∙ ap (after last) e
        ∙ after-take n (suc from) x xs rise in
      record {
        beyond = h.beyond;
        complete =
            ap (λ ys. x ∷ ys)
              (append_assoc (take n xs) es h.beyond
                ∙ ap (λ ys. take n xs ++ ys) (h.complete ∙ left)
                ∙ take-drop n xs)
            ∙ sym e;
        later = h.later;
      }

  -- One round of the loop, for the pages that come after it.
  round :
      (n fuel sequence from : ℕ) (K : List (StoredEvent F (Raw F)))
      → after from log ≡ K
      → st.events id from max_page_size ≡ answer (take (suc n) K)
      → ((last : ℕ)
          → from < last
          → last < sequence
          → Reads sequence last (read_pages st fuel id sequence last))
      → Reads sequence from (read_pages st (suc fuel) id sequence from)
  unfolding read_pages
  round n fuel sequence from [] e p next =
      ([], rw (read_pages, p) refl, record { beyond = []; complete = sym e; later = tt })
  round n fuel sequence from (x ∷ xs) e p next =
      let page = x ∷ take n xs in
      let last = last_sequence page in
      let rise = page_rises from x xs e in
      rw (read_pages, p)
        (of_bool (Reads sequence from) (length page == 0) _ _ (λ z. absurd (ground (arith, z)))
          λ _.
            of_bool (Reads sequence from) (leb sequence last) _ _
              (λ ge. (page, refl, last_page n sequence from x xs e (ground (arith, ge))))
              λ lt.
                let (es, q, h) =
                  next last (omega (arith, rise.0, last_ge n (suc from) x xs rise))
                    (ground (arith, lt)) in
                (page ++ es, rw q refl, more_pages n sequence from x xs es e h))

  -- Enough fuel, and the loop ends.
  pub read_pages-HasRead :
      (fuel sequence from : ℕ)
      → sequence ≤ from + fuel
      → Reads sequence from (read_pages st (suc fuel) id sequence from)
  read_pages-HasRead zero sequence from enough =
      round 19999 zero sequence from (after from log) refl (laws.page from 19999)
        (λ last a b. absurd (omega (arith, enough, a, b)))
  read_pages-HasRead (suc fuel) sequence from enough =
      round 19999 (suc fuel) sequence from (after from log) refl (laws.page from 19999)
        (λ last a b. read_pages-HasRead fuel sequence last (omega (arith, enough, a)))
