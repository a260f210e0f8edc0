-- ===== src/Store/Newest.antt =====
-- internal/store/memory.go: the snapshots of a run stay in the order of their numbers, so
-- SnapshotAtOrBefore finds the newest one.
use mathlib.Core.Path.{subst}
use dispatch_lab.Prelude.{
  ℕ, suc, ◌≤◌, ◌<◌, String, ◌≡◌, sym, inl, inr, ◌⊎◌, false, Option, none, some, List, [], ◌∷◌, ◌++◌,
  arith, All, leb, str_eq, ◌==◌, of_if, of_option,
}
use dispatch_lab.Prelude.Map.{lookup, lookup_or, insert, lookup-insert}
use dispatch_lab.Prelude.Sort as Sort
use dispatch_lab.Prelude.Rising.{
  IsRising, Misses, before, lower, sort-IsRising, HasDistinct-snoc, rising-HasDistinct,
}
use dispatch_lab.Store.Memory.{
  Memory, StoredSnapshot, new_memory, replace, save_snapshot, newest_until, snapshot_at_or_before,
}

module _ {F P : Type 0} where
  abbrev pub number : StoredSnapshot F P → ℕ
  number s = s.sequence

  -- The answer for `n` is not beaten by any snapshot of the list.
  abbrev pub IsNewest : ℕ → List (StoredSnapshot F P) → Option (StoredSnapshot F P) → Type 0
  IsNewest n ss none = All (λ x. n < x.sequence) ss
  IsNewest n ss (some s) =
      (s.sequence ≤ n) × All (λ x. (n < x.sequence) ⊎ (x.sequence ≤ s.sequence)) ss

  above :
      (n m : ℕ) (ss : List (StoredSnapshot F P))
      → n < m
      → IsRising number m ss
      → All (λ x. n < x.sequence) ss
  above n m [] h r = tt
  above n m (s ∷ ss) h r =
      (omega (arith, h, r.0), above n (suc s.sequence) ss (omega (arith, h, r.0)) r.1)

  weaker :
      (n k : ℕ) (ss : List (StoredSnapshot F P))
      → All (λ x. n < x.sequence) ss
      → All (λ x. (n < x.sequence) ⊎ (x.sequence ≤ k)) ss
  weaker n k [] h = tt
  weaker n k (s ∷ ss) h = (inl h.0, weaker n k ss h.1)

  keep_older :
      (n : ℕ) (b s : StoredSnapshot F P) (ss : List (StoredSnapshot F P))
      (o : Option (StoredSnapshot F P))
      → b.sequence ≤ s.sequence
      → s.sequence ≤ n
      → IsNewest n (s ∷ ss) o
      → IsNewest n (b ∷ s ∷ ss) o
  keep_older n b s ss none h k r = absurd (omega (arith, k, r.0))
  keep_older n b s ss (some q) h k r = (r.0, (inr (ground (arith, h, k, r.1.0)), r.1))

  -- With a best one so far that lies below the rest.
  newest_until-IsNewest :
      (n : ℕ) (b : StoredSnapshot F P) (ss : List (StoredSnapshot F P))
      → b.sequence ≤ n
      → IsRising number (suc b.sequence) ss
      → IsNewest n (b ∷ ss) (newest_until n (some b) ss)
  unfolding newest_until
  newest_until-IsNewest n b [] h r = (h, (inr (omega arith), tt))
  newest_until-IsNewest n b (s ∷ ss) h r =
      of_if (IsNewest n (b ∷ s ∷ ss)) (leb s.sequence n) _ _
        (λ e.
          keep_older n b s ss (newest_until n (some s) ss) (omega (arith, r.0)) (ground (arith, e))
            (newest_until-IsNewest n s ss (ground (arith, e)) r.1))
        (λ e. (
          h,
          (
            inr (omega arith),
            weaker n b.sequence (s ∷ ss)
                ((ground (arith, e)), above n (suc s.sequence) ss (ground (arith, e)) r.1),
          ),
        ))

  newest_until-none :
      (n k : ℕ) (ss : List (StoredSnapshot F P))
      → IsRising number k ss
      → IsNewest n ss (newest_until n none ss)
  unfolding newest_until
  newest_until-none n k [] r = tt
  newest_until-none n k (s ∷ ss) r =
      of_if (IsNewest n (s ∷ ss)) (leb s.sequence n) _ _
        (λ e. newest_until-IsNewest n s ss (ground (arith, e)) r.1)
        (λ e. (ground (arith, e), above n (suc s.sequence) ss (ground (arith, e)) r.1))

  added :
      (xs : List (StoredSnapshot F P)) (s : StoredSnapshot F P)
      → IsRising number 0 xs
      → Misses number s.sequence xs
      → IsRising number 0 (Sort.sort (before number) (xs ++ s ∷ []))
  added xs s r m =
      sort-IsRising number (xs ++ s ∷ [])
        (HasDistinct-snoc number xs s (rising-HasDistinct number 0 xs r) m)

  -- Replacing keeps the numbers; where nothing is replaced the number is new.
  abbrev Replaced :
      ℕ
      → StoredSnapshot F P
      → List (StoredSnapshot F P)
      → Option (List (StoredSnapshot F P))
      → Type 0
  Replaced n s xs none = Misses number s.sequence xs
  Replaced n s xs (some ys) = IsRising number n ys

  replace-Replaced :
      (n : ℕ) (s : StoredSnapshot F P) (xs : List (StoredSnapshot F P))
      → IsRising number n xs
      → Replaced n s xs (replace s xs)
  unfolding replace
  replace-Replaced n s [] r = tt
  replace-Replaced n s (x ∷ xs) r =
      of_if (Replaced n s (x ∷ xs)) (x.sequence == s.sequence) _ _
        (λ e. same_place (ground (arith, e)))
        (λ e. under e (replace s xs) (replace-Replaced (suc x.sequence) s xs r.1))
    where
      same_place : x.sequence ≡ s.sequence → IsRising number n (s ∷ xs)
      same_place e = (
        omega (arith, e, r.0),
        lower number (suc s.sequence) (suc x.sequence) xs (omega (arith, e)) r.1,
      )

      under :
          (x.sequence == s.sequence) ≡ false
          → (o : Option (List (StoredSnapshot F P))) → Replaced (suc x.sequence) s xs o
          → Replaced n s (x ∷ xs) (elim o [ none ↦ none | some ys ↦ some (x ∷ ys) ])
      under e none m = (e, m)
      under e (some ys) q = (r.0, q)

  -- Every run's snapshots rise.
  abbrev Ordered : Memory F P → Type 0
  Ordered m = (id : String) → IsRising number 0 (lookup_or [] id m.snapshots)

  insert_holds {ℓ} :
      (Q : List (StoredSnapshot F P) → Type ℓ) (k j : String) (v : List (StoredSnapshot F P))
      (m : List (String × List (StoredSnapshot F P)))
      → Q v
      → Q (lookup_or [] j m)
      → Q (lookup_or [] j (insert k v m))
  insert_holds Q k j v m h r =
      subst (λ o. Q (elim o [ none ↦ [] | some x ↦ x ])) (sym (lookup-insert k j v m))
        (of_if (λ o. Q (elim o [ none ↦ [] | some x ↦ x ])) (str_eq k j) (some v) (lookup j m)
          (λ _. h) (λ _. r))

  save_snapshot-Ordered :
      (m : Memory F P) (s : StoredSnapshot F P) → Ordered m → Ordered (save_snapshot m s)
  unfolding save_snapshot
  save_snapshot-Ordered m s h id =
      let list = lookup_or [] s.simulation_id m.snapshots in
      insert_holds (IsRising number 0) s.simulation_id id _ m.snapshots
        (of_option (IsRising number 0) (replace s list) (Sort.sort (before number) (list ++ s ∷ []))
          (λ ys. ys)
          (λ e.
            added list s (h s.simulation_id)
              (subst (Replaced 0 s list) e (replace-Replaced 0 s list (h s.simulation_id))))
          (λ ys e. subst (Replaced 0 s list) e (replace-Replaced 0 s list (h s.simulation_id))))
        (h id)

  abbrev pub save_all : Memory F P → List (StoredSnapshot F P) → Memory F P
  save_all m [] = m
  save_all m (s ∷ ss) = save_all (save_snapshot m s) ss

  save_all-Ordered :
      (m : Memory F P) (ss : List (StoredSnapshot F P)) → Ordered m → Ordered (save_all m ss)
  save_all-Ordered m [] h = h
  save_all-Ordered m (s ∷ ss) h =
      save_all-Ordered (save_snapshot m s) ss (save_snapshot-Ordered m s h)

  -- Whatever snapshots were saved, in whatever order, the one that SnapshotAtOrBefore returns has a
  -- number of at most `n` and every other kept one of its run has a number above `n` or one that
  -- is not larger; where it finds none, all kept ones of the run have numbers above `n`.
  pub snapshot_at_or_before-IsNewest :
      (ss : List (StoredSnapshot F P)) (id : String) (n : ℕ)
      → let m = save_all new_memory ss in
        IsNewest n (lookup_or [] id m.snapshots) (snapshot_at_or_before m id n)
  unfolding snapshot_at_or_before new_memory lookup
  snapshot_at_or_before-IsNewest ss id n =
      let m : Memory F P = save_all new_memory ss in
      newest_until-none n 0 (lookup_or [] id m.snapshots)
        (save_all-Ordered new_memory ss (λ j. tt) id)
