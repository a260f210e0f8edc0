-- ===== src/Replay/Pages.antt =====
-- internal/replay/reader.go on internal/store/memory.go: what a page of history holds, and that the
-- in-process store keeps the laws that the reader relies on.
use Prim.Native.Nat.{min}
use dispatch_lab.Prelude.{
  ℕ, zero, suc, ◌≤◌, String, ◌≡◌, sym, ap, Option, none, some, List, [], ◌∷◌, arith, leb,
  Bool-cases, inl, inr, some-injective,
}
use dispatch_lab.Prelude.Map.{lookup_or}
use dispatch_lab.Prelude.Rising.{IsRising}
use dispatch_lab.Store.Memory.{
  Memory, StoredSnapshot, events_after, newest_until, snapshot_at_or_before,
}
use dispatch_lab.Replay.Json.{Raw}
use dispatch_lab.Replay.Reader.{answer, found, memory_store}
use dispatch_lab.Replay.Paging.{LogLaws, number}

found-some {ℓ} : {A : Type ℓ} (o : Option A) (a : A) → found o ≡ answer a → o ≡ some a
found-some none a e = cc e
found-some (some b) a e = ground (arith, e)

-- How many events a request for a page gets at most: what it asks for, up to 20000, and 5000 if it
-- does not say.
abbrev pub page_size : ℕ → ℕ
page_size zero = 5000
page_size (suc n) = min (suc n) 20000

module _ {F : Type 0} where
  newest_until-le :
      (n : ℕ) (best : Option (StoredSnapshot F (Raw F))) (ss : List (StoredSnapshot F (Raw F)))
      (s : StoredSnapshot F (Raw F))
      → ((t : StoredSnapshot F (Raw F)) → best ≡ some t → t.sequence ≤ n)
      → newest_until n best ss ≡ some s
      → s.sequence ≤ n
  unfolding newest_until
  newest_until-le n best [] s h e = h s e
  newest_until-le n best (x ∷ xs) s h e = elim (Bool-cases (leb x.sequence n)) [
    | inl q ↦
        newest_until-le n (some x) xs s
          (λ t r. rw (ap (λ y. y.sequence) (some-injective (sym r))) (ground (arith, q)))
          (rw (newest_until, q) at e)
    | inr q ↦ h s (rw (newest_until, q) at e)
  ]

  -- The in-process store keeps the laws, for a run whose numbers start at 1.
  pub memory_store-LogLaws :
      (m : Memory F (Raw F)) (id : String)
      → IsRising number 1 (lookup_or [] id m.events)
      → LogLaws (memory_store m) id (lookup_or [] id m.events)
  unfolding memory_store events_after snapshot_at_or_before
  memory_store-LogLaws m id r = record {
    rising = r;
    page = λ from limit. ground arith;
    snapshot = λ n s e.
        newest_until-le n none (lookup_or [] id m.snapshots) s (λ t q. cc q)
          (found-some (snapshot_at_or_before m id n) s e);
  }
