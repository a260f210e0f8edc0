-- ===== src/Store/Retention.antt =====
-- internal/store/memory.go: what PurgeExpired keeps and what it removes.
use dispatch_lab.Prelude.{
  ℕ, String, ◌≡◌, refl, sym, ap, ◌∙◌, inl, inr, Bool, true, false, not, ◌&&◌, ltb, Option, none,
  some, List, [], ◌∷◌, arith, elem, exists, IsDistinct, str_eq, str_eq_iff, if◌then◌else◌,
  Bool-cases, of_if,
}
use dispatch_lab.Prelude.Map.{lookup, erase, has, keys, lookup-erase}
use dispatch_lab.Store.Memory.{
  Memory, Simulation, GuestSession, is_kept, expired, disown, purge_simulations, purge_sessions,
  purge_expired,
}

-- Some entry of the run is not to be kept.
abbrev doomed : ℕ → String → List (String × Simulation) → Bool
doomed now id = exists (λ e. str_eq e.0 id && not (is_kept now e.1))

doomed-absent :
    (now : ℕ) (id : String) (m : List (String × Simulation))
    → elem id (keys m) ≡ false
    → doomed now id m ≡ false
doomed-absent now id [] h = refl
doomed-absent now id ((k, sim) ∷ m) h = ground (arith, doomed-absent now id m)

doomed-lookup :
    (now : ℕ) (id : String) (sim : Simulation) (m : List (String × Simulation))
    → IsDistinct (keys m)
    → lookup id m ≡ some sim
    → doomed now id m ≡ not (is_kept now sim)
unfolding lookup
doomed-lookup now id sim [] d h = cc h
doomed-lookup now id sim ((k, x) ∷ m) (d, ds) h = elim (Bool-cases (str_eq k id)) [
  | inl e ↦
      let gone =
        doomed-absent now id m (ap (λ j. elem j (keys m)) (sym ((str_eq_iff k id).0 e)) ∙ d) in
      let same : x ≡ sim = ground (arith, h, e) in ground (arith, gone, e, ap (is_kept now) same)
  | inr e ↦ ground (arith, e, doomed-lookup now id sim m ds (ground (arith, h, e)))
]

has-disown :
    (token id : String) (m : List (String × Simulation)) → has id (disown token m) ≡ has id m
unfolding disown lookup
has-disown token id [] = refl
has-disown token id ((k, sim) ∷ m) = ground (arith, has-disown token id m)

module _ {F P : Type 0} (now : ℕ) (id : String) where
  -- What a purge leaves of a run: everything or nothing.
  abbrev Left : Bool → Memory F P → Memory F P → Type 0
  Left gone m t =
      (has id t.simulations ≡ (if gone then false else has id m.simulations))
      × (lookup id t.events ≡ (if gone then none else lookup id m.events))
      × (lookup id t.snapshots ≡ (if gone then none else lookup id m.snapshots))

  purge_simulations-Left :
      (m : Memory F P) (entries : List (String × Simulation))
      → Left (doomed now id entries) m (purge_simulations now m entries).0
  unfolding purge_simulations
  purge_simulations-Left m [] = (refl, refl, refl)
  purge_simulations-Left m ((k, sim) ∷ entries) =
      let deleted = record m {
        simulations = erase k m.simulations;
        events = erase k m.events;
        seen = erase k m.seen;
        snapshots = erase k m.snapshots;
      } in
      of_if (λ (t : Memory F P × ℕ). Left (doomed now id ((k, sim) ∷ entries)) m t.0)
        (is_kept now sim) _ _
        (λ e.
          let h = purge_simulations-Left m entries in
          (ground (arith, h.0, e), ground (arith, h.1, e), ground (arith, h.2, e)))
        (λ e.
          let h = purge_simulations-Left deleted entries in
          (
            ground (arith, h.0, e, lookup-erase k id m.simulations),
            ground (arith, h.1, e, lookup-erase k id m.events),
            ground (arith, h.2, e, lookup-erase k id m.snapshots),
          ))

  purge_sessions-Left :
      (m : Memory F P) (entries : List (String × GuestSession))
      → Left false m (purge_sessions now m entries).0
  unfolding purge_sessions
  purge_sessions-Left m [] = (refl, refl, refl)
  purge_sessions-Left m ((token, g) ∷ entries) =
      let deleted = record m {
        sessions = erase token m.sessions;
        simulations = disown token m.simulations;
      } in
      of_if (λ (t : Memory F P × ℕ). Left false m t.0) (expired g now) _ _
        (λ _.
          let h = purge_sessions-Left deleted entries in
          (h.0 ∙ has-disown token id m.simulations, h.1, h.2))
        (λ _. purge_sessions-Left m entries)

-- Which runs outlive a purge, from the showcase mark and the expiry of the run.
abbrev pub outlives : (now : ℕ) → (showcase : Bool) → (expires_at : Option ℕ) → Bool
outlives now true expires_at = true
outlives now false none = true
outlives now false (some t) = ltb now t

is_kept-outlives :
    (now : ℕ) (sim : Simulation) → is_kept now sim ≡ outlives now sim.showcase sim.expires_at
unfolding is_kept
is_kept-outlives now sim = by_mark sim.showcase sim.expires_at
  where
    by_mark :
        (b : Bool) (o : Option ℕ)
        → is_kept now (record sim { showcase = b; expires_at = o }) ≡ outlives now b o
    by_mark true o = refl
    by_mark false none = refl
    by_mark false (some t) = refl

module _ {F P : Type 0} where
  -- A purge keeps a run with its events and snapshots if it is a showcase, has no expiry or has not
  -- expired, also when its guest's session is purged; otherwise it removes all three. The map of
  -- simulations lists no id twice.
  pub purge_expired-outlives :
      (m : Memory F P) (now : ℕ) (id : String) (sim : Simulation)
      → IsDistinct (keys m.simulations)
      → lookup id m.simulations ≡ some sim
      → let t = (purge_expired m now).0 in
        let stays = outlives now sim.showcase sim.expires_at in
        (has id t.simulations ≡ stays)
        × (lookup id t.events ≡ (if stays then lookup id m.events else none))
        × (lookup id t.snapshots ≡ (if stays then lookup id m.snapshots else none))
  unfolding purge_expired
  purge_expired-outlives m now id sim d h =
      let m1 = (purge_simulations now m m.simulations).0 in
      let a = purge_simulations-Left now id m m.simulations in
      let b = purge_sessions-Left now id m1 m1.sessions in
      let c = doomed-lookup now id sim m.simulations d h ∙ ap not (is_kept-outlives now sim) in
      (b.0 ∙ ground (arith, a.0, c, h), b.1 ∙ ground (arith, a.1, c), b.2 ∙ ground (arith, a.2, c))
