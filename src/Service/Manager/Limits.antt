-- ===== src/Service/Manager/Limits.antt =====
-- internal/service/manager.go: the bounds on runs and waiting commands.
use dispatch_lab.Prelude.{
  some-injective, Bool-cases, ℕ, ◌+◌, ◌≤◌, String, ◌≡◌, refl, ap, ◌∙◌, ◌⊎◌, inl, inr, Bool, true,
  false, not, ◌&&◌, none, some, List, [], ◌∷◌, arith, All, length, length-append, ltb, leb, str_eq,
  str_eq_iff, if◌then◌else◌, of_if, of_option,
}
use dispatch_lab.Prelude.Map.{has_of_lookup, lookup, insert, has, has-insert, length-insert-le}
use dispatch_lab.Simulation.Actor.{Command}
use dispatch_lab.Service.Manager.{
  Entry, Manager, Answer, max_orders_per_run, command_buffer, new_manager, authorize, create_locked,
  submit, reserve_order, release_order, clear_orders, shutdown,
}

length-insert {ℓ} :
    {V : Type ℓ} (k : String) (v : V) (m : List (String × V))
    → has k m ≡ true
    → length (insert k v m) ≡ length m
unfolding lookup insert
length-insert k v [] h = cc h
length-insert k v ((j, w) ∷ m) h = ground (arith, h, length-insert k v m)

All-insert {ℓ κ} :
    {V : Type ℓ} (P : V → Type κ) (k : String) (v : V) (m : List (String × V))
    → All (λ p. P p.1) m
    → P v
    → All (λ (p : String × V). P p.1) (insert k v m)
unfolding insert
All-insert P k v [] a h = (h, tt)
All-insert P k v ((j, w) ∷ m) a h =
    of_if (All (λ p. P p.1)) (str_eq j k) ((j, v) ∷ m) ((j, w) ∷ insert k v m) (λ q. (h, a.1))
      (λ q. (a.0, All-insert P k v m a.1 h))

All-lookup {ℓ κ} :
    {V : Type ℓ} (P : V → Type κ) (k : String) (v : V) (m : List (String × V))
    → All (λ p. P p.1) m
    → lookup k m ≡ some v
    → P v
unfolding lookup
All-lookup P k v [] a h = cc h
All-lookup P k v ((j, w) ∷ m) a h =
    (of_if (λ o. o ≡ some v → P v) (str_eq j k) (some w) (lookup k m)
        (λ q e. rw (← some-injective e) a.0) (λ q e. All-lookup P k v m a.1 e))
      h

named_id {ℓ} :
    {V : Type ℓ} (id : String) (m : List (String × V))
    → has id m ≡ true
    → has "" m ≡ false
    → str_eq id "" ≡ false
named_id id m h k = elim (Bool-cases (str_eq id "")) [
  | inl p ↦ cc (h, k, ap (λ x. has x m) ((str_eq_iff id "").0 p))
  | inr p ↦ p
]

one_more : (n m : ℕ) → ltb n command_buffer ≡ true → m ≡ n + 1 → m ≤ command_buffer
one_more n m h e = ground (arith, h, e)

named_choice :
    (id generated : String)
    → str_eq generated "" ≡ false
    → str_eq (if str_eq id "" then generated else id) "" ≡ false
named_choice id generated h =
    of_if (λ x. str_eq x "" ≡ false) (str_eq id "") generated id (λ p. h) (λ p. p)

absent_id {ℓ} :
    {V : Type ℓ} (id generated : String) (m : List (String × V))
    → has (if str_eq id "" then generated else id) m ≡ false
    → has "" m ≡ false
    → has id m ≡ false
absent_id id generated m h k =
    (of_if (λ x. has x m ≡ false → has id m ≡ false) (str_eq id "") generated id
        (λ p q. ap (λ x. has x m) ((str_eq_iff id "").0 p) ∙ k) (λ p q. q))
      h

room_for :
    (max n m : ℕ) (b : Bool)
    → ((ltb 0 max && leb max n) && not b) ≡ false
    → b ≡ false
    → m ≤ n + 1
    → (max ≡ 0) ⊎ (m ≤ max)
room_for max n m b g h l = ground (arith, g, h, l)

abbrev pub rest {ℓ} : {X : Type ℓ} → List X → List X
rest [] = []
rest (x ∷ xs) = xs

length-rest-le {ℓ} : {X : Type ℓ} (xs : List X) → length (rest xs) ≤ length xs
length-rest-le [] = omega arith
length-rest-le (x ∷ xs) = omega arith

module _ {F : Type 0} where
  -- The buffer of a run holds at most its size.
  pub record Fine (e : Entry F) : Type 0 where
    pub commands : length e.commands ≤ command_buffer

  pub record Within (m : Manager F) : Type 0 where
    pub runs : (m.max ≡ 0) ⊎ (length m.entries ≤ m.max)
    pub named : has "" m.entries ≡ false
    pub fine : All (λ p. Fine p.1) m.entries

  -- The entry of a run that exists is written anew.
  replaced-Within :
      (m : Manager F) (id : String) (e f : Entry F)
      → lookup id m.entries ≡ some e
      → Within m
      → (Fine e → Fine f)
      → Within (record m { entries = insert id f m.entries })
  replaced-Within m id e f q w better = record {
    runs = rw (length-insert id f m.entries (has_of_lookup id m.entries e q)) w.runs;
    named =
        has-insert id "" f m.entries
        ∙ rw (named_id id m.entries (has_of_lookup id m.entries e q) w.named) w.named;
    fine = All-insert Fine id f m.entries w.fine (better (All-lookup Fine id e m.entries w.fine q));
  }

  submit-Within :
      (m : Manager F) (id token : String) (cmd : Command F)
      → Within m
      → Within (submit m id token cmd).0
  unfolding submit
  submit-Within m id token cmd w =
      of_option (λ (x : Manager F × Answer). Within x.0) (lookup id m.entries) _ _ (λ q. w)
        λ e q.
          of_if (λ (x : Manager F × Answer). Within x.0) (not (authorize e token)) _ _ (λ p. w)
            (λ p.
              of_if (λ (x : Manager F × Answer). Within x.0)
                (ltb (length e.commands) command_buffer) _ _
                (λ room. replaced-Within m id e _ q w (λ f. record {
                  commands =
                      one_more (length e.commands) _ room (length-append e.commands (cmd ∷ []));
                }))
                (λ full. w))

  reserve-Within :
      (m : Manager F) (id token : String) → Within m → Within (reserve_order m id token).0
  unfolding reserve_order
  reserve-Within m id token w =
      of_option (λ (x : Manager F × Answer). Within x.0) (lookup id m.entries) _ _ (λ q. w)
        λ e q.
          of_if (λ (x : Manager F × Answer). Within x.0) (not (authorize e token)) _ _ (λ p. w)
            (λ p.
              of_if (λ (x : Manager F × Answer). Within x.0) (leb max_orders_per_run e.orders) _ _
                (λ full. w)
                (λ room. replaced-Within m id e _ q w (λ f. record { commands = f.commands })))

  release-Within : (m : Manager F) (id : String) → Within m → Within (release_order m id)
  unfolding release_order
  release-Within m id w =
      of_option Within (lookup id m.entries) _ _ (λ q. w)
        λ e q.
          of_if Within (ltb 0 e.orders) _ _
            (λ p. replaced-Within m id e _ q w (λ f. record { commands = f.commands })) (λ p. w)

  clear-Within : (m : Manager F) (id : String) → Within m → Within (clear_orders m id)
  unfolding clear_orders
  clear-Within m id w =
      of_option Within (lookup id m.entries) _ _ (λ q. w)
        λ e q. replaced-Within m id e _ q w (λ f. record { commands = f.commands })

  create-Within :
      (m : Manager F) (owner id generated : String)
      → str_eq generated "" ≡ false
      → Within m
      → Within (create_locked m owner id generated).0
  unfolding create_locked
  create-Within m owner id generated named w =
      let id1 = (if str_eq id "" then generated else id) in
      of_if (λ (x : Manager F × (Answer × String)). Within x.0)
        ((ltb 0 m.max && leb m.max (length m.entries)) && not (has id m.entries)) _ _ (λ g. w)
        (λ g.
          of_if (λ (x : Manager F × (Answer × String)). Within x.0) (has id1 m.entries) _ _ (λ h. w)
            (λ h. record {
              runs =
                  room_for m.max (length m.entries) _ (has id m.entries) g
                    (absent_id id generated m.entries h w.named) (length-insert-le id1 _ m.entries);
              named = has-insert id1 "" _ m.entries ∙ rw (named_choice id generated named) w.named;
              fine = All-insert Fine id1 _ m.entries w.fine (record { commands = omega arith });
            }))

-- What happens to a manager, one section under its mutex after the other, the requests mixed in any
-- way; a simulation takes the next command from its buffer.
pub data Step (F : Type 0) : Type 0 where
  creates : (owner id generated : String) → Step F
  reserves : (id token : String) → Step F
  submits : (id token : String) → Command F → Step F
  releases clears takes : (id : String) → Step F
  shuts_down : Step F

module _ {F : Type 0} where
  abbrev pub take_command : Manager F → String → Manager F
  take_command m id = elim (lookup id m.entries) [
    | none ↦ m
    | some e ↦ record m { entries = insert id (record e { commands = rest e.commands }) m.entries }
  ]

  abbrev pub step : Manager F → Step F → Manager F
  step m (creates owner id generated) = (create_locked m owner id generated).0
  step m (reserves id token) = (reserve_order m id token).0
  step m (submits id token cmd) = (submit m id token cmd).0
  step m (releases id) = release_order m id
  step m (clears id) = clear_orders m id
  step m (takes id) = take_command m id
  step m shuts_down = shutdown m

  abbrev pub steps : Manager F → List (Step F) → Manager F
  steps m [] = m
  steps m (x ∷ xs) = steps (step m x) xs

  -- Generated identifiers are not empty.
  abbrev pub is_named : Step F → Bool
  is_named (creates owner id generated) = not (str_eq generated "")
  is_named (reserves id token) = true
  is_named (submits id token cmd) = true
  is_named (releases id) = true
  is_named (clears id) = true
  is_named (takes id) = true
  is_named shuts_down = true

  take-Within : (m : Manager F) (id : String) → Within m → Within (take_command m id)
  take-Within m id w =
      of_option Within (lookup id m.entries) _ _ (λ q. w)
        λ e q.
          replaced-Within m id e _ q w
            (λ f. record { commands = omega (arith, f.commands, length-rest-le e.commands) })

  step-Within : (m : Manager F) (x : Step F) → is_named x ≡ true → Within m → Within (step m x)
  unfolding shutdown lookup
  step-Within m (creates owner id generated) h w =
      create-Within m owner id generated (ground (arith, h)) w
  step-Within m (reserves id token) h w = reserve-Within m id token w
  step-Within m (submits id token cmd) h w = submit-Within m id token cmd w
  step-Within m (releases id) h w = release-Within m id w
  step-Within m (clears id) h w = clear-Within m id w
  step-Within m (takes id) h w = take-Within m id w
  step-Within m shuts_down h w = record { runs = inr (omega arith); named = refl; fine = tt }

  steps-Within :
      (m : Manager F) (xs : List (Step F))
      → All (λ x. is_named x ≡ true) xs
      → Within m
      → Within (steps m xs)
  steps-Within m [] a w = w
  steps-Within m (x ∷ xs) a w = steps-Within (step m x) xs a.1 (step-Within m x a.0 w)

  -- However requests are mixed, section by section, a manager holds no more runs than its limit, if
  -- it has one, and for each run at most 32 commands wait, as long as generated identifiers are not
  -- empty.
  pub steps-bounds :
      (max : ℕ) (xs : List (Step F))
      → All (λ x. is_named x ≡ true) xs
      → Within (steps (new_manager max) xs)
  unfolding new_manager lookup
  steps-bounds max xs a =
      steps-Within (new_manager max) xs a
        (record { runs = inr (omega arith); named = refl; fine = tt })
