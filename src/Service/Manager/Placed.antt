-- ===== src/Service/Manager/Placed.antt =====
-- internal/service/manager.go: how many orders a run is given. Requests are handled one after the
-- other here: with a reset between the two halves of PlaceOrder the count in the source goes wrong.
use dispatch_lab.Prelude.{
  ℕ, suc, ◌+◌, ◌≤◌, ◌<◌, String, ◌≡◌, refl, sym, ap, ◌∙◌, Bool, true, false, not, ◌&&◌, Option,
  none, some, List, [], ◌∷◌, arith, length, ltb, leb, str_eq, str_eq_iff, if◌then◌else◌, Bool-cases,
  inl, inr, of_if, of_option,
}
use dispatch_lab.Prelude.Map.{lookup, insert, has, lookup-insert}
use dispatch_lab.Store.Memory.{Memory}
use dispatch_lab.Simulation.Actor.{Command, place_order, reset}
use dispatch_lab.Service.Manager.{
  Entry, Manager, Answer, done, is_done, max_orders_per_run, command_buffer, new_manager, authorize,
  create_locked, submit, reserve_order, clear_orders, order, reset_run, shutdown, Request, order_of,
  pause, start_over, play_at, close, reopen, snapshot_of, stream, keep_forever, serve,
}
use dispatch_lab.Service.Manager.Limits.{take_command}
use dispatch_lab.Service.Manager.Slots.{
  Reserved, no_slot, slot, reserve-Reserved, after_reserve, order_refused,
}

-- A reset that is accepted clears the count.
cleared :
    (x id : String) (n old new : ℕ) (a : Answer)
    → old ≡ n
    → n ≤ max_orders_per_run
    → new ≡ (if str_eq id x && is_done a then 0 else old)
    → (new ≡ (if str_eq id x && is_done a then 0 else n))
      × ((if str_eq id x && is_done a then 0 else n) ≤ max_orders_per_run)
cleared x id n old new a same low e =
    of_if (λ k. (new ≡ k) × (k ≤ max_orders_per_run)) (str_eq id x && is_done a) 0 n
      (λ p. (ground (arith, e, p), omega arith)) (λ p. (ground (arith, e, p, same), low))

-- A count of orders goes up with each order of its run that is accepted.
by_answer :
    (x id : String) (n old new : ℕ) (a : Answer)
    → old ≡ n
    → n ≤ max_orders_per_run
    → (is_done a ≡ true
        → (new ≡ (if str_eq id x then suc old else old))
          × (str_eq id x ≡ true → old < max_orders_per_run))
    → (is_done a ≡ false → new ≡ old)
    → (new ≡ (if str_eq id x && is_done a then suc n else n))
      × ((if str_eq id x && is_done a then suc n else n) ≤ max_orders_per_run)
by_answer x id n old new a same low taken refused = elim (Bool-cases (is_done a)) [
  | inl h ↦
      let (e, l) = taken h in
      elim (Bool-cases (str_eq id x)) [
        | inl p ↦ (ground (arith, h, e, p, same), ground (arith, h, p, l p, same))
        | inr p ↦ (ground (arith, h, e, p, same), ground (arith, h, p, low))
      ]
  | inr h ↦ (ground (arith, h, refused h, same), ground (arith, h, low))
]

module _ {F : Type 0} where
  -- The count of orders of a run, 0 for one that is not there.
  abbrev count : String → List (String × Entry F) → ℕ
  count x es = elim (lookup x es) [ none ↦ 0 | some e ↦ e.orders ]

  count-insert :
      (x id : String) (f : Entry F) (es : List (String × Entry F))
      → count x (insert id f es) ≡ (if str_eq id x then f.orders else count x es)
  count-insert x id f es = ground (arith, lookup-insert id x f es)

  count_known :
      (x id : String) (e : Entry F) (es : List (String × Entry F))
      → lookup id es ≡ some e
      → str_eq id x ≡ true
      → count x es ≡ e.orders
  count_known x id e es q p =
      ap (λ k. count k es) (sym ((str_eq_iff id x).0 p))
      ∙ ap (λ (o : Option (Entry F)). elim o [ none ↦ 0 | some e ↦ e.orders ]) q

  -- An entry written with the same count.
  count_kept :
      (x id : String) (e f : Entry F) (es : List (String × Entry F))
      → lookup id es ≡ some e
      → f.orders ≡ e.orders
      → count x (insert id f es) ≡ count x es
  count_kept x id e f es q same =
      count-insert x id f es
      ∙ of_if (λ n. n ≡ count x es) (str_eq id x) f.orders (count x es)
          (λ p. same ∙ sym (count_known x id e es q p)) (λ p. refl)

  submit-count :
      (m : Manager F) (id token : String) (cmd : Command F) (x : String)
      → count x (submit m id token cmd).0.entries ≡ count x m.entries
  unfolding submit
  submit-count m id token cmd x =
      let P : Manager F × Answer → Type 0 = λ p. count x p.0.entries ≡ count x m.entries in
      of_option P (lookup id m.entries) _ _ (λ q. refl)
        λ e q.
          of_if P (not (authorize e token)) _ _ (λ p. refl)
            (λ p.
              of_if P (ltb (length e.commands) command_buffer) _ _
                (λ k. count_kept x id e _ m.entries q refl) (λ k. refl))

  create-count :
      (m : Manager F) (owner id generated x : String)
      → count x (create_locked m owner id generated).0.entries ≡ count x m.entries
  unfolding create_locked
  create-count m owner id generated x =
      let P : Manager F × (Answer × String) → Type 0 =
        λ p. count x p.0.entries ≡ count x m.entries in
      let id1 = (if str_eq id "" then generated else id) in
      of_if P ((ltb 0 m.max && leb m.max (length m.entries)) && not (has id m.entries)) _ _
        (λ g. refl)
        (λ g.
          of_if P (has id1 m.entries) _ _ (λ h. refl)
            (λ h.
              count-insert x id1 _ m.entries
              ∙ of_if (λ n. n ≡ count x m.entries) (str_eq id1 x) 0 (count x m.entries)
                  (λ p.
                    sym
                      (ap (λ k. count k m.entries) (sym ((str_eq_iff id1 x).0 p)) ∙ none_yet id1 h))
                  (λ p. refl)))
    where
      none_yet : (k : String) → has k m.entries ≡ false → count k m.entries ≡ 0
      none_yet k h = ground (arith, h)

  take-count :
      (m : Manager F) (id x : String) → count x (take_command m id).entries ≡ count x m.entries
  take-count m id x =
      of_option (λ (n : Manager F). count x n.entries ≡ count x m.entries) (lookup id m.entries) _ _
        (λ q. refl) (λ e q. count_kept x id e _ m.entries q refl)

  clear-count :
      (m : Manager F) (id x : String)
      → count x (clear_orders m id).entries ≡ (if str_eq id x then 0 else count x m.entries)
  unfolding clear_orders
  clear-count m id x =
      of_option
        (λ (n : Manager F). count x n.entries ≡ (if str_eq id x then 0 else count x m.entries))
        (lookup id m.entries) _ _
        (λ q. sym (
          of_if (λ n. n ≡ count x m.entries) (str_eq id x) 0 (count x m.entries)
            (λ p.
              sym (ap (λ k. count k m.entries) (sym ((str_eq_iff id x).0 p)) ∙ absent_count id q))
            (λ p. refl)))
        (λ e q. count-insert x id _ m.entries)
    where
      absent_count : (k : String) → lookup k m.entries ≡ none → count k m.entries ≡ 0
      absent_count k h = ground (arith, h)

  -- An order that is accepted takes a slot of its run, of which one was left.
  module _ (m : Manager F) (id token pickup destination x : String) where
    abbrev Counted : Manager F → Type 0
    Counted n =
        (count x n.entries ≡ (if str_eq id x then suc (count x m.entries) else count x m.entries))
        × (str_eq id x ≡ true → count x m.entries < max_orders_per_run)

    accepted :
        (r : Manager F × Answer)
        → Reserved m id r
        → is_done (after_reserve m id token pickup destination r).1 ≡ true
        → Counted (after_reserve m id token pickup destination r).0
    accepted _ (no_slot a n) h =
        let P : Manager F × Answer → Type 0 = λ p. is_done p.1 ≡ true → Counted p.0 in
        (of_if P (not (is_done a)) (m, a) _ (λ k g. cc (g, n)) (λ k. absurd (ground (arith, k, n))))
          h
    accepted _ (slot e q room) h =
        let P : Manager F × Answer → Type 0 = λ p. is_done p.1 ≡ true → Counted p.0 in
        let f = record e { orders = e.orders + 1 } in
        let m1 = record m { entries = insert id f m.entries } in
        let s = submit m1 id token (place_order pickup destination) in
        (of_if P (is_done s.1) (s.0, done) _
            (λ k g. (
              submit-count m1 id token (place_order pickup destination) x
                  ∙ count-insert x id f m.entries
                  ∙ added e q (str_eq id x) refl,
              λ p. below e room (count x m.entries) (count_known x id e m.entries q p),
            ))
            (λ k g. cc (g, k)))
          h
      where
        added :
            (e : Entry F)
            → lookup id m.entries ≡ some e
            → (b : Bool) → str_eq id x ≡ b
            → (if b then e.orders + 1 else count x m.entries)
              ≡ (if b then suc (count x m.entries) else count x m.entries)
        added e q true p = omega (arith, count_known x id e m.entries q p)
        added e q false p = refl

        below :
            (e : Entry F)
            → leb max_orders_per_run e.orders ≡ false
            → (n : ℕ) → n ≡ e.orders
            → n < max_orders_per_run
        below e room n h = ground (arith, room, h)

    order-count :
        let (n, a) = order m id token pickup destination in
        (is_done a ≡ true → Counted n) × (is_done a ≡ false → count x n.entries ≡ count x m.entries)
    unfolding order
    order-count = (
      accepted (reserve_order m id token) (reserve-Reserved m id token),
      λ h.
          ap (λ (o : Option (Entry F)). elim o [ none ↦ 0 | some e ↦ e.orders ])
            (order_refused m id token pickup destination h x),
    )

  reset-count :
      (m : Manager F) (id token x : String)
      → let (n, a) = reset_run m id token in
        count x n.entries ≡ (if str_eq id x && is_done a then 0 else count x m.entries)
  unfolding reset_run
  reset-count m id token x =
      let s = submit m id token reset in
      let P : Manager F × Answer → Type 0 =
        λ p. count x p.0.entries ≡ (if str_eq id x && is_done p.1 then 0 else count x m.entries) in
      of_if P (is_done s.1) (clear_orders s.0 id, done) s
        (λ k. clear-count s.0 id x ∙ ground (arith, submit-count m id token reset x))
        (λ k. submit-count m id token reset x ∙ ground (arith, k))

  -- The manager's count is right, and within the limit.
  abbrev Right : String → Manager F → ℕ → Type 0
  Right x m n = (count x m.entries ≡ n) × (n ≤ max_orders_per_run)

  order-Right :
      (x : String) (m : Manager F) (id token pickup destination : String) (n : ℕ)
      → Right x m n
      → let (m1, a) = order m id token pickup destination in
        Right x m1 (if str_eq id x && is_done a then suc n else n)
  order-Right x m id token pickup destination n (same, low) =
      let (taken, refused) = order-count m id token pickup destination x in
      by_answer x id n (count x m.entries) _ (order m id token pickup destination).1 same low taken
        refused

-- What happens to a manager, one request after the other.
pub data Turn (F P : Type 0) : Type 0 where
  creates : (owner id generated : String) → Turn F P
  asks : (id token : String) → Request F P → Turn F P
  takes : (id : String) → Turn F P
  shuts_down : Turn F P

module _ {F P : Type 0} where
  abbrev pub turn : Manager F → Option (Memory F P) → Turn F P → Manager F × Option (Memory F P)
  turn m db (creates owner id generated) = ((create_locked m owner id generated).0, db)
  turn m db (asks id token r) = let (n, d, a) = serve m db id token r in (n, d)
  turn m db (takes id) = (take_command m id, db)
  turn m db shuts_down = (shutdown m, db)

  -- The orders that the run `x` was given and that count: those accepted since its last reset.
  abbrev pub counted : (x id : String) → Request F P → Answer → ℕ → ℕ
  counted x id (order_of pickup destination) a n = if str_eq id x && is_done a then suc n else n
  counted x id (pause b) a n = n
  counted x id start_over a n = if str_eq id x && is_done a then 0 else n
  counted x id (play_at v) a n = n
  counted x id (close edge_id command_id) a n = n
  counted x id (reopen edge_id) a n = n
  counted x id snapshot_of a n = n
  counted x id stream a n = n
  counted x id (keep_forever final rows now up) a n = n

  abbrev pub placed_by : String → Manager F → Option (Memory F P) → Turn F P → ℕ → ℕ
  placed_by x m db (creates owner id generated) n = n
  placed_by x m db (asks id token r) n = let (t, d, a) = serve m db id token r in counted x id r a n
  placed_by x m db (takes id) n = n
  placed_by x m db shuts_down n = 0

  abbrev pub placed : String → Manager F → Option (Memory F P) → List (Turn F P) → ℕ → ℕ
  placed x m db [] n = n
  placed x m db (t ∷ ts) n =
      let (m1, db1) = turn m db t in placed x m1 db1 ts (placed_by x m db t n)

  turn-Right :
      (x : String) (m : Manager F) (db : Option (Memory F P)) (t : Turn F P) (n : ℕ)
      → Right x m n
      → Right x (turn m db t).0 (placed_by x m db t n)
  unfolding serve shutdown lookup
  turn-Right x m db (creates owner id generated) n (same, low) =
      (create-count m owner id generated x ∙ same, low)
  turn-Right x m db (takes id) n (same, low) = (take-count m id x ∙ same, low)
  turn-Right x m db shuts_down n r = (refl, omega arith)
  turn-Right x m db (asks id token (order_of pickup destination)) n r =
      order-Right x m id token pickup destination n r
  turn-Right x m db (asks id token (pause b)) n (same, low) =
      (submit-count m id token _ x ∙ same, low)
  turn-Right x m db (asks id token start_over) n (same, low) =
      cleared x id n (count x m.entries) _ (reset_run m id token).1 same low
        (reset-count m id token x)
  turn-Right x m db (asks id token (play_at v)) n (same, low) =
      (submit-count m id token _ x ∙ same, low)
  turn-Right x m db (asks id token (close edge_id command_id)) n (same, low) =
      (submit-count m id token _ x ∙ same, low)
  turn-Right x m db (asks id token (reopen edge_id)) n (same, low) =
      (submit-count m id token _ x ∙ same, low)
  turn-Right x m db (asks id token snapshot_of) n r = r
  turn-Right x m db (asks id token stream) n r = r
  turn-Right x m db (asks id token (keep_forever final rows now up)) n r = r

  turns-Right :
      (x : String) (m : Manager F) (db : Option (Memory F P)) (ts : List (Turn F P)) (n : ℕ)
      → Right x m n
      → placed x m db ts n ≤ max_orders_per_run
  turns-Right x m db [] n r = r.1
  turns-Right x m db (t ∷ ts) n r =
      turns-Right x (turn m db t).0 (turn m db t).1 ts (placed_by x m db t n)
        (turn-Right x m db t n r)

  -- Of the requests on a run that are handled one after the other, at most 200 orders are accepted
  -- since the last reset that was, or since the manager was last shut down.
  pub placed-le :
      (max : ℕ) (db : Option (Memory F P)) (x : String) (ts : List (Turn F P))
      → placed x (new_manager max) db ts 0 ≤ 200
  unfolding new_manager lookup
  placed-le max db x ts = turns-Right x (new_manager max) db ts 0 (refl, omega arith)
