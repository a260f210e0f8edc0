-- ===== src/Service/Sessions/Alive.antt =====
-- internal/service/sessions.go: a visitor that keeps coming back keeps its session.
use dispatch_lab.Prelude.{
  ℕ, ◌+◌, ◌≤◌, ◌<◌, String, ◌≡◌, refl, sym, ap, ◌∙◌, ◌⊎◌, inl, inr, Bool, true, false, Option, none,
  some, List, [], ◌∷◌, arith, str_eq, All, leb, of_if, ◌&&◌,
}
use dispatch_lab.Prelude.Map.{lookup, insert, has, lookup-insert_self}
use dispatch_lab.Store.Memory.{
  Memory, GuestSession, expired, create_guest_session, get_guest_session, touch_guest_session,
}
use dispatch_lab.Service.Sessions.{
  Sessions, Outcome, ok, no_session, touch_interval, is_fresh, extended, write_extended, extend,
  session_of, validate, or_no_session, issue, new_session,
}

known : (o : Option GuestSession) (g : GuestSession) → or_no_session o ≡ ok g → o ≡ some g
known none g h = cc h
known (some x) g h = cc h

absent : (o : Option GuestSession) → or_no_session o ≡ no_session → o ≡ none
absent none h = refl
absent (some x) h = cc h

fresh-recent :
    (o : Option ℕ) (base now : ℕ)
    → (o ≡ none) ⊎ (o ≡ some base)
    → is_fresh o now ≡ true
    → (o ≡ some base) × (now < base + touch_interval)
fresh-recent o base now (inl h) f = cc (ap (λ x. is_fresh x now) h, f)
fresh-recent o base now (inr h) f = (h, ground (arith, ap (λ x. is_fresh x now) h, f))

abbrev pub is_let_in : Outcome GuestSession → Bool
is_let_in (ok g) = true
is_let_in r = false

-- The readings of the clock at the visits: none goes back, none comes too late.
abbrev pub comes_back : (ttl last : ℕ) → List ℕ → Bool
comes_back ttl last [] = true
comes_back ttl last (now ∷ later) =
    leb last now && (leb (now + touch_interval) (last + ttl) && comes_back ttl now later)

module _ {F P : Type 0} where
  -- The token has a session, which was last extended at `base` and is used again at `last`, less
  -- than a minute later.
  pub record Alive (token : String) (last : ℕ) (s : Sessions F P) : Type 0 where
    pub session : GuestSession
    pub base : ℕ
    pub found : session_of s true token ≡ ok session
    pub named : session.token ≡ token
    pub expires : session.expires_at ≡ base + s.ttl
    pub recent : last < base + touch_interval
    pub touched : (lookup token s.touched ≡ none) ⊎ (lookup token s.touched ≡ some base)

  -- What a write of an extended session leaves behind.
  abbrev Writes : GuestSession → ℕ → Sessions F P → Type 0
  Writes g now s =
      (session_of (write_extended s g now true) true g.token ≡ ok (extended s g now))
      × ((write_extended s g now true).ttl ≡ s.ttl)
      × ((write_extended s g now true).touched ≡ s.touched)

  -- Extending a session that is found writes it back, whatever the store is.
  written :
      (s : Sessions F P) (g : GuestSession) (now : ℕ)
      → session_of s true g.token ≡ ok g
      → Writes g now s
  unfolding session_of write_extended get_guest_session touch_guest_session
  written s g now = by_store s.store
    where
      by_store :
          (o : Option (Memory F P))
          → session_of (record s { store = o }) true g.token ≡ ok g
          → Writes g now (record s { store = o })
      by_store none h =
          (rw (lookup-insert_self g.token (extended s g now) s.fallback) refl, refl, refl)
      by_store (some m) h =
          let at : lookup g.token m.sessions ≡ some g = known (lookup g.token m.sessions) g h in
          rw (session_of, write_extended, touch_guest_session, at)
            (
              rw (get_guest_session, lookup-insert_self g.token (extended s g now) m.sessions) refl,
              refl,
              refl,
            )

  let_in :
      (s : Sessions F P) (token : String) (g : GuestSession) (now : ℕ)
      → str_eq token "" ≡ false
      → session_of s true token ≡ ok g
      → expired g now ≡ false
      → validate s now token true true ≡ ((extend s g now true).0, ok (extend s g now true).1)
  unfolding validate
  let_in s token g now named found alive = rw (validate, named, found, alive) refl

  -- What an extension leaves of a session that is alive.
  extend-Alive :
      (s : Sessions F P) (token : String) (last now : ℕ) (a : Alive token last s)
      → last ≤ now
      → Alive token now (extend s a.session now true).0
        × ((extend s a.session now true).0.ttl ≡ s.ttl)
  unfolding extend session_of
  extend-Alive s token last now a le =
      of_if (λ (p : Sessions F P × GuestSession). Alive token now p.0 × (p.0.ttl ≡ s.ttl))
        (is_fresh (lookup a.session.token s.touched) now) _ _
        (λ fresh.
          let (held, recent) =
            fresh-recent (lookup token s.touched) a.base now a.touched
              (ap (λ t. is_fresh (lookup t s.touched) now) (sym a.named) ∙ fresh) in
          (
            record {
              session = a.session;
              base = a.base;
              found = a.found;
              named = a.named;
              expires = a.expires;
              recent = recent;
              touched = inr held;
            },
            refl,
          ))
        (λ stale.
          let s1 = record s { touched = insert a.session.token now s.touched } in
          let t = write_extended s1 a.session now true in
          let (found, same, marks) =
            written s1 a.session now (ap (session_of s true) a.named ∙ a.found) in
          let start = ap (λ k. session_of t true k) (sym a.named) ∙ found in
          let mark : lookup token t.touched ≡ some now =
            ap (lookup token) marks
            ∙ ap (λ k. lookup token (insert k now s.touched)) a.named
            ∙ lookup-insert_self token now s.touched in
          (
            record {
              session = extended s1 a.session now;
              base = now;
              found = start;
              named = a.named;
              expires = ap (λ n. now + n) (sym same);
              recent = omega arith;
              touched = inr mark;
            },
            same,
          ))

  -- A visit within the life of the session, less a minute, is let in.
  validate-Alive :
      (s : Sessions F P) (token : String) (last now : ℕ)
      → str_eq token "" ≡ false
      → Alive token last s
      → last ≤ now
      → now + touch_interval ≤ last + s.ttl
      → Alive token now (validate s now token true true).0
        × ((validate s now token true true).0.ttl ≡ s.ttl)
        × is_let_in (validate s now token true true).1 ≡ true
  unfolding expired
  validate-Alive s token last now named a le soon =
      let (alive, same) = extend-Alive s token last now a le in
      let e = let_in s token a.session now named a.found (ground (arith, a.expires, a.recent)) in
      rw e ((alive, same, refl))

  abbrev pub visits : Sessions F P → String → List ℕ → Sessions F P × List (Outcome GuestSession)
  visits s token [] = (s, [])
  visits s token (now ∷ later) =
      let (t, r) = validate s now token true true in
      let (u, rs) = visits t token later in (u, r ∷ rs)

  visits-Alive :
      (s : Sessions F P) (token : String) (last : ℕ) (times : List ℕ)
      → str_eq token "" ≡ false
      → Alive token last s
      → comes_back s.ttl last times ≡ true
      → All (λ r. is_let_in r ≡ true) (visits s token times).1
  visits-Alive s token last [] named a h = tt
  visits-Alive s token last (now ∷ later) named a h =
      let (alive, same, inside) =
        validate-Alive s token last now named a (ground (arith, h)) (ground (arith, h)) in
      (
        inside,
        visits-Alive (validate s now token true true).0 token now later named alive
            (ap (λ t. comes_back t now later) same ∙ ground (arith, h)),
      )

  issue-Alive :
      (s : Sessions F P) (token : String) (now : ℕ)
      → session_of s true token ≡ no_session
      → lookup token s.touched ≡ none
      → Alive token now (issue s now (some token) true).0
        × ((issue s now (some token) true).0.ttl ≡ s.ttl)
  unfolding issue session_of create_guest_session get_guest_session
  issue-Alive s token now unknown new = by_store s.store unknown
    where
      by_store :
          (o : Option (Memory F P))
          → session_of (record s { store = o }) true token ≡ no_session
          → Alive token now (issue (record s { store = o }) now (some token) true).0
            × ((issue (record s { store = o }) now (some token) true).0.ttl ≡ s.ttl)
      by_store none h = (
        record {
          session = new_session s now token;
          base = now;
          found = rw (lookup-insert_self token (new_session s now token) s.fallback) refl;
          named = refl;
          expires = refl;
          recent = omega arith;
          touched = inl new;
        },
        refl,
      )
      by_store (some m) h =
          rw (create_guest_session, has, absent (lookup token m.sessions) h)
            (
              record {
                session = new_session s now token;
                base = now;
                found = rw (lookup-insert_self token (new_session s now token) m.sessions) refl;
                named = refl;
                expires = refl;
                recent = omega arith;
                touched = inl new;
              },
              refl,
            )

  -- With a store that answers, or with none, a visitor is let in at each visit, as long as its
  -- token is a new one, the clock does not run back, and each visit, counted from the issue of the
  -- token, comes at least a minute before the life of a session has passed since the one before.
  pub visits-issue :
      (s : Sessions F P) (token : String) (now : ℕ) (times : List ℕ)
      → str_eq token "" ≡ false
      → session_of s true token ≡ no_session
      → lookup token s.touched ≡ none
      → comes_back s.ttl now times ≡ true
      → All (λ r. is_let_in r ≡ true) (visits (issue s now (some token) true).0 token times).1
  visits-issue s token now times named unknown new h =
      let (alive, same) = issue-Alive s token now unknown new in
      visits-Alive (issue s now (some token) true).0 token now times named alive
        (ap (λ t. comes_back t now times) same ∙ h)
