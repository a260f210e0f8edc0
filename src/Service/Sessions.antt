-- ===== src/Service/Sessions.antt =====
-- internal/service/sessions.go: guest tokens, their lifetimes and quotas. The clock's reading and
-- the random token are arguments, and the mutex makes each call one step. The store is the
-- in-process one, or none; `up` says whether it answers the call. Metrics and logs are left out.
pub mod Alive
use dispatch_lab.Prelude.{
  ℕ, suc, ◌+◌, ◌-◌, ◌*◌, String, Bool, true, false, Option, none, some, List, [], ◌∷◌, ltb, leb,
  str_eq, if◌then◌else◌, ◌==◌,
}
use dispatch_lab.Prelude.Map.{lookup, insert, erase}
use dispatch_lab.Store.Memory.{
  Memory, GuestSession, expired, create_guest_session, get_guest_session, touch_guest_session,
  count_simulations_for_token,
}

-- Nanoseconds.
abbrev pub minute : ℕ
minute = 60 * 1000000000

abbrev pub default_session_ttl : ℕ
default_session_ttl = 60 * minute

abbrev pub default_run_ttl : ℕ
default_run_ttl = 120 * minute

abbrev pub default_session_quota : ℕ
default_session_quota = 3

abbrev pub touch_interval : ℕ
touch_interval = minute

-- What a call ends with: a value, or one of the errors.
pub data Outcome {ℓ} (A : Type ℓ) : Type ℓ where
  ok : A → Outcome A
  no_session quota_reached store_failed no_random : Outcome A

pub record Sessions (F P : Type 0) : Type 0 where
  pub store : Option (Memory F P)
  pub ttl : ℕ
  pub run_ttl : ℕ
  pub quota : ℕ
  pub fallback : List (String × GuestSession)
  pub touched : List (String × ℕ)

abbrev pub nonzero_or : ℕ → ℕ → ℕ
nonzero_or d n = if n == 0 then d else n

abbrev pub or_no_session : Option GuestSession → Outcome GuestSession
or_no_session none = no_session
or_no_session (some g) = ok g

-- Whether the token was touched within the last minute; the zero time is long ago.
abbrev pub is_fresh : Option ℕ → (now : ℕ) → Bool
is_fresh none now = false
is_fresh (some last) now = ltb (now - last) touch_interval

module _ {F P : Type 0} where
  -- Settings of at most 0 fall back to the defaults.
  unfoldable pub new_sessions : Option (Memory F P) → (ttl run_ttl quota : ℕ) → Sessions F P
  new_sessions store ttl run_ttl quota = record {
    store = store;
    ttl = nonzero_or default_session_ttl ttl;
    run_ttl = nonzero_or default_run_ttl run_ttl;
    quota = nonzero_or default_session_quota quota;
    fallback = [];
    touched = [];
  }

  abbrev pub new_session : Sessions F P → (now : ℕ) → String → GuestSession
  new_session s now token = record {
    token = token;
    created_at = now;
    last_seen_at = now;
    expires_at = now + s.ttl;
  }

  -- `Issue`; no token is a failure of the random source.
  unfoldable pub issue :
      Sessions F P → (now : ℕ) → Option String → (up : Bool) → Sessions F P × Outcome GuestSession
  unfolding create_guest_session
  issue s now none up = (s, no_random)
  issue s now (some token) up = elim s.store [
    | none ↦ (
      record s { fallback = insert token (new_session s now token) s.fallback },
      ok (new_session s now token),
    )
    | some m ↦
        if up
        then (
          record s { store = some (create_guest_session m (new_session s now token)) },
          ok (new_session s now token),
        )
        else (s, store_failed)
  ]

  -- `lookup`
  unfoldable pub session_of : Sessions F P → (up : Bool) → String → Outcome GuestSession
  unfolding get_guest_session
  session_of s up token = elim s.store [
    | none ↦ or_no_session (lookup token s.fallback)
    | some m ↦ if up then or_no_session (get_guest_session m token) else store_failed
  ]

  -- The session with its life extended, as `extend` writes it.
  abbrev pub extended : Sessions F P → GuestSession → (now : ℕ) → GuestSession
  extended s g now = record g { last_seen_at = now; expires_at = now + s.ttl }

  -- The write of `extend`; a store that fails, or does not know the token, is left as it is.
  unfoldable pub write_extended :
      Sessions F P → GuestSession → (now : ℕ) → (up : Bool) → Sessions F P
  unfolding touch_guest_session
  write_extended s g now up = elim s.store [
    | none ↦ record s { fallback = insert g.token (extended s g now) s.fallback }
    | some m ↦
        if up
        then elim (touch_guest_session m g.token now (now + s.ttl)) [
          | none ↦ s
          | some m1 ↦ record s { store = some m1 }
        ]
        else s
  ]

  -- `extend`
  unfoldable pub extend :
      Sessions F P → GuestSession → (now : ℕ) → (up : Bool) → Sessions F P × GuestSession
  unfolding write_extended
  extend s g now up = if is_fresh (lookup g.token s.touched) now then (s, g) else (
    write_extended (record s { touched = insert g.token now s.touched }) g now up,
    extended s g now,
  )

  -- `Validate`; the store answers or fails at the look-up and at the write.
  unfoldable pub validate :
      Sessions F P → (now : ℕ) → String → (up up_later : Bool) → Sessions F P × Outcome GuestSession
  unfolding session_of expired extend
  validate s now token up up_later =
      if str_eq token "" then (s, no_session) else elim (session_of s up token) [
        | ok g ↦
            if expired g now
            then (s, no_session)
            else let (t, g1) = extend s g now up_later in (t, ok g1)
        | r ↦ (s, r)
      ]

  -- `CheckQuota`: a count that the store does not give is no reason to refuse.
  unfoldable pub check_quota : Sessions F P → String → (held : ℕ) → (up : Bool) → Bool
  unfolding count_simulations_for_token
  check_quota s token held up = if leb s.quota held then false else elim s.store [
    | none ↦ true
    | some m ↦ if up then ltb (count_simulations_for_token m token) s.quota else true
  ]

  unfoldable pub forget : Sessions F P → String → Sessions F P
  forget s token = record s { fallback = erase token s.fallback; touched = erase token s.touched }

  -- The loop of `PurgeFallback`.
  unfoldable pub purge_from :
      (now : ℕ) → Sessions F P → List (String × GuestSession) → Sessions F P × ℕ
  unfolding forget expired
  purge_from now s [] = (s, 0)
  purge_from now s ((token, g) ∷ gs) =
      let (t, n) = purge_from now (forget s token) gs in
      if expired g now then (t, suc n) else purge_from now s gs

  unfoldable pub purge_fallback : Sessions F P → (now : ℕ) → Sessions F P × ℕ
  unfolding purge_from
  purge_fallback s now = purge_from now s s.fallback
