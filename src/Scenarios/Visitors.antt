-- ===== src/Scenarios/Visitors.antt =====
-- A visitor without a store behind it, and a cache of outcomes with room for one.
use dispatch_lab.Prelude.{
  ℕ, ◌≡◌, ◌≤◌, ◌*◌, ◌+◌, ◌-◌, arith, refl, true, false, none, some, List, [], ◌∷◌, All, ltb, str_eq,
  if◌then◌else◌,
}
use dispatch_lab.Prelude.Map.{insert, lookup}
use dispatch_lab.Idempotency.{Cache, StoredResponse, new_cache, get, put, size}
use dispatch_lab.Idempotency.Bounds.{Call, get_call, put_call, calls, is_named, size-calls}
use dispatch_lab.Idempotency.Kept.{is_apart, writes, get-calls}
use dispatch_lab.Service.Sessions.{Sessions, no_session, minute, new_sessions, session_of, issue}
use dispatch_lab.Service.Sessions.Alive.{comes_back, visits, is_let_in, visits-issue}

abbrev answer : StoredResponse
answer = record { status = 202; body = "{}"; content_type = "application/json"; stored_at = 0 }

abbrev retries : List Call
retries =
    put_call 5 "first" answer
    ∷ get_call 6 "first"
    ∷ put_call 7 "second" answer
    ∷ get_call 90 "second"
    ∷ []

retries-named : All (λ x. is_named x ≡ true) retries
unfolding str_eq
retries-named = (refl, (refl, (refl, (refl, tt))))

size-calls_example : size (calls (new_cache 20 1) retries) ≤ (new_cache 20 1).max
size-calls_example = size-calls 20 1 retries retries-named

-- A cache with room for three, which holds one outcome before the write.
abbrev warm : Cache
warm = put (new_cache 20 3) 4 "old" answer

abbrev meanwhile : List Call
meanwhile = get_call 12 "old" ∷ put_call 20 "next" answer ∷ get_call 30 "old" ∷ []

enough_room : size (put warm 5 "first" answer) + writes meanwhile ≤ warm.max
unfolding put new_cache size insert str_eq
enough_room = omega arith

others : All (λ x. is_apart "first" x ≡ true) meanwhile
unfolding str_eq
others = (refl, (refl, (refl, tt)))

get-calls_example :
    (get (calls (put warm 5 "first" answer) meanwhile) 24 "first").1
    ≡ (if ltb warm.ttl (24 - 5) then none else some (record answer { stored_at = 5 }))
get-calls_example = get-calls warm 5 24 "first" answer meanwhile enough_room others

abbrev no_guests : Sessions ℕ ℕ
no_guests = new_sessions none 0 0 0

abbrev arrivals : List ℕ
arrivals = 7 ∷ 30 * minute ∷ 80 * minute ∷ []

token_named : str_eq "guest" "" ≡ false
unfolding str_eq
token_named = refl

guest_unknown : session_of no_guests true "guest" ≡ no_session
unfolding session_of new_sessions lookup
guest_unknown = refl

guest_untouched : lookup "guest" no_guests.touched ≡ none
unfolding new_sessions lookup
guest_untouched = refl

in_time : comes_back no_guests.ttl 5 arrivals ≡ true
unfolding new_sessions
in_time = refl

visits-issue_example :
    All
      (λ r. is_let_in r ≡ true)
      (visits (issue no_guests 5 (some "guest") true).0 "guest" arrivals).1
visits-issue_example =
    visits-issue no_guests "guest" 5 arrivals token_named guest_unknown guest_untouched in_time
