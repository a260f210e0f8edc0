-- ===== src/Scenarios/Managers.antt =====
-- A manager with room for two runs, one of them another visitor's.
use dispatch_lab.Prelude.{
  some, String, Option, none, not, ◌||◌, ◌≤◌, ℕ, ◌≡◌, refl, false, true, List, [], ◌∷◌, All,
  replicate, str_eq,
}
use dispatch_lab.Prelude.Map.{has, lookup, insert}
use dispatch_lab.Simulation.Actor.{place_order, set_paused, reset}
use dispatch_lab.Service.Manager.{
  Manager, not_found, new_manager, create_locked, serve, order_of, keep_forever, authorize, is_done,
  order, submit, reserve_order, release_order,
}
use dispatch_lab.Service.Manager.Private.{is_visible, is_marking, serve_hidden}
use dispatch_lab.Store.Memory.{Memory, new_memory}
use dispatch_lab.Service.Manager.Placed as Placed
use dispatch_lab.Service.Manager.Placed.{Turn, asks, placed, placed-le}
use dispatch_lab.Service.Manager.Slots.{order_refused}
use dispatch_lab.Service.Manager.Limits.{
  Step, creates, reserves, submits, releases, clears, takes, steps, is_named, Within, steps-bounds,
}

abbrev happened : List (Step ℕ)
happened =
    creates "alice" "" "run-1"
    ∷ creates "bob" "" "run-2"
    ∷ creates "carol" "" "run-3"
    ∷ reserves "run-1" "alice"
    ∷ reserves "run-1" "bob"
    ∷ submits "run-1" "alice" (place_order "a" "c")
    ∷ takes "run-1"
    ∷ submits "run-2" "bob" (set_paused true)
    ∷ clears "run-1"
    ∷ releases "run-2"
    ∷ []

happened-named : All (λ x. is_named x ≡ true) happened
unfolding str_eq
happened-named = (refl, (refl, (refl, (refl, (refl, (refl, (refl, (refl, (refl, (refl, tt))))))))))

steps-bounds_example : Within (steps (new_manager 2) happened)
steps-bounds_example = steps-bounds 2 happened happened-named

abbrev managed : Manager ℕ
managed = (create_locked (new_manager 2) "alice" "" "run-1").0

bob_sees_nothing : is_visible managed "run-1" "bob" ≡ false
unfolding create_locked new_manager str_eq lookup insert
bob_sees_nothing = refl

bob_live :
    (not (is_marking {F = ℕ} {P = String} (keep_forever none [] 9 true))
      || has "run-1" managed.entries)
    ≡ true
unfolding create_locked new_manager str_eq lookup insert
bob_live = refl

abbrev archive : Option (Memory ℕ String)
archive = some new_memory

serve_hidden_example :
    serve managed archive "run-1" "bob" (keep_forever none [] 9 true)
    ≡ (managed, archive, not_found)
serve_hidden_example =
    serve_hidden managed archive "run-1" "bob" (keep_forever none [] 9 true) bob_sees_nothing
      bob_live

abbrev visit : List (Turn ℕ String)
visit =
    Placed.creates "alice" "" "run-1"
    ∷ asks "run-1" "alice" (order_of "a" "c")
    ∷ asks "run-1" "bob" (order_of "a" "c")
    ∷ Placed.takes "run-1"
    ∷ asks "run-1" "alice" (order_of "b" "c")
    ∷ []

placed-le_example : placed "run-1" (new_manager 2) archive visit 0 ≤ 200
placed-le_example = placed-le 2 archive "run-1" visit

placed_two : placed "run-1" (new_manager 2) archive visit 0 ≡ 2
unfolding new_manager create_locked serve order reserve_order submit release_order authorize str_eq
    lookup insert
placed_two = refl

-- Alice's run, with a buffer that is full.
abbrev crowded : Manager ℕ
crowded = record {
  max = 2;
  entries = ("run-1", record { commands = replicate 32 reset; owner = "alice"; orders = 4 }) ∷ [];
}

no_room : is_done (order crowded "run-1" "alice" "a" "c").1 ≡ false
unfolding order reserve_order submit release_order authorize str_eq lookup insert
no_room = refl

order_refused_example :
    lookup "run-1" (order crowded "run-1" "alice" "a" "c").0.entries
    ≡ lookup "run-1" crowded.entries
order_refused_example = order_refused crowded "run-1" "alice" "a" "c" no_room "run-1"
