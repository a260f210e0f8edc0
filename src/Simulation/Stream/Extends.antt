-- ===== src/Simulation/Stream/Extends.antt =====
-- What emit does to the buffer and the counter, as a relation between two states.
use dispatch_lab.Prelude.{
  ℕ, suc, String, ◌+◌, ◌≡◌, refl, sym, ◌∙◌, List, [], ◌∷◌, ◌++◌, arith, length, length-append,
}
use mathlib.Core.List.{append-nil, append_assoc}
use native.Mathlib.Nat.{add-zero}
use dispatch_lab.Domain.Defs.{EventType, Driver, Order}
use dispatch_lab.Simulation.State.{Sim, Event, Payload, stamped, emit, crash, set_driver, set_order}
use dispatch_lab.Simulation.Dispatch.{refuse}

module _ {F : Type 0} where
  -- The events carry the numbers n + 1, n + 2, and so on, with no gap.
  abbrev pub Numbered : ℕ → List (Event F) → Type 0
  Numbered n [] = Unit
  Numbered n (e ∷ es) = (e.sequence ≡ suc n) × Numbered (suc n) es

  -- `t` comes from `s` by events put behind its buffer, numbered from its counter on.
  pub record Extends (s t : Sim F) : Type 0 where
    pub events : List (Event F)
    pub buffer : t.pending ≡ s.pending ++ events
    pub numbered : Numbered s.sequence events
    pub counter : t.sequence ≡ s.sequence + length events

  pub Numbered-append :
      (n : ℕ) (xs ys : List (Event F))
      → Numbered n xs
      → Numbered (n + length xs) ys
      → Numbered n (xs ++ ys)
  Numbered-append n [] ys h k = rw (add-zero n) at k
  Numbered-append n (x ∷ xs) ys h k =
      (h.0, Numbered-append (suc n) xs ys h.1 (rw (shift n (length xs)) at k))
    where
      shift : (a b : ℕ) → a + suc b ≡ suc a + b
      shift a b = omega arith

  -- A step that leaves the buffer and the counter alone.
  pub same : {s t : Sim F} → t.pending ≡ s.pending → t.sequence ≡ s.sequence → Extends s t
  same {s} {t} p q = record {
    events = [];
    buffer = p ∙ sym (append-nil s.pending);
    numbered = tt;
    counter = omega arith;
  }

  pub then : {s t u : Sim F} → Extends s t → Extends t u → Extends s u
  then {s} {t} {u} a b = record {
    events = a.events ++ b.events;
    buffer = b.buffer ∙ rw a.buffer (append_assoc s.pending a.events b.events);
    numbered = Numbered-append s.sequence a.events b.events a.numbered (rw a.counter at b.numbered);
    counter = omega (arith, a.counter, b.counter, length-append a.events b.events);
  }

  pub emit-Extends : (s : Sim F) (kind : EventType) (p : Payload F) → Extends s (emit s kind p)
  unfolding emit stamped
  emit-Extends s kind p = record {
    events = stamped s kind p ∷ [];
    buffer = refl;
    numbered = (omega arith, tt);
    counter = omega arith;
  }

  pub keep_all : {s : Sim F} → Extends s s
  keep_all = same refl refl

  pub set_driver-Extends : (s : Sim F) (id : String) (d : Driver F) → Extends s (set_driver s id d)
  unfolding set_driver
  set_driver-Extends s id d = same refl refl

  pub set_order-Extends : (s : Sim F) (id : String) (o : Order F) → Extends s (set_order s id o)
  unfolding set_order
  set_order-Extends s id o = same refl refl

  pub crash-Extends : (s : Sim F) → Extends s (crash s)
  unfolding crash
  crash-Extends s = same refl refl

  pub refuse-Extends :
      (s : Sim F) (id : String) (o : Order F) (reason : String) → Extends s (refuse s id o reason)
  unfolding refuse
  refuse-Extends s id o reason = then (set_order-Extends s id _) (emit-Extends _ _ _)
