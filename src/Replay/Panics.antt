-- ===== src/Replay/Panics.antt =====
-- internal/replay/state.go: the places of the drivers on their routes while events are applied, for
-- the read of the route at RouteIndex+1.
use dispatch_lab.Prelude.{◌-◌, ◌^◌, String, ◌≡◌, false, Option, none, some, List, All}
use dispatch_lab.Prelude.Int.{pos, negsuc, ◌≤ℤ◌, ◌+ℤ◌}
use dispatch_lab.Prelude.Float.{FloatOps}
use dispatch_lab.Prelude.Map.{lookup}
use dispatch_lab.Domain.Defs.{EventType}
use dispatch_lab.Store.Memory.{StoredEvent, StoredSnapshot}
use dispatch_lab.Replay.Json.{Raw}
use dispatch_lab.Replay.State.{
  Driver, State, Builder, Snapshot, Result, ok, failed, crashed, oversteps,
}
use dispatch_lab.Replay.Fold.{decode_snapshot}

-- A driver at the start of its route, one node before it, or further on, where one more still is an
-- `int` of 64 bits.
abbrev pub IsInPlace : Driver → Type 0
IsInPlace d = (negsuc 0 ≤ℤ d.route_index) × (d.route_index +ℤ pos 1 ≤ℤ pos (2 ^ 63 - 1))

-- No driver stands more than one node before the start of its route.
pub InPlace : List (String × Driver) → Type 0
InPlace m = (k : String) (v : Driver) → lookup k m ≡ some v → oversteps v.route_index ≡ false

module _ {F : Type 0} where
  -- The builder of a call that does not fail, and no panic.
  abbrev pub IfInPlace : Result (Builder F) → Type 0
  IfInPlace (ok b) = InPlace b.drivers
  IfInPlace failed = Unit
  IfInPlace crashed = ⊥

-- The drivers of a snapshot, if there is one, are in place.
abbrev pub FitsSnapshot : {F : Type 0} → Option (Snapshot F) → Type 0
FitsSnapshot none = Unit
FitsSnapshot (some s) = All IsInPlace s.drivers

module _ {F : Type 0} ⦃fl : FloatOps F⦄ where
  -- A payload that is no snapshot, or one whose drivers are all in place.
  abbrev pub Fits : Raw F → Type 0
  Fits p = FitsSnapshot (decode_snapshot p)

  abbrev pub FitsKind : EventType → Raw F → Type 0
  FitsKind EventType.simulation_snapshot p = Fits p
  FitsKind _ p = Unit

  abbrev pub FitsEvent : StoredEvent F (Raw F) → Type 0
  FitsEvent e = FitsKind e.kind e.payload

  abbrev pub FitsBase : Option (StoredSnapshot F (Raw F)) → Type 0
  FitsBase none = Unit
  FitsBase (some s) = Fits s.payload
