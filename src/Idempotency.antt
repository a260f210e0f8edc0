-- ===== src/Idempotency.antt =====
-- internal/transport/http/idempotency.go: the outcomes of recent commands by key. The clock's
-- reading is an argument and the mutex makes each call one step. The loop of `evict` ranges over
-- the map in the order in which it lists its keys; Go leaves that order open.
pub mod Bounds
pub mod Kept
use dispatch_lab.Prelude.{
  ℕ, ◌+◌, ◌-◌, ◌*◌, String, Bool, true, false, not, ◌&&◌, Option, none, some, List, [], ◌∷◌, length,
  ltb, leb, str_eq, if◌then◌else◌, ◌==◌,
}
use dispatch_lab.Prelude.Map.{lookup, insert, erase}

-- Nanoseconds: ten minutes.
abbrev pub idempotency_ttl : ℕ
idempotency_ttl = 600 * 1000000000

abbrev pub idempotency_max_entries : ℕ
idempotency_max_entries = 4096

pub record StoredResponse : Type 0 where
  pub status : ℕ
  pub body : String
  pub content_type : String
  pub stored_at : ℕ

pub record Cache : Type 0 where
  pub ttl : ℕ
  pub max : ℕ
  pub entries : List (String × StoredResponse)

-- A setting of at most 0 falls back to the default.
unfoldable pub new_cache : (ttl max : ℕ) → Cache
new_cache ttl max = record {
  ttl = if ttl == 0 then idempotency_ttl else ttl;
  max = if max == 0 then idempotency_max_entries else max;
  entries = [];
}

-- `now.Sub(entry.storedAt) > ttl`
abbrev pub is_expired : (ttl now : ℕ) → StoredResponse → Bool
is_expired ttl now r = ltb ttl (now - r.stored_at)

unfoldable pub get : Cache → (now : ℕ) → String → Cache × Option StoredResponse
get c now key = elim (lookup key c.entries) [
  | none ↦ (c, none)
  | some r ↦
      if is_expired c.ttl now r
      then (record c { entries = erase key c.entries }, none)
      else (c, some r)
]

-- What the loop of `evict` has come to: the map, and the oldest key with its time.
pub record Sweep : Type 0 where
  pub entries : List (String × StoredResponse)
  pub oldest_key : String
  pub oldest_at : ℕ

unfoldable pub sweep_one : (ttl now : ℕ) → Sweep → String → StoredResponse → Sweep
sweep_one ttl now s key r =
    if is_expired ttl now r
    then record s { entries = erase key s.entries }
    else if str_eq s.oldest_key ""
    then record s { oldest_key = key; oldest_at = r.stored_at }
    else if ltb r.stored_at s.oldest_at
    then record s { oldest_key = key; oldest_at = r.stored_at }
    else s

unfoldable pub sweep_all : (ttl now : ℕ) → Sweep → List (String × StoredResponse) → Sweep
unfolding sweep_one
sweep_all ttl now s [] = s
sweep_all ttl now s ((key, r) ∷ es) = sweep_all ttl now (sweep_one ttl now s key r) es

unfoldable pub evict : Cache → (now : ℕ) → Cache
unfolding sweep_all
evict c now =
    let start : Sweep = record { entries = c.entries; oldest_key = ""; oldest_at = 0 } in
    let s = sweep_all c.ttl now start c.entries in
    record c {
      entries =
          if leb c.max (length s.entries) && not (str_eq s.oldest_key "")
          then erase s.oldest_key s.entries
          else s.entries;
    }

unfoldable pub put : Cache → (now : ℕ) → String → StoredResponse → Cache
unfolding evict
put c now key response =
    let c1 = (if leb c.max (length c.entries) then evict c now else c) in
    record c1 { entries = insert key (record response { stored_at = now }) c1.entries }

unfoldable pub size : Cache → ℕ
size c = length c.entries
