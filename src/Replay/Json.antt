-- ===== src/Replay/Json.antt =====
-- encoding/json, as the source uses it: payloads are JSON values, and Unmarshal into a struct reads
-- its fields by name. An object lists a key once, and a key is matched as it is spelled. A number
-- is a whole literal or the shortest literal of a float64, which reads back as that float64.
use dispatch_lab.Prelude.{
  suc, String, Bool, false, Option, none, some, List, [], ◌∷◌, ◌≡◌, refl, str_eq, if◌then◌else◌,
  ◌>>=◌, map,
}
use dispatch_lab.Prelude.Int.{ℤ, pos, negsuc}
use dispatch_lab.Prelude.Float.{FloatOps, num, ◌⊖◌}

mutual
  pub data Json (F : Type 0) : Type 0 where
    null : Json F
    truth : Bool → Json F
    whole : ℤ → Json F
    real : F → Json F
    text : String → Json F
    array : Items F → Json F
    object : Fields F → Json F

  pub data Items (F : Type 0) : Type 0 where
    end : Items F
    item : Json F → Items F → Items F

  pub data Fields (F : Type 0) : Type 0 where
    empty : Fields F
    field : String → Json F → Fields F → Fields F

-- json.RawMessage: no bytes, bytes that are not JSON, or a value.
pub data Raw (F : Type 0) : Type 0 where
  missing malformed : Raw F
  json : Json F → Raw F

module _ {F : Type 0} where
  -- Marshal of a map: its entries as fields.
  abbrev pub fields : List (String × Json F) → Fields F
  fields [] = empty
  fields ((k, j) ∷ m) = field k j (fields m)

  abbrev pub obj : List (String × Json F) → Json F
  obj m = object (fields m)

  -- Unmarshal into a struct: `null` leaves it alone, and only an object fits.
  unfoldable pub fields_of : Json F → Option (Fields F)
  fields_of null = some empty
  fields_of (object fs) = some fs
  fields_of _ = none

  unfoldable pub open_object : Raw F → Option (Fields F)
  unfolding fields_of
  open_object missing = none
  open_object malformed = none
  open_object (json j) = fields_of j

  -- The value of a field; an absent one reads like `null`.
  unfoldable pub value_at : String → Fields F → Json F
  value_at name empty = null
  value_at name (field k j fs) = if str_eq k name then j else value_at name fs

  -- The values of the fields by their Go type: `null` is the zero value, another kind an error.
  unfoldable pub as_text : Json F → Option String
  as_text null = some ""
  as_text (text s) = some s
  as_text _ = none

  unfoldable pub as_truth : Json F → Option Bool
  as_truth null = some false
  as_truth (truth b) = some b
  as_truth _ = none

  unfoldable pub as_whole : Json F → Option ℤ
  as_whole null = some (pos 0)
  as_whole (whole n) = some n
  as_whole _ = none

  unfoldable pub items_of : Json F → Option (Items F)
  items_of null = some end
  items_of (array js) = some js
  items_of _ = none

  -- Every item, or no result when one of them does not fit.
  unfoldable pub each {ℓ} : {A : Type ℓ} → (Json F → Option A) → Items F → Option (List A)
  each f end = some []
  each f (item j js) = do x ← f j; xs ← each f js; some (x ∷ xs)

  unfoldable pub as_list {ℓ} : {A : Type ℓ} → (Json F → Option A) → Json F → Option (List A)
  unfolding items_of each
  as_list f j = do js ← items_of j; each f js

  -- Marshal of a slice, item by item.
  unfoldable pub items {ℓ} : {A : Type ℓ} → (A → Json F) → List A → Items F
  items f [] = end
  items f (x ∷ xs) = item (f x) (items f xs)

  -- A slice of values that survive the round trip survives it.
  pub each-items {ℓ κ} :
      {A : Type ℓ} {B : Type κ} (f : A → Json F) (g : Json F → Option B) (h : A → B)
      → ((x : A) → g (f x) ≡ some (h x))
      → (xs : List A) → each g (items f xs) ≡ some (map h xs)
  unfolding each items
  each-items f g h law [] = refl
  each-items f g h law (x ∷ xs) = rw (law x, each-items f g h law xs) refl

module _ {F : Type 0} ⦃fl : FloatOps F⦄ where
  unfoldable pub as_real : Json F → Option F
  as_real null = some (num 0)
  as_real (real x) = some x
  as_real (whole (pos n)) = some (num n)
  as_real (whole (negsuc n)) = some (num 0 ⊖ num (suc n))
  as_real _ = none
