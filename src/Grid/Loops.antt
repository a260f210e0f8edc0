-- ===== src/Grid/Loops.antt =====
-- internal/city/generate.go: the counting loops, and maps under writes.
use dispatch_lab.Prelude.{
  ℕ, zero, suc, ◌+◌, ◌≤◌, ◌<◌, String, ◌≡◌, inl, inr, true, false, List, arith, ltb, str_eq,
  str_eq_refl, if◌then◌else◌, Bool-cases,
}
use dispatch_lab.Prelude.Map.{lookup_or, insert, has, has-insert, lookup-insert}
use dispatch_lab.Grid.{count_up}

-- What each round keeps, the loop keeps.
pub count_up-keeps {ℓ κ} :
    {S : Type ℓ} (I : S → Type κ) (body : S → ℕ → S) (n from : ℕ) (s : S)
    → ((t : S) (i : ℕ) → i < from + n → I t → I (body t i))
    → I s
    → I (count_up n from body s)
unfolding count_up
count_up-keeps I body zero from s keeps h = h
count_up-keeps I body (suc n) from s keeps h =
    count_up-keeps I body n (suc from) (body s from) (λ t i lt. keeps t i (omega (arith, lt)))
      (keeps s from (omega arith) h)

from_only : (from j : ℕ) → from ≤ j → ltb from j ≡ false → from ≡ j
from_only from j low h = ground (arith, low, h)

pub has-insert_self {ℓ} :
    {V : Type ℓ} (k : String) (v : V) (m : List (String × V)) → has k (insert k v m) ≡ true
has-insert_self k v m = ground (arith, has-insert k k v m, str_eq_refl k)

pub has-insert_kept {ℓ} :
    {V : Type ℓ} (k j : String) (v : V) (m : List (String × V))
    → has j m ≡ true
    → has j (insert k v m) ≡ true
has-insert_kept k j v m h = ground (arith, has-insert k j v m, h)

pub lookup_or-insert {ℓ} :
    {V : Type ℓ} (d : V) (k j : String) (v : V) (m : List (String × V))
    → lookup_or d j (insert k v m) ≡ (if str_eq k j then v else lookup_or d j m)
lookup_or-insert d k j v m = ground (arith, lookup-insert k j v m)

-- What a round brings about and later ones keep holds for each index after the loop.
pub count_up-reaches {ℓ κ} :
    {S : Type ℓ} (P : S → ℕ → Type κ) (body : S → ℕ → S) (n from : ℕ) (s : S)
    → ((t : S) (i : ℕ) → P (body t i) i)
    → ((t : S) (i j : ℕ) → P t j → P (body t i) j)
    → (j : ℕ) → from ≤ j
    → j < from + n
    → P (count_up n from body s) j
unfolding count_up
count_up-reaches P body zero from s reach stay j low high = absurd (omega (arith, low, high))
count_up-reaches P body (suc n) from s reach stay j low high = elim (Bool-cases (ltb from j)) [
  | inl h ↦
      count_up-reaches P body n (suc from) (body s from) reach stay j (ground (arith, h))
        (omega (arith, high))
  | inr h ↦
      count_up-keeps (λ t. P t j) body n (suc from) (body s from) (λ t i lt. stay t i j)
        (rw (← from_only from j low h) (reach s from))
]
