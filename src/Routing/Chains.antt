-- ===== src/Routing/Chains.antt =====
-- internal/routing/astar.go: the map cameFrom. A chain leads from a node back to the start; a map
-- without cycles has no chain longer than itself, so the loop of reconstruct ends.
use dispatch_lab.Prelude.{
  ℕ, zero, suc, ◌≤◌, ◌<◌, String, ◌≡◌, ◌≢◌, refl, sym, some, List, [], ◌∷◌, arith, length, str_eq,
  str_eq_iff, Bool-cases, inl, inr,
}
use dispatch_lab.Prelude.Map.{lookup, erase, lookup-erase, length-erase-le}

-- `n` steps of cameFrom lead from `v` to the start.
pub data Chain (start : String) (cf : List (String × String)) : ℕ → String → Type 0 where
  root : Chain start cf zero start
  link :
      {n : ℕ} (v u : String)
      → v ≢ start
      → lookup v cf ≡ some u
      → Chain start cf n u
      → Chain start cf (suc n) v

-- The chain of a node is determined by the node.
Chain-unique :
    {start : String} {cf : List (String × String)} {m n : ℕ} {v w : String}
    → Chain start cf m v
    → Chain start cf n w
    → v ≡ w
    → m ≡ n
Chain-unique root root e = refl
Chain-unique root (link v u ne p k) e = absurd (ne (sym e))
Chain-unique (link v u ne p k) root e = absurd (ne e)
Chain-unique (link v u ne p k) (link v' u' ne' p' k') e =
    omega (arith, Chain-unique k k' (ground arith))

length-erase-lt :
    (v u : String) (m : List (String × String))
    → lookup v m ≡ some u
    → length (erase v m) < length m
unfolding lookup erase
length-erase-lt v u [] h = cc
length-erase-lt v u ((j, w) ∷ m) h = ground (arith, length-erase-lt v u m, length-erase-le v m)

-- Above a node of a chain the node itself does not occur again.
Chain-erase :
    {start : String} {cf : List (String × String)} {n m : ℕ} {v x : String}
    → Chain start cf (suc n) v
    → Chain start cf m x
    → m ≤ n
    → Chain start (erase v cf) m x
Chain-erase c root h = root
Chain-erase {cf = cf} {v = v} c (link x u ne p k) h =
    link x u ne
      (rw (lookup-erase v x cf) (elim (Bool-cases (str_eq v x)) [
        | inl e ↦ absurd (omega (arith, Chain-unique c (link x u ne p k) ((str_eq_iff v x).0 e)))
        | inr e ↦ rw e p
      ]))
      (Chain-erase c k (omega arith))

pub Chain-le-length :
    (n : ℕ) {start v : String} (cf : List (String × String)) → Chain start cf n v → n ≤ length cf
Chain-le-length zero cf k = omega arith
Chain-le-length (suc n) cf (link v u ne p k) = omega (
  arith,
  Chain-le-length n (erase v cf) (Chain-erase (link v u ne p k) k (omega arith)),
  length-erase-lt v u cf p,
)
