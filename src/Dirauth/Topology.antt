-- ===== src/Dirauth/Topology.antt =====
-- The layers of the mixnet: `generateRandomTopology` of
-- katzenpost/authority/voting/server/state.go. `none` is an index out of range, which ends the
-- authority.
pub mod Balanced
pub mod Members
pub mod Placed
use zknet_anon_rpc_demo.Common.{
  ℕ, zero, suc, ◌+◌, ◌%◌, List, [], ◌∷◌, ◌++◌, Bool, true, false, not, Option, none, some, ◌==◌,
  length, get_elem?, replicate,
}

module _ {ℓ} {A : Type ℓ} where
  abbrev pub cons_some : A → Option (List A) → Option (List A)
  cons_some a none = none
  cons_some a (some rest) = some (a ∷ rest)

  abbrev pub and_then : Option A → Option (List A) → Option (List A)
  and_then none rest = none
  and_then (some a) rest = cons_some a rest

  -- The nodes at the indexes.
  unfoldable pub pick : List A → List ℕ → Option (List A)
  pick nodes [] = some []
  pick nodes (i ∷ indexes) = and_then (get_elem? nodes i) (pick nodes indexes)

  -- `topology[layer] = append(topology[layer], n)`, where the layer is there
  unfoldable pub append_at : ℕ → A → List (List A) → List (List A)
  append_at layer n [] = []
  append_at zero n (l ∷ topology) = (l ++ (n ∷ [])) ∷ topology
  append_at (suc layer) n (l ∷ topology) = l ∷ append_at layer n topology

  -- The nodes go to the layers in turn.
  unfoldable pub assign : ℕ → List A → List (List A) → List (List A)
  assign layer [] topology = topology
  assign layer (n ∷ nodes) topology =
      assign ((layer + 1) % length topology) nodes (append_at layer n topology)

  -- With no layer, the first node has no place.
  abbrev pub assign_all : ℕ → Option (List A) → Option (List (List A))
  assign_all layers none = none
  assign_all layers (some []) = some (replicate layers [])
  assign_all zero (some (n ∷ nodes)) = none
  assign_all (suc k) (some (n ∷ nodes)) = some (assign 0 (n ∷ nodes) (replicate (suc k) []))

  -- `perm srv` is `Perm` of the deterministic reader. Whether `fatalErrCh` is written, and the layers.
  unfoldable pub generate_random_topology :
      (List ℕ → ℕ → List ℕ) → ℕ → List A → List ℕ → Bool × Option (List (List A))
  generate_random_topology perm layers nodes srv =
      (not (length srv == 32), assign_all layers (pick nodes (perm srv (length nodes))))
