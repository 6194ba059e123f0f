-- ===== src/Dirauth/Layers.antt =====
-- The layers of a network that has some already, and those that a configuration fixes:
-- `generateTopology` and `generateFixedTopology` of katzenpost/authority/voting/server/state.go.
-- `none` is a run-time error or a panic, which ends the authority.
pub mod Weigh
pub mod Steps
pub mod Churn
pub mod Members
use zknet_anon_rpc_demo.Common.{
  ℕ, zero, suc, ◌-◌, ◌/◌, List, [], ◌∷◌, ◌++◌, Bool, true, false, Option, none, some, ltb, leb,
  if◌then◌else◌, length, get_elem?, replicate,
}
use zknet_anon_rpc_demo.Common.Dict.{Dict, lookup, delete, put}
use zknet_anon_rpc_demo.Common.Try.{Try, done, failed}
use zknet_anon_rpc_demo.Dirauth.Topology.{pick, assign}
use zknet_anon_rpc_demo.Dirauth.Tally.{sort_by}

abbrev pub values {ℓ} : {A : Type ℓ} → Dict A → List A
values [] = []
values ((k, v) ∷ m) = v ∷ values m

-- `key` is the hash of a node's identity key.
module _ {ℓ} {A : Type ℓ} (key : A → ℕ) where
  -- Of two nodes with one key, the later stays.
  unfoldable pub node_map : List A → Dict A → Dict A
  node_map [] m = m
  node_map (v ∷ nodes) m = node_map nodes (put (key v) v m)

  -- The nodes of an old layer that are still there, in the order of the indexes, up to the target.
  unfoldable pub keep_layer : ℕ → List A → List ℕ → List A → Dict A → Option (List A × Dict A)
  keep_layer target old [] layer m = some (layer, m)
  keep_layer target old (i ∷ indexes) layer m = elim (leb target (length layer)) [
    | true ↦ some (layer, m)
    | false ↦ elim (get_elem? old i) [
      | none ↦ none
      | some v ↦ elim (lookup (key v) m) [
        | none ↦ keep_layer target old indexes layer m
        | some n ↦ keep_layer target old indexes (layer ++ (n ∷ [])) (delete (key v) m)
      ]
    ]
  ]

  abbrev pub cons_layer : List A → Option (List (List A) × Dict A) → Option (List (List A) × Dict A)
  cons_layer layer none = none
  cons_layer layer (some (layers, m)) = some (layer ∷ layers, m)

  -- `perm call` is the call of `rng.Perm` with that number.
  unfoldable pub keep_layers :
      (ℕ → ℕ → List ℕ) → ℕ → ℕ → List (List A) → Dict A → Option (List (List A) × Dict A)
  keep_layers perm call target [] m = some ([], m)
  keep_layers perm call target (old ∷ olds) m =
      elim (keep_layer target old (perm call (length old)) [] m) [
        | none ↦ none
        | some (layer, rest) ↦ cons_layer layer (keep_layers perm (suc call) target olds rest)
      ]

-- The next pending nodes join a layer until it has the target size.
module _ {ℓ} {A : Type ℓ} where
  unfoldable pub fill_layer : ℕ → List A → List A → Option (List A × List A)
  fill_layer target layer [] = if leb target (length layer) then some (layer, []) else none
  fill_layer target layer (n ∷ pending) = elim (leb target (length layer)) [
    | true ↦ some (layer, n ∷ pending)
    | false ↦ fill_layer target (layer ++ (n ∷ [])) pending
  ]

  abbrev pub cons_filled :
      List A → Option (List (List A) × List A) → Option (List (List A) × List A)
  cons_filled layer none = none
  cons_filled layer (some (layers, pending)) = some (layer ∷ layers, pending)

  unfoldable pub fill_layers : ℕ → List (List A) → List A → Option (List (List A) × List A)
  fill_layers target [] pending = some ([], pending)
  fill_layers target (layer ∷ layers) pending = elim (fill_layer target layer pending) [
    | none ↦ none
    | some (filled, rest) ↦ cons_filled filled (fill_layers target layers rest)
  ]

  -- The rest is dealt out from the first layer on, also to layers that the old network did not have.
  abbrev pub deal : ℕ → Option (List (List A) × List A) → Option (List (List A))
  deal more none = none
  deal more (some (filled, rest)) = some (assign 0 rest (filled ++ replicate more []))

  abbrev pub fill_all : ℕ → ℕ → List (List A) → Option (List A) → Option (List (List A))
  fill_all target more kept none = none
  fill_all target more kept (some pending) = deal more (fill_layers target kept pending)

module _ {ℓ} {A : Type ℓ} (key : A → ℕ) (perm : ℕ → ℕ → List ℕ) where
  abbrev pub add_pending : ℕ → ℕ → ℕ → Option (List (List A) × Dict A) → Option (List (List A))
  add_pending target call more none = none
  add_pending target call more (some (kept, m)) =
      let to_assign = sort_by key (values m) in
      fill_all target more kept (pick to_assign (perm call (length to_assign)))

  -- With no layer, the target is a division by 0; with more old layers than layers, an index is out of
  -- range.
  unfoldable pub generate_topology : ℕ → List A → List (List A) → Option (List (List A))
  generate_topology zero nodes old = none
  generate_topology (suc k) nodes old =
      let target = length nodes / suc k in
      if ltb (suc k) (length old)
      then none
      else add_pending target (length old) (suc k - length old)
          (keep_layers key perm 0 target old (node_map key nodes []))

-- A file of the configuration is read, for the hash of the key in it; a failure is a panic.
module _ {ℓ} {A : Type ℓ} (load_key : List ℕ → Try ℕ) where
  abbrev add_if_there : Option A → List A → List A
  add_if_there none rest = rest
  add_if_there (some n) rest = n ∷ rest

  unfoldable pub fixed_layer : List (List ℕ) → Dict A → Option (List A)
  fixed_layer [] m = some []
  fixed_layer (file ∷ files) m = elim (load_key file) [
    | failed text ↦ none
    | done id ↦ elim (fixed_layer files m) [
      | none ↦ none
      | some rest ↦ some (add_if_there (lookup id m) rest)
    ]
  ]

  unfoldable pub fixed_layers : List (List (List ℕ)) → Dict A → Option (List (List A))
  fixed_layers [] m = some []
  fixed_layers (files ∷ layers) m = elim (fixed_layer files m) [
    | none ↦ none
    | some layer ↦ elim (fixed_layers layers m) [ none ↦ none | some rest ↦ some (layer ∷ rest) ]
  ]

  abbrev pub generate_fixed_topology :
      (A → ℕ) → List (List (List ℕ)) → List A → Option (List (List A))
  generate_fixed_topology key layers nodes = fixed_layers layers (node_map key nodes [])
