-- ===== src/Dirauth/Examples/Layers.antt =====
-- The layers of a network that has some already, and the envelope keys of a document.
use zknet_anon_rpc_demo.Common.{
  ℕ, zero, suc, ◌+◌, ◌<◌, ◌≤◌, ◌≡◌, refl, List, [], ◌∷◌, true, false, ltb, none, some, arith, All,
  length,
}
use zknet_anon_rpc_demo.Common.Dict.{lookup, delete}
use zknet_anon_rpc_demo.Common.Bytes.{codes}
use zknet_anon_rpc_demo.Dirauth.Pki.{ReplicaDescriptor, at}
use zknet_anon_rpc_demo.Dirauth.Topology.{pick, assign, append_at}
use zknet_anon_rpc_demo.Dirauth.Topology.Balanced.{IsTopology}
use zknet_anon_rpc_demo.Dirauth.Tally.{sort_by, insert_by}
use zknet_anon_rpc_demo.Dirauth.Layers.{
  node_map, keep_layer, keep_layers, fill_layer, fill_layers, generate_topology,
}
use zknet_anon_rpc_demo.Dirauth.Layers.Weigh.{numbers, IsPermutation}
use zknet_anon_rpc_demo.Dirauth.Layers.Churn.{Holds, generate_topology_lem}
use zknet_anon_rpc_demo.Dirauth.Envelope.{
  Keys, save_keys, cache_all, prune_keys, prune_cache, add_keys, add_tallied, add_cached,
  build_replica_envelope_keys,
}
use zknet_anon_rpc_demo.Dirauth.Envelope.Offline.{
  or_else, when, in_range, first_key, build_replica_envelope_keys_lem,
}

abbrev key : ℕ → ℕ
key n = n

abbrev perm : ℕ → ℕ → List ℕ
perm call n = numbers 0 n

numbers-below : (i n m : ℕ) → i + n ≤ m → All (λ j. j < m) (numbers i n)
unfolding numbers
numbers-below i zero m h = tt
numbers-below i (suc n) m h = (omega (arith, h), numbers-below (suc i) n m (omega (arith, h)))

perm-IsPermutation : (call n : ℕ) → IsPermutation n (perm call n)
perm-IsPermutation call n = record {
  in_range = numbers-below 0 n n (omega arith);
  same = λ g. refl;
}

abbrev nodes : List ℕ
nodes = 1 ∷ 2 ∷ 3 ∷ 4 ∷ 5 ∷ []

-- Node 9 is gone, and node 5 is new.
abbrev old : List (List ℕ)
old = (2 ∷ 9 ∷ []) ∷ (1 ∷ 3 ∷ 4 ∷ []) ∷ []

new_layers : generate_topology key perm 2 nodes old ≡ some ((2 ∷ 4 ∷ 5 ∷ []) ∷ (1 ∷ 3 ∷ []) ∷ [])
unfolding generate_topology node_map keep_layers keep_layer fill_layers fill_layer pick assign
    append_at sort_by insert_by numbers lookup delete
new_layers = refl

-- With one more layer than before, the new one stays empty.
third_layer :
    generate_topology key perm 3 (1 ∷ 2 ∷ 3 ∷ 4 ∷ 5 ∷ 6 ∷ []) ((1 ∷ 2 ∷ []) ∷ (3 ∷ 4 ∷ []) ∷ [])
    ≡ some ((1 ∷ 2 ∷ 5 ∷ []) ∷ (3 ∷ 4 ∷ 6 ∷ []) ∷ [] ∷ [])
unfolding generate_topology node_map keep_layers keep_layer fill_layers fill_layer pick assign
    append_at sort_by insert_by numbers lookup delete
third_layer = refl

-- Two nodes of one key: the layer cannot be filled, which is an index out of range.
twice : generate_topology key perm 1 (1 ∷ 1 ∷ []) ([] ∷ []) ≡ none
unfolding generate_topology node_map keep_layers keep_layer fill_layers fill_layer pick assign
    append_at sort_by insert_by numbers lookup delete
twice = refl

generate_topology_lem_example :
    (t : List (List ℕ)) × (generate_topology key perm 2 nodes old ≡ some t)
    × Holds 2 nodes t
    × (length old ≡ 2 → IsTopology 2 5 t)
unfolding lookup
generate_topology_lem_example =
    generate_topology_lem key perm perm-IsPermutation 2 nodes old (omega arith) (omega arith)
      (refl, (refl, (refl, (refl, (refl, tt)))))

-- Replica 1 is there with keys for the replica epochs 5 and 8, and replica 2 is offline.
abbrev replica : ReplicaDescriptor
replica = record {
  name = codes "replica1";
  identity_key = 3 ∷ [];
  replica_id = 1;
  envelope_keys = (5, 50 ∷ []) ∷ (8, 80 ∷ []) ∷ [];
  others = [];
}

abbrev cache : Keys
cache = (1, (5, 55 ∷ []) ∷ []) ∷ (2, (3, 30 ∷ []) ∷ (4, 40 ∷ []) ∷ []) ∷ []

keys_at_five : build_replica_envelope_keys (replica ∷ []) 5 cache ≡ (
  (2, (4, 40 ∷ []) ∷ []) ∷ (1, (5, 50 ∷ []) ∷ []) ∷ [],
  (1, (8, 80 ∷ []) ∷ (5, 50 ∷ []) ∷ []) ∷ (2, (4, 40 ∷ []) ∷ []) ∷ [],
)
unfolding build_replica_envelope_keys cache_all save_keys add_tallied add_keys add_cached
    prune_cache prune_keys lookup delete
keys_at_five = refl

build_replica_envelope_keys_lem_example :
    let (result, cached) = build_replica_envelope_keys (replica ∷ []) 5 cache in
    let first = first_key 2 4 (replica ∷ []) in
    (lookup 4 (at 2 result) ≡ when (in_range 4 6 4) (or_else first (lookup 4 (at 2 cache))))
    × (ltb 4 4 ≡ true → lookup 4 (at 2 cached) ≡ none)
    × (ltb 4 4 ≡ false → first ≡ none → lookup 4 (at 2 cached) ≡ lookup 4 (at 2 cache))
unfolding lookup
build_replica_envelope_keys_lem_example =
    build_replica_envelope_keys_lem (replica ∷ []) 5 cache 2 4 (refl, (refl, tt))
