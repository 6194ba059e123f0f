-- ===== src/Dirauth/Examples/Topology.antt =====
-- The layers of five nodes.
use zknet_anon_rpc_demo.Common.{ℕ, ◌≡◌, refl, List, [], ◌∷◌, true, some, arith}
use zknet_anon_rpc_demo.Dirauth.Topology.{generate_random_topology, pick, assign, append_at}
use zknet_anon_rpc_demo.Dirauth.Topology.Balanced.{IsTopology}
use zknet_anon_rpc_demo.Dirauth.Topology.Placed.{generate_random_topology_lem}
use zknet_anon_rpc_demo.Dirauth.Layers.Weigh.{weigh, numbers, IsPermutation}
use zknet_anon_rpc_demo.Dirauth.Layers.Churn.{Holds}

abbrev nodes : List ℕ
nodes = 11 ∷ 12 ∷ 13 ∷ 14 ∷ 15 ∷ []

abbrev perm : List ℕ → ℕ → List ℕ
perm srv n = 3 ∷ 0 ∷ 4 ∷ 1 ∷ 2 ∷ []

-- The shared random value here is too short, which is reported, and the layers are made all the same.
two_layers :
    generate_random_topology perm 2 nodes []
    ≡ (true, some ((14 ∷ 15 ∷ 13 ∷ []) ∷ (11 ∷ 12 ∷ []) ∷ []))
unfolding generate_random_topology pick assign append_at
two_layers = refl

perm-IsPermutation : IsPermutation 5 (perm [] 5)
unfolding weigh numbers
perm-IsPermutation = record {
  in_range = (omega arith, (omega arith, (omega arith, (omega arith, (omega arith, tt)))));
  same = λ g. omega arith;
}

generate_random_topology_lem_example :
    (t : List (List ℕ)) × ((generate_random_topology perm 2 nodes []).1 ≡ some t)
    × Holds 2 nodes t
    × IsTopology 2 5 t
generate_random_topology_lem_example =
    generate_random_topology_lem perm 2 nodes [] (omega arith) perm-IsPermutation
