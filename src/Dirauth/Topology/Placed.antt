-- ===== src/Dirauth/Topology/Placed.antt =====
-- Which nodes are in random layers.
use zknet_anon_rpc_demo.Common.{
  ℕ, zero, suc, ◌<◌, ◌≡◌, refl, List, [], some, length, arith, replicate, length-replicate,
}
use zknet_anon_rpc_demo.Dirauth.Topology.{assign, generate_random_topology}
use zknet_anon_rpc_demo.Dirauth.Topology.Balanced.{
  IsTopology, assign_all-some, generate_random_topology-IsTopology,
}
use zknet_anon_rpc_demo.Dirauth.Layers.Weigh.{
  weigh-length, weigh_all-replicate, weigh-assign, numbers, IsPermutation, pick_all,
}
use zknet_anon_rpc_demo.Dirauth.Layers.Churn.{Holds}

length-numbers : (i n : ℕ) → length (numbers i n) ≡ n
unfolding numbers
length-numbers i zero = refl
length-numbers i (suc n) = omega (arith, length-numbers (suc i) n)

length-IsPermutation : (n : ℕ) (indexes : List ℕ) → IsPermutation n indexes → length indexes ≡ n
length-IsPermutation n indexes h =
    omega
      (arith, weigh-length indexes, h.same (λ i. 1), weigh-length (numbers 0 n), length-numbers 0 n)

module _ {ℓ} {A : Type ℓ} where
  -- Where there is a layer, and `Perm` gives a permutation of the indexes of the nodes: no index is out
  -- of range, the layers that are asked for hold each node as often as the list of nodes does, and they
  -- are of one size, give or take one.
  pub generate_random_topology_lem :
      (perm : List ℕ → ℕ → List ℕ) (layers : ℕ) (nodes : List A) (srv : List ℕ)
      → 0 < layers
      → IsPermutation (length nodes) (perm srv (length nodes))
      → (t : List (List A)) × ((generate_random_topology perm layers nodes srv).1 ≡ some t)
        × Holds layers nodes t
        × IsTopology layers (length nodes) t
  unfolding generate_random_topology
  generate_random_topology_lem perm zero nodes srv z h = absurd (omega (arith, z))
  generate_random_topology_lem perm (suc k) nodes srv z h =
      let indexes = perm srv (length nodes) in
      let (t, e, y) =
        generate_random_topology-IsTopology perm (suc k) nodes srv z
          (length-IsPermutation (length nodes) indexes h) h.in_range in
      let (picked, p, same) = pick_all nodes indexes h in
      let empty = replicate {A = List A} (suc k) [] in
      let is : assign 0 picked empty ≡ t = ground (arith, e, p, assign_all-some k picked) in
      (
        t,
        e,
        record {
          depth = y.depth;
          same = λ f. rw⁻¹ is (
              omega (
                arith,
                weigh-assign f 0 picked empty
                    (omega (arith, length-replicate {A = List A} (suc k) [])),
                weigh_all-replicate f (suc k),
                same f,
              ));
        },
        y,
      )
