-- ===== src/Dirauth/Layers/Churn.antt =====
-- The layers of a network that has some already hold every node once, and are of one size.
use zknet_anon_rpc_demo.Common.{
  ℕ, zero, suc, ◌+◌, ◌-◌, ◌*◌, ◌/◌, ◌%◌, ◌≤◌, ◌<◌, ◌≡◌, refl, sym, ap, ◌∙◌, List, [], ◌∷◌, ◌++◌,
  false, some, ltb, length, arith, All, replicate, length-append, length-replicate,
}
use native.Mathlib.Nat.{mul-div-le, mul-le-mul_right}
use zknet_anon_rpc_demo.Common.Dict.{lookup}
use zknet_anon_rpc_demo.Common.Dict.Unique.{Unique}
use zknet_anon_rpc_demo.Dirauth.Topology.{append_at, assign}
use zknet_anon_rpc_demo.Dirauth.Topology.Balanced.{
  length-append_at, Balanced, within_one, assign-Balanced, IsTopology, total,
}
use zknet_anon_rpc_demo.Dirauth.Tally.{sort_by}
use zknet_anon_rpc_demo.Dirauth.Layers.{values, node_map, generate_topology}
use zknet_anon_rpc_demo.Dirauth.Layers.Steps.{keep_layers-KeptLayers, fill_layers-FilledLayers}
use zknet_anon_rpc_demo.Dirauth.Layers.Weigh.{
  weigh, weigh_all, weigh_all-append, weigh_all-replicate, weigh-length, weigh-sort_by, keyed,
  node_map-weigh, weigh-assign, IsPermutation, pick_all,
}

length-assign {ℓ} :
    {A : Type ℓ} (k : ℕ) (nodes : List A) (t : List (List A)) → length (assign k nodes t) ≡ length t
unfolding assign
length-assign k [] t = refl
length-assign k (n ∷ nodes) t =
    length-assign ((k + 1) % length t) nodes (append_at k n t) ∙ length-append_at k n t

full-Balanced {ℓ} :
    {A : Type ℓ} (q : ℕ) (t : List (List A)) → All (λ l. length l ≡ q) t → Balanced q 0 t
full-Balanced q [] h = tt
full-Balanced q (l ∷ t) (h, hs) = (h, full-Balanced q t hs)

append_nil {ℓ} : {A : Type ℓ} (xs : List A) → xs ++ [] ≡ xs
append_nil [] = refl
append_nil (x ∷ xs) = ap (λ ys. x ∷ ys) (append_nil xs)

module _ {ℓ} {A : Type ℓ} where
  -- Layers that hold the nodes of a list, each as often as the list does.
  pub record Holds (layers : ℕ) (nodes : List A) (t : List (List A)) : Type ℓ where
    pub depth : length t ≡ layers
    pub same : (f : A → ℕ) → weigh_all f t ≡ weigh f nodes

  dealt-Holds :
      (k more : ℕ) (rest nodes : List A) (filled : List (List A))
      → length filled + more ≡ suc k
      → ((f : A → ℕ) → weigh_all f filled + weigh f rest ≡ weigh f nodes)
      → Holds (suc k) nodes (assign 0 rest (filled ++ replicate more []))
  dealt-Holds k more rest nodes filled size h =
      let t = filled ++ replicate {A = List A} more [] in
      let long : length t ≡ suc k = omega (
        arith,
        length-append filled (replicate more []),
        length-replicate {A = List A} more [],
        size,
      ) in
      record {
        depth = length-assign 0 rest t ∙ long;
        same = λ f. omega (
          arith,
          weigh-assign f 0 rest t (omega (arith, long)),
          weigh_all-append f filled (replicate more []),
          weigh_all-replicate f more,
          h f,
        );
      }

  total-weigh_all : (t : List (List A)) → total t ≡ weigh_all (λ a. 1) t
  unfolding total weigh_all
  total-weigh_all [] = refl
  total-weigh_all (l ∷ t) = omega (arith, weigh-length l, total-weigh_all t)

  dealt-IsTopology :
      (k target more : ℕ) (rest nodes : List A) (filled : List (List A))
      → more ≡ 0
      → All (λ l. length l ≡ target) filled
      → Holds (suc k) nodes (assign 0 rest (filled ++ replicate more []))
      → length (filled ++ replicate {A = List A} more []) ≡ suc k
      → IsTopology (suc k) (length nodes) (assign 0 rest (filled ++ replicate more []))
  dealt-IsTopology k target more rest nodes filled e full h size =
      let t = filled ++ replicate {A = List A} more [] in
      let whole : t ≡ filled = rw e (append_nil filled) in
      let (x, y, (q, j, z)) =
        assign-Balanced target 0 rest t (omega (arith, size))
          (full-Balanced target t (rw whole full)) in
      record {
        depth = h.depth;
        complete = total-weigh_all (assign 0 rest t) ∙ (h.same (λ a. 1) ∙ weigh-length nodes);
        least = q;
        balanced = within_one q j _ z;
      }

module _ {ℓ} {A : Type ℓ} (key : A → ℕ) (perm : ℕ → ℕ → List ℕ)
    (is_perm : (call n : ℕ) → IsPermutation n (perm call n)) where
  -- Where there is a layer, no more of the old layers than layers, no key twice among the nodes, and
  -- `Perm` gives permutations: no index is out of range, and the layers that are asked for hold each
  -- node once. If there were as many layers before, then they are of one size, give or take one.
  pub generate_topology_lem :
      (layers : ℕ) (nodes : List A) (old : List (List A))
      → 0 < layers
      → length old ≤ layers
      → Unique (keyed key nodes)
      → (t : List (List A)) × (generate_topology key perm layers nodes old ≡ some t)
        × Holds layers nodes t
        × (length old ≡ layers → IsTopology layers (length nodes) t)
  unfolding generate_topology weigh lookup
  generate_topology_lem zero nodes old z h u = absurd (omega (arith, z))
  generate_topology_lem (suc k) nodes old z h u =
      let target = length nodes / suc k in
      let call = length old in
      let more = suc k - length old in
      let m = node_map key nodes [] in
      let (unique, start) = node_map-weigh (λ a. 1) key nodes [] tt u (λ i v w o p. ground arith) in
      let kept = keep_layers-KeptLayers key perm target is_perm 0 old m unique in
      let to_assign = sort_by key (values kept.left) in
      let (picked, p, same) =
        pick_all to_assign (perm call (length to_assign)) (is_perm call (length to_assign)) in
      let pending : (f : A → ℕ) → weigh f picked ≡ weigh f (values kept.left) =
        λ f. same f ∙ weigh-sort_by f key (values kept.left) in
      let room : length kept.kept * target ≤ weigh_all (λ a. 1) kept.kept + length picked = omega (
        arith,
        kept.same (λ a. 1),
        start,
        pending (λ a. 1),
        weigh-length picked,
        weigh-length nodes,
        mul-le-mul_right target
            (let b : length kept.kept ≤ suc k = omega (arith, kept.depth, h) in b),
        mul-div-le (length nodes) (suc k),
      ) in
      let filled = fill_layers-FilledLayers target kept.kept picked kept.within room in
      let all_same : (f : A → ℕ) → weigh_all f filled.filled + weigh f filled.left ≡ weigh f nodes =
        λ f.
          let (again, begun) = node_map-weigh f key nodes [] tt u (λ i v w o p. ground arith) in
          omega (arith, filled.same f, pending f, kept.same f, begun) in
      let holds =
        dealt-Holds k more filled.left nodes filled.filled
          (omega (arith, filled.depth, kept.depth, h)) all_same in
      let fits : ltb (suc k) (length old) ≡ false = ground (arith, h) in
      (
        assign 0 filled.left (filled.filled ++ replicate more []),
        ground (arith, fits, kept.is, p, filled.is),
        holds,
        λ e.
            dealt-IsTopology k target more filled.left nodes filled.filled (omega (arith, e))
              filled.full holds
              (sym (length-assign 0 filled.left (filled.filled ++ replicate more []))
                ∙ holds.depth),
      )
