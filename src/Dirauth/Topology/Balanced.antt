-- ===== src/Dirauth/Topology/Balanced.antt =====
-- The layers are of one size, give or take one, and have as many places as there are nodes.
use zknet_anon_rpc_demo.Common.{
  ℕ, zero, suc, ◌+◌, ◌%◌, ◌≤◌, ◌<◌, ◌≡◌, refl, sym, ◌∙◌, ◌⊎◌, inl, inr, List, [], ◌∷◌, Bool-cases,
  ltb, some, length, arith, All, length-append, ap, get_elem?, replicate,
}
use native.Mathlib.Nat.{mod_self, mod-eq_of_lt}
use zknet_anon_rpc_demo.Dirauth.Topology.{
  pick, append_at, assign, assign_all, generate_random_topology,
}

pub next_layer :
    (k L : ℕ) → k < L → ((suc k < L) × ((k + 1) % L ≡ suc k)) ⊎ ((suc k ≡ L) × ((k + 1) % L ≡ 0))
next_layer k L h = elim (Bool-cases (ltb (k + 1) L)) [
  | inl inside ↦
      let e : k + 1 < L = ground arith in inl (omega (arith, e), mod-eq_of_lt e ∙ omega arith)
  | inr last ↦ let e : k + 1 ≡ L = ground arith in inr (omega (arith, e), rw e (mod_self L))
]

module _ {ℓ} {A : Type ℓ} where
  -- The first `k` layers hold `q + 1` nodes, and the others `q`.
  abbrev pub Balanced : ℕ → ℕ → List (List A) → Type 0
  Balanced q k [] = Unit
  Balanced q zero (l ∷ t) = (length l ≡ q) × Balanced q zero t
  Balanced q (suc k) (l ∷ t) = (length l ≡ q + 1) × Balanced q k t

  unfoldable pub total : List (List A) → ℕ
  total [] = 0
  total (l ∷ t) = length l + total t

  append_at-Balanced :
      (q k : ℕ) (n : A) (t : List (List A)) → Balanced q k t → Balanced q (suc k) (append_at k n t)
  unfolding append_at
  append_at-Balanced q k n [] h = tt
  append_at-Balanced q zero n (l ∷ t) (h, hs) = (omega (arith, length-append l (n ∷ []), h), hs)
  append_at-Balanced q (suc k) n (l ∷ t) (h, hs) = (h, append_at-Balanced q k n t hs)

  full_round : (q : ℕ) (t : List (List A)) → Balanced q (length t) t → Balanced (q + 1) 0 t
  full_round q [] h = tt
  full_round q (l ∷ t) (h, hs) = (h, full_round q t hs)

  pub length-append_at : (k : ℕ) (n : A) (t : List (List A)) → length (append_at k n t) ≡ length t
  unfolding append_at
  length-append_at k n [] = refl
  length-append_at zero n (l ∷ t) = refl
  length-append_at (suc k) n (l ∷ t) = ap suc (length-append_at k n t)

  total-append_at :
      (k : ℕ) (n : A) (t : List (List A)) → k < length t → total (append_at k n t) ≡ total t + 1
  unfolding append_at total
  total-append_at k n [] h = absurd (omega (arith, h))
  total-append_at zero n (l ∷ t) h = omega (arith, length-append l (n ∷ []))
  total-append_at (suc k) n (l ∷ t) h = omega (arith, total-append_at k n t (omega (arith, h)))

  -- All nodes are assigned, and the layers stay balanced.
  pub assign-Balanced :
      (q k : ℕ) (nodes : List A) (t : List (List A))
      → k < length t
      → Balanced q k t
      → let u = assign k nodes t in
        (length u ≡ length t)
        × (total u ≡ total t + length nodes)
        × ((p : ℕ) × (j : ℕ) × Balanced p j u)
  unfolding assign
  assign-Balanced q k [] t h b = (refl, omega arith, (q, k, b))
  assign-Balanced q k (n ∷ nodes) t h b =
      let u = append_at k n t in
      let size = length-append_at k n t in
      let more = total-append_at k n t h in
      let b' = append_at-Balanced q k n t b in
      elim (next_layer k (length t) h) [
        | inl (inside, e) ↦
            let (x, y, z) = assign-Balanced q (suc k) nodes u (omega (arith, size, inside)) b' in
            rw e (x ∙ size, omega (arith, y, more), z)
        | inr (last, e) ↦
            let c : Balanced q (length u) u =
              let same : suc k ≡ length u = omega (arith, last, size) in rw (sym same) b' in
            let (x, y, z) =
              assign-Balanced (q + 1) 0 nodes u (omega (arith, size, h)) (full_round q u c) in
            rw e (x ∙ size, omega (arith, y, more), z)
      ]

  pub get_elem?-some :
      (nodes : List A) (i : ℕ) → i < length nodes → (a : A) × (get_elem? nodes i ≡ some a)
  get_elem?-some [] i h = absurd (omega (arith, h))
  get_elem?-some (a ∷ nodes) zero h = (a, refl)
  get_elem?-some (a ∷ nodes) (suc i) h = get_elem?-some nodes i (omega (arith, h))

  pub pick-length :
      (nodes : List A) (indexes : List ℕ)
      → All (λ i. i < length nodes) indexes
      → (picked : List A) × (pick nodes indexes ≡ some picked) × (length picked ≡ length indexes)
  unfolding pick
  pick-length nodes [] h = ([], refl, refl)
  pick-length nodes (i ∷ indexes) (h, hs) =
      let (a, e) = get_elem?-some nodes i h in
      let (picked, f, g) = pick-length nodes indexes hs in (a ∷ picked, rw (e, f) refl, ap suc g)

  pub within_one :
      (q k : ℕ) (t : List (List A))
      → Balanced q k t
      → All (λ l. (q ≤ length l) × (length l ≤ q + 1)) t
  within_one q k [] h = tt
  within_one q zero (l ∷ t) (h, hs) = ((omega (arith, h), omega (arith, h)), within_one q zero t hs)
  within_one q (suc k) (l ∷ t) (h, hs) = ((omega (arith, h), omega (arith, h)), within_one q k t hs)

empty_lem {ℓ} :
    (A : Type ℓ) (k : ℕ)
    → let t = replicate {A = List A} k [] in Balanced 0 0 t × (length t ≡ k) × (total t ≡ 0)
unfolding total
empty_lem A zero = (tt, refl, refl)
empty_lem A (suc k) =
    let (b, size, none_yet) = empty_lem A k in ((refl, b), ap suc size, omega (arith, none_yet))

module _ {ℓ} {A : Type ℓ} where
  -- The layers that are asked for, with as many places as nodes, no layer with more than one place more
  -- than another.
  pub record IsTopology (layers nodes : ℕ) (t : List (List A)) : Type ℓ where
    pub depth : length t ≡ layers
    pub complete : total t ≡ nodes
    pub least : ℕ
    pub balanced : All (λ l. (least ≤ length l) × (length l ≤ least + 1)) t

  pub assign_all-some :
      (k : ℕ) (picked : List A)
      → assign_all (suc k) (some picked) ≡ some (assign 0 picked (replicate (suc k) []))
  unfolding assign
  assign_all-some k [] = refl
  assign_all-some k (n ∷ nodes) = refl

  all_assigned :
      (k : ℕ) (picked : List A)
      → (t : List (List A)) × (assign_all (suc k) (some picked) ≡ some t)
        × IsTopology (suc k) (length picked) t
  all_assigned k picked =
      let (b, size, none_yet) = empty_lem A (suc k) in
      let t = replicate {A = List A} (suc k) [] in
      let (x, y, (q, j, z)) = assign-Balanced 0 0 picked t (omega (arith, size)) b in
      (
        assign 0 picked t,
        assign_all-some k picked,
        record {
          depth = x ∙ size;
          complete = omega (arith, y, none_yet);
          least = q;
          balanced = within_one q j _ z;
        },
      )

  -- Where there is a layer, and the permutation is as long as the list of nodes and has indexes of
  -- nodes only: no index is out of range, there are as many places as nodes, and the layers are of one
  -- size, give or take one.
  pub generate_random_topology-IsTopology :
      (perm : List ℕ → ℕ → List ℕ) (layers : ℕ) (nodes : List A) (srv : List ℕ)
      → 0 < layers
      → length (perm srv (length nodes)) ≡ length nodes
      → All (λ i. i < length nodes) (perm srv (length nodes))
      → (t : List (List A)) × ((generate_random_topology perm layers nodes srv).1 ≡ some t)
        × IsTopology layers (length nodes) t
  unfolding generate_random_topology
  generate_random_topology-IsTopology perm zero nodes srv z n h = absurd (omega (arith, z))
  generate_random_topology-IsTopology perm (suc k) nodes srv z n h =
      let (picked, e, f) = pick-length nodes (perm srv (length nodes)) h in
      let (t, g, y) = all_assigned k picked in
      (
        t,
        rw e g,
        record {
          depth = y.depth;
          complete = y.complete ∙ (f ∙ n);
          least = y.least;
          balanced = y.balanced;
        },
      )
