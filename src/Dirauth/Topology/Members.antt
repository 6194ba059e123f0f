-- ===== src/Dirauth/Topology/Members.antt =====
-- What holds of every node holds of every node in random layers.
use zknet_anon_rpc_demo.Common.{
  ℕ, zero, suc, ◌+◌, ◌%◌, ◌≡◌, sym, inl, inr, List, [], ◌∷◌, some, length, arith, All, All-append,
  Option-cases, get_elem?, replicate,
}
use zknet_anon_rpc_demo.Dirauth.Topology.{
  pick, append_at, assign, assign_all, generate_random_topology,
}

module _ {ℓ κ} {A : Type ℓ} (P : A → Type κ) where
  pub get_elem?-All : (xs : List A) (i : ℕ) (a : A) → get_elem? xs i ≡ some a → All P xs → P a
  get_elem?-All [] i a h ps = cc
  get_elem?-All (x ∷ xs) zero a h (p, ps) = let s : x ≡ a = ground arith in rw (sym s) p
  get_elem?-All (x ∷ xs) (suc i) a h (p, ps) = get_elem?-All xs i a h ps

  pub pick-All :
      (nodes : List A) (indexes : List ℕ) (picked : List A)
      → pick nodes indexes ≡ some picked
      → All P nodes
      → All P picked
  unfolding pick
  pick-All nodes [] picked h ps = let s : [] ≡ picked = ground arith in rw (sym s) tt
  pick-All nodes (i ∷ indexes) picked h ps = elim (Option-cases (get_elem? nodes i)) [
    | inl e ↦ absurd (ground arith)
    | inr (a, e) ↦ elim (Option-cases (pick nodes indexes)) [
      | inl f ↦ absurd (ground arith)
      | inr (rest, f) ↦
          let s : a ∷ rest ≡ picked = ground arith in
          rw (sym s) (get_elem?-All nodes i a e ps, pick-All nodes indexes rest f ps)
    ]
  ]

  pub append_at-All :
      (k : ℕ) (n : A) (t : List (List A)) → P n → All (All P) t → All (All P) (append_at k n t)
  unfolding append_at
  append_at-All k n [] p ps = tt
  append_at-All zero n (l ∷ t) p (q, qs) = (All-append P l (n ∷ []) q (p, tt), qs)
  append_at-All (suc k) n (l ∷ t) p (q, qs) = (q, append_at-All k n t p qs)

  pub assign-All :
      (k : ℕ) (nodes : List A) (t : List (List A))
      → All P nodes
      → All (All P) t
      → All (All P) (assign k nodes t)
  unfolding assign
  assign-All k [] t ps qs = qs
  assign-All k (n ∷ nodes) t (p, ps) qs =
      assign-All ((k + 1) % length t) nodes (append_at k n t) ps (append_at-All k n t p qs)

  pub empty-All : (n : ℕ) → All (All P) (replicate n [])
  empty-All zero = tt
  empty-All (suc n) = (tt, empty-All n)

  pub assign_all-All :
      (n : ℕ) (picked : List A) (t : List (List A))
      → assign_all n (some picked) ≡ some t
      → All P picked
      → All (All P) t
  assign_all-All n [] t h ps = let s : replicate n [] ≡ t = ground arith in rw (sym s) (empty-All n)
  assign_all-All zero (a ∷ picked) t h ps = cc
  assign_all-All (suc n) (a ∷ picked) t h ps =
      let s : assign 0 (a ∷ picked) (replicate (suc n) []) ≡ t = ground arith in
      rw (sym s) (assign-All 0 (a ∷ picked) (replicate (suc n) []) ps (empty-All (suc n)))

  pub generate_random_topology-All :
      (perm : List ℕ → ℕ → List ℕ) (layers : ℕ) (nodes : List A) (srv : List ℕ) (t : List (List A))
      → (generate_random_topology perm layers nodes srv).1 ≡ some t
      → All P nodes
      → All (All P) t
  unfolding generate_random_topology
  generate_random_topology-All perm layers nodes srv t h ps =
      elim (Option-cases (pick nodes (perm srv (length nodes)))) [
        | inl e ↦ absurd (ground arith)
        | inr (picked, e) ↦
            assign_all-All layers picked t (ground arith)
              (pick-All nodes (perm srv (length nodes)) picked e ps)
      ]
