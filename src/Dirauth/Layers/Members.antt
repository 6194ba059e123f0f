-- ===== src/Dirauth/Layers/Members.antt =====
-- What holds of every node holds of every node in the layers that are made of them.
use zknet_anon_rpc_demo.Common.{
  ℕ, zero, suc, ◌-◌, ◌/◌, ◌≡◌, sym, inl, inr, List, [], ◌∷◌, ◌++◌, some, ltb, leb, ◌==◌, length,
  arith, All, All-append, Bool-cases, Option-cases, get_elem?, replicate,
}
use zknet_anon_rpc_demo.Common.Dict.{Dict, lookup, delete, put}
use zknet_anon_rpc_demo.Common.Try.{Try, Try-cases}
use zknet_anon_rpc_demo.Dirauth.Topology.{pick, assign}
use zknet_anon_rpc_demo.Dirauth.Tally.{sort_by}
use zknet_anon_rpc_demo.Dirauth.Tally.Select.{sort_by-All}
use zknet_anon_rpc_demo.Dirauth.Layers.{
  values, node_map, keep_layer, keep_layers, fill_layer, fill_layers, generate_topology,
  generate_fixed_topology, fixed_layer, fixed_layers,
}
use zknet_anon_rpc_demo.Dirauth.Topology.Members.{pick-All, assign-All, empty-All}

module _ {ℓ κ} {A : Type ℓ} (P : A → Type κ) where
  lookup-All : (k : ℕ) (m : Dict A) (n : A) → lookup k m ≡ some n → All P (values m) → P n
  unfolding lookup
  lookup-All k [] n h ps = cc
  lookup-All k ((j, v) ∷ m) n h (p, ps) = elim (Bool-cases (j == k)) [
    | inl e ↦ let s : v ≡ n = ground arith in rw (sym s) p
    | inr e ↦ lookup-All k m n (ground arith) ps
  ]

  delete-All : (k : ℕ) (m : Dict A) → All P (values m) → All P (values (delete k m))
  unfolding delete
  delete-All k [] ps = tt
  delete-All k ((j, v) ∷ m) (p, ps) = elim (Bool-cases (j == k)) [
    | inl e ↦ rw e (delete-All k m ps)
    | inr e ↦ rw e (p, delete-All k m ps)
  ]

  module _ (key : A → ℕ) where
    node_map-All :
        (nodes : List A) (m : Dict A)
        → All P nodes
        → All P (values m)
        → All P (values (node_map key nodes m))
    unfolding node_map
    node_map-All [] m ps qs = qs
    node_map-All (v ∷ nodes) m (p, ps) qs =
        node_map-All nodes (put (key v) v m) ps (p, delete-All (key v) m qs)

    keep_layer-All :
        (target : ℕ) (old : List A) (indexes : List ℕ) (layer : List A) (m : Dict A) (kept : List A)
        (left : Dict A)
        → keep_layer key target old indexes layer m ≡ some (kept, left)
        → All P layer
        → All P (values m)
        → All P kept × All P (values left)
    unfolding keep_layer
    keep_layer-All target old [] layer m kept left h ps qs =
        let s : layer ≡ kept = ground arith in
        let r : m ≡ left = ground arith in rw (sym s, sym r) (ps, qs)
    keep_layer-All target old (i ∷ indexes) layer m kept left h ps qs =
        elim (Bool-cases (leb target (length layer))) [
          | inl full ↦
              let s : layer ≡ kept = ground arith in
              let r : m ≡ left = ground arith in rw (sym s, sym r) (ps, qs)
          | inr room ↦ elim (Option-cases (get_elem? old i)) [
            | inl e ↦ absurd (ground arith)
            | inr (v, e) ↦ elim (Option-cases (lookup (key v) m)) [
              | inl gone ↦ keep_layer-All target old indexes layer m kept left (ground arith) ps qs
              | inr (n, there) ↦
                  keep_layer-All target old indexes (layer ++ (n ∷ [])) (delete (key v) m) kept left
                    (ground arith)
                    (All-append P layer (n ∷ []) ps (lookup-All (key v) m n there qs, tt))
                    (delete-All (key v) m qs)
            ]
          ]
        ]

    keep_layers-All :
        (perm : ℕ → ℕ → List ℕ) (call target : ℕ) (olds : List (List A)) (m : Dict A)
        (kept : List (List A)) (left : Dict A)
        → keep_layers key perm call target olds m ≡ some (kept, left)
        → All P (values m)
        → All (All P) kept × All P (values left)
    unfolding keep_layers
    keep_layers-All perm call target [] m kept left h qs =
        let s : [] ≡ kept = ground arith in
        let r : m ≡ left = ground arith in rw (sym s, sym r) (tt, qs)
    keep_layers-All perm call target (old ∷ olds) m kept left h qs =
        elim (Option-cases (keep_layer key target old (perm call (length old)) [] m)) [
          | inl e ↦ absurd (ground arith)
          | inr ((layer, rest), e) ↦
              let (p, ps) =
                keep_layer-All target old (perm call (length old)) [] m layer rest e tt qs in
              elim (Option-cases (keep_layers key perm (suc call) target olds rest)) [
                | inl f ↦ absurd (ground arith)
                | inr ((layers, last), f) ↦
                    let s : layer ∷ layers ≡ kept = ground arith in
                    let r : last ≡ left = ground arith in
                    let (q, more) =
                      keep_layers-All perm (suc call) target olds rest layers last f ps in
                    rw (sym s, sym r) ((p, q), more)
              ]
        ]

  fill_layer-All :
      (target : ℕ) (layer pending filled left : List A)
      → fill_layer target layer pending ≡ some (filled, left)
      → All P layer
      → All P pending
      → All P filled × All P left
  unfolding fill_layer
  fill_layer-All target layer [] filled left h ps qs =
      elim (Bool-cases (leb target (length layer))) [
        | inl full ↦
            let s : layer ≡ filled = ground arith in
            let r : [] ≡ left = ground arith in rw (sym s, sym r) (ps, tt)
        | inr room ↦ absurd (ground arith)
      ]
  fill_layer-All target layer (n ∷ pending) filled left h ps (q, qs) =
      elim (Bool-cases (leb target (length layer))) [
        | inl full ↦
            let s : layer ≡ filled = ground arith in
            let r : n ∷ pending ≡ left = ground arith in rw (sym s, sym r) (ps, (q, qs))
        | inr room ↦
            fill_layer-All target (layer ++ (n ∷ [])) pending filled left (ground arith)
              (All-append P layer (n ∷ []) ps (q, tt)) qs
      ]

  fill_layers-All :
      (target : ℕ) (layers : List (List A)) (pending : List A) (filled : List (List A))
      (left : List A)
      → fill_layers target layers pending ≡ some (filled, left)
      → All (All P) layers
      → All P pending
      → All (All P) filled × All P left
  unfolding fill_layers
  fill_layers-All target [] pending filled left h ps qs =
      let s : [] ≡ filled = ground arith in
      let r : pending ≡ left = ground arith in rw (sym s, sym r) (tt, qs)
  fill_layers-All target (layer ∷ layers) pending filled left h (p, ps) qs =
      elim (Option-cases (fill_layer target layer pending)) [
        | inl e ↦ absurd (ground arith)
        | inr ((full, rest), e) ↦
            let (q, more) = fill_layer-All target layer pending full rest e p qs in
            elim (Option-cases (fill_layers target layers rest)) [
              | inl f ↦ absurd (ground arith)
              | inr ((others, last), f) ↦
                  let s : full ∷ others ≡ filled = ground arith in
                  let r : last ≡ left = ground arith in
                  let (o, end) = fill_layers-All target layers rest others last f ps more in
                  rw (sym s, sym r) ((q, o), end)
            ]
      ]

  pub generate_topology-All :
      (key : A → ℕ) (perm : ℕ → ℕ → List ℕ) (layers : ℕ) (nodes : List A) (old t : List (List A))
      → generate_topology key perm layers nodes old ≡ some t
      → All P nodes
      → All (All P) t
  unfolding generate_topology
  generate_topology-All key perm zero nodes old t h ps = cc
  generate_topology-All key perm (suc k) nodes old t h ps =
      let target = length nodes / suc k in
      let m = node_map key nodes [] in
      let more = suc k - length old in
      elim (Bool-cases (ltb (suc k) (length old))) [
        | inl many ↦ absurd (ground arith)
        | inr fits ↦ elim (Option-cases (keep_layers key perm 0 target old m)) [
          | inl e ↦ absurd (ground arith)
          | inr ((kept, left), e) ↦
              let (ks, ls) =
                keep_layers-All key perm 0 target old m kept left e
                  (node_map-All key nodes [] ps tt) in
              let to_assign = sort_by key (values left) in
              let indexes = perm (length old) (length to_assign) in
              elim (Option-cases (pick to_assign indexes)) [
                | inl f ↦ absurd (ground arith)
                | inr (picked, f) ↦
                    let qs =
                      pick-All P to_assign indexes picked f (sort_by-All key P (values left) ls) in
                    elim (Option-cases (fill_layers target kept picked)) [
                      | inl g ↦ absurd (ground arith)
                      | inr ((filled, rest), g) ↦
                          let s : assign 0 rest (filled ++ replicate more []) ≡ t = ground arith in
                          let (fs, rs) = fill_layers-All target kept picked filled rest g ks qs in
                          rw (sym s) (
                            assign-All P 0 rest (filled ++ replicate more []) rs
                              (All-append (All P) filled (replicate more []) fs (empty-All P more)))
                    ]
              ]
        ]
      ]

  fixed_layer-All :
      (load_key : List ℕ → Try ℕ) (files : List (List ℕ)) (m : Dict A) (layer : List A)
      → fixed_layer load_key files m ≡ some layer
      → All P (values m)
      → All P layer
  unfolding fixed_layer
  fixed_layer-All load_key [] m layer h ps = let s : [] ≡ layer = ground arith in rw (sym s) tt
  fixed_layer-All load_key (file ∷ files) m layer h ps = elim (Try-cases (load_key file)) [
    | inl (text, e) ↦ absurd (ground arith)
    | inr (id, e) ↦ elim (Option-cases (fixed_layer load_key files m)) [
      | inl f ↦ absurd (ground arith)
      | inr (rest, f) ↦
          let others = fixed_layer-All load_key files m rest f ps in
          elim (Option-cases (lookup id m)) [
            | inl g ↦ let s : rest ≡ layer = ground arith in rw (sym s) others
            | inr (n, g) ↦
                let s : n ∷ rest ≡ layer = ground arith in
                rw (sym s) (lookup-All id m n g ps, others)
          ]
    ]
  ]

  fixed_layers-All :
      (load_key : List ℕ → Try ℕ) (layers : List (List (List ℕ))) (m : Dict A) (t : List (List A))
      → fixed_layers load_key layers m ≡ some t
      → All P (values m)
      → All (All P) t
  unfolding fixed_layers
  fixed_layers-All load_key [] m t h ps = let s : [] ≡ t = ground arith in rw (sym s) tt
  fixed_layers-All load_key (files ∷ layers) m t h ps =
      elim (Option-cases (fixed_layer load_key files m)) [
        | inl e ↦ absurd (ground arith)
        | inr (layer, e) ↦ elim (Option-cases (fixed_layers load_key layers m)) [
          | inl f ↦ absurd (ground arith)
          | inr (rest, f) ↦
              let s : layer ∷ rest ≡ t = ground arith in
              rw (sym s) (
                fixed_layer-All load_key files m layer e ps,
                fixed_layers-All load_key layers m rest f ps,
              )
        ]
      ]

  pub generate_fixed_topology-All :
      (load_key : List ℕ → Try ℕ) (key : A → ℕ) (layers : List (List (List ℕ))) (nodes : List A)
      (t : List (List A))
      → generate_fixed_topology load_key key layers nodes ≡ some t
      → All P nodes
      → All (All P) t
  generate_fixed_topology-All load_key key layers nodes t h ps =
      fixed_layers-All load_key layers (node_map key nodes []) t h (node_map-All key nodes [] ps tt)
