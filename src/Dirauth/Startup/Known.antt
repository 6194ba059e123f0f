-- ===== src/Dirauth/Startup/Known.antt =====
-- What holds of the tables of an authority.
use zknet_anon_rpc_demo.Common.{
  ℕ, ◌+◌, ◌*◌, ◌/◌, ◌<◌, ◌≡◌, refl, sym, inl, inr, List, [], ◌∷◌, true, some, ◌==◌, length, arith,
  Bool-cases, Option-cases,
}
use zknet_anon_rpc_demo.Common.Dict.{Dict, lookup, has, put, lookup-put}
use zknet_anon_rpc_demo.Common.Try.{Try-cases}
use zknet_anon_rpc_demo.Dirauth.Startup.{
  Listed, Peer, Configured, Files, Tables, load_key, load_nodes, load_authorities, finish_tables,
  node_tables, info, new_state,
}

-- A key that is known under a number has that number for its hash.
abbrev pub Reverses : Files → Dict (List ℕ) → Type 0
Reverses e known = (k : ℕ) (key : List ℕ) → lookup k known ≡ some key → e.sum256 key ≡ k

-- Every number of a table is one of a known key.
abbrev pub AllKnown {ℓ} : {V : Type ℓ} → Dict V → Dict (List ℕ) → Type 0
AllKnown table known = (k : ℕ) → has k table ≡ true → has k known ≡ true

module _ (e : Files) where
  put-Reverses :
      (key : List ℕ) (known : Dict (List ℕ))
      → Reverses e known
      → Reverses e (put (e.sum256 key) key known)
  put-Reverses key known h k found p = elim (Bool-cases (e.sum256 key == k)) [
    | inl same ↦
        let q : key ≡ found = ground (arith, lookup-put (e.sum256 key) k key known, p, same) in
        rw (sym q) (ground (arith, same))
    | inr differs ↦ h k found (ground (arith, lookup-put (e.sum256 key) k key known, p, differs))
  ]

put-AllKnown {ℓ} :
    {V : Type ℓ} (k : ℕ) (v : V) (key : List ℕ) (table : Dict V) (known : Dict (List ℕ))
    → AllKnown table known
    → AllKnown (put k v table) (put k key known)
put-AllKnown k v key table known h j p = elim (Bool-cases (k == j)) [
  | inl same ↦ ground (arith, lookup-put k j key known, same)
  | inr differs ↦
      let q = h j (ground (arith, lookup-put k j v table, p, differs)) in
      ground (arith, lookup-put k j key known, q, differs)
]

put-kept {ℓ} :
    {V : Type ℓ} (k : ℕ) (key : List ℕ) (table : Dict V) (known : Dict (List ℕ))
    → AllKnown table known
    → AllKnown table (put k key known)
put-kept k key table known h j p = let q = h j p in ground (arith, lookup-put k j key known, q)

-- One table more.
record Loaded {ℓ} {V : Type ℓ} (e : Files) (table : Dict V) (known known' : Dict (List ℕ))
    : Type 1 where
  reverses : Reverses e known'
  all_known : AllKnown table known'
  kept : {W : Type 0} (other : Dict W) → AllKnown other known → AllKnown other known'

load_nodes-Loaded {ℓ} :
    {V : Type ℓ} (e : Files) (dir : List ℕ) (value : Listed → V) (nodes : List Listed)
    (table table' : Dict V) (known known' : Dict (List ℕ))
    → load_nodes e dir value nodes table known ≡ some (table', known')
    → Reverses e known
    → AllKnown table known
    → Loaded e table' known known'
unfolding load_nodes
load_nodes-Loaded e dir value [] table table' known known' h r a =
    let p : table ≡ table' = ground arith in
    let q : known ≡ known' = ground arith in
    rw (sym p, sym q) (record { reverses = r; all_known = a; kept = λ other o. o })
load_nodes-Loaded e dir value (n ∷ nodes) table table' known known' h r a =
    elim (Try-cases (load_key e dir n.file)) [
      | inl (text, p) ↦ absurd (ground arith)
      | inr (key, p) ↦
          let k = e.sum256 key in
          let more =
            load_nodes-Loaded e dir value nodes (put k (value n) table) table' (put k key known)
              known' (ground arith) (put-Reverses e key known r)
              (put-AllKnown k (value n) key table known a) in
          record {
            reverses = more.reverses;
            all_known = more.all_known;
            kept = λ other o. more.kept other (put-kept k key other known o);
          }
    ]

-- Every pinned node, and every authority, has a known key.
pub record IsKnown (e : Files) (t : Tables) : Type 0 where
  pub reverses : Reverses e t.reverse_hash
  pub mixes : AllKnown t.pinned.mixes t.reverse_hash
  pub gateways : AllKnown t.pinned.gateway_nodes t.reverse_hash
  pub services : AllKnown t.pinned.service_nodes t.reverse_hash
  pub replicas : AllKnown t.pinned.replica_nodes t.reverse_hash
  pub authorities : AllKnown t.authorized_authorities t.reverse_hash

load_authorities-IsKnown :
    (e : Files) (peers : List Peer) (t : Tables)
    → IsKnown e t
    → IsKnown e (load_authorities e peers t)
      × ((load_authorities e peers t).verifiers ≡ t.verifiers)
      × ((load_authorities e peers t).threshold ≡ t.threshold)
unfolding load_authorities
load_authorities-IsKnown e [] t h = (h, refl, refl)
load_authorities-IsKnown e (p ∷ peers) t h =
    let pk = e.sum256 p.identity_key in
    let key = p.identity_key in
    load_authorities-IsKnown e peers _ (record {
      reverses = put-Reverses e key t.reverse_hash h.reverses;
      mixes = put-kept pk key t.pinned.mixes t.reverse_hash h.mixes;
      gateways = put-kept pk key t.pinned.gateway_nodes t.reverse_hash h.gateways;
      services = put-kept pk key t.pinned.service_nodes t.reverse_hash h.services;
      replicas = put-kept pk key t.pinned.replica_nodes t.reverse_hash h.replicas;
      authorities = put-AllKnown pk true key t.authorized_authorities t.reverse_hash h.authorities;
    })

finish_tables-IsKnown :
    (e : Files) (c : Configured) (t : Tables)
    → IsKnown e t
    → IsKnown e (finish_tables e c t)
      × ((finish_tables e c t).verifiers ≡ t.verifiers)
      × ((finish_tables e c t).threshold ≡ t.threshold)
finish_tables-IsKnown e c t h =
    let (k, v, n) = load_authorities-IsKnown e c.authorities t h in
    let u = load_authorities e c.authorities t in
    let pk = e.sum256 c.own_key in
    (
      record {
        reverses = put-Reverses e c.own_key u.reverse_hash k.reverses;
        mixes = put-kept pk c.own_key u.pinned.mixes u.reverse_hash k.mixes;
        gateways = put-kept pk c.own_key u.pinned.gateway_nodes u.reverse_hash k.gateways;
        services = put-kept pk c.own_key u.pinned.service_nodes u.reverse_hash k.services;
        replicas = put-kept pk c.own_key u.pinned.replica_nodes u.reverse_hash k.replicas;
        authorities = put-kept pk c.own_key u.authorized_authorities u.reverse_hash k.authorities;
      },
      v,
      n,
    )

majority : (n : ℕ) → n < 2 * (n / 2 + 1)
majority n = omega arith

none-AllKnown {ℓ} : (V : Type ℓ) (known : Dict (List ℕ)) → AllKnown {V = V} [] known
unfolding lookup
none-AllKnown V known k h = cc

none-Reverses : (e : Files) → Reverses e []
unfolding lookup
none-Reverses e k key h = cc

-- The tables of nodes, made in turn.
pinned-IsKnown :
    (e : Files) (c : Configured) (s : Tables) (k1 k2 k3 : Dict (List ℕ))
    → load_nodes e c.data_dir (λ n. n.identifier) c.mixes [] [] ≡ some (s.pinned.mixes, k1)
    → load_nodes e c.data_dir (λ n. n.identifier) c.gateway_nodes [] k1
      ≡ some (s.pinned.gateway_nodes, k2)
    → load_nodes e c.data_dir (λ n. n.identifier) c.service_nodes [] k2
      ≡ some (s.pinned.service_nodes, k3)
    → load_nodes e c.data_dir (info e) c.storage_replicas [] k3
      ≡ some (s.pinned.replica_nodes, s.reverse_hash)
    → s.authorized_authorities ≡ []
    → IsKnown e s
pinned-IsKnown e c s k1 k2 k3 p1 p2 p3 p4 none_yet =
    let l1 =
      load_nodes-Loaded e c.data_dir (λ n. n.identifier) c.mixes [] s.pinned.mixes [] k1 p1
        (none-Reverses e) (none-AllKnown _ []) in
    let l2 =
      load_nodes-Loaded e c.data_dir (λ n. n.identifier) c.gateway_nodes [] s.pinned.gateway_nodes
        k1 k2 p2 l1.reverses (none-AllKnown _ k1) in
    let l3 =
      load_nodes-Loaded e c.data_dir (λ n. n.identifier) c.service_nodes [] s.pinned.service_nodes
        k2 k3 p3 l2.reverses (none-AllKnown _ k2) in
    let l4 =
      load_nodes-Loaded e c.data_dir (info e) c.storage_replicas [] s.pinned.replica_nodes k3
        s.reverse_hash p4 l3.reverses (none-AllKnown _ k3) in
    record {
      reverses = l4.reverses;
      mixes = l4.kept s.pinned.mixes (l3.kept s.pinned.mixes (l2.kept s.pinned.mixes l1.all_known));
      gateways = l4.kept s.pinned.gateway_nodes (l3.kept s.pinned.gateway_nodes l2.all_known);
      services = l4.kept s.pinned.service_nodes l3.all_known;
      replicas = l4.all_known;
      authorities = rw none_yet (none-AllKnown _ s.reverse_hash);
    }

-- An authority that starts: the keys that it knows are filed under their hashes, every node and
-- authority that it has pinned has a known key, and its threshold is more than half of the verifiers.
pub new_state-IsKnown :
    (e : Files) (c : Configured) (t : Tables)
    → new_state e c ≡ some t
    → IsKnown e t × (length t.verifiers < 2 * t.threshold)
unfolding new_state
new_state-IsKnown e c t h =
    let name = λ (n : Listed). n.identifier in
    elim (Option-cases (load_nodes e c.data_dir name c.mixes [] [])) [
      | inl p1 ↦ absurd (ground arith)
      | inr ((mixes, k1), p1) ↦
          elim (Option-cases (load_nodes e c.data_dir name c.gateway_nodes [] k1)) [
            | inl p2 ↦ absurd (ground arith)
            | inr ((gateways, k2), p2) ↦
                elim (Option-cases (load_nodes e c.data_dir name c.service_nodes [] k2)) [
                  | inl p3 ↦ absurd (ground arith)
                  | inr ((services, k3), p3) ↦
                      elim (Option-cases
                        (load_nodes e c.data_dir (info e) c.storage_replicas [] k3)) [
                          | inl p4 ↦ absurd (ground arith)
                          | inr ((replicas, k4), p4) ↦
                              let s = node_tables e c mixes gateways services replicas k4 in
                              let same : finish_tables e c s ≡ t = ground arith in
                              let (known, v, n) =
                                finish_tables-IsKnown e c s
                                  (pinned-IsKnown e c s k1 k2 k3 p1 p2 p3 p4 refl) in
                              rw (sym same) (known, rw (v, n) (majority (length s.verifiers)))
                        ]
                ]
          ]
    ]
