-- ===== src/Dirauth/Authority/Everywhere.antt =====
-- The nodes of a document that `getDocument` makes are among those that it is given.
use zknet_anon_rpc_demo.Common.{
  ℕ, ◌≡◌, sym, inl, inr, List, [], ◌∷◌, Bool, true, false, some, arith, All, if◌then◌else◌,
  Option-cases, ◌-◌,
}
use zknet_anon_rpc_demo.Common.Dict.{lookup}
use zknet_anon_rpc_demo.Dirauth.Pki.{MixDescriptor, ReplicaDescriptor, Parameters, Document}
use zknet_anon_rpc_demo.Dirauth.Topology.Members.{generate_random_topology-All}
use zknet_anon_rpc_demo.Dirauth.Layers.Members.{generate_topology-All, generate_fixed_topology-All}
use zknet_anon_rpc_demo.Dirauth.Authority.{
  Authority, Config, Library, Carved, carve, choose_topology, fill_document, get_document,
}

module _ {κ} (P : MixDescriptor → Type κ) where
  -- A property of each gateway, service node and mix of a document.
  pub record Everywhere (doc : Document) : Type κ where
    pub gateways : All P doc.gateway_nodes
    pub services : All P doc.service_nodes
    pub mixes : All (All P) doc.topology

  abbrev AllCarved : Carved → Type κ
  AllCarved c = All P c.gateways × All P c.services × All P c.nodes

  if-AllCarved :
      (b : Bool) (c d : Carved) → AllCarved c → AllCarved d → AllCarved (if b then c else d)
  if-AllCarved true c d h k = h
  if-AllCarved false c d h k = k

  carve-AllCarved : (descs : List MixDescriptor) → All P descs → AllCarved (carve descs)
  unfolding carve
  carve-AllCarved [] ps = (tt, tt, tt)
  carve-AllCarved (desc ∷ descs) (p, ps) =
      let (g, s, n) = carve-AllCarved descs ps in
      if-AllCarved desc.is_gateway_node _ _ ((p, g), s, n)
        (if-AllCarved desc.is_service_node _ _ (g, (p, s), n) (g, s, (p, n)))

  module _ (u : Config) (lib : Library) where
    choose_topology-All :
        (nodes : List MixDescriptor) (srv : List ℕ) (a : Authority) (t : List (List MixDescriptor))
        → (choose_topology u lib nodes srv a).1 ≡ some t
        → All P nodes
        → All (All P) t
    unfolding choose_topology
    choose_topology-All nodes srv a t h ps = elim (Option-cases u.fixed_topology) [
      | inr (layers, e) ↦
          generate_fixed_topology-All P lib.load_key (λ desc. u.pinned.sum256 desc.identity_key)
            layers nodes t (ground (arith, h, e)) ps
      | inl e ↦ elim (Option-cases (lookup (a.voted.voting_epoch - 1) a.documents)) [
        | inr (d, f) ↦
            generate_topology-All P (λ desc. u.pinned.sum256 desc.identity_key) (lib.perm srv)
              u.layers nodes d.topology t (ground (arith, h, e, f)) ps
        | inl f ↦
            generate_random_topology-All P (λ seed n. lib.perm seed 0 n) u.layers nodes srv t
              (ground (arith, h, e, f)) ps
      ]
    ]

    pub get_document-Everywhere :
        (now : ℕ) (descriptors : List MixDescriptor) (replicas : List ReplicaDescriptor)
        (params : Parameters) (srv : List ℕ) (a b : Authority) (doc : Document)
        → get_document u lib now descriptors replicas params srv a ≡ some (doc, b)
        → All P descriptors
        → Everywhere doc
    unfolding get_document
    get_document-Everywhere now descriptors replicas params srv a b doc h ps =
        let (g, s, n) = carve-AllCarved descriptors ps in
        elim (Option-cases (choose_topology u lib (carve descriptors).nodes srv a).1) [
          | inl e ↦ absurd (ground arith)
          | inr (t, e) ↦
              let same : (fill_document u lib now descriptors replicas params srv a t).0 ≡ doc =
                ground (arith, h, e) in
              rw (sym same) (record {
                gateways = g;
                services = s;
                mixes = choose_topology-All (carve descriptors).nodes srv a t e n;
              })
        ]
