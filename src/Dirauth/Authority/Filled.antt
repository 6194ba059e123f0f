-- ===== src/Dirauth/Authority/Filled.antt =====
-- What `getDocument` writes into a document, and what it leaves of the authority.
use zknet_anon_rpc_demo.Common.{ℕ, ◌≡◌, sym, refl, inl, inr, List, ◌||◌, some, arith, Option-cases}
use zknet_anon_rpc_demo.Dirauth.Pki.{MixDescriptor, ReplicaDescriptor, Parameters, Document}
use zknet_anon_rpc_demo.Dirauth.Authority.{
  Authority, Config, Library, carve, choose_topology, fill_document, get_document,
}

pub record Filled (replicas : List ReplicaDescriptor) (params : Parameters) (srv : List ℕ)
    (a : Authority) (doc : Document) (b : Authority) : Type 0 where
  pub for_epoch : doc.epoch ≡ a.voted.voting_epoch
  pub same_params : doc.params ≡ params
  pub same_replicas : doc.storage_replicas ≡ replicas
  pub value : doc.shared_random_value ≡ srv
  pub prior : doc.prior_shared_random ≡ a.prior_srv
  pub genesis : doc.genesis_epoch ≡ a.genesis_epoch
  pub kept_voted : b.voted ≡ a.voted
  pub kept_documents : b.documents ≡ a.documents
  pub kept_view : b.my_consensus ≡ a.my_consensus
  pub kept_prior : b.prior_srv ≡ a.prior_srv
  pub kept_genesis : b.genesis_epoch ≡ a.genesis_epoch
  pub kept_disk : b.disk_documents ≡ a.disk_documents

pub get_document-Filled :
    (u : Config) (lib : Library) (now : ℕ) (descriptors : List MixDescriptor)
    (replicas : List ReplicaDescriptor) (params : Parameters) (srv : List ℕ) (a b : Authority)
    (doc : Document)
    → get_document u lib now descriptors replicas params srv a ≡ some (doc, b)
    → Filled replicas params srv a doc b
unfolding get_document
get_document-Filled u lib now descriptors replicas params srv a b doc h =
    let (wrong, chosen) = choose_topology u lib (carve descriptors).nodes srv a in
    elim (Option-cases chosen) [
      | inl e ↦ absurd (ground arith)
      | inr (t, e) ↦
          let (made, cached) = fill_document u lib now descriptors replicas params srv a t in
          let same : made ≡ doc = ground (arith, h, e) in
          let after : record a { cached_replica_envelope_keys = cached; fatal = a.fatal || wrong }
              ≡ b =
            ground (arith, h, e) in
          rw (sym same, sym after)
            (record {
              for_epoch = refl;
              same_params = refl;
              same_replicas = refl;
              value = refl;
              prior = refl;
              genesis = refl;
              kept_voted = refl;
              kept_documents = refl;
              kept_view = refl;
              kept_prior = refl;
              kept_genesis = refl;
              kept_disk = refl;
            })
    ]
