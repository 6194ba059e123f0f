-- ===== src/Dirauth/Authority.antt =====
-- The authority's state and configuration, and the documents that it makes: `getDocument` of
-- katzenpost/authority/voting/server/state.go.
pub mod Everywhere
pub mod Filled
use zknet_anon_rpc_demo.Common.{
  ℕ, ◌-◌, List, [], ◌∷◌, Bool, true, false, ◌&&◌, ◌||◌, Option, none, some, ltb, ◌==◌,
  if◌then◌else◌, map, replicate,
}
use zknet_anon_rpc_demo.Common.Dict.{Dict, lookup}
use zknet_anon_rpc_demo.Common.Try.{Try, done, failed}
use zknet_anon_rpc_demo.Dirauth.Pki.{
  MixDescriptor, ReplicaDescriptor, Parameters, Document, Certs, State,
}
use zknet_anon_rpc_demo.Dirauth.Authorization.{Pinned, ReplicaInfo}
use zknet_anon_rpc_demo.Dirauth.Tally.{Codec, TallyError}
use zknet_anon_rpc_demo.Dirauth.Random.{SharedRandom, Reveal}
use zknet_anon_rpc_demo.Dirauth.Commit.{Signer}
use zknet_anon_rpc_demo.Dirauth.Topology.{generate_random_topology}
use zknet_anon_rpc_demo.Dirauth.Envelope.{Keys, build_replica_envelope_keys}
use zknet_anon_rpc_demo.Dirauth.Layers.{generate_topology, generate_fixed_topology}

-- Which maps our certificate of an epoch shares with the state: a map that was nil is not shared.
pub record OwnMaps : Type 0 where
  pub shares_commits : Bool
  pub shares_reveals : Bool

-- `state`, with the database's bucket of documents, and whether `fatalErrCh` has been written. A
-- document is a value: where the source keeps one pointer in two maps, each map has its own. The maps
-- of commits and reveals in our certificate of an epoch are those of the state where `own_maps` says.
pub record Authority : Type 0 where
  pub voted : State
  pub documents : Dict Document
  pub my_consensus : Dict Document
  pub own_maps : Dict OwnMaps
  pub descriptors : Dict (Dict MixDescriptor)
  pub replica_descriptors : Dict (Dict ReplicaDescriptor)
  pub prior_srv : List (List ℕ)
  pub genesis_epoch : ℕ
  pub cached_replica_envelope_keys : Keys
  pub disk_documents : Dict (List ℕ)
  pub fatal : Bool

-- The configuration, the keys by their hash, and the number of epochs in a week.
pub record Config : Type 0 where
  pub pinned : Pinned
  pub reverse_hash : Dict (List ℕ)
  pub threshold : ℕ
  pub layers : ℕ
  pub fixed_topology : Option (List (List (List ℕ)))
  pub parameters : Parameters
  pub lambda_g : ℕ
  pub geometry_hash : List ℕ
  pub scheme : List ℕ
  pub week_of_epochs : ℕ

-- What the authority calls of its libraries: the encodings, certificates, our commits and signatures,
-- `Perm` of the deterministic reader with a seed, by the number of the call, the key in a file,
-- BLAKE2b, `sort.Slice` of reveals, and `SignDocument`, `IsDocumentWellFormed`, `AddSignature`, `MarshalCertificate` and
-- `cert.VerifyThreshold` of documents.
pub record Library : Type 0 where
  pub codec : Codec
  pub certs : Certs
  pub shared_random : SharedRandom
  pub signer : Signer
  pub perm : List ℕ → ℕ → ℕ → List ℕ
  pub load_key : List ℕ → Try ℕ
  pub marshal_key : List ℕ → Try (List ℕ)
  pub blake2b : List ℕ → List ℕ
  pub sort_slice : List Reveal → List Reveal
  pub get_certified : List ℕ → Try ℕ
  pub sign_document : Document → Try Document
  pub malformed : Document → Option (List ℕ)
  pub add_signature : Option (List ℕ) → List ℕ → Document → Try Document
  pub marshal_certificate : Document → Try (List ℕ)
  pub verify_threshold : List ℕ → Bool

-- Why there is no document; `crashed` is a run-time error or a panic.
pub data Refused : Type 0 where
  crashed : Refused
  no_commit not_signed not_well_formed not_marshalled : List ℕ → Refused
  already_saved : Refused
  not_tallied : TallyError → Refused
  no_certificates too_few_certificates too_few_commits no_shared_random : Refused
  no_view no_threshold : Refused

abbrev pub zeros : List ℕ
zeros = replicate 32 0

-- The descriptors of a document by what they are.
pub record Carved : Type 0 where
  pub gateways : List MixDescriptor
  pub services : List MixDescriptor
  pub nodes : List MixDescriptor

unfoldable pub carve : List MixDescriptor → Carved
carve [] = record { gateways = []; services = []; nodes = [] }
carve (desc ∷ descs) =
    let c = carve descs in
    if desc.is_gateway_node
    then record c { gateways = desc ∷ c.gateways }
    else (if desc.is_service_node
        then record c { services = desc ∷ c.services }
        else record c { nodes = desc ∷ c.nodes })

-- `slices.Compare`, below 0.
unfoldable pub less_bytes : List ℕ → List ℕ → Bool
less_bytes xs [] = false
less_bytes [] (y ∷ ys) = true
less_bytes (x ∷ xs) (y ∷ ys) = ltb x y || (x == y && less_bytes xs ys)

unfoldable pub insert_replica : ℕ × List ℕ → List (ℕ × List ℕ) → List (ℕ × List ℕ)
insert_replica a [] = a ∷ []
insert_replica a (b ∷ bs) =
    let rest = insert_replica a bs in if less_bytes b.1 a.1 then b ∷ rest else a ∷ b ∷ bs

module _ (u : Config) (lib : Library) where
  -- The pinned replicas whose key is known, by their key.
  unfoldable pub configured_replicas : Dict ReplicaInfo → List (ℕ × List ℕ)
  configured_replicas [] = []
  configured_replicas ((hash, info) ∷ replicas) =
      let rest = configured_replicas replicas in
      elim (lookup hash u.reverse_hash) [
        | none ↦ rest
        | some key ↦ elim (lib.marshal_key key) [
          | failed text ↦ rest
          | done bytes ↦ insert_replica (info.replica_id, bytes) rest
        ]
      ]

  -- Whether `fatalErrCh` is written, and the layers. No voting epoch is 0.
  unfoldable pub choose_topology :
      List MixDescriptor → List ℕ → Authority → Bool × Option (List (List MixDescriptor))
  choose_topology nodes srv a = elim u.fixed_topology [
    | some layers ↦ (
      false,
      generate_fixed_topology lib.load_key (λ desc. u.pinned.sum256 desc.identity_key) layers nodes,
    )
    | none ↦ elim (lookup (a.voted.voting_epoch - 1) a.documents) [
      | some d ↦ (
        false,
        generate_topology (λ desc. u.pinned.sum256 desc.identity_key) (lib.perm srv) u.layers nodes
            d.topology,
      )
      | none ↦ generate_random_topology (λ seed n. lib.perm seed 0 n) u.layers nodes srv
    ]
  ]

  -- At the replica epoch `now`.
  abbrev pub fill_document :
      ℕ
      → List MixDescriptor
      → List ReplicaDescriptor
      → Parameters
      → List ℕ
      → Authority
      → List (List MixDescriptor)
      → Document × Keys
  fill_document now descriptors replicas params srv a topology =
      let c = carve descriptors in
      let infos = configured_replicas u.pinned.replica_nodes in
      let (keys, cached) =
        build_replica_envelope_keys replicas now a.cached_replica_envelope_keys in
      let doc : Document = record {
        epoch = a.voted.voting_epoch;
        genesis_epoch = a.genesis_epoch;
        params = params;
        lambda_g = u.lambda_g;
        gateway_nodes = c.gateways;
        service_nodes = c.services;
        topology = topology;
        storage_replicas = replicas;
        shared_random_commit = [];
        shared_random_reveal = [];
        configured_replica_ids = map (λ i. i.0) infos;
        configured_replica_identity_keys = map (λ i. i.1) infos;
        replica_envelope_keys = keys;
        shared_random_value = srv;
        prior_shared_random = a.prior_srv;
        sphinx_geometry_hash = u.geometry_hash;
        pki_signature_scheme = u.scheme;
        signatures = [];
      } in
      (doc, cached)

  -- `none` is a crash.
  unfoldable pub get_document :
      ℕ
      → List MixDescriptor
      → List ReplicaDescriptor
      → Parameters
      → List ℕ
      → Authority
      → Option (Document × Authority)
  get_document now descriptors replicas params srv a =
      let (wrong, chosen) = choose_topology (carve descriptors).nodes srv a in
      elim chosen [
        | none ↦ none
        | some topology ↦
            let (doc, cached) = fill_document now descriptors replicas params srv a topology in
            some (doc, record a { cached_replica_envelope_keys = cached; fatal = a.fatal || wrong })
      ]
