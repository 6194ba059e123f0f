-- ===== src/Dirauth/Startup.antt =====
-- The tables that an authority makes of its configuration: `newState` of
-- katzenpost/authority/voting/server/state.go. `none` is a panic on a key that cannot be read.
pub mod Known
use zknet_anon_rpc_demo.Common.{
  ℕ, ◌+◌, ◌/◌, List, [], ◌∷◌, Bool, true, false, Option, none, some, ◌==◌, if◌then◌else◌, length,
}
use zknet_anon_rpc_demo.Common.Dict.{Dict, put}
use zknet_anon_rpc_demo.Common.Try.{Try, done, failed}
use zknet_anon_rpc_demo.Dirauth.Authorization.{Pinned, ReplicaInfo}

-- A node of the configuration: its name, the file of its key, and the number of a replica.
pub record Listed : Type 0 where
  pub identifier : List ℕ
  pub file : List ℕ
  pub replica_id : ℕ

pub record Peer : Type 0 where
  pub identifier : List ℕ
  pub identity_key : List ℕ
  pub link_key : List ℕ

pub record Configured : Type 0 where
  pub data_dir : List ℕ
  pub own_key : List ℕ
  pub mixes : List Listed
  pub gateway_nodes : List Listed
  pub service_nodes : List Listed
  pub storage_replicas : List Listed
  pub authorities : List Peer

-- `hash.Sum256From`, `filepath.Join` and `signpem.FromPublicPEMFile`.
pub record Files : Type 0 where
  pub sum256 : List ℕ → ℕ
  pub join : List ℕ → List ℕ → List ℕ
  pub read_key : List ℕ → Try (List ℕ)

pub record Tables : Type 0 where
  pub pinned : Pinned
  pub reverse_hash : Dict (List ℕ)
  pub authorized_authorities : Dict Bool
  pub authority_link_keys : Dict (List ℕ)
  pub authority_names : Dict (List ℕ)
  pub verifiers : Dict (List ℕ)
  pub threshold : ℕ

-- `filepath.IsAbs`
abbrev is_abs : List ℕ → Bool
is_abs [] = false
is_abs (c ∷ file) = c == 47

module _ (e : Files) (data_dir : List ℕ) where
  abbrev pub load_key : List ℕ → Try (List ℕ)
  load_key file = e.read_key (if is_abs file then file else e.join data_dir file)

  -- One table of nodes, and the keys that are known.
  unfoldable pub load_nodes {ℓ} :
      {V : Type ℓ}
      → (Listed → V)
      → List Listed
      → Dict V
      → Dict (List ℕ)
      → Option (Dict V × Dict (List ℕ))
  load_nodes value [] table known = some (table, known)
  load_nodes value (n ∷ nodes) table known = elim (load_key n.file) [
    | failed text ↦ none
    | done key ↦
        load_nodes value nodes (put (e.sum256 key) (value n) table) (put (e.sum256 key) key known)
  ]

module _ (e : Files) where
  unfoldable pub load_verifiers : List Peer → Dict (List ℕ) → Dict (List ℕ)
  load_verifiers [] verifiers = verifiers
  load_verifiers (p ∷ peers) verifiers =
      load_verifiers peers (put (e.sum256 p.identity_key) p.identity_key verifiers)

  unfoldable pub load_authorities : List Peer → Tables → Tables
  load_authorities [] t = t
  load_authorities (p ∷ peers) t =
      let pk = e.sum256 p.identity_key in
      load_authorities peers (record t {
        authorized_authorities = put pk true t.authorized_authorities;
        authority_link_keys = put pk p.link_key t.authority_link_keys;
        authority_names = put pk p.identifier t.authority_names;
        reverse_hash = put pk p.identity_key t.reverse_hash;
      })

  abbrev pub finish_tables : Configured → Tables → Tables
  finish_tables c t =
      let u = load_authorities c.authorities t in
      record u { reverse_hash = put (e.sum256 c.own_key) c.own_key u.reverse_hash }

  abbrev pub info : Listed → ReplicaInfo
  info n = record { identifier = n.identifier; replica_id = n.replica_id }

  abbrev pub node_tables :
      Configured
      → Dict (List ℕ)
      → Dict (List ℕ)
      → Dict (List ℕ)
      → Dict ReplicaInfo
      → Dict (List ℕ)
      → Tables
  node_tables c mixes gateways services replicas known =
      let verifiers = put (e.sum256 c.own_key) c.own_key (load_verifiers c.authorities []) in
      record {
        pinned = record {
          sum256 = e.sum256;
          mixes = mixes;
          gateway_nodes = gateways;
          service_nodes = services;
          replica_nodes = replicas;
        };
        reverse_hash = known;
        authorized_authorities = [];
        authority_link_keys = [];
        authority_names = [];
        verifiers = verifiers;
        threshold = length verifiers / 2 + 1;
      }

  -- The four tables of nodes in turn, each with the keys that the ones before have made known.
  unfoldable pub new_state : Configured → Option Tables
  new_state c = elim (load_nodes e c.data_dir (λ n. n.identifier) c.mixes [] []) [
    | none ↦ none
    | some (mixes, k1) ↦ elim (load_nodes e c.data_dir (λ n. n.identifier) c.gateway_nodes [] k1) [
      | none ↦ none
      | some (gateways, k2) ↦
          elim (load_nodes e c.data_dir (λ n. n.identifier) c.service_nodes [] k2) [
            | none ↦ none
            | some (services, k3) ↦ elim (load_nodes e c.data_dir info c.storage_replicas [] k3) [
              | none ↦ none
              | some (replicas, k4) ↦
                  some (finish_tables c (node_tables c mixes gateways services replicas k4))
            ]
          ]
    ]
  ]
