-- ===== src/Dirauth/Pki.antt =====
-- The data of an authority in katzenpost/authority/voting/server/state.go, and what it calls of the
-- libraries for certificates and documents, which are a parameter. A key hash, 32 bytes, is the
-- number that it writes in base 256, so that the order of such strings is that of numbers.
pub mod Maps
use zknet_anon_rpc_demo.Common.{ℕ, List, [], ◌∷◌, Bool, Option, none, some}
use zknet_anon_rpc_demo.Common.Dict.{Dict, lookup, put}
use zknet_anon_rpc_demo.Common.Try.{Try}

-- `pki.MixDescriptor`, with the rest of its fields as the bytes that they are marshalled to.
pub record MixDescriptor : Type 0 where
  pub name : List ℕ
  pub identity_key : List ℕ
  pub is_gateway_node : Bool
  pub is_service_node : Bool
  pub others : List ℕ

-- `pki.ReplicaDescriptor`, likewise; its envelope keys are by replica epoch.
pub record ReplicaDescriptor : Type 0 where
  pub name : List ℕ
  pub identity_key : List ℕ
  pub replica_id : ℕ
  pub envelope_keys : Dict (List ℕ)
  pub others : List ℕ

-- `config.Parameters`, each float64 as its bits.
pub record Parameters : Type 0 where
  pub mu : ℕ
  pub lambda_p : ℕ
  pub lambda_l : ℕ
  pub lambda_m : ℕ
  pub lambda_r : ℕ

-- `pki.Document`, whose version is always the current one; its fields Mu to LambdaR are `params`, and a
-- signature is by the hash of its key.
pub record Document : Type 0 where
  pub epoch : ℕ
  pub genesis_epoch : ℕ
  pub params : Parameters
  pub lambda_g : ℕ
  pub gateway_nodes : List MixDescriptor
  pub service_nodes : List MixDescriptor
  pub topology : List (List MixDescriptor)
  pub storage_replicas : List ReplicaDescriptor
  pub shared_random_commit : Dict (List ℕ)
  pub shared_random_reveal : Dict (List ℕ)
  pub configured_replica_ids : List ℕ
  pub configured_replica_identity_keys : List (List ℕ)
  pub replica_envelope_keys : Dict (Dict (List ℕ))
  pub shared_random_value : List ℕ
  pub prior_shared_random : List (List ℕ)
  pub sphinx_geometry_hash : List ℕ
  pub pki_signature_scheme : List ℕ
  pub signatures : Dict (List ℕ)

-- `hash.Sum256From`, `cert.Verify` (the certified bytes, by a public key), `pki.ParseDocument` and
-- `cert.Signature.Unmarshal`.
pub record Certs : Type 0 where
  pub sum256 : List ℕ → ℕ
  pub verify : List ℕ → List ℕ → Try (List ℕ)
  pub parse_document : List ℕ → Try Document
  pub unmarshal_signature : List ℕ → Try (List ℕ)

-- The maps of `state` that the peers' uploads change, each by epoch and then by key hash.
pub record State : Type 0 where
  pub voting_epoch : ℕ
  pub authorized_authorities : Dict Bool
  pub votes : Dict (Dict Document)
  pub commits : Dict (Dict (List ℕ))
  pub reveals : Dict (Dict (List ℕ))
  pub certificates : Dict (Dict Document)
  pub signatures : Dict (Dict (List ℕ))

module _ {ℓ} {V : Type ℓ} where
  abbrev or_empty : Option (Dict V) → Dict V
  or_empty none = []
  or_empty (some m) = m

  -- `m[epoch]`: a missing map reads as an empty one.
  abbrev pub at : ℕ → Dict (Dict V) → Dict V
  at epoch m = or_empty (lookup epoch m)

  -- `if _, ok := m[epoch]; !ok { m[epoch] = make(...) }`
  abbrev pub ensure : ℕ → Dict (Dict V) → Dict (Dict V)
  ensure epoch m = elim (lookup epoch m) [ none ↦ put epoch [] m | some found ↦ m ]

  -- `m[epoch][pk] = v`, where the inner map is there
  abbrev pub save : ℕ → ℕ → V → Dict (Dict V) → Dict (Dict V)
  save epoch pk v m = put epoch (put pk v (at epoch m)) m
