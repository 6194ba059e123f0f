-- ===== src/Dirauth/Authorization.antt =====
-- Which descriptors an authority has pinned: `descriptorAuthorizationError` and
-- `replicaAuthorizationError` of katzenpost/authority/voting/server/state.go.
use zknet_anon_rpc_demo.Common.{ℕ, List, Bool, true, false, Option, none, some, ◌==◌, if◌then◌else◌}
use zknet_anon_rpc_demo.Common.Text.{same_text}
use zknet_anon_rpc_demo.Common.Dict.{Dict, lookup}
use zknet_anon_rpc_demo.Dirauth.Pki.{MixDescriptor, ReplicaDescriptor}

pub record ReplicaInfo : Type 0 where
  pub identifier : List ℕ
  pub replica_id : ℕ

-- The tables of pinned nodes, by the hash of their identity key, and that hash.
pub record Pinned : Type 0 where
  pub sum256 : List ℕ → ℕ
  pub mixes : Dict (List ℕ)
  pub gateway_nodes : Dict (List ℕ)
  pub service_nodes : Dict (List ℕ)
  pub replica_nodes : Dict ReplicaInfo

pub data AuthError : Type 0 where
  contradictory not_pinned name_mismatch id_mismatch : AuthError

abbrev check_name : List ℕ → Option (List ℕ) → Option AuthError
check_name name none = some not_pinned
check_name name (some pinned) = if same_text pinned name then none else some name_mismatch

-- `none` is no error.
unfoldable pub descriptor_authorization_error : Pinned → MixDescriptor → Option AuthError
descriptor_authorization_error p desc =
    let pk = p.sum256 desc.identity_key in
    if desc.is_gateway_node
    then (if desc.is_service_node
        then some contradictory
        else check_name desc.name (lookup pk p.gateway_nodes))
    else (if desc.is_service_node
        then check_name desc.name (lookup pk p.service_nodes)
        else check_name desc.name (lookup pk p.mixes))

abbrev check_replica : ReplicaDescriptor → Option ReplicaInfo → Option AuthError
check_replica desc none = some not_pinned
check_replica desc (some info) =
    if same_text info.identifier desc.name
    then (if info.replica_id == desc.replica_id then none else some id_mismatch)
    else some name_mismatch

unfoldable pub replica_authorization_error : Pinned → ReplicaDescriptor → Option AuthError
replica_authorization_error p desc =
    check_replica desc (lookup (p.sum256 desc.identity_key) p.replica_nodes)

abbrev pub no_error : Option AuthError → Bool
no_error none = true
no_error (some e) = false

abbrev pub is_descriptor_authorized : Pinned → MixDescriptor → Bool
is_descriptor_authorized p desc = no_error (descriptor_authorization_error p desc)

abbrev pub is_replica_descriptor_authorized : Pinned → ReplicaDescriptor → Bool
is_replica_descriptor_authorized p desc = no_error (replica_authorization_error p desc)
