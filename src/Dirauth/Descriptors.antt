-- ===== src/Dirauth/Descriptors.antt =====
-- Descriptors that nodes upload, and documents that peers ask for: `onDescriptorUpload`,
-- `onReplicaDescriptorUpload`, `documentForEpoch`, `hasEnoughDescriptors` and `verifyTopology` of
-- katzenpost/authority/voting/server/state.go. The two uploads are one function of the descriptor's
-- type, since the source differs in nothing else.
pub mod Disk
use zknet_anon_rpc_demo.Common.{
  ℕ, ◌+◌, ◌-◌, ◌*◌, ◌/◌, List, [], ◌∷◌, Bool, true, false, ◌&&◌, Option, none, some, ltb, leb, ◌==◌,
  if◌then◌else◌, length,
}
use zknet_anon_rpc_demo.Common.Text.{same_text}
use zknet_anon_rpc_demo.Common.Dict.{Dict, lookup, has}
use zknet_anon_rpc_demo.Common.Try.{Try, done, failed}
use zknet_anon_rpc_demo.Dirauth.Pki.{MixDescriptor, ReplicaDescriptor, at, ensure, save}

-- The descriptors in memory and those in the database, by epoch and key hash.
pub record Store (A : Type 0) : Type 0 where
  pub descriptors : Dict (Dict A)
  pub disk : Dict (Dict (List ℕ))

-- `rawDesc`, and the descriptor that the caller has read out of it.
pub record Posted (A : Type 0) : Type 0 where
  pub raw : List ℕ
  pub desc : A
  pub key : ℕ
  pub epoch : ℕ

pub data Reply : Type 0 where
  accepted : Reply
  not_marshalled conflicting late not_persisted : Reply

module _ {A : Type 0} where
  -- Phase 2, without a lock.
  unfoldable pub persist : Posted A → Store A → Store A
  persist u s = record s { disk = save u.epoch u.key u.raw s.disk }

  -- Phase 3, under the write lock.
  unfoldable pub install : Posted A → Store A → Store A
  install u s =
      let t = record s { descriptors = ensure u.epoch s.descriptors } in
      if has u.key (at u.epoch t.descriptors)
      then t
      else record t { descriptors = save u.epoch u.key u.desc t.descriptors }

  -- Two uploads, each of which has passed its first phase before the other's third.
  unfoldable pub race : Posted A → Posted A → Store A → Store A
  race u v s = install v (install u (persist v (persist u s)))

-- `documents`: the documents by epoch, as `MarshalCertificate` writes them.
module _ {A : Type 0} (marshal : A → Try (List ℕ)) (documents : Dict (Try (List ℕ))) where
  abbrev compare_raw : Try (List ℕ) → List ℕ → Option Reply
  compare_raw (failed text) raw = some not_marshalled
  compare_raw (done serialized) raw =
      if same_text serialized raw then some accepted else some conflicting

  abbrev check_stored : Option A → Posted A → Option Reply
  check_stored (some d) u = compare_raw (marshal d) u.raw
  check_stored none u = if has u.epoch documents then some late else none

  -- Phase 1, under the read lock: `none` is to go on.
  unfoldable pub check_upload : Posted A → Store A → Option Reply
  check_upload u s = check_stored (lookup u.key (at u.epoch s.descriptors)) u

  -- The three phases with nothing between them; `disk_ok`: the database was updated.
  unfoldable pub on_upload : Bool → Posted A → Store A → Reply × Store A
  on_upload disk_ok u s = elim (check_upload u s) [
    | some reply ↦ (reply, s)
    | none ↦ if disk_ok then (accepted, install u (persist u s)) else (not_persisted, s)
  ]

pub data Document : Type 0 where
  document : Try (List ℕ) → Document
  gone not_yet invalid_epoch : Document

-- By the current epoch and the time since its start.
abbrev pub by_time : ℕ → ℕ → ℕ → ℕ → Document
by_time period now elapsed epoch =
    if epoch == now
    then gone
    else (if epoch == now + 1
        then (if ltb (7 * (period / 8)) elapsed then gone else not_yet)
        else (if ltb epoch now then gone else invalid_epoch))

unfoldable pub document_for_epoch : ℕ → ℕ → ℕ → Dict (Try (List ℕ)) → ℕ → Document
document_for_epoch period now elapsed documents epoch = elim (lookup epoch documents) [
  | some d ↦ document d
  | none ↦ by_time period now elapsed epoch
]

unfoldable pub count_if : (MixDescriptor → Bool) → Dict MixDescriptor → ℕ
count_if test [] = 0
count_if test ((pk, desc) ∷ m) = let n = count_if test m in if test desc then n + 1 else n

-- `nrNodes` is an `int`, which is negative where nodes are both: the difference is compared by a sum.
unfoldable pub has_enough_descriptors : ℕ → ℕ → Dict MixDescriptor → Bool
has_enough_descriptors layers min_nodes_per_layer m =
    let gateways = count_if (λ desc. desc.is_gateway_node) m in
    let services = count_if (λ desc. desc.is_service_node) m in
    ltb 0 gateways
    && (ltb 0 services && leb (layers * min_nodes_per_layer + gateways + services) (length m))

unfoldable pub verify_layers : ℕ → List (List MixDescriptor) → Bool
verify_layers min_nodes [] = true
verify_layers min_nodes (layer ∷ layers) =
    if ltb (length layer) min_nodes then false else verify_layers min_nodes layers

-- Whether there is no error.
unfoldable pub verify_topology : ℕ → ℕ → List (List MixDescriptor) → Bool
verify_topology layers min_nodes topology =
    if ltb (length topology) layers then false else verify_layers min_nodes topology

abbrev pub on_descriptor_upload :
    (MixDescriptor → Try (List ℕ))
    → Dict (Try (List ℕ))
    → Bool
    → Posted MixDescriptor
    → Store MixDescriptor
    → Reply × Store MixDescriptor
on_descriptor_upload = on_upload

abbrev pub on_replica_descriptor_upload :
    (ReplicaDescriptor → Try (List ℕ))
    → Dict (Try (List ℕ))
    → Bool
    → Posted ReplicaDescriptor
    → Store ReplicaDescriptor
    → Reply × Store ReplicaDescriptor
on_replica_descriptor_upload = on_upload
