-- ===== src/Dirauth/Restore.antt =====
-- What a restart reads back from the database: `restorePersistence` of
-- katzenpost/authority/voting/server/state.go, after its buckets have been made.
pub mod Restored
use zknet_anon_rpc_demo.Common.{
  ℕ, ◌+◌, ◌-◌, List, [], ◌∷◌, Bool, true, false, not, Option, none, some, ◌==◌, if◌then◌else◌,
}
use zknet_anon_rpc_demo.Common.Dict.{Dict, lookup, put}
use zknet_anon_rpc_demo.Common.Try.{Try, done, failed}
use zknet_anon_rpc_demo.Dirauth.Pki.{MixDescriptor, ReplicaDescriptor, Document, at, ensure, save}
use zknet_anon_rpc_demo.Dirauth.Authorization.{
  Pinned, is_descriptor_authorized, is_replica_descriptor_authorized,
}

-- `UnmarshalBinary` and `Unmarshal` of descriptors, `cert.VerifyThreshold` with the verifiers and
-- the threshold of the authority, and `doParseDocument`.
pub record Parsers : Type 0 where
  pub unmarshal_mix : List ℕ → Try MixDescriptor
  pub unmarshal_replica : List ℕ → Try ReplicaDescriptor
  pub verify_threshold : List ℕ → Bool
  pub parse_document : List ℕ → Try Document

-- The buckets of the database; `initialised`: it has a version.
pub record Disk : Type 0 where
  pub initialised : Bool
  pub mixes : Dict (Dict (List ℕ))
  pub replicas : Dict (Dict (List ℕ))
  pub documents : Dict (List ℕ)

pub record Memory : Type 0 where
  pub mixes : Dict (Dict MixDescriptor)
  pub replicas : Dict (Dict ReplicaDescriptor)
  pub documents : Dict Document

-- The bucket of one epoch. An entry that is not parsed, that has another key, or that is not pinned
-- is skipped.
module _ {A : Type 0} (unmarshal : List ℕ → Try A) (key_of : A → ℕ) (authorized : A → Bool) where
  abbrev pub restore_entry : ℕ → ℕ → Try A → Dict (Dict A) → Dict (Dict A)
  restore_entry epoch want (failed text) m = m
  restore_entry epoch want (done desc) m =
      if not (want == key_of desc)
      then m
      else (if authorized desc then save epoch (key_of desc) desc (ensure epoch m) else m)

  unfoldable pub restore_bucket : ℕ → Dict (List ℕ) → Dict (Dict A) → Dict (Dict A)
  restore_bucket epoch [] m = m
  restore_bucket epoch ((want, raw) ∷ bucket) m =
      restore_bucket epoch bucket (restore_entry epoch want (unmarshal raw) m)

module _ (parsers : Parsers) (p : Pinned) (disk : Disk) where
  abbrev pub restore_replicas : ℕ → Dict (Dict ReplicaDescriptor) → Dict (Dict ReplicaDescriptor)
  restore_replicas epoch m =
      restore_bucket parsers.unmarshal_replica (λ desc. p.sum256 desc.identity_key)
        (is_replica_descriptor_authorized p) epoch (at epoch disk.replicas) m

  abbrev pub restore_mixes : ℕ → Dict (Dict MixDescriptor) → Dict (Dict MixDescriptor)
  restore_mixes epoch m =
      restore_bucket parsers.unmarshal_mix (λ desc. p.sum256 desc.identity_key)
        (is_descriptor_authorized p) epoch (at epoch disk.mixes) m

  unfoldable pub replica_epochs :
      List ℕ → Dict (Dict ReplicaDescriptor) → Dict (Dict ReplicaDescriptor)
  replica_epochs [] m = m
  replica_epochs (epoch ∷ epochs) m = replica_epochs epochs (restore_replicas epoch m)

  abbrev pub add_document : ℕ → Try Document → Dict Document → Dict Document
  add_document epoch (failed text) documents = documents
  add_document epoch (done doc) documents =
      if doc.epoch == epoch then put epoch doc documents else documents

  -- The document of an epoch: `none` is the `break`, by which no later epoch is restored.
  abbrev pub restore_document : ℕ → Option (List ℕ) → Dict Document → Option (Dict Document)
  restore_document epoch none documents = some documents
  restore_document epoch (some raw) documents =
      if parsers.verify_threshold raw
      then some (add_document epoch (parsers.parse_document raw) documents)
      else none

  unfoldable pub restore_epochs : List ℕ → Memory → Memory
  restore_epochs [] m = m
  restore_epochs (epoch ∷ epochs) m =
      elim (restore_document epoch (lookup epoch disk.documents) m.documents) [
        | none ↦ m
        | some documents ↦
            restore_epochs epochs
              (record m { documents = documents; mixes = restore_mixes epoch m.mixes })
      ]

  -- At the epoch `now`, which is not 0, with nothing in memory.
  unfoldable pub restore_persistence : ℕ → Memory
  restore_persistence now =
      let empty : Memory = record { mixes = []; replicas = []; documents = [] } in
      let epochs : List ℕ = (now - 1) ∷ now ∷ (now + 1) ∷ [] in
      if disk.initialised
      then restore_epochs epochs (record empty { replicas = replica_epochs epochs [] })
      else empty
