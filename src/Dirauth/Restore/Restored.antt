-- ===== src/Dirauth/Restore/Restored.antt =====
-- What the descriptors rest on that a restart restores.
use zknet_anon_rpc_demo.Common.{
  ℕ, ◌+◌, ◌-◌, ◌≡◌, refl, inl, inr, List, [], ◌∷◌, Bool, true, ◌&&◌, Option, none, some, ◌==◌,
  arith, Bool-cases, Option-cases,
}
use zknet_anon_rpc_demo.Common.Dict.{Dict, lookup}
use zknet_anon_rpc_demo.Common.Try.{Try, done, failed}
use zknet_anon_rpc_demo.Dirauth.Pki.{MixDescriptor, ReplicaDescriptor, at, ensure, save}
use zknet_anon_rpc_demo.Dirauth.Pki.Maps.{at-ensure, lookup-save}
use zknet_anon_rpc_demo.Dirauth.Authorization.{
  Pinned, is_descriptor_authorized, is_replica_descriptor_authorized,
}
use zknet_anon_rpc_demo.Dirauth.Restore.{
  Parsers, Disk, Memory, restore_entry, restore_bucket, restore_mixes, replica_epochs,
  restore_document, restore_epochs, restore_persistence,
}

module _ {A : Type 0} (key_of : A → ℕ) (authorized : A → Bool) where
  -- A descriptor, if there is one, stands under its own key and is of a pinned node.
  abbrev pub IsOwn : ℕ → Option A → Type 0
  IsOwn pk none = Unit
  IsOwn pk (some desc) = (key_of desc ≡ pk) × (authorized desc ≡ true)

  abbrev pub AllOwn : Dict (Dict A) → Type 0
  AllOwn m = (epoch pk : ℕ) → IsOwn pk (lookup pk (at epoch m))

  saved-AllOwn :
      (epoch : ℕ) (desc : A) (m : Dict (Dict A))
      → authorized desc ≡ true
      → AllOwn m
      → AllOwn (save epoch (key_of desc) desc (ensure epoch m))
  saved-AllOwn epoch desc m a h i pk =
      let e = lookup-save epoch (key_of desc) i pk desc (ensure epoch m) in
      let f = at-ensure epoch i m in
      elim (Bool-cases (epoch == i && key_of desc == pk)) [
        | inl same ↦
            let now : lookup pk (at i (save epoch (key_of desc) desc (ensure epoch m)))
                ≡ some desc =
              ground arith in
            rw now (ground arith, a)
        | inr other ↦
            let now : lookup pk (at i (save epoch (key_of desc) desc (ensure epoch m)))
                ≡ lookup pk (at i m) =
              ground arith in
            rw now (h i pk)
      ]

module _ {A : Type 0} (unmarshal : List ℕ → Try A) (key_of : A → ℕ) (authorized : A → Bool) where
  entry-AllOwn :
      (epoch want : ℕ) (t : Try A) (m : Dict (Dict A))
      → AllOwn key_of authorized m
      → AllOwn key_of authorized (restore_entry unmarshal key_of authorized epoch want t m)
  entry-AllOwn epoch want (failed text) m h = h
  entry-AllOwn epoch want (done desc) m h = elim (Bool-cases (want == key_of desc)) [
    | inr other ↦ rw other h
    | inl same ↦ elim (Bool-cases (authorized desc)) [
      | inl a ↦ rw (same, a) (saved-AllOwn key_of authorized epoch desc m a h)
      | inr a ↦ rw (same, a) h
    ]
  ]

  pub bucket-AllOwn :
      (epoch : ℕ) (bucket : Dict (List ℕ)) (m : Dict (Dict A))
      → AllOwn key_of authorized m
      → AllOwn key_of authorized (restore_bucket unmarshal key_of authorized epoch bucket m)
  unfolding restore_bucket
  bucket-AllOwn epoch [] m h = h
  bucket-AllOwn epoch ((want, raw) ∷ bucket) m h =
      bucket-AllOwn epoch bucket _ (entry-AllOwn epoch want (unmarshal raw) m h)

module _ (parsers : Parsers) (p : Pinned) (disk : Disk) where
  abbrev pub MixesOwn : Dict (Dict MixDescriptor) → Type 0
  MixesOwn = AllOwn (λ desc. p.sum256 desc.identity_key) (is_descriptor_authorized p)

  abbrev pub ReplicasOwn : Dict (Dict ReplicaDescriptor) → Type 0
  ReplicasOwn = AllOwn (λ desc. p.sum256 desc.identity_key) (is_replica_descriptor_authorized p)

  replica_epochs-ReplicasOwn :
      (epochs : List ℕ) (m : Dict (Dict ReplicaDescriptor))
      → ReplicasOwn m
      → ReplicasOwn (replica_epochs parsers p disk epochs m)
  unfolding replica_epochs
  replica_epochs-ReplicasOwn [] m h = h
  replica_epochs-ReplicasOwn (epoch ∷ epochs) m h =
      replica_epochs-ReplicasOwn epochs _
        (bucket-AllOwn parsers.unmarshal_replica _ _ epoch (at epoch disk.replicas) m h)

  restore_epochs-Own :
      (epochs : List ℕ) (m : Memory)
      → MixesOwn m.mixes
      → let t = restore_epochs parsers p disk epochs m in
        MixesOwn t.mixes × (t.replicas ≡ m.replicas)
  unfolding restore_epochs
  restore_epochs-Own [] m h = (h, refl)
  restore_epochs-Own (epoch ∷ epochs) m h =
      let o = restore_document parsers p disk epoch (lookup epoch disk.documents) m.documents in
      elim (Option-cases o) [
        | inl e ↦
            let now : restore_epochs parsers p disk (epoch ∷ epochs) m ≡ m = ground arith in
            rw now (h, refl)
        | inr (documents, e) ↦
            let next : Memory = record m {
              documents = documents;
              mixes = restore_mixes parsers p disk epoch m.mixes;
            } in
            let now : restore_epochs parsers p disk (epoch ∷ epochs) m
                ≡ restore_epochs parsers p disk epochs next =
              ground arith in
            rw now (
              restore_epochs-Own epochs next
                (bucket-AllOwn parsers.unmarshal_mix _ _ epoch (at epoch disk.mixes) m.mixes h))
      ]

  -- Whatever the database holds: every descriptor of a mix or of a replica that a restart restores
  -- stands under the hash of its own identity key, and is of a node that is pinned at the restart.
  pub restore_persistence_lem :
      (now : ℕ)
      → let m = restore_persistence parsers p disk now in MixesOwn m.mixes × ReplicasOwn m.replicas
  unfolding restore_persistence lookup
  restore_persistence_lem now = elim (Bool-cases disk.initialised) [
    | inr fresh ↦
        let empty : Memory = record { mixes = []; replicas = []; documents = [] } in
        let here : restore_persistence parsers p disk now ≡ empty = ground arith in
        rw here (λ epoch pk. tt, λ epoch pk. tt)
    | inl known ↦
        let epochs : List ℕ = (now - 1) ∷ now ∷ (now + 1) ∷ [] in
        let start : Memory = record {
          mixes = [];
          replicas = replica_epochs parsers p disk epochs [];
          documents = [];
        } in
        let here : restore_persistence parsers p disk now
            ≡ restore_epochs parsers p disk epochs start =
          ground arith in
        let (mixes, same) = restore_epochs-Own epochs start (λ epoch pk. tt) in
        rw here (mixes, rw same (replica_epochs-ReplicasOwn epochs [] (λ epoch pk. tt)))
  ]
