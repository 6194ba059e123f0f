-- ===== src/Dirauth/Prune/Kept.antt =====
-- Forgetting old epochs keeps what the other parts rely on.
use zknet_anon_rpc_demo.Common.{
  ℕ, ◌+◌, ◌-◌, ◌^◌, ◌≤◌, ◌<◌, ◌≡◌, inl, inr, List, [], ◌∷◌, true, none, ltb, if◌then◌else◌, arith,
  Bool-cases,
}
use zknet_anon_rpc_demo.Common.Dict.{Dict, lookup}
use zknet_anon_rpc_demo.Dirauth.Pki.{MixDescriptor, ReplicaDescriptor, State, at}
use zknet_anon_rpc_demo.Dirauth.Uploads.Kept.{IsConsistent}
use zknet_anon_rpc_demo.Dirauth.Descriptors.{Store}
use zknet_anon_rpc_demo.Dirauth.Descriptors.Disk.{InStep, neither}
use zknet_anon_rpc_demo.Dirauth.Server.{Server}
use zknet_anon_rpc_demo.Dirauth.Prune.{
  keep_from, cmp_epoch, prune_state, prune_store, prune_documents,
}

lookup-keep_from {ℓ} :
    {V : Type ℓ} (cmp e : ℕ) (m : Dict V)
    → lookup e (keep_from cmp m) ≡ (if ltb e cmp then none else lookup e m)
unfolding lookup keep_from
lookup-keep_from cmp e [] = ground arith
lookup-keep_from cmp e ((j, v) ∷ m) = ground (arith, lookup-keep_from cmp e m)

at-keep_from {ℓ} :
    {V : Type ℓ} (cmp e : ℕ) (m : Dict (Dict V)) → cmp ≤ e → at e (keep_from cmp m) ≡ at e m
at-keep_from cmp e m h = ground (arith, lookup-keep_from cmp e m)

at-forgotten {ℓ} :
    {V : Type ℓ} (cmp e : ℕ) (m : Dict (Dict V)) → e < cmp → at e (keep_from cmp m) ≡ []
at-forgotten cmp e m h = ground (arith, lookup-keep_from cmp e m)

prune_state-IsConsistent :
    (cmp : ℕ) (s : State) → cmp ≤ s.voting_epoch → IsConsistent s → IsConsistent (prune_state cmp s)
prune_state-IsConsistent cmp s h v =
    let e = s.voting_epoch in
    let votes = at-keep_from cmp e s.votes h in
    let commits = at-keep_from cmp e s.commits h in
    record {
      committed = rw (votes, commits) v.committed;
      voters = rw votes v.voters;
      revealed = rw (at-keep_from cmp e s.reveals h, commits) v.revealed;
      certified = rw (at-keep_from cmp e s.certificates h, votes) v.certified;
      signers = rw (at-keep_from cmp e s.signatures h) v.signers;
    }

prune_store-InStep :
    {A : Type 0} (IsIn : A → List ℕ → Type 0) (cmp : ℕ) (s : Store A)
    → InStep IsIn s
    → InStep IsIn (prune_store cmp true s)
unfolding lookup
prune_store-InStep IsIn cmp s v epoch pk = elim (Bool-cases (ltb epoch cmp)) [
  | inl old ↦
      let a = at-forgotten cmp epoch s.descriptors (ground arith) in
      let b = at-forgotten cmp epoch s.disk (ground arith) in rw (a, b) neither
  | inr recent ↦
      let a = at-keep_from cmp epoch s.descriptors (ground arith) in
      let b = at-keep_from cmp epoch s.disk (ground arith) in rw (a, b) (v epoch pk)
]

cmp_epoch_lem : (now : ℕ) → 3 ≤ now → now < 2 ^ 64 → cmp_epoch now ≡ now - 3
cmp_epoch_lem now h k = omega arith

-- From epoch 3 on, and where the database is updated: forgetting what is more than three epochs old
-- keeps the state of the vote consistent, if the epoch that is voted on is not so old; it keeps the
-- descriptors in memory and those in the database in step; and the documents that are left are those
-- of at most three epochs ago, unchanged.
pub prune_documents_lem :
    (now : ℕ) (s : Server) (IsIn : MixDescriptor → List ℕ → Type 0)
    (IsReplicaIn : ReplicaDescriptor → List ℕ → Type 0)
    → 3 ≤ now
    → now < 2 ^ 64
    → now ≤ s.state.voting_epoch + 3
    → IsConsistent s.state
    → InStep IsIn s.mixes
    → InStep IsReplicaIn s.replicas
    → let t = prune_documents now true s in
      IsConsistent t.state
      × InStep IsIn t.mixes
      × InStep IsReplicaIn t.replicas
      × ((epoch : ℕ)
          → lookup epoch t.documents
            ≡ (if ltb (epoch + 3) now then none else lookup epoch s.documents))
unfolding prune_documents
prune_documents_lem now s IsIn IsReplicaIn low high recent v m r =
    let e = cmp_epoch_lem now low high in
    (
      prune_state-IsConsistent (cmp_epoch now) s.state (omega (arith, e, recent)) v,
      prune_store-InStep IsIn (cmp_epoch now) s.mixes m,
      prune_store-InStep IsReplicaIn (cmp_epoch now) s.replicas r,
      λ epoch. ground (arith, lookup-keep_from (cmp_epoch now) epoch s.documents, e),
    )
