-- ===== src/Dirauth/Prune.antt =====
-- What an authority forgets: `pruneDocuments` and `prunePersistedEpochs` of
-- katzenpost/authority/voting/server/state.go.
pub mod Kept
use zknet_anon_rpc_demo.Common.{
  ℕ, ◌+◌, ◌-◌, ◌%◌, ◌^◌, List, [], ◌∷◌, Bool, true, false, ltb, if◌then◌else◌,
}
use zknet_anon_rpc_demo.Common.Dict.{Dict}
use zknet_anon_rpc_demo.Dirauth.Pki.{State}
use zknet_anon_rpc_demo.Dirauth.Descriptors.{Store}
use zknet_anon_rpc_demo.Dirauth.Server.{Server}

-- `for e := range m { if e < cmpEpoch { delete(m, e) } }`
unfoldable pub keep_from {ℓ} : {V : Type ℓ} → ℕ → Dict V → Dict V
keep_from cmp [] = []
keep_from cmp ((e, v) ∷ m) = let rest = keep_from cmp m in if ltb e cmp then rest else (e, v) ∷ rest

-- `now - preserveForPastEpochs` on a uint64
abbrev pub cmp_epoch : ℕ → ℕ
cmp_epoch now = (now + 2 ^ 64 - 3) % 2 ^ 64

abbrev pub prune_state : ℕ → State → State
prune_state cmp s = record s {
  votes = keep_from cmp s.votes;
  certificates = keep_from cmp s.certificates;
  reveals = keep_from cmp s.reveals;
  commits = keep_from cmp s.commits;
  signatures = keep_from cmp s.signatures;
}

-- The descriptors in memory, and, if the database can be updated, those in the database.
abbrev pub prune_store : {A : Type 0} → ℕ → Bool → Store A → Store A
prune_store cmp disk_ok s = record {
  descriptors = keep_from cmp s.descriptors;
  disk = if disk_ok then keep_from cmp s.disk else s.disk;
}

unfoldable pub prune_documents : ℕ → Bool → Server → Server
prune_documents now disk_ok s =
    let cmp = cmp_epoch now in
    record {
      state = prune_state cmp s.state;
      mixes = prune_store cmp disk_ok s.mixes;
      replicas = prune_store cmp disk_ok s.replicas;
      documents = keep_from cmp s.documents;
      my_consensus = keep_from cmp s.my_consensus;
      disk_documents = if disk_ok then keep_from cmp s.disk_documents else s.disk_documents;
    }
