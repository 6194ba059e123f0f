-- ===== src/Dirauth/Examples/Prune.antt =====
-- Forgetting old epochs at concrete inputs.
use zknet_anon_rpc_demo.Common.{
  ℕ, ◌+◌, ◌≡◌, refl, List, [], ◌∷◌, true, none, ltb, if◌then◌else◌, arith,
}
use zknet_anon_rpc_demo.Common.Dict.{lookup}
use zknet_anon_rpc_demo.Common.Try.{done}
use zknet_anon_rpc_demo.Dirauth.Pki.{MixDescriptor, ReplicaDescriptor}
use zknet_anon_rpc_demo.Dirauth.Uploads.Kept.{IsConsistent}
use zknet_anon_rpc_demo.Dirauth.Descriptors.Disk.{InStep, neither}
use zknet_anon_rpc_demo.Dirauth.Server.{Server}
use zknet_anon_rpc_demo.Dirauth.Prune.{prune_documents, keep_from}
use zknet_anon_rpc_demo.Dirauth.Prune.Kept.{prune_documents_lem}
use zknet_anon_rpc_demo.Dirauth.Examples.{fresh-IsConsistent}
use zknet_anon_rpc_demo.Dirauth.Examples.Server.{server}

abbrev old_server : Server
old_server = record server { documents = (2, done []) ∷ (3, done []) ∷ (6, done []) ∷ [] }

abbrev IsOf : MixDescriptor → List ℕ → Type 0
IsOf desc raw = desc.others ≡ raw

abbrev IsOfReplica : ReplicaDescriptor → List ℕ → Type 0
IsOfReplica desc raw = desc.others ≡ raw

old_mixes : InStep IsOf old_server.mixes
unfolding lookup
old_mixes epoch pk = neither

old_replicas : InStep IsOfReplica old_server.replicas
unfolding lookup
old_replicas epoch pk = neither

prune_documents_lem_example :
    let t = prune_documents 6 true old_server in
    IsConsistent t.state
    × InStep IsOf t.mixes
    × InStep IsOfReplica t.replicas
    × ((epoch : ℕ)
        → lookup epoch t.documents
          ≡ (if ltb (epoch + 3) 6 then none else lookup epoch old_server.documents))
prune_documents_lem_example =
    prune_documents_lem 6 old_server IsOf IsOfReplica (omega arith) (omega arith) (omega arith)
      fresh-IsConsistent old_mixes old_replicas

pruned : (prune_documents 6 true old_server).documents ≡ (3, done []) ∷ (6, done []) ∷ []
unfolding prune_documents keep_from
pruned = refl
