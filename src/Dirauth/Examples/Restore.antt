-- ===== src/Dirauth/Examples/Restore.antt =====
-- A restart at concrete inputs.
use zknet_anon_rpc_demo.Common.{ℕ, ◌≡◌, refl, List, [], ◌∷◌, Bool, true, false, ◌==◌, if◌then◌else◌}
use zknet_anon_rpc_demo.Common.Text.{same_text}
use zknet_anon_rpc_demo.Common.Dict.{lookup, delete}
use zknet_anon_rpc_demo.Common.Try.{Try, done, failed}
use zknet_anon_rpc_demo.Dirauth.Pki.{MixDescriptor}
use zknet_anon_rpc_demo.Dirauth.Authorization.{descriptor_authorization_error}
use zknet_anon_rpc_demo.Dirauth.Restore.{
  Parsers, Disk, restore_persistence, restore_epochs, restore_bucket, replica_epochs,
}
use zknet_anon_rpc_demo.Dirauth.Restore.Restored.{MixesOwn, ReplicasOwn, restore_persistence_lem}
use zknet_anon_rpc_demo.Dirauth.Examples.{mix, pinned, ballot}

-- A descriptor begins with 77 and goes on with the identity key. A signed upload, which is a map of
-- other keys, is read as a descriptor that has none.
abbrev read_mix : List ℕ → Try MixDescriptor
read_mix [] = failed []
read_mix (x ∷ key) = done (record mix { identity_key = if x == 77 then key else [] })

abbrev is_signed : List ℕ → Bool
is_signed [] = false
is_signed (x ∷ rest) = true

abbrev parsers : Parsers
parsers = record {
  unmarshal_mix = read_mix;
  unmarshal_replica = λ raw. failed [];
  verify_threshold = is_signed;
  parse_document = λ raw. done ballot;
}

abbrev disk : Disk
disk = record {
  initialised = true;
  mixes = (6, (9, 77 ∷ 9 ∷ []) ∷ []) ∷ (7, (9, 83 ∷ 9 ∷ []) ∷ []) ∷ [];
  replicas = [];
  documents = (7, 1 ∷ []) ∷ [];
}

restore_persistence_lem_example :
    MixesOwn parsers pinned disk (restore_persistence parsers pinned disk 7).mixes
    × ReplicasOwn parsers pinned disk (restore_persistence parsers pinned disk 7).replicas
restore_persistence_lem_example = restore_persistence_lem parsers pinned disk 7

-- The descriptor of epoch 6 is restored; that of epoch 7, which is stored as a signed upload, is not.
upload_lost : (restore_persistence parsers pinned disk 7).mixes ≡ (6, (9, mix) ∷ []) ∷ []
unfolding restore_persistence restore_epochs restore_bucket replica_epochs lookup delete
    descriptor_authorization_error same_text
upload_lost = refl

-- A document of epoch 6 that does not verify: nothing else is restored.
document_stops :
    (restore_persistence parsers pinned (record disk { documents = (6, []) ∷ (7, 1 ∷ []) ∷ [] }) 7)
    ≡ record { mixes = []; replicas = []; documents = [] }
unfolding restore_persistence restore_epochs restore_bucket replica_epochs lookup delete
    descriptor_authorization_error same_text
document_stops = refl
