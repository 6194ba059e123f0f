-- ===== src/Dirauth/Examples/Server.antt =====
-- Connections at concrete inputs.
use zknet_anon_rpc_demo.Common.{ℕ, ◌≡◌, refl, List, [], ◌∷◌, true, none, some}
use zknet_anon_rpc_demo.Common.Text.{same_text}
use zknet_anon_rpc_demo.Common.Dict.{lookup}
use zknet_anon_rpc_demo.Common.Try.{failed}
use zknet_anon_rpc_demo.Dirauth.Pki.{ReplicaDescriptor}
use zknet_anon_rpc_demo.Dirauth.Uploads.{vote}
use zknet_anon_rpc_demo.Dirauth.Posts.{Library}
use zknet_anon_rpc_demo.Dirauth.Server.{
  Credentials, authority, of_authority, Server, Env, is_peer_valid, on_conn,
}
use zknet_anon_rpc_demo.Dirauth.Server.Roles.{Allowed, on_conn-Allowed}
use zknet_anon_rpc_demo.Dirauth.Examples.{pinned, certs, fresh, upload}
use zknet_anon_rpc_demo.Dirauth.Examples.Posts.{library}

abbrev replica_library : Library ReplicaDescriptor
replica_library = record {
  unmarshal = λ payload. failed [];
  is_signed = λ payload. true;
  is_public_key = λ key. true;
  verify = λ key payload. true;
  is_well_formed = λ desc epoch. true;
  marshal = λ desc. failed [];
}

abbrev env : Env
env = record {
  certs = certs;
  mix_library = library;
  replica_library = replica_library;
  pinned = pinned;
  authority_link_keys = (1, 4 ∷ []) ∷ [];
  period = 1200;
  now = 6;
  elapsed = 200;
  disk_ok = true;
}

-- 31 zeros and a one.
abbrev hash : List ℕ
hash =
    0 ∷ 0 ∷ 0 ∷ 0 ∷ 0 ∷ 0 ∷ 0 ∷ 0 ∷ 0 ∷ 0 ∷ 0 ∷ 0 ∷ 0 ∷ 0 ∷ 0 ∷ 0 ∷ 0 ∷ 0 ∷ 0 ∷ 0 ∷ 0 ∷ 0 ∷ 0 ∷ 0
    ∷ 0 ∷ 0 ∷ 0 ∷ 0 ∷ 0 ∷ 0 ∷ 0 ∷ 1 ∷ []

abbrev creds : Credentials
creds = record { additional_data = hash; public_key = some (4 ∷ []) }

abbrev pub server : Server
server = record {
  state = fresh;
  mixes = record { descriptors = []; disk = [] };
  replicas = record { descriptors = []; disk = [] };
  documents = [];
  my_consensus = [];
  disk_documents = [];
}

authority_valid : is_peer_valid env fresh creds ≡ some authority
unfolding is_peer_valid lookup same_text
authority_valid = refl

wrong_link_key : is_peer_valid env fresh (record creds { public_key = some (5 ∷ []) }) ≡ none
unfolding is_peer_valid lookup same_text
wrong_link_key = refl

on_conn-Allowed_example :
    Allowed env creds server (on_conn env creds (of_authority (vote upload)) server).1
on_conn-Allowed_example = on_conn-Allowed env creds (of_authority (vote upload)) server
