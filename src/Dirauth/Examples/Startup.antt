-- ===== src/Dirauth/Examples/Startup.antt =====
-- The tables of an authority with one mix and one peer.
use zknet_anon_rpc_demo.Common.{◌*◌, ◌<◌, ◌≡◌, refl, [], ◌∷◌, true, some, length}
use zknet_anon_rpc_demo.Common.Bytes.{codes}
use zknet_anon_rpc_demo.Common.Dict.{delete}
use zknet_anon_rpc_demo.Common.Try.{done}
use zknet_anon_rpc_demo.Dirauth.Startup.{
  Configured, Files, Tables, load_nodes, load_verifiers, load_authorities, new_state,
}
use zknet_anon_rpc_demo.Dirauth.Startup.Known.{IsKnown, new_state-IsKnown}
use zknet_anon_rpc_demo.Dirauth.Examples.{head_or_zero}

-- A file holds the key that is its own name.
abbrev files : Files
files = record { sum256 = head_or_zero; join = λ dir file. file; read_key = λ file. done file }

abbrev configured : Configured
configured = record {
  data_dir = codes "/data";
  own_key = 2 ∷ [];
  mixes = record { identifier = codes "mix1"; file = 9 ∷ []; replica_id = 0 } ∷ [];
  gateway_nodes = [];
  service_nodes = [];
  storage_replicas = record { identifier = codes "replica1"; file = 3 ∷ []; replica_id = 1 } ∷ [];
  authorities =
      record { identifier = codes "auth1"; identity_key = 1 ∷ []; link_key = 11 ∷ [] }
      ∷ record { identifier = codes "auth2"; identity_key = 2 ∷ []; link_key = 12 ∷ [] }
      ∷ [];
}

abbrev tables : Tables
tables = record {
  pinned = record {
    sum256 = head_or_zero;
    mixes = (9, codes "mix1") ∷ [];
    gateway_nodes = [];
    service_nodes = [];
    replica_nodes = (3, record { identifier = codes "replica1"; replica_id = 1 }) ∷ [];
  };
  reverse_hash = (2, 2 ∷ []) ∷ (1, 1 ∷ []) ∷ (3, 3 ∷ []) ∷ (9, 9 ∷ []) ∷ [];
  authorized_authorities = (2, true) ∷ (1, true) ∷ [];
  authority_link_keys = (2, 12 ∷ []) ∷ (1, 11 ∷ []) ∷ [];
  authority_names = (2, codes "auth2") ∷ (1, codes "auth1") ∷ [];
  verifiers = (2, 2 ∷ []) ∷ (1, 1 ∷ []) ∷ [];
  threshold = 2;
}

starts : new_state files configured ≡ some tables
unfolding new_state load_nodes load_verifiers load_authorities delete
starts = refl

new_state-IsKnown_example : IsKnown files tables × (length tables.verifiers < 2 * tables.threshold)
new_state-IsKnown_example = new_state-IsKnown files configured tables starts
