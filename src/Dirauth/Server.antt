-- ===== src/Dirauth/Server.antt =====
-- Who may send which command: `wireAuthenticator.IsPeerValid`, `onConn` from the command on, and
-- `onClient`, `onMix`, `onReplica` and `onAuthority` of
-- katzenpost/authority/voting/server/wire_handler.go.
pub mod Roles
use zknet_anon_rpc_demo.Common.{
  ℕ, List, [], ◌∷◌, Bool, true, false, ◌||◌, Option, none, some, ◌==◌, if◌then◌else◌, length,
}
use zknet_anon_rpc_demo.Common.Text.{same_text}
use zknet_anon_rpc_demo.Common.Dict.{Dict, lookup, has}
use zknet_anon_rpc_demo.Common.Try.{Try}
use zknet_anon_rpc_demo.Dirauth.Pki.{MixDescriptor, ReplicaDescriptor, Document, Certs, State}
use zknet_anon_rpc_demo.Dirauth.Authorization.{Pinned}
use zknet_anon_rpc_demo.Dirauth.Uploads.{Status, Command, on_authority, epoch_from}
use zknet_anon_rpc_demo.Dirauth.Descriptors.{Store}
use zknet_anon_rpc_demo.Dirauth.Posts.{
  Library, Post, Code, on_post_descriptor, on_post_replica_descriptor, Consensus, on_get_consensus,
}

-- What the handshake of the link layer says of a peer: its additional data, which is a key hash or
-- nothing, and its link key, which may be nil.
pub record Credentials : Type 0 where
  pub additional_data : List ℕ
  pub public_key : Option (List ℕ)

pub data Role : Type 0 where
  client mix replica authority : Role

pub data Request : Type 0 where
  get_consensus : ℕ → Request
  post_descriptor post_replica_descriptor : ℕ → List ℕ → Request
  of_authority : Command → Request

pub data Response : Type 0 where
  consensus : Consensus → Response
  posted : Code → Response
  status : Status → Response

-- The state, with the documents in memory, our own consensus of an epoch, and the documents in the
-- database.
pub record Server : Type 0 where
  pub state : State
  pub mixes : Store MixDescriptor
  pub replicas : Store ReplicaDescriptor
  pub documents : Dict (Try (List ℕ))
  pub my_consensus : Dict Document
  pub disk_documents : Dict (List ℕ)

-- The libraries, the configuration, and the time of a command.
pub record Env : Type 0 where
  pub certs : Certs
  pub mix_library : Library MixDescriptor
  pub replica_library : Library ReplicaDescriptor
  pub pinned : Pinned
  pub authority_link_keys : Dict (List ℕ)
  pub period : ℕ
  pub now : ℕ
  pub elapsed : ℕ
  pub disk_ok : Bool

-- The number that the 32 bytes of a key hash write.
abbrev pub hash_of : List ℕ → ℕ
hash_of ad = epoch_from 0 ad

abbrev pub check_link_key : Option (List ℕ) → Option (List ℕ) → Option Role
check_link_key none key = none
check_link_key (some link_key) none = none
check_link_key (some link_key) (some key) = if same_text link_key key then some authority else none

module _ (e : Env) where
  -- A gateway or a service node is a mix, and a node that is pinned twice has the first role.
  abbrev pub role_of : State → ℕ → Option (List ℕ) → Option Role
  role_of s pk key =
      if has pk e.pinned.mixes || (has pk e.pinned.gateway_nodes || has pk e.pinned.service_nodes)
      then some mix
      else (if has pk s.authorized_authorities
          then check_link_key (lookup pk e.authority_link_keys) key
          else (if has pk e.pinned.replica_nodes then some replica else none))

  -- The role that the authenticator notes, or `none` for a peer that is refused.
  unfoldable pub is_peer_valid : State → Credentials → Option Role
  is_peer_valid s creds =
      if length creds.additional_data == 0
      then some client
      else (if length creds.additional_data == 32
          then role_of s (hash_of creds.additional_data) creds.public_key
          else none)

  abbrev pub consensus_for : ℕ → Server → Option Response × Server
  consensus_for epoch s =
      (some (consensus (on_get_consensus e.period e.now e.elapsed s.documents epoch)), s)

  abbrev pub post : ℕ → ℕ → List ℕ → Server → Post
  post peer epoch payload s = record {
    now = e.now;
    peer = peer;
    epoch = epoch;
    payload = payload;
    documents = s.documents;
    disk_ok = e.disk_ok;
  }

  abbrev pub on_client : Request → Server → Option Response × Server
  on_client (get_consensus epoch) s = consensus_for epoch s
  on_client (post_descriptor epoch payload) s = (none, s)
  on_client (post_replica_descriptor epoch payload) s = (none, s)
  on_client (of_authority command) s = (none, s)

  abbrev pub on_mix : ℕ → Request → Server → Option Response × Server
  on_mix peer (get_consensus epoch) s = consensus_for epoch s
  on_mix peer (post_descriptor epoch payload) s =
      let (code, mixes) =
        on_post_descriptor e.mix_library e.pinned (post peer epoch payload s) s.mixes in
      (some (posted code), record s { mixes = mixes })
  on_mix peer (post_replica_descriptor epoch payload) s = (none, s)
  on_mix peer (of_authority command) s = (none, s)

  abbrev pub on_replica : ℕ → Request → Server → Option Response × Server
  on_replica peer (get_consensus epoch) s = (none, s)
  on_replica peer (post_descriptor epoch payload) s = (none, s)
  on_replica peer (post_replica_descriptor epoch payload) s =
      let (code, replicas) =
        on_post_replica_descriptor e.replica_library e.pinned (post peer epoch payload s)
          s.replicas in
      (some (posted code), record s { replicas = replicas })
  on_replica peer (of_authority command) s = (none, s)

  abbrev pub status_of : Option Status → Option Response
  status_of none = none
  status_of (some code) = some (status code)

  abbrev pub on_peer_authority : Request → Server → Option Response × Server
  on_peer_authority (get_consensus epoch) s = consensus_for epoch s
  on_peer_authority (post_descriptor epoch payload) s = (none, s)
  on_peer_authority (post_replica_descriptor epoch payload) s = (none, s)
  on_peer_authority (of_authority command) s =
      let (code, state) = on_authority e.certs command s.state in
      (status_of code, record s { state = state })

  abbrev pub dispatch : ℕ → Option Role → Request → Server → Option Response × Server
  dispatch peer none request s = (none, s)
  dispatch peer (some client) request s = on_client request s
  dispatch peer (some mix) request s = on_mix peer request s
  dispatch peer (some replica) request s = on_replica peer request s
  dispatch peer (some authority) request s = on_peer_authority request s

  -- A connection: the handshake fails for a peer that is refused.
  unfoldable pub on_conn : Credentials → Request → Server → Option Response × Server
  on_conn creds request s =
      dispatch (hash_of creds.additional_data) (is_peer_valid s.state creds) request s
