-- ===== src/Dirauth/Examples/Consensus.antt =====
-- A round of an authority that is alone, in an epoch that begins a week.
use zknet_anon_rpc_demo.Common.{
  ℕ, ◌+◌, ◌≡◌, ◌≢◌, refl, List, [], ◌∷◌, true, false, none, some, arith, replicate,
}
use zknet_anon_rpc_demo.Common.Text.{same_text}
use zknet_anon_rpc_demo.Common.Bytes.{codes}
use zknet_anon_rpc_demo.Common.Dict.{lookup, delete}
use zknet_anon_rpc_demo.Common.Try.{done}
use zknet_anon_rpc_demo.Common.Step.{go_on}
use zknet_anon_rpc_demo.Dirauth.Pki.{Document, at}
use zknet_anon_rpc_demo.Dirauth.Authorization.{descriptor_authorization_error}
use zknet_anon_rpc_demo.Dirauth.Tally.{
  tally_votes, tally_nodes, tally_all, tally_vote, append_vote, append_all, append_layers, select,
  select_params, sort_by, insert_by,
}
use zknet_anon_rpc_demo.Dirauth.Random.{
  verify_commits, collect_all, collect_commits, check_entry, delete_all, compute_shared_random,
  get_all,
}
use zknet_anon_rpc_demo.Dirauth.Commit.{do_commit}
use zknet_anon_rpc_demo.Dirauth.Topology.{pick, assign, append_at}
use zknet_anon_rpc_demo.Dirauth.Layers.{
  node_map, keep_layer, keep_layers, fill_layer, fill_layers, generate_topology,
}
use zknet_anon_rpc_demo.Dirauth.Layers.Weigh.{numbers}
use zknet_anon_rpc_demo.Dirauth.Envelope.{
  cache_all, prune_cache, add_tallied, add_cached, build_replica_envelope_keys,
}
use zknet_anon_rpc_demo.Dirauth.Authority.{
  Authority, Config, Library, zeros, carve, choose_topology, configured_replicas, get_document,
}
use zknet_anon_rpc_demo.Dirauth.Voting.{get_vote, get_certificate}
use zknet_anon_rpc_demo.Dirauth.Voting.Once.{KeepsBoth}
use zknet_anon_rpc_demo.Dirauth.Consensus.{
  read_certificates, agreed_random, get_my_consensus, add_signatures, get_threshold_consensus,
}
use zknet_anon_rpc_demo.Dirauth.Consensus.Sound.{IsSound, get_my_consensus-IsSound}
use zknet_anon_rpc_demo.Dirauth.Consensus.Weekly.{get_my_consensus-zeros}
use zknet_anon_rpc_demo.Dirauth.Consensus.Published.{Published}
use zknet_anon_rpc_demo.Dirauth.Consensus.Round.{
  start, after, hears, votes, certifies, Run-KeepsBoth,
}
use zknet_anon_rpc_demo.Dirauth.Phases.{accept_descriptor, accept_signature, Outcome, fsm}
use zknet_anon_rpc_demo.Dirauth.Turn.{Detached, turn}
use zknet_anon_rpc_demo.Dirauth.Turn.Served.{turn-served}
use zknet_anon_rpc_demo.Dirauth.Uploads.{
  Upload, vote, cert, check_voter, check_vote, check_cert, on_vote_upload, on_cert_upload,
  on_authority, after_commands,
}
use zknet_anon_rpc_demo.Dirauth.Uploads.Kept.{IsConsistent}
use zknet_anon_rpc_demo.Dirauth.Examples.{parameters, mix, ballot, pinned, certs, fresh}
use zknet_anon_rpc_demo.Dirauth.Examples.Tally.{codec}

abbrev config : Config
config = record {
  pinned = pinned;
  reverse_hash = (1, 1 ∷ []) ∷ [];
  threshold = 1;
  layers = 1;
  fixed_topology = none;
  parameters = parameters;
  lambda_g = 6;
  geometry_hash = [];
  scheme = [];
  week_of_epochs = 7;
}

abbrev ones : List ℕ
ones = replicate 32 1

abbrev library : Library
library = record {
  codec = codec;
  certs = certs;
  shared_random = record { get_epoch = λ commit. 7; verify = λ commit reveal. true };
  signer = record {
    commit = λ epoch. done (codes "commit", codes "reveal");
    sign = λ epoch m. done m;
    identity = 1;
  };
  perm = λ seed call n. numbers 0 n;
  load_key = λ file. done 9;
  marshal_key = λ key. done key;
  blake2b = λ m. ones;
  sort_slice = λ reveals. reveals;
  get_certified = λ reveal. done 0;
  sign_document = λ doc. done (record doc { signatures = (1, codes "sig") ∷ [] });
  malformed = λ doc. none;
  add_signature = λ key sig doc. done doc;
  marshal_certificate = λ doc. done (codes "doc");
  verify_threshold = λ bytes. true;
}

-- The document of the epoch before, and the values of the weeks before.
abbrev before : Document
before = record ballot {
  epoch = 6;
  genesis_epoch = 5;
  shared_random_value = 4 ∷ [];
  prior_shared_random = (5 ∷ []) ∷ (6 ∷ []) ∷ [];
}

abbrev begin : Authority
begin = record {
  voted = fresh;
  documents = (6, before) ∷ [];
  my_consensus = [];
  own_maps = [];
  descriptors = (7, (9, mix) ∷ []) ∷ [];
  replica_descriptors = [];
  prior_srv = [];
  genesis_epoch = 0;
  cached_replica_envelope_keys = [];
  disk_documents = [];
  fatal = false;
}

abbrev our_vote : Document
our_vote = record ballot {
  genesis_epoch = 5;
  shared_random_value = zeros;
  prior_shared_random = (5 ∷ []) ∷ (6 ∷ []) ∷ [];
  signatures = (1, codes "sig") ∷ [];
}

abbrev with_vote : Authority
with_vote = record begin {
  voted = record fresh {
    votes = (7, (1, our_vote) ∷ []) ∷ [];
    commits = (7, (1, codes "commit") ∷ []) ∷ [];
    reveals = (7, (1, codes "reveal") ∷ []) ∷ [];
  };
  prior_srv = (5 ∷ []) ∷ (6 ∷ []) ∷ [];
  genesis_epoch = 5;
}

votes_first : get_vote config library 3 7 begin ≡ (go_on our_vote, with_vote)
unfolding get_vote get_document carve choose_topology generate_topology node_map keep_layers
    keep_layer fill_layers fill_layer pick assign append_at sort_by numbers configured_replicas
    build_replica_envelope_keys cache_all add_tallied add_cached prune_cache do_commit lookup delete
votes_first = refl

abbrev certificate : Document
certificate = record our_vote {
  shared_random_commit = (1, codes "commit") ∷ [];
  shared_random_reveal = (1, codes "reveal") ∷ [];
}

abbrev with_certificate : Authority
with_certificate = record with_vote {
  voted = record with_vote.voted { certificates = (7, (1, certificate) ∷ []) ∷ [] };
  own_maps = (7, record { shares_commits = true; shares_reveals = true }) ∷ [];
  prior_srv = zeros ∷ (5 ∷ []) ∷ [];
}

certifies_next :
    get_certificate config library 3 7 with_vote ≡ (go_on certificate, with_certificate)
unfolding get_certificate tally_votes tally_nodes tally_all tally_vote append_vote append_all
    append_layers select select_params sort_by insert_by same_text descriptor_authorization_error
    get_document carve choose_topology generate_topology node_map keep_layers keep_layer fill_layers
    fill_layer pick assign append_at numbers configured_replicas build_replica_envelope_keys
    cache_all add_tallied add_cached prune_cache lookup delete
certifies_next = refl

-- The value of the week before is 5 in the document before, and 0 in this one.
abbrev consensus : Document
consensus = record our_vote {
  shared_random_commit = [];
  shared_random_value = ones;
  prior_shared_random = ones ∷ zeros ∷ [];
}

abbrev with_consensus : Authority
with_consensus = record with_certificate {
  prior_srv = ones ∷ zeros ∷ [];
  my_consensus = (7, consensus) ∷ [];
}

agrees_then :
    get_my_consensus config library 3 7 with_certificate ≡ (go_on consensus, with_consensus)
unfolding get_my_consensus agreed_random read_certificates verify_commits collect_all
    collect_commits check_entry delete_all compute_shared_random get_all tally_votes tally_nodes
    tally_all tally_vote append_vote append_all append_layers select select_params sort_by insert_by
    same_text descriptor_authorization_error get_document carve choose_topology generate_topology
    node_map keep_layers keep_layer fill_layers fill_layer pick assign append_at numbers
    configured_replicas build_replica_envelope_keys cache_all add_tallied add_cached prune_cache
    lookup delete
agrees_then = refl

publishes_last : (get_threshold_consensus config library true 7 with_consensus).0 ≡ go_on consensus
unfolding get_threshold_consensus add_signatures lookup
publishes_last = refl

get_my_consensus-IsSound_example :
    IsSound config library 7 with_certificate consensus with_consensus
get_my_consensus-IsSound_example =
    get_my_consensus-IsSound config library 3 7 with_certificate with_consensus consensus
      agrees_then

get_my_consensus-zeros_example :
    (unsigned : Document) × (library.sign_document unsigned ≡ done consensus)
    × (unsigned.prior_shared_random ≡ unsigned.shared_random_value ∷ zeros ∷ [])
get_my_consensus-zeros_example =
    get_my_consensus-zeros config library 7 3 3 with_vote with_certificate with_certificate
      with_consensus certificate consensus (5 ∷ []) ((6 ∷ []) ∷ []) refl refl certifies_next refl
      (λ e. absurd (omega (arith, e))) agrees_then

-- A second authority, whose vote and certificate come between our vote and our certificate.
abbrev peer_ballot : Document
peer_ballot = record ballot { shared_random_commit = (2, codes "commit") ∷ [] }

abbrev with_peer : Library
with_peer = record library { certs = record certs { parse_document = λ payload. done peer_ballot } }

abbrev peer_upload : Upload
peer_upload = record { epoch = 7; public_key = 2 ∷ []; payload = codes "vote" }

abbrev heard : Authority
heard = record with_vote {
  voted = after_commands with_peer.certs (vote peer_upload ∷ cert peer_upload ∷ []) with_vote.voted;
}

with_vote-IsConsistent : IsConsistent with_vote.voted
unfolding lookup
with_vote-IsConsistent = record {
  committed = λ pk. ground arith;
  voters = λ pk. ground arith;
  revealed = λ pk. ground arith;
  certified = λ pk. refl;
  signers = λ pk. refl;
}

peer_heard :
    (lookup 2 (at 7 heard.voted.votes) ≡ some peer_ballot)
    × (lookup 2 (at 7 heard.voted.certificates) ≡ some peer_ballot)
unfolding after_commands on_authority on_vote_upload on_cert_upload check_voter check_vote
    check_cert lookup delete
peer_heard = (refl, refl)

-- We have voted; the peer is heard; we certify, and are then asked to vote once more.
Run-KeepsBoth_example :
    KeepsBoth with_vote.voted
      (get_vote config with_peer 3 7 (get_certificate config with_peer 3 7 heard).1).1.voted
Run-KeepsBoth_example =
    Run-KeepsBoth config with_peer with_vote
      (get_vote config with_peer 3 7 (get_certificate config with_peer 3 7 heard).1).1
      (after _ _
        (after _ _
          (after _ _ start
            (hears (vote peer_upload ∷ cert peer_upload ∷ []) with_vote-IsConsistent))
          (certifies 3 7))
        (votes 3 7))

abbrev detached : Detached
detached = record { marshal = λ sig. done sig; sign = λ epoch bytes. done bytes }

-- At the last phase of the epoch 6, whose period is 800.
abbrev last_turn : Outcome × Authority
last_turn =
    turn config library detached true 3 800 (record { epoch = 6; elapsed = 500 }) 510
      accept_signature with_consensus

round_ends : last_turn.0.machine.phase ≡ accept_descriptor
unfolding turn fsm get_threshold_consensus add_signatures lookup
round_ends = refl

turn-served_example :
    (last_turn.0.machine.phase ≡ accept_descriptor
      → (last_turn.0.machine.voting_epoch ≡ with_consensus.voted.voting_epoch + 1)
        × ((doc : Document) × (bytes : List ℕ) × (lookup with_consensus.voted.voting_epoch
                last_turn.1.documents
              ≡ some doc)
            × (library.marshal_certificate doc ≡ done bytes)
            × (library.verify_threshold bytes ≡ true)))
    × (last_turn.0.machine.phase ≢ accept_descriptor
        → (last_turn.1.documents ≡ with_consensus.documents)
          × (last_turn.1.disk_documents ≡ with_consensus.disk_documents))
turn-served_example =
    turn-served config library detached true 3 800 (record { epoch = 6; elapsed = 500 }) 510
      with_consensus
