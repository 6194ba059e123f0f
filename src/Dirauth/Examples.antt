-- ===== src/Dirauth/Examples.antt =====
-- Tests of the model of the directory authority, and the theorems at concrete inputs.
mod Tally
mod Rounds
mod Random
mod Descriptors
mod Posts
mod Server
mod Restore
mod Topology
mod Prune
mod Commit
mod Consensus
mod Layers
mod Peers
mod Startup
use zknet_anon_rpc_demo.Common.{
  ℕ, ◌+◌, ◌*◌, ◌≤◌, ◌<◌, ◌≡◌, ◌≢◌, ◌↔◌, refl, List, [], ◌∷◌, Bool, true, false, Option, none, some,
  arith, All, length,
}
use zknet_anon_rpc_demo.Common.Text.{same_text}
use zknet_anon_rpc_demo.Common.Dict.{Dict, lookup, delete}
use zknet_anon_rpc_demo.Common.Bytes.{codes}
use zknet_anon_rpc_demo.Common.Try.{Try, done, failed}
use zknet_anon_rpc_demo.Common.Step.{go_on}
use zknet_anon_rpc_demo.Dirauth.Pki.{
  MixDescriptor, ReplicaDescriptor, Parameters, Document, Certs, State, at,
}
use zknet_anon_rpc_demo.Dirauth.Uploads.{
  Upload, Reveal, accepted, check_voter, check_vote, check_reveal, check_cert, on_vote_upload,
  on_reveal_upload, on_cert_upload, save_vote, ensure_vote, Command, vote, cert, reveal,
  on_authority, after_commands, too_early, already_received, crashed,
}
use zknet_anon_rpc_demo.Dirauth.Uploads.Accepts.{IsVote, SavesVote, on_vote_upload_accepted}
use zknet_anon_rpc_demo.Dirauth.Uploads.Kept.{IsConsistent, Keeps}
use zknet_anon_rpc_demo.Dirauth.Uploads.Consistent.{after_commands-Good}
use zknet_anon_rpc_demo.Dirauth.Authorization.{Pinned, is_descriptor_authorized}

abbrev pub parameters : Parameters
parameters = record { mu = 1; lambda_p = 2; lambda_l = 3; lambda_m = 4; lambda_r = 5 }

abbrev pub mix : MixDescriptor
mix = record {
  name = codes "mix1";
  identity_key = 9 ∷ [];
  is_gateway_node = false;
  is_service_node = false;
  others = [];
}

-- A vote for epoch 7 by the authority whose key hash is 1, which lists one mix.
abbrev pub ballot : Document
ballot = record {
  epoch = 7;
  genesis_epoch = 7;
  params = parameters;
  lambda_g = 6;
  gateway_nodes = [];
  service_nodes = [];
  topology = (mix ∷ []) ∷ [];
  storage_replicas = [];
  shared_random_commit = (1, codes "commit") ∷ [];
  shared_random_reveal = [];
  configured_replica_ids = [];
  configured_replica_identity_keys = [];
  replica_envelope_keys = [];
  shared_random_value = [];
  prior_shared_random = [];
  sphinx_geometry_hash = [];
  pki_signature_scheme = [];
  signatures = [];
}

abbrev pub head_or_zero : List ℕ → ℕ
head_or_zero [] = 0
head_or_zero (x ∷ xs) = x

abbrev pub pinned : Pinned
pinned = record {
  sum256 = head_or_zero;
  mixes = (9, codes "mix1") ∷ [];
  gateway_nodes = [];
  service_nodes = [];
  replica_nodes = [];
}

-- The hash of a key is its first byte, and every signature is good.
abbrev pub certs : Certs
certs = record {
  sum256 = head_or_zero;
  verify = λ key payload. done payload;
  parse_document = λ payload. done ballot;
  unmarshal_signature = λ bytes. done bytes;
}

abbrev pub fresh : State
fresh = record {
  voting_epoch = 7;
  authorized_authorities = (1, true) ∷ (2, true) ∷ [];
  votes = [];
  commits = [];
  reveals = [];
  certificates = [];
  signatures = [];
}

abbrev pub upload : Upload
upload = record { epoch = 7; public_key = 1 ∷ []; payload = codes "vote" }

upload-IsVote : IsVote certs upload fresh ballot (codes "commit")
unfolding lookup
upload-IsVote = record {
  verified = codes "vote";
  authorized = refl;
  in_epoch = refl;
  first = refl;
  signed = refl;
  parsed = refl;
  for_epoch = refl;
  committed = refl;
}

abbrev voted : State
voted = save_vote certs 1 ballot (codes "commit") (ensure_vote certs fresh)

on_vote_upload_accepted_example : ((on_vote_upload certs upload fresh).0 ≡ accepted) ↔ (
    (doc : Document) × (commit : List ℕ) × IsVote certs upload fresh doc commit
    × SavesVote 1 doc commit fresh (on_vote_upload certs upload fresh).1)
on_vote_upload_accepted_example = on_vote_upload_accepted certs upload fresh

vote_accepted : on_vote_upload certs upload fresh ≡ (accepted, voted)
unfolding on_vote_upload check_voter check_vote lookup delete
vote_accepted = refl

-- A second vote, and a certificate that comes before the vote.
vote_again : (on_vote_upload certs upload voted).0 ≡ already_received
unfolding on_vote_upload check_voter check_vote lookup delete
vote_again = refl

cert_early : (on_cert_upload certs upload fresh).0 ≡ too_early
unfolding on_cert_upload check_cert check_voter lookup
cert_early = refl

-- A signed reveal of fewer than 8 bytes ends the handler with a run-time error.
short_reveal :
    (on_reveal_upload certs (record { public_key = 1 ∷ []; payload = 0 ∷ [] }) fresh).0 ≡ crashed
unfolding on_reveal_upload check_reveal lookup
short_reveal = refl

pub fresh-IsConsistent : IsConsistent fresh
unfolding lookup
fresh-IsConsistent = record {
  committed = λ pk. refl;
  voters = λ pk. refl;
  revealed = λ pk. refl;
  certified = λ pk. refl;
  signers = λ pk. refl;
}

abbrev pub commands : List Command
commands =
    cert upload
    ∷ vote upload
    ∷ reveal (record { public_key = 1 ∷ []; payload = codes "x" })
    ∷ cert upload
    ∷ []

after_commands-Good_example :
    IsConsistent (after_commands certs commands fresh)
    × Keeps fresh (after_commands certs commands fresh)
after_commands-Good_example = after_commands-Good certs commands fresh fresh-IsConsistent
