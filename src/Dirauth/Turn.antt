-- ===== src/Dirauth/Turn.antt =====
-- One call of `fsm` in katzenpost/authority/voting/server/state.go, with the work that it does: Phases
-- has the schedule, for any results of that work. `backgroundFetchConsensus` is beside it.
pub mod Served
use zknet_anon_rpc_demo.Common.{ℕ, List, [], ◌∷◌, Bool, true, false, ◌||◌, Option, none, some}
use zknet_anon_rpc_demo.Common.Dict.{Dict, lookup, put}
use zknet_anon_rpc_demo.Common.Try.{Try, done, failed}
use zknet_anon_rpc_demo.Common.Step.{Step, go_on, stop}
use zknet_anon_rpc_demo.Dirauth.Pki.{Document, State}
use zknet_anon_rpc_demo.Dirauth.Commit.{our_reveal}
use zknet_anon_rpc_demo.Dirauth.Phases.{
  Phase, bootstrap, accept_descriptor, accept_vote, accept_reveal, accept_cert, accept_signature,
  Machine, Now, Consensus, no_consensus, no_signature, not_marshalled, not_signed, signature,
  Inputs, Outcome, fsm,
}
use zknet_anon_rpc_demo.Dirauth.Authority.{Authority, Config, Library, Refused}
use zknet_anon_rpc_demo.Dirauth.Voting.{get_vote, get_certificate}
use zknet_anon_rpc_demo.Dirauth.Consensus.{get_my_consensus, get_threshold_consensus}

-- `sig.Marshal`, and `cert.Sign` by our identity key for an epoch.
pub record Detached : Type 0 where
  pub marshal : List ℕ → Try (List ℕ)
  pub sign : ℕ → List ℕ → Try (List ℕ)

abbrev pub is_done : Step Refused Document → Bool
is_done (go_on doc) = true
is_done (stop e) = false

module _ (u : Config) (lib : Library) (x : Detached) (disk_ok : Bool) (replica_epoch : ℕ) where
  abbrev pub serialized : Step Refused Document → Try (List ℕ)
  serialized (go_on doc) = lib.marshal_certificate doc
  serialized (stop e) = failed []

  abbrev pub sign_detached : ℕ → Try (List ℕ) → Consensus
  sign_detached epoch (failed text) = not_marshalled
  sign_detached epoch (done bytes) = elim (x.sign epoch bytes) [
    | failed text ↦ not_signed
    | done signed ↦ signature signed
  ]

  abbrev pub detach : ℕ → Option (List ℕ) → Consensus
  detach epoch none = no_signature
  detach epoch (some sig) = sign_detached epoch (x.marshal sig)

  -- Our signature in the document that we have made.
  abbrev pub our_signature : ℕ → Step Refused Document → Consensus
  our_signature epoch (stop e) = no_consensus
  our_signature epoch (go_on doc) = detach epoch (lookup lib.signer.identity doc.signatures)

  abbrev idle : Inputs
  idle = record {
    vote = failed [];
    reveal = none;
    certificate = failed [];
    consensus = no_consensus;
    threshold_consensus = false;
  }

  -- The work of a phase: what the schedule reads of it, and the authority after it.
  abbrev pub work : Phase → Authority → Inputs × Authority
  work bootstrap a = (idle, record a { genesis_epoch = 0 })
  work accept_descriptor a =
      let (result, b) = get_vote u lib replica_epoch a.voted.voting_epoch a in
      (record idle { vote = serialized result }, b)
  work accept_vote a =
      (record idle { reveal = our_reveal lib.signer a.voted.voting_epoch a.voted }, a)
  work accept_reveal a =
      let (result, b) = get_certificate u lib replica_epoch a.voted.voting_epoch a in
      (record idle { certificate = serialized result }, b)
  work accept_cert a =
      let (result, b) = get_my_consensus u lib replica_epoch a.voted.voting_epoch a in
      (record idle { consensus = our_signature a.voted.voting_epoch result }, b)
  work accept_signature a =
      let (result, b) = get_threshold_consensus u lib disk_ok a.voted.voting_epoch a in
      (record idle { threshold_consensus = is_done result }, b)

  -- The schedule's outcome, and the authority with the voting epoch that it sets, before
  -- `pruneDocuments`.
  unfoldable pub turn : ℕ → Now → ℕ → Phase → Authority → Outcome × Authority
  turn period now now_elapsed phase a =
      let (inputs, b) = work phase a in
      let o =
        fsm period inputs now now_elapsed
          (record { phase = phase; voting_epoch = a.voted.voting_epoch }) in
      (
        o,
        record b {
          voted = record b.voted { voting_epoch = o.machine.voting_epoch };
          fatal = b.fatal || o.fatal;
        },
      )

  -- The document that `GetPKIDocumentForEpoch` of the client library gives, unless there is one.
  abbrev pub fetched : ℕ → Try Document → Option Document → Authority → Authority
  fetched epoch (failed text) there a = a
  fetched epoch (done doc) (some d) a = a
  fetched epoch (done doc) none a = record a { documents = put epoch doc a.documents }

  unfoldable pub background_fetch_consensus : ℕ → Try Document → Authority → Authority
  background_fetch_consensus epoch answer a = fetched epoch answer (lookup epoch a.documents) a
