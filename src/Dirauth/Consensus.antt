-- ===== src/Dirauth/Consensus.antt =====
-- The consensus of an authority, and that of a threshold of them: `getMyConsensus`,
-- `getThresholdConsensus` and `persistDocument` of katzenpost/authority/voting/server/state.go.
pub mod Sound
pub mod Round
pub mod Published
pub mod Weekly
use zknet_anon_rpc_demo.Common.{
  ℕ, ◌-◌, ◌%◌, List, [], ◌∷◌, Bool, true, false, Option, none, some, leb, ◌==◌, if◌then◌else◌,
  length,
}
use zknet_anon_rpc_demo.Common.Dict.{Dict, lookup, put}
use zknet_anon_rpc_demo.Common.Try.{Try, done, failed}
use zknet_anon_rpc_demo.Common.Step.{Step, go_on, stop, ◌>>=◌, ◌>>◌, require, found}
use zknet_anon_rpc_demo.Dirauth.Pki.{Document, at}
use zknet_anon_rpc_demo.Dirauth.Tally.{Tallied, TallyError, tally_votes}
use zknet_anon_rpc_demo.Dirauth.Random.{verify_commits, compute_shared_random}
use zknet_anon_rpc_demo.Dirauth.Authority.{
  Authority, OwnMaps, Config, Library, Refused, crashed, not_signed, not_well_formed,
  not_marshalled, not_tallied, no_certificates, too_few_certificates, too_few_commits,
  no_shared_random, no_view, no_threshold, get_document,
}

abbrev pub random_value : Option Document → Option (List ℕ)
random_value none = none
random_value (some d) = some d.shared_random_value

abbrev pub shared : Bool → Dict (List ℕ) → Dict (List ℕ) → Dict (List ℕ)
shared true of_state mine = of_state
shared false of_state mine = mine

abbrev pub read_own : OwnMaps → Dict (List ℕ) → Dict (List ℕ) → Document → Document
read_own o commits reveals doc = record doc {
  shared_random_commit = shared o.shares_commits commits doc.shared_random_commit;
  shared_random_reveal = shared o.shares_reveals reveals doc.shared_random_reveal;
}

-- The certificates of an epoch as they read: ours has the maps of the state that it shares.
unfoldable pub read_certificates :
    ℕ → Option OwnMaps → Dict (List ℕ) → Dict (List ℕ) → Dict Document → Dict Document
read_certificates identity none commits reveals certificates = certificates
read_certificates identity (some o) commits reveals [] = []
read_certificates identity (some o) commits reveals ((pk, doc) ∷ certificates) =
    let rest = read_certificates identity (some o) commits reveals certificates in
    (pk, if pk == identity then read_own o commits reveals doc else doc) ∷ rest

module _ (u : Config) (lib : Library) where
  abbrev pub certificates_of : ℕ → Authority → Dict Document → Dict Document
  certificates_of epoch a =
      read_certificates lib.signer.identity (lookup epoch a.own_maps) (at epoch a.voted.commits)
        (at epoch a.voted.reveals)

  -- The shared random value that the certificates give.
  unfoldable pub agreed_random : ℕ → Authority → Step Refused (List ℕ)
  agreed_random epoch a = do
    certificates ← found (lookup epoch a.voted.certificates) no_certificates
    require (leb u.threshold (length certificates)) too_few_certificates
    let verified =
        verify_commits lib.certs lib.shared_random u.reverse_hash epoch
          (certificates_of epoch a certificates)
    require (leb u.threshold (length verified.0)) too_few_commits
    require (length verified.0 == length verified.1) crashed
    let prior = random_value (lookup (a.voted.voting_epoch - 1) a.documents)
    found
        (compute_shared_random lib.sort_slice lib.blake2b lib.get_certified u.threshold epoch prior
          verified.0 verified.1)
        no_shared_random

  -- The values of the weeks before: there is a first one, or the index is out of range.
  abbrev pub with_first : List ℕ → List (List ℕ) → Option (List (List ℕ))
  with_first srv [] = none
  with_first srv (first ∷ rest) = some (srv ∷ first ∷ [])

  abbrev pub prior_values : ℕ → List ℕ → Authority → Option (List (List ℕ))
  prior_values epoch srv a =
      if epoch == a.genesis_epoch
      then some (srv ∷ srv ∷ [])
      else (if epoch % u.week_of_epochs == 0 then with_first srv a.prior_srv else some a.prior_srv)

  abbrev pub save_consensus : ℕ → Try Document → Authority → Step Refused Document × Authority
  save_consensus epoch (failed text) a = (stop (not_signed text), a)
  save_consensus epoch (done doc) a =
      (go_on doc, record a { my_consensus = put epoch doc a.my_consensus })

  abbrev pub sign_consensus :
      ℕ → Document → Option (List ℕ) → Authority → Step Refused Document × Authority
  sign_consensus epoch doc (some text) a = (stop (not_well_formed text), a)
  sign_consensus epoch doc none a = save_consensus epoch (lib.sign_document doc) a

  abbrev pub finish_consensus :
      ℕ → Option (Document × Authority) → Authority → Step Refused Document × Authority
  finish_consensus epoch none a = (stop crashed, a)
  finish_consensus epoch (some (doc, b)) a = sign_consensus epoch doc (lib.malformed doc) b

  abbrev pub tally_consensus :
      ℕ → ℕ → List ℕ → Step TallyError Tallied → Authority → Step Refused Document × Authority
  tally_consensus now epoch srv (stop e) a = (stop (not_tallied e), a)
  tally_consensus now epoch srv (go_on t) a =
      finish_consensus epoch (get_document u lib now t.nodes t.replica_nodes t.params srv a) a

  abbrev pub with_values :
      ℕ → ℕ → List ℕ → Option (List (List ℕ)) → Authority → Step Refused Document × Authority
  with_values now epoch srv none a = (stop crashed, a)
  with_values now epoch srv (some prior) a =
      tally_consensus now epoch srv
        (tally_votes lib.codec u.pinned u.threshold (lookup epoch a.voted.votes))
        (record a { prior_srv = prior })

  abbrev pub with_random :
      ℕ → ℕ → Step Refused (List ℕ) → Authority → Step Refused Document × Authority
  with_random now epoch (stop e) a = (stop e, a)
  with_random now epoch (go_on srv) a = with_values now epoch srv (prior_values epoch srv a) a

  -- At the replica epoch `now`.
  unfoldable pub get_my_consensus : ℕ → ℕ → Authority → Step Refused Document × Authority
  get_my_consensus now epoch a = with_random now epoch (agreed_random epoch a) a

  -- A signature that does not fit is left out.
  abbrev pub signed_or : Document → Try Document → Document
  signed_or doc (failed text) = doc
  signed_or doc (done signed) = signed

  unfoldable pub add_signatures : Dict (List ℕ) → Document → Document
  add_signatures [] doc = doc
  add_signatures ((pk, signature) ∷ signatures) doc =
      add_signatures signatures
        (signed_or doc (lib.add_signature (lookup pk u.reverse_hash) signature doc))

  -- `disk_ok`: the database was updated, which is else a fatal error.
  abbrev pub persist_document : Bool → ℕ → List ℕ → Authority → Authority
  persist_document disk_ok epoch bytes a =
      if disk_ok
      then record a { disk_documents = put epoch bytes a.disk_documents }
      else record a { fatal = true }

  abbrev pub publish :
      Bool → ℕ → Document → Try (List ℕ) → Authority → Step Refused Document × Authority
  publish disk_ok epoch doc (failed text) a = (stop (not_marshalled text), a)
  publish disk_ok epoch doc (done bytes) a =
      if lib.verify_threshold bytes
      then (
        go_on doc,
        record (persist_document disk_ok epoch bytes a) { documents = put epoch doc a.documents },
      )
      else (stop no_threshold, a)

  -- Our consensus keeps the signatures, whether they are enough or not.
  abbrev pub with_view : Bool → ℕ → Option Document → Authority → Step Refused Document × Authority
  with_view disk_ok epoch none a = (stop no_view, a)
  with_view disk_ok epoch (some ours) a =
      let doc = add_signatures (at epoch a.voted.signatures) ours in
      publish disk_ok epoch doc (lib.marshal_certificate doc)
        (record a { my_consensus = put epoch doc a.my_consensus })

  unfoldable pub get_threshold_consensus : Bool → ℕ → Authority → Step Refused Document × Authority
  get_threshold_consensus disk_ok epoch a = with_view disk_ok epoch (lookup epoch a.my_consensus) a
