-- ===== src/Dirauth/Voting.antt =====
-- The vote and the certificate that an authority makes: `getVote` and `getCertificate` of
-- katzenpost/authority/voting/server/state.go. A result comes with the authority after it.
pub mod Once
use zknet_anon_rpc_demo.Common.{ℕ, ◌-◌, ◌%◌, List, [], ◌∷◌, Option, none, some, ◌==◌, if◌then◌else◌}
use zknet_anon_rpc_demo.Common.Dict.{Dict, lookup, has, put}
use zknet_anon_rpc_demo.Common.Try.{Try, done, failed}
use zknet_anon_rpc_demo.Common.Step.{Step, go_on, stop}
use zknet_anon_rpc_demo.Dirauth.Pki.{Document, State, at, ensure, save}
use zknet_anon_rpc_demo.Dirauth.Tally.{Tallied, TallyError, tally_votes}
use zknet_anon_rpc_demo.Dirauth.Commit.{do_commit}
use zknet_anon_rpc_demo.Dirauth.Layers.{values}
use zknet_anon_rpc_demo.Dirauth.Authority.{
  Authority, Config, Library, Refused, crashed, no_commit, not_signed, not_well_formed,
  already_saved, not_tallied, zeros, get_document,
}

module _ (u : Config) (lib : Library) where
  -- The genesis epoch and the values of the document before are taken over; the scheme is written into
  -- that document.
  abbrev with_document : Option Document → Authority → Authority
  with_document none a = record a { genesis_epoch = a.voted.voting_epoch }
  with_document (some d) a = record a {
    genesis_epoch = d.genesis_epoch;
    prior_srv = d.prior_shared_random;
    documents =
        put (a.voted.voting_epoch - 1) (record d { pki_signature_scheme = u.scheme }) a.documents;
  }

  abbrev pub with_prior : Authority → Authority
  with_prior a = with_document (lookup (a.voted.voting_epoch - 1) a.documents) a

  -- A second vote for an epoch is an error, after the map has been made.
  abbrev pub save_own_vote : ℕ → Try Document → Authority → Step Refused Document × Authority
  save_own_vote epoch (failed text) a = (stop (not_signed text), a)
  save_own_vote epoch (done vote) a =
      let votes = ensure epoch a.voted.votes in
      if has lib.signer.identity (at epoch votes)
      then (stop already_saved, record a { voted = record a.voted { votes = votes } })
      else (
        go_on vote,
        record a { voted = record a.voted { votes = save epoch lib.signer.identity vote votes } },
      )

  abbrev pub commit_vote :
      ℕ → Document → Try (List ℕ) × State → Authority → Step Refused Document × Authority
  commit_vote epoch vote (failed text, voted) a =
      (stop (no_commit text), record a { voted = voted })
  commit_vote epoch vote (done commit, voted) a =
      save_own_vote epoch
        (lib.sign_document
          (record vote { shared_random_commit = (lib.signer.identity, commit) ∷ [] }))
        (record a { voted = voted })

  abbrev pub finish_vote :
      ℕ → Option (Document × Authority) → Authority → Step Refused Document × Authority
  finish_vote epoch none a = (stop crashed, a)
  finish_vote epoch (some (vote, b)) a =
      commit_vote epoch vote (do_commit lib.signer epoch b.voted) b

  -- At the replica epoch `now`.
  unfoldable pub get_vote : ℕ → ℕ → Authority → Step Refused Document × Authority
  get_vote now epoch a =
      let b = with_prior a in
      let descriptors = values (at epoch b.descriptors) in
      let replicas = values (at epoch b.replica_descriptors) in
      finish_vote epoch (get_document u lib now descriptors replicas u.parameters zeros b) b

  -- The first value of the week before becomes the second.
  abbrev pub rotate : ℕ → List (List ℕ) → List (List ℕ)
  rotate epoch [] = zeros ∷ zeros ∷ []
  rotate epoch (first ∷ rest) =
      if epoch % u.week_of_epochs == 0 then zeros ∷ first ∷ [] else first ∷ rest

  abbrev pub save_own_certificate :
      ℕ → Document → Option (List ℕ) → Authority → Step Refused Document × Authority
  save_own_certificate epoch certificate (some text) a = (stop (not_well_formed text), a)
  save_own_certificate epoch certificate none a =
      let certificates = ensure epoch a.voted.certificates in
      if has lib.signer.identity (at epoch certificates)
      then (stop already_saved, record a { voted = record a.voted { certificates = certificates } })
      else (
        go_on certificate,
        record a {
          voted = record a.voted {
            certificates = save epoch lib.signer.identity certificate certificates;
          };
          own_maps =
              put epoch
                (record {
                  shares_commits = has epoch a.voted.commits;
                  shares_reveals = has epoch a.voted.reveals;
                })
                a.own_maps;
        },
      )

  abbrev pub check_certificate : ℕ → Try Document → Authority → Step Refused Document × Authority
  check_certificate epoch (failed text) a = (stop (not_signed text), a)
  check_certificate epoch (done certificate) a =
      save_own_certificate epoch certificate (lib.malformed certificate) a

  -- The commits and reveals are those of this moment; `own_maps` then says which maps are shared.
  abbrev pub finish_certificate :
      ℕ → Option (Document × Authority) → Authority → Step Refused Document × Authority
  finish_certificate epoch none a = (stop crashed, a)
  finish_certificate epoch (some (certificate, b)) a =
      check_certificate epoch
        (lib.sign_document (record certificate {
          shared_random_commit = at epoch b.voted.commits;
          shared_random_reveal = at epoch b.voted.reveals;
        }))
        (record b { prior_srv = rotate epoch b.prior_srv })

  abbrev pub certify :
      ℕ → ℕ → Step TallyError Tallied → Authority → Step Refused Document × Authority
  certify now epoch (stop e) a = (stop (not_tallied e), a)
  certify now epoch (go_on t) a =
      finish_certificate epoch (get_document u lib now t.nodes t.replica_nodes t.params zeros a) a

  unfoldable pub get_certificate : ℕ → ℕ → Authority → Step Refused Document × Authority
  get_certificate now epoch a =
      certify now epoch (tally_votes lib.codec u.pinned u.threshold (lookup epoch a.voted.votes)) a
