-- ===== src/Dirauth/Uploads/Accepts.antt =====
-- When an upload is accepted.
use zknet_anon_rpc_demo.Common.{
  ℕ, ◌≡◌, ◌≢◌, ◌↔◌, ◌⊎◌, inl, inr, refl, ap, List, true, false, not, ◌&&◌, some, ◌==◌,
  if◌then◌else◌, arith,
}
use zknet_anon_rpc_demo.Common.Dict.{lookup, has}
use zknet_anon_rpc_demo.Common.Try.{done}
use zknet_anon_rpc_demo.Common.Step.{
  go_on, stop, orelse, first_step, orelse-done, Step-cases, require, found, require-true,
  found-some,
}
use zknet_anon_rpc_demo.Dirauth.Pki.{Document, Certs, State, at, ensure, save}
use zknet_anon_rpc_demo.Dirauth.Pki.Maps.{at-ensure, lookup-save}
use zknet_anon_rpc_demo.Dirauth.Uploads.{
  Status, accepted, Upload, ensure_vote, save_vote, check_voter, check_vote, on_vote_upload,
}

-- What an accepted vote is.
pub record IsVote (c : Certs) (vote : Upload) (s : State) (doc : Document) (commit : List ℕ)
    : Type 0 where
  pub verified : List ℕ
  pub authorized : has (c.sum256 vote.public_key) s.authorized_authorities ≡ true
  pub in_epoch : vote.epoch ≡ s.voting_epoch
  pub first : has (c.sum256 vote.public_key) (at s.voting_epoch s.votes) ≡ false
  pub signed : c.verify vote.public_key vote.payload ≡ done verified
  pub parsed : c.parse_document vote.payload ≡ done doc
  pub for_epoch : doc.epoch ≡ s.voting_epoch
  pub committed : lookup (c.sum256 vote.public_key) doc.shared_random_commit ≡ some commit

-- The document and the commit of the peer `pk` are in the maps of the epoch that is voted on, and
-- nothing else has changed.
pub record SavesVote (pk : ℕ) (doc : Document) (commit : List ℕ) (s t : State) : Type 0 where
  pub vote_saved : lookup pk (at s.voting_epoch t.votes) ≡ some doc
  pub commit_saved : lookup pk (at s.voting_epoch t.commits) ≡ some commit
  pub same_votes :
      (epoch j : ℕ)
      → (s.voting_epoch == epoch && pk == j) ≡ false
      → lookup j (at epoch t.votes) ≡ lookup j (at epoch s.votes)
  pub same_commits :
      (epoch j : ℕ)
      → (s.voting_epoch == epoch && pk == j) ≡ false
      → lookup j (at epoch t.commits) ≡ lookup j (at epoch s.commits)
  pub same_rest : t ≡ record s { votes = t.votes; commits = t.commits }

module _ (c : Certs) where
  pub check_voter_lem :
      (s : State) (pk epoch : ℕ) {u : Unit {0}}
      → check_voter c s pk epoch ≡ go_on u
      → (has pk s.authorized_authorities ≡ true) × (epoch ≡ s.voting_epoch)
  unfolding check_voter
  check_voter_lem s pk epoch h = ground arith

  check_voter_ne : (s : State) (pk epoch : ℕ) → check_voter c s pk epoch ≢ stop accepted
  unfolding check_voter
  check_voter_ne s pk epoch h = ground arith

  check_vote_ne : (s : State) (pk : ℕ) (vote : Upload) → check_vote c s pk vote ≢ stop accepted
  unfolding check_vote
  check_vote_ne s pk vote h = ground arith

  check_vote_lem :
      (s : State) (vote : Upload) (doc : Document) (commit : List ℕ) {u : Unit {0}}
      → check_voter c s (c.sum256 vote.public_key) vote.epoch ≡ go_on u
      → check_vote c (ensure_vote c s) (c.sum256 vote.public_key) vote ≡ go_on (doc, commit)
      → IsVote c vote s doc commit
  unfolding check_vote
  check_vote_lem s vote doc commit v h =
      let pk = c.sum256 vote.public_key in
      let (authorized, in_epoch) = check_voter_lem s pk vote.epoch v in
      let (a, p1, h1) = first_step (require (not (has pk _)) _) _ h in
      let (bytes, p2, h2) = first_step (orelse (c.verify _ _) _) _ h1 in
      let (d, p3, h3) = first_step (orelse (c.parse_document _) _) _ h2 in
      let (a, p4, h4) = first_step (require (d.epoch == s.voting_epoch) _) _ h3 in
      let (m, p5, h5) = first_step (found (lookup pk d.shared_random_commit) _) _ h4 in
      let same : d ≡ doc = ground arith in
      record {
        verified = bytes;
        authorized = authorized;
        in_epoch = in_epoch;
        first =
            ground (arith, require-true _ _ p1, at-ensure s.voting_epoch s.voting_epoch s.votes);
        signed = orelse-done _ _ p2;
        parsed = ground (arith, orelse-done _ _ p3);
        for_epoch = ground (arith, require-true _ _ p4);
        committed = ground (arith, found-some _ _ p5);
      }

  check_vote_of :
      (s : State) (vote : Upload) (doc : Document) (commit : List ℕ)
      → IsVote c vote s doc commit
      → (check_voter c s (c.sum256 vote.public_key) vote.epoch ≡ go_on tt)
        × (check_vote c (ensure_vote c s) (c.sum256 vote.public_key) vote ≡ go_on (doc, commit))
  unfolding check_voter check_vote
  check_vote_of s vote doc commit v = (
    ground (arith, v.authorized, v.in_epoch),
    ground (
      arith,
      v.first,
      v.signed,
      v.parsed,
      v.for_epoch,
      v.committed,
      at-ensure s.voting_epoch s.voting_epoch s.votes,
    ),
  )

  pub on_vote_upload_cases :
      (vote : Upload) (s : State)
      → (((doc : Document) × (commit : List ℕ) × IsVote c vote s doc commit
          × (on_vote_upload c vote s
              ≡ (accepted, save_vote c (c.sum256 vote.public_key) doc commit (ensure_vote c s)))))
        ⊎ ((e : Status) × (e ≢ accepted)
            × ((on_vote_upload c vote s ≡ (e, s))
                ⊎ (on_vote_upload c vote s ≡ (e, ensure_vote c s))))
  unfolding on_vote_upload
  on_vote_upload_cases vote s =
      let pk = c.sum256 vote.public_key in
      elim (Step-cases (check_voter c s pk vote.epoch)) [
        | inl (e, p) ↦
            inr (e, (λ q. check_voter_ne s pk vote.epoch (ground arith)), inl (ground arith))
        | inr (a, p) ↦ elim (Step-cases (check_vote c (ensure_vote c s) pk vote)) [
          | inl (e, q) ↦
              inr (
                e,
                (λ r. check_vote_ne (ensure_vote c s) pk vote (ground arith)),
                inr (ground arith),
              )
          | inr ((doc, commit), q) ↦
              inl (doc, commit, check_vote_lem s vote doc commit p q, ground arith)
        ]
      ]

  save_vote-SavesVote :
      (pk : ℕ) (doc : Document) (commit : List ℕ) (s : State)
      → SavesVote pk doc commit s (save_vote c pk doc commit (ensure_vote c s))
  save_vote-SavesVote pk doc commit s =
      let epoch = s.voting_epoch in
      let votes : (k j : ℕ)
          → lookup j (at k (save epoch pk doc (ensure epoch s.votes)))
            ≡ (if epoch == k && pk == j then some doc else lookup j (at k s.votes)) =
        λ k j.
          ground (
            arith,
            lookup-save epoch pk k j doc (ensure epoch s.votes),
            at-ensure epoch k s.votes,
          ) in
      let commits : (k j : ℕ)
          → lookup j (at k (save epoch pk commit (ensure epoch s.commits)))
            ≡ (if epoch == k && pk == j then some commit else lookup j (at k s.commits)) =
        λ k j. ground (
          arith,
          lookup-save epoch pk k j commit (ensure epoch s.commits),
          at-ensure epoch k s.commits,
        ) in
      record {
        vote_saved = ground (arith, votes epoch pk);
        commit_saved = ground (arith, commits epoch pk);
        same_votes = λ k j h. ground (arith, votes k j);
        same_commits = λ k j h. ground (arith, commits k j);
        same_rest = refl;
      }

  -- An authority accepts a vote exactly when an authorised peer has signed it, for the epoch that is
  -- being voted on, and has not voted yet, and the document that it parses to is of that epoch and
  -- holds the peer's own commit. After an accepted vote, that document and that commit are found under
  -- the epoch and the peer's hash; all other votes and commits, and the rest of the state, are as before.
  pub on_vote_upload_accepted :
      (vote : Upload) (s : State)
      → ((on_vote_upload c vote s).0 ≡ accepted) ↔ (
          (doc : Document) × (commit : List ℕ) × IsVote c vote s doc commit
          × SavesVote (c.sum256 vote.public_key) doc commit s (on_vote_upload c vote s).1)
  unfolding on_vote_upload
  on_vote_upload_accepted vote s = (
    λ h. elim (on_vote_upload_cases vote s) [
      | inl (doc, commit, v, e) ↦
          let saved = save_vote-SavesVote (c.sum256 vote.public_key) doc commit s in
          (doc, commit, v, rw (ap (λ r. r.1) e) saved)
      | inr (e, n, inl r) ↦ absurd (n (ground arith))
      | inr (e, n, inr r) ↦ absurd (n (ground arith))
    ],
    λ (doc, commit, v, x). let (p, q) = check_vote_of s vote doc commit v in ground (arith, p, q),
  )
