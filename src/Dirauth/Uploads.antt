-- ===== src/Dirauth/Uploads.antt =====
-- What an authority does with the uploads of its peers: `onVoteUpload`, `onRevealUpload`,
-- `onCertUpload` and `onSigUpload` of katzenpost/authority/voting/server/state.go.
pub mod Accepts
pub mod Kept
pub mod Consistent
use zknet_anon_rpc_demo.Common.{
  ℕ, ◌*◌, ◌+◌, List, [], ◌∷◌, Bool, true, false, not, Option, none, some, ltb, ◌==◌, if◌then◌else◌,
  length, take,
}
use zknet_anon_rpc_demo.Common.Dict.{Dict, lookup, has, put}
use zknet_anon_rpc_demo.Common.Try.{Try, done, failed}
use zknet_anon_rpc_demo.Common.Step.{Step, go_on, stop, ◌>>=◌, ◌>>◌, orelse, require, found}
use zknet_anon_rpc_demo.Dirauth.Pki.{Document, Certs, State, at, ensure, save}

-- The error codes of the four status commands; `crashed` is a run-time error of the handler.
pub data Status : Type 0 where
  accepted not_authorized too_early too_late not_signed already_received : Status
  malformed invalid crashed : Status

-- A vote, a certificate or a signature, each a command of three fields.
pub record Upload : Type 0 where
  pub epoch : ℕ
  pub public_key : List ℕ
  pub payload : List ℕ

-- `commands.Reveal`, of which the handler reads no epoch but the certified one.
pub record Reveal : Type 0 where
  pub public_key : List ℕ
  pub payload : List ℕ

-- `certificate.Epoch < s.votingEpoch`, and `>`, with the codes of the handlers that read the field.
abbrev pub same_epoch : ℕ → ℕ → Step Status (Unit {0})
same_epoch voting_epoch epoch =
    if ltb epoch voting_epoch
    then stop too_early
    else (if ltb voting_epoch epoch then stop too_late else go_on tt)

-- `epochFromBytes(b)`, of the first 8 bytes, the most significant first.
abbrev pub epoch_from : ℕ → List ℕ → ℕ
epoch_from acc [] = acc
epoch_from acc (b ∷ bs) = epoch_from (256 * acc + b) bs

module _ (c : Certs) where
  abbrev pub ensure_vote : State → State
  ensure_vote s = record s {
    votes = ensure s.voting_epoch s.votes;
    commits = ensure s.voting_epoch s.commits;
  }

  abbrev pub save_vote : ℕ → Document → List ℕ → State → State
  save_vote pk doc commit s = record s {
    votes = save s.voting_epoch pk doc s.votes;
    commits = save s.voting_epoch pk commit s.commits;
  }

  unfoldable pub check_voter : State → ℕ → ℕ → Step Status (Unit {0})
  check_voter s pk epoch = do
    require (has pk s.authorized_authorities) not_authorized
    same_epoch s.voting_epoch epoch

  unfoldable pub check_vote : State → ℕ → Upload → Step Status (Document × List ℕ)
  check_vote s pk vote = do
    require (not (has pk (at s.voting_epoch s.votes))) already_received
    verified ← orelse (c.verify vote.public_key vote.payload) (λ text. not_signed)
    doc ← orelse (c.parse_document vote.payload) (λ text. not_signed)
    require (doc.epoch == s.voting_epoch) malformed
    commit ← found (lookup pk doc.shared_random_commit) malformed
    go_on (doc, commit)

  unfoldable pub on_vote_upload : Upload → State → Status × State
  on_vote_upload vote s =
      let pk = c.sum256 vote.public_key in
      elim (check_voter s pk vote.epoch) [
        | stop e ↦ (e, s)
        | go_on _ ↦ elim (check_vote (ensure_vote s) pk vote) [
          | stop e ↦ (e, ensure_vote s)
          | go_on (doc, commit) ↦ (accepted, save_vote pk doc commit (ensure_vote s))
        ]
      ]

  -- Up to the last check before the map of reveals is made.
  unfoldable pub check_reveal : State → ℕ → Reveal → Step Status (Unit {0})
  check_reveal s pk reveal = do
    require (has pk s.authorized_authorities) not_authorized
    certified ← orelse (c.verify reveal.public_key reveal.payload) (λ text. not_signed)
    require (not (ltb (length certified) 8)) crashed
    require (not (ltb (epoch_from 0 (take 8 certified)) s.voting_epoch)) too_late
    require (not (ltb s.voting_epoch (epoch_from 0 (take 8 certified)))) too_early
    require (has s.voting_epoch s.commits) too_early
    require (has pk (at s.voting_epoch s.commits)) too_early

  unfoldable pub on_reveal_upload : Reveal → State → Status × State
  on_reveal_upload reveal s =
      let pk = c.sum256 reveal.public_key in
      elim (check_reveal s pk reveal) [
        | stop e ↦ (e, s)
        | go_on _ ↦
            let t = record s { reveals = ensure s.voting_epoch s.reveals } in
            if has pk (at s.voting_epoch t.reveals)
            then (already_received, t)
            else (accepted, record t { reveals = save s.voting_epoch pk reveal.payload t.reveals })
      ]

  unfoldable pub check_cert : State → ℕ → Upload → Step Status Document
  check_cert s pk certificate = do
    check_voter s pk certificate.epoch
    verified ← orelse (c.verify certificate.public_key certificate.payload) (λ text. not_signed)
    doc ← orelse (c.parse_document certificate.payload) (λ text. not_signed)
    require (has pk (at s.voting_epoch s.votes)) too_early
    go_on doc

  unfoldable pub on_cert_upload : Upload → State → Status × State
  on_cert_upload certificate s =
      let pk = c.sum256 certificate.public_key in
      elim (check_cert s pk certificate) [
        | stop e ↦ (e, s)
        | go_on doc ↦
            let t = record s { certificates = ensure s.voting_epoch s.certificates } in
            if has pk (at s.voting_epoch t.certificates)
            then (already_received, t)
            else (accepted, record t { certificates = save s.voting_epoch pk doc t.certificates })
      ]

  unfoldable pub check_sig : State → ℕ → Upload → Step Status (List ℕ)
  check_sig s pk sig = do
    check_voter s pk sig.epoch
    orelse (c.verify sig.public_key sig.payload) (λ text. not_signed)

  -- `csig.Unmarshal` is tried only where the peer has sent no signature yet.
  unfoldable pub on_sig_upload : Upload → State → Status × State
  on_sig_upload sig s =
      let pk = c.sum256 sig.public_key in
      elim (check_sig s pk sig) [
        | stop e ↦ (e, s)
        | go_on verified ↦
            let t = record s { signatures = ensure s.voting_epoch s.signatures } in
            if has pk (at s.voting_epoch t.signatures)
            then (already_received, t)
            else elim (c.unmarshal_signature verified) [
              | failed text ↦ (invalid, t)
              | done csig ↦
                  (accepted, record t { signatures = save s.voting_epoch pk csig t.signatures })
            ]
      ]

-- The commands of another authority that change the state; `get_consensus` and any other do not.
pub data Command : Type 0 where
  vote cert sig : Upload → Command
  reveal : Reveal → Command
  other : Command

-- `onAuthority`, with the status of the response, if the command has one.
unfoldable pub on_authority : Certs → Command → State → Option Status × State
on_authority c (vote v) s = let (e, t) = on_vote_upload c v s in (some e, t)
on_authority c (cert v) s = let (e, t) = on_cert_upload c v s in (some e, t)
on_authority c (sig v) s = let (e, t) = on_sig_upload c v s in (some e, t)
on_authority c (reveal v) s = let (e, t) = on_reveal_upload c v s in (some e, t)
on_authority c other s = (none, s)

-- The state after commands of any peers, in the order in which they take the lock.
unfoldable pub after_commands : Certs → List Command → State → State
after_commands c [] s = s
after_commands c (command ∷ commands) s = after_commands c commands (on_authority c command s).1
