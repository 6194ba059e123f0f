-- ===== src/Dirauth/Uploads/Consistent.antt =====
-- Whatever peers upload, the maps of an authority stay consistent and lose nothing.
use zknet_anon_rpc_demo.Common.{ℕ, ◌≡◌, inl, inr, List, [], ◌∷◌, true, arith, Bool-cases}
use zknet_anon_rpc_demo.Common.Dict.{has}
use zknet_anon_rpc_demo.Common.Try.{Try-cases}
use zknet_anon_rpc_demo.Common.Step.{go_on, Step-cases}
use zknet_anon_rpc_demo.Dirauth.Pki.{Document, Certs, State, at, ensure, save}
use zknet_anon_rpc_demo.Dirauth.Pki.Maps.{at-ensure}
use zknet_anon_rpc_demo.Dirauth.Uploads.{
  accepted, already_received, invalid, Upload, Reveal, ensure_vote, save_vote, check_voter,
  check_cert, check_sig, check_reveal, on_vote_upload, on_cert_upload, on_sig_upload,
  on_reveal_upload, Command, vote, cert, sig, reveal, other, on_authority, after_commands,
}
use zknet_anon_rpc_demo.Dirauth.Uploads.Accepts.{on_vote_upload_cases}
use zknet_anon_rpc_demo.Dirauth.Uploads.Kept.{
  IsConsistent, Keeps, Good, Keeps-refl, Keeps-trans, ensure_vote-Good, save_vote-Good,
  ensure_reveals-Good, save_reveals-Good, ensure_certificates-Good, save_certificates-Good,
  ensure_signatures-Good, save_signatures-Good,
}

Good-trans : (s t u : State) → Good s t → Good t u → Good s u
Good-trans s t u (v, h) (w, k) = (w, Keeps-trans s t u h k)

module _ (c : Certs) (s : State) (v : IsConsistent s) where
  unchanged : Good s s
  unchanged = (v, Keeps-refl s)

  on_vote_upload-Good : (u : Upload) → Good s (on_vote_upload c u s).1
  on_vote_upload-Good u = elim (on_vote_upload_cases c u s) [
    | inl (doc, commit, w, e) ↦
        let ensured = ensure_vote-Good c s v in
        let n = at-ensure s.voting_epoch s.voting_epoch s.votes in
        let pk = c.sum256 u.public_key in
        rw e (
          Good-trans s (ensure_vote c s) (save_vote c pk doc commit (ensure_vote c s)) ensured (
            save_vote-Good c (ensure_vote c s) ensured.0 pk doc commit w.authorized
              (ground (arith, w.first, n))))
    | inr (e, n, inl same) ↦ rw same unchanged
    | inr (e, n, inr ensured) ↦ rw ensured (ensure_vote-Good c s v)
  ]

  check_reveal_lem :
      (pk : ℕ) (r : Reveal)
      → check_reveal c s pk r ≡ go_on tt
      → has pk (at s.voting_epoch s.commits) ≡ true
  unfolding check_reveal
  check_reveal_lem pk r h = ground arith

  on_reveal_upload-Good : (r : Reveal) → Good s (on_reveal_upload c r s).1
  unfolding on_reveal_upload
  on_reveal_upload-Good r =
      let pk = c.sum256 r.public_key in
      let t = record s { reveals = ensure s.voting_epoch s.reveals } in
      elim (Step-cases (check_reveal c s pk r)) [
        | inl (e, p) ↦ let now : on_reveal_upload c r s ≡ (e, s) = ground arith in rw now unchanged
        | inr (u, p) ↦ elim (Bool-cases (has pk (at s.voting_epoch t.reveals))) [
          | inl again ↦
              let now : on_reveal_upload c r s ≡ (already_received, t) = ground arith in
              rw now (ensure_reveals-Good c s v)
          | inr first ↦
              let ensured = ensure_reveals-Good c s v in
              let now : on_reveal_upload c r s ≡ (
                accepted,
                (record t { reveals = save s.voting_epoch pk r.payload t.reveals }),
              ) =
                ground arith in
              rw now (
                Good-trans s t (record t { reveals = save s.voting_epoch pk r.payload t.reveals })
                  ensured
                  (save_reveals-Good c t ensured.0 pk r.payload first (check_reveal_lem pk r p)))
        ]
      ]

  check_cert_lem :
      (pk : ℕ) (u : Upload) (doc : Document)
      → check_cert c s pk u ≡ go_on doc
      → has pk (at s.voting_epoch s.votes) ≡ true
  unfolding check_cert
  check_cert_lem pk u doc h = ground arith

  on_cert_upload-Good : (u : Upload) → Good s (on_cert_upload c u s).1
  unfolding on_cert_upload
  on_cert_upload-Good u =
      let pk = c.sum256 u.public_key in
      let t = record s { certificates = ensure s.voting_epoch s.certificates } in
      elim (Step-cases (check_cert c s pk u)) [
        | inl (e, p) ↦ let now : on_cert_upload c u s ≡ (e, s) = ground arith in rw now unchanged
        | inr (doc, p) ↦ elim (Bool-cases (has pk (at s.voting_epoch t.certificates))) [
          | inl again ↦
              let now : on_cert_upload c u s ≡ (already_received, t) = ground arith in
              rw now (ensure_certificates-Good c s v)
          | inr first ↦
              let ensured = ensure_certificates-Good c s v in
              let now : on_cert_upload c u s ≡ (
                accepted,
                (record t { certificates = save s.voting_epoch pk doc t.certificates }),
              ) =
                ground arith in
              rw now (
                Good-trans s t
                  (record t { certificates = save s.voting_epoch pk doc t.certificates }) ensured
                  (save_certificates-Good c t ensured.0 pk doc first (check_cert_lem pk u doc p)))
        ]
      ]

  check_sig_lem :
      (pk : ℕ) (u : Upload) (bytes : List ℕ)
      → check_sig c s pk u ≡ go_on bytes
      → has pk s.authorized_authorities ≡ true
  unfolding check_sig check_voter
  check_sig_lem pk u bytes h = ground arith

  on_sig_upload-Good : (u : Upload) → Good s (on_sig_upload c u s).1
  unfolding on_sig_upload
  on_sig_upload-Good u =
      let pk = c.sum256 u.public_key in
      let t = record s { signatures = ensure s.voting_epoch s.signatures } in
      let ensured = ensure_signatures-Good c s v in
      elim (Step-cases (check_sig c s pk u)) [
        | inl (e, p) ↦ let now : on_sig_upload c u s ≡ (e, s) = ground arith in rw now unchanged
        | inr (bytes, p) ↦ elim (Bool-cases (has pk (at s.voting_epoch t.signatures))) [
          | inl again ↦
              let now : on_sig_upload c u s ≡ (already_received, t) = ground arith in rw now ensured
          | inr first ↦ elim (Try-cases (c.unmarshal_signature bytes)) [
            | inl (text, q) ↦
                let now : on_sig_upload c u s ≡ (invalid, t) = ground arith in rw now ensured
            | inr (csig, q) ↦
                let now : on_sig_upload c u s ≡ (
                  accepted,
                  (record t { signatures = save s.voting_epoch pk csig t.signatures }),
                ) =
                  ground arith in
                rw now (
                  Good-trans s t
                    (record t { signatures = save s.voting_epoch pk csig t.signatures }) ensured
                    (save_signatures-Good c t ensured.0 pk csig first (check_sig_lem pk u bytes p)))
          ]
        ]
      ]

  on_authority-Good : (command : Command) → Good s (on_authority c command s).1
  unfolding on_authority
  on_authority-Good (vote u) = on_vote_upload-Good u
  on_authority-Good (cert u) = on_cert_upload-Good u
  on_authority-Good (sig u) = on_sig_upload-Good u
  on_authority-Good (reveal r) = on_reveal_upload-Good r
  on_authority-Good other = unchanged

-- Whatever commands peers send, in any order: in the epoch that is voted on, the peers with a vote
-- are those with a commit and are authorised, those with a reveal have a commit, those with a
-- certificate have a vote, and those with a signature are authorised; and nothing that was stored
-- is lost or replaced, where these hold at the start.
pub after_commands-Good :
    (c : Certs) (commands : List Command) (s : State)
    → IsConsistent s
    → IsConsistent (after_commands c commands s) × Keeps s (after_commands c commands s)
unfolding after_commands
after_commands-Good c [] s v = unchanged c s v
after_commands-Good c (command ∷ commands) s v =
    let now = on_authority-Good c s v command in
    let t = (on_authority c command s).1 in
    Good-trans s t (after_commands c commands t) now (after_commands-Good c commands t now.0)
