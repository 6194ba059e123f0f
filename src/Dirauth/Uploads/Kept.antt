-- ===== src/Dirauth/Uploads/Kept.antt =====
-- What uploads leave as it was, and what holds of the maps whatever peers upload.
use zknet_anon_rpc_demo.Common.{ℕ, ◌≡◌, refl, List, Bool, true, false, not, ◌&&◌, arith}
use zknet_anon_rpc_demo.Common.Dict.{Dict, lookup, has}
use zknet_anon_rpc_demo.Dirauth.Pki.{Document, Certs, State, at, ensure, save}
use zknet_anon_rpc_demo.Dirauth.Pki.Maps.{
  at-ensure, has-save, Kept, Kept-refl, Kept-trans, ensure-Kept, save-Kept,
}
use zknet_anon_rpc_demo.Dirauth.Uploads.{ensure_vote, save_vote}

-- Whether the keys of a map are among those of another.
abbrev pub outside {ℓ κ} : {A : Type ℓ} {B : Type κ} → ℕ → Dict A → Dict B → Bool
outside pk m n = has pk m && not (has pk n)

-- What holds of the epoch that is voted on: who has voted is who has committed, and only authorised
-- peers have; who has revealed has committed; who has sent a certificate has voted; and only
-- authorised peers have sent a signature.
pub record IsConsistent (s : State) : Type 0 where
  pub committed :
      (pk : ℕ) → has pk (at s.voting_epoch s.votes) ≡ has pk (at s.voting_epoch s.commits)
  pub voters : (pk : ℕ) → outside pk (at s.voting_epoch s.votes) s.authorized_authorities ≡ false
  pub revealed :
      (pk : ℕ) → outside pk (at s.voting_epoch s.reveals) (at s.voting_epoch s.commits) ≡ false
  pub certified :
      (pk : ℕ) → outside pk (at s.voting_epoch s.certificates) (at s.voting_epoch s.votes) ≡ false
  pub signers :
      (pk : ℕ) → outside pk (at s.voting_epoch s.signatures) s.authorized_authorities ≡ false

-- Every vote, commit, reveal, certificate and signature of `s` is in `t`, unchanged.
pub record Keeps (s t : State) : Type 0 where
  pub same_epoch : t.voting_epoch ≡ s.voting_epoch
  pub same_peers : t.authorized_authorities ≡ s.authorized_authorities
  pub votes : (epoch pk : ℕ) → Kept (lookup pk (at epoch s.votes)) (lookup pk (at epoch t.votes))
  pub commits :
      (epoch pk : ℕ) → Kept (lookup pk (at epoch s.commits)) (lookup pk (at epoch t.commits))
  pub reveals :
      (epoch pk : ℕ) → Kept (lookup pk (at epoch s.reveals)) (lookup pk (at epoch t.reveals))
  pub certificates :
      (epoch pk : ℕ)
      → Kept (lookup pk (at epoch s.certificates)) (lookup pk (at epoch t.certificates))
  pub signatures :
      (epoch pk : ℕ) → Kept (lookup pk (at epoch s.signatures)) (lookup pk (at epoch t.signatures))

pub Keeps-refl : (s : State) → Keeps s s
Keeps-refl s = record {
  same_epoch = refl;
  same_peers = refl;
  votes = λ e k. Kept-refl _;
  commits = λ e k. Kept-refl _;
  reveals = λ e k. Kept-refl _;
  certificates = λ e k. Kept-refl _;
  signatures = λ e k. Kept-refl _;
}

pub Keeps-trans : (s t u : State) → Keeps s t → Keeps t u → Keeps s u
Keeps-trans s t u h k = record {
  same_epoch = ground (arith, h.same_epoch, k.same_epoch);
  same_peers = ground (arith, h.same_peers, k.same_peers);
  votes = λ e j. Kept-trans _ _ _ (h.votes e j) (k.votes e j);
  commits = λ e j. Kept-trans _ _ _ (h.commits e j) (k.commits e j);
  reveals = λ e j. Kept-trans _ _ _ (h.reveals e j) (k.reveals e j);
  certificates = λ e j. Kept-trans _ _ _ (h.certificates e j) (k.certificates e j);
  signatures = λ e j. Kept-trans _ _ _ (h.signatures e j) (k.signatures e j);
}

-- What a step of the authority guarantees, from a consistent state on.
abbrev pub Good : State → State → Type 0
Good s t = IsConsistent t × Keeps s t

module _ (c : Certs) (s : State) (v : IsConsistent s) where
  pub ensure_vote-Good : Good s (ensure_vote c s)
  ensure_vote-Good =
      let vs = at-ensure s.voting_epoch s.voting_epoch s.votes in
      let cs = at-ensure s.voting_epoch s.voting_epoch s.commits in
      (
        record {
          committed = λ pk. ground (arith, v.committed pk, vs, cs);
          voters = λ pk. ground (arith, v.voters pk, vs);
          revealed = λ pk. ground (arith, v.revealed pk, cs);
          certified = λ pk. ground (arith, v.certified pk, vs);
          signers = v.signers;
        },
        record {
          same_epoch = refl;
          same_peers = refl;
          votes = λ e k. ensure-Kept s.voting_epoch e k s.votes;
          commits = λ e k. ensure-Kept s.voting_epoch e k s.commits;
          reveals = λ e k. Kept-refl _;
          certificates = λ e k. Kept-refl _;
          signatures = λ e k. Kept-refl _;
        },
      )

  pub save_vote-Good :
      (pk : ℕ) (doc : Document) (commit : List ℕ)
      → has pk s.authorized_authorities ≡ true
      → has pk (at s.voting_epoch s.votes) ≡ false
      → Good s (save_vote c pk doc commit s)
  save_vote-Good pk doc commit a n =
      let none_yet : has pk (at s.voting_epoch s.commits) ≡ false =
        ground (arith, v.committed pk) in
      let vs = λ (j : ℕ). has-save s.voting_epoch pk j doc s.votes in
      let cs = λ (j : ℕ). has-save s.voting_epoch pk j commit s.commits in
      (
        record {
          committed = λ j. ground (arith, v.committed j, vs j, cs j);
          voters = λ j. ground (arith, v.voters j, vs j);
          revealed = λ j. ground (arith, v.revealed j, cs j);
          certified = λ j. ground (arith, v.certified j, vs j);
          signers = v.signers;
        },
        record {
          same_epoch = refl;
          same_peers = refl;
          votes = λ e k. save-Kept s.voting_epoch pk e k doc s.votes n;
          commits = λ e k. save-Kept s.voting_epoch pk e k commit s.commits none_yet;
          reveals = λ e k. Kept-refl _;
          certificates = λ e k. Kept-refl _;
          signatures = λ e k. Kept-refl _;
        },
      )

  reveals-Good :
      (m : Dict (Dict (List ℕ)))
      → ((e k : ℕ) → Kept (lookup k (at e s.reveals)) (lookup k (at e m)))
      → ((k : ℕ) → outside k (at s.voting_epoch m) (at s.voting_epoch s.commits) ≡ false)
      → Good s (record s { reveals = m })
  reveals-Good m kept within = (
    record {
      committed = v.committed;
      voters = v.voters;
      revealed = within;
      certified = v.certified;
      signers = v.signers;
    },
    record {
      same_epoch = refl;
      same_peers = refl;
      votes = λ e k. Kept-refl _;
      commits = λ e k. Kept-refl _;
      reveals = kept;
      certificates = λ e k. Kept-refl _;
      signatures = λ e k. Kept-refl _;
    },
  )

  pub ensure_reveals-Good : Good s (record s { reveals = ensure s.voting_epoch s.reveals })
  ensure_reveals-Good =
      reveals-Good (ensure s.voting_epoch s.reveals)
        (λ e k. ensure-Kept s.voting_epoch e k s.reveals)
        (λ k. ground (arith, v.revealed k, at-ensure s.voting_epoch s.voting_epoch s.reveals))

  pub save_reveals-Good :
      (pk : ℕ) (saved : (List ℕ))
      → has pk (at s.voting_epoch s.reveals) ≡ false
      → has pk (at s.voting_epoch s.commits) ≡ true
      → Good s (record s { reveals = save s.voting_epoch pk saved s.reveals })
  save_reveals-Good pk saved n h =
      reveals-Good (save s.voting_epoch pk saved s.reveals)
        (λ e k. save-Kept s.voting_epoch pk e k saved s.reveals n)
        (λ k. ground (arith, v.revealed k, has-save s.voting_epoch pk k saved s.reveals))

  certificates-Good :
      (m : Dict (Dict Document))
      → ((e k : ℕ) → Kept (lookup k (at e s.certificates)) (lookup k (at e m)))
      → ((k : ℕ) → outside k (at s.voting_epoch m) (at s.voting_epoch s.votes) ≡ false)
      → Good s (record s { certificates = m })
  certificates-Good m kept within = (
    record {
      committed = v.committed;
      voters = v.voters;
      revealed = v.revealed;
      certified = within;
      signers = v.signers;
    },
    record {
      same_epoch = refl;
      same_peers = refl;
      votes = λ e k. Kept-refl _;
      commits = λ e k. Kept-refl _;
      reveals = λ e k. Kept-refl _;
      certificates = kept;
      signatures = λ e k. Kept-refl _;
    },
  )

  pub ensure_certificates-Good :
      Good s (record s { certificates = ensure s.voting_epoch s.certificates })
  ensure_certificates-Good =
      certificates-Good (ensure s.voting_epoch s.certificates)
        (λ e k. ensure-Kept s.voting_epoch e k s.certificates)
        (λ k. ground (arith, v.certified k, at-ensure s.voting_epoch s.voting_epoch s.certificates))

  pub save_certificates-Good :
      (pk : ℕ) (saved : Document)
      → has pk (at s.voting_epoch s.certificates) ≡ false
      → has pk (at s.voting_epoch s.votes) ≡ true
      → Good s (record s { certificates = save s.voting_epoch pk saved s.certificates })
  save_certificates-Good pk saved n h =
      certificates-Good (save s.voting_epoch pk saved s.certificates)
        (λ e k. save-Kept s.voting_epoch pk e k saved s.certificates n)
        (λ k. ground (arith, v.certified k, has-save s.voting_epoch pk k saved s.certificates))

  signatures-Good :
      (m : Dict (Dict (List ℕ)))
      → ((e k : ℕ) → Kept (lookup k (at e s.signatures)) (lookup k (at e m)))
      → ((k : ℕ) → outside k (at s.voting_epoch m) (s.authorized_authorities) ≡ false)
      → Good s (record s { signatures = m })
  signatures-Good m kept within = (
    record {
      committed = v.committed;
      voters = v.voters;
      revealed = v.revealed;
      certified = v.certified;
      signers = within;
    },
    record {
      same_epoch = refl;
      same_peers = refl;
      votes = λ e k. Kept-refl _;
      commits = λ e k. Kept-refl _;
      reveals = λ e k. Kept-refl _;
      certificates = λ e k. Kept-refl _;
      signatures = kept;
    },
  )

  pub ensure_signatures-Good : Good s (record s { signatures = ensure s.voting_epoch s.signatures })
  ensure_signatures-Good =
      signatures-Good (ensure s.voting_epoch s.signatures)
        (λ e k. ensure-Kept s.voting_epoch e k s.signatures)
        (λ k. ground (arith, v.signers k, at-ensure s.voting_epoch s.voting_epoch s.signatures))

  pub save_signatures-Good :
      (pk : ℕ) (saved : (List ℕ))
      → has pk (at s.voting_epoch s.signatures) ≡ false
      → has pk (s.authorized_authorities) ≡ true
      → Good s (record s { signatures = save s.voting_epoch pk saved s.signatures })
  save_signatures-Good pk saved n h =
      signatures-Good (save s.voting_epoch pk saved s.signatures)
        (λ e k. save-Kept s.voting_epoch pk e k saved s.signatures n)
        (λ k. ground (arith, v.signers k, has-save s.voting_epoch pk k saved s.signatures))
