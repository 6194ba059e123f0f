-- ===== src/Dirauth/Commit/Honest.antt =====
-- What we commit to passes the check of an entry by the other authorities.
use zknet_anon_rpc_demo.Common.{ℕ, ◌<◌, ◌≡◌, inl, inr, List, true, some, arith}
use zknet_anon_rpc_demo.Common.Dict.{Dict, lookup}
use zknet_anon_rpc_demo.Common.Try.{done, Try-cases}
use zknet_anon_rpc_demo.Common.Step.{go_on}
use zknet_anon_rpc_demo.Dirauth.Pki.{Document, Certs, State, at, ensure, save}
use zknet_anon_rpc_demo.Dirauth.Pki.Maps.{lookup-save}
use zknet_anon_rpc_demo.Dirauth.Random.{SharedRandom, check_entry}
use zknet_anon_rpc_demo.Dirauth.Commit.{Signer, save_signed, do_commit, our_reveal}

saved {ℓ} :
    {V : Type ℓ} (epoch pk : ℕ) (v : V) (m : Dict (Dict V))
    → lookup pk (at epoch (save epoch pk v (ensure epoch m))) ≡ some v
saved epoch pk v m = ground (arith, lookup-save epoch pk epoch pk v (ensure epoch m))

module _ (x : Signer) (certs_at : ℕ → Certs) (r : SharedRandom) (reverse_hash : Dict (List ℕ))
    (epoch : ℕ) (key : List ℕ) where
  -- What the libraries promise, where `certs_at now` is cert.Verify in the epoch `now`: our key verifies
  -- what it has signed with the expiration `epoch`, before that epoch, and a commit is of its epoch and
  -- fits its reveal. Our key is known.
  pub record IsHonest : Type 0 where
    pub verifies :
        (now : ℕ) (m signed : List ℕ)
        → now < epoch
        → x.sign epoch m ≡ done signed
        → (certs_at now).verify key signed ≡ done m
    pub of_epoch :
        (commit reveal : List ℕ)
        → x.commit epoch ≡ done (commit, reveal)
        → r.get_epoch commit ≡ epoch
    pub fits :
        (commit reveal : List ℕ)
        → x.commit epoch ≡ done (commit, reveal)
        → r.verify commit reveal ≡ true
    pub is_known : lookup x.identity reverse_hash ≡ some key

  check_entry-go_on :
      (now : ℕ) (certificate : Document) (commit reveal signed_commit signed_reveal : List ℕ)
      → IsHonest
      → now < epoch
      → x.commit epoch ≡ done (commit, reveal)
      → x.sign epoch commit ≡ done signed_commit
      → x.sign epoch reveal ≡ done signed_reveal
      → lookup x.identity certificate.shared_random_reveal ≡ some signed_reveal
      → check_entry (certs_at now) r reverse_hash epoch certificate x.identity signed_commit
        ≡ go_on signed_reveal
  unfolding check_entry
  check_entry-go_on now certificate commit reveal sc sr h l p q q' e =
      let a = h.verifies now commit sc l q in
      let b = h.verifies now reveal sr l q' in
      let d = h.of_epoch commit reveal p in
      let f = h.fits commit reveal p in let k = h.is_known in ground (arith, a, b, d, f, k)

  -- Where our key is known and the libraries keep their promises: if our commit for an epoch is made,
  -- then our commit and our reveal are saved, and before that epoch, at which the signatures expire, the
  -- commit passes the check that verifyCommits makes of an entry, in every certificate that has that
  -- reveal.
  pub do_commit-check_entry :
      (now : ℕ) (s : State) (signed_commit : List ℕ)
      → IsHonest
      → now < epoch
      → (do_commit x epoch s).0 ≡ done signed_commit
      → let t = (do_commit x epoch s).1 in
        (lookup x.identity (at epoch t.commits) ≡ some signed_commit)
        × ((signed_reveal : List ℕ) × (our_reveal x epoch t ≡ some signed_reveal)
            × ((certificate : Document)
                → lookup x.identity certificate.shared_random_reveal ≡ some signed_reveal
                → check_entry
                    (certs_at now)
                    r
                    reverse_hash
                    epoch
                    certificate
                    x.identity
                    signed_commit
                  ≡ go_on signed_reveal))
  unfolding do_commit our_reveal
  do_commit-check_entry now s sc h l run = elim (Try-cases (x.commit epoch)) [
    | inl (text, p) ↦ absurd (ground arith)
    | inr ((commit, reveal), p) ↦ elim (Try-cases (x.sign epoch commit)) [
      | inl (text, q) ↦ absurd (ground arith)
      | inr (sc', q) ↦ elim (Try-cases (x.sign epoch reveal)) [
        | inl (text, q') ↦ absurd (ground arith)
        | inr (sr, q') ↦
            let saves : do_commit x epoch s ≡ save_signed x epoch (done sc') (done sr) s =
              ground arith in
            let same : sc' ≡ sc = ground arith in
            rw (saves, same)
              (
                saved epoch x.identity sc s.commits,
                (
                  sr,
                  saved epoch x.identity sr s.reveals,
                  λ certificate e.
                      check_entry-go_on now certificate commit reveal sc sr h l p (ground arith) q'
                        e,
                ),
              )
      ]
    ]
  ]
