-- ===== src/Dirauth/Examples/Commit.antt =====
-- A commit at concrete inputs.
use zknet_anon_rpc_demo.Common.{ℕ, ◌≡◌, refl, arith, ltb, if◌then◌else◌, List, [], ◌∷◌, true, some}
use zknet_anon_rpc_demo.Common.Dict.{Dict, lookup, delete}
use zknet_anon_rpc_demo.Common.Bytes.{codes}
use zknet_anon_rpc_demo.Common.Try.{done, failed}
use zknet_anon_rpc_demo.Common.Step.{go_on}
use zknet_anon_rpc_demo.Dirauth.Pki.{Document, Certs, at}
use zknet_anon_rpc_demo.Dirauth.Random.{SharedRandom, check_entry}
use zknet_anon_rpc_demo.Dirauth.Commit.{Signer, do_commit, our_reveal}
use zknet_anon_rpc_demo.Dirauth.Commit.Honest.{IsHonest, do_commit-check_entry}
use zknet_anon_rpc_demo.Dirauth.Examples.{certs, fresh}

abbrev signer : Signer
signer = record {
  commit = λ epoch. done (codes "commit", codes "reveal");
  sign = λ epoch m. done m;
  identity = 1;
}

abbrev random : SharedRandom
random = record { get_epoch = λ commit. 7; verify = λ commit reveal. true }

abbrev reverse_hash : Dict (List ℕ)
reverse_hash = (1, 5 ∷ []) ∷ []

-- A signature that expires at the epoch 7 is good before it.
abbrev certs_at : ℕ → Certs
certs_at now = record certs {
  verify = λ key m. if ltb now 7 then done m else failed (codes "certificate expired");
}

honest : IsHonest signer certs_at random reverse_hash 7 (5 ∷ [])
unfolding lookup
honest = record {
  verifies = λ now m signed l h. ground arith;
  of_epoch = λ commit reveal h. refl;
  fits = λ commit reveal h. refl;
  is_known = refl;
}

committed : (do_commit signer 7 fresh).0 ≡ done (codes "commit")
unfolding do_commit
committed = refl

reveal_saved : our_reveal signer 7 (do_commit signer 7 fresh).1 ≡ some (codes "reveal")
unfolding do_commit our_reveal lookup delete
reveal_saved = refl

do_commit-check_entry_example :
    let t = (do_commit signer 7 fresh).1 in
    (lookup 1 (at 7 t.commits) ≡ some (codes "commit"))
    × ((signed_reveal : List ℕ) × (our_reveal signer 7 t ≡ some signed_reveal)
        × ((certificate : Document)
            → lookup 1 certificate.shared_random_reveal ≡ some signed_reveal
            → check_entry (certs_at 6) random reverse_hash 7 certificate 1 (codes "commit")
              ≡ go_on signed_reveal))
do_commit-check_entry_example =
    do_commit-check_entry signer certs_at random reverse_hash 7 (5 ∷ []) 6 fresh (codes "commit")
      honest (omega arith) committed
