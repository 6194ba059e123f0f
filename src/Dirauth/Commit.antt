-- ===== src/Dirauth/Commit.antt =====
-- Our own commit and reveal: `doCommit` and `reveal` of katzenpost/authority/voting/server/state.go.
pub mod Honest
use zknet_anon_rpc_demo.Common.{ℕ, List, Option, none, some}
use zknet_anon_rpc_demo.Common.Dict.{lookup}
use zknet_anon_rpc_demo.Common.Try.{Try, done, failed}
use zknet_anon_rpc_demo.Dirauth.Pki.{State, at, ensure, save}

-- `SharedRandom.Commit` of an epoch with the `Reveal` that goes with it, `cert.Sign` by our identity
-- key for an epoch, and the hash of that key.
pub record Signer : Type 0 where
  pub commit : ℕ → Try (List ℕ × List ℕ)
  pub sign : ℕ → List ℕ → Try (List ℕ)
  pub identity : ℕ

module _ (x : Signer) where
  -- Nothing is saved unless both are signed.
  abbrev pub save_signed : ℕ → Try (List ℕ) → Try (List ℕ) → State → Try (List ℕ) × State
  save_signed epoch (failed text) reveal s = (failed text, s)
  save_signed epoch (done commit) (failed text) s = (failed text, s)
  save_signed epoch (done commit) (done reveal) s = (
    done commit,
    record s {
      commits = save epoch x.identity commit (ensure epoch s.commits);
      reveals = save epoch x.identity reveal (ensure epoch s.reveals);
    },
  )

  abbrev pub sign_both : ℕ → Try (List ℕ × List ℕ) → State → Try (List ℕ) × State
  sign_both epoch (failed text) s = (failed text, s)
  sign_both epoch (done (commit, reveal)) s =
      save_signed epoch (x.sign epoch commit) (x.sign epoch reveal) s

  unfoldable pub do_commit : ℕ → State → Try (List ℕ) × State
  do_commit epoch s = sign_both epoch (x.commit epoch) s

  -- `none` is a fatal error.
  unfoldable pub our_reveal : ℕ → State → Option (List ℕ)
  our_reveal epoch s = lookup x.identity (at epoch s.reveals)
