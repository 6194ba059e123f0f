-- ===== src/Dirauth/Voting/Once.antt =====
-- An authority votes once and certifies once in an epoch.
use zknet_anon_rpc_demo.Common.{
  ℕ, ◌-◌, ◌≡◌, refl, inl, inr, List, false, Option, none, some, Bool-cases,
}
use zknet_anon_rpc_demo.Common.Dict.{Dict, lookup, has}
use zknet_anon_rpc_demo.Common.Try.{Try, done, failed, Try-cases}
use zknet_anon_rpc_demo.Common.Step.{Step, go_on, stop}
use zknet_anon_rpc_demo.Dirauth.Pki.{Document, State, at, ensure, save}
use zknet_anon_rpc_demo.Dirauth.Pki.Maps.{Kept, Kept-refl, Kept-trans, ensure-Kept, save-Kept}
use zknet_anon_rpc_demo.Dirauth.Tally.{Tallied, TallyError}
use zknet_anon_rpc_demo.Dirauth.Commit.{save_signed, do_commit}
use zknet_anon_rpc_demo.Dirauth.Layers.{values}
use zknet_anon_rpc_demo.Dirauth.Authority.{Authority, Config, Library, zeros}
use zknet_anon_rpc_demo.Dirauth.Authority.Filled.{get_document-Filled}
use zknet_anon_rpc_demo.Dirauth.Voting.{
  with_document, with_prior, save_own_vote, commit_vote, finish_vote, get_vote, rotate,
  save_own_certificate, check_certificate, finish_certificate, certify, get_certificate,
}

-- No vote and no certificate of `s` is lost or replaced in `t`. Of our own certificate, this is what was
-- saved, without the maps that it shares with the state.
pub record KeepsBoth (s t : State) : Type 0 where
  pub votes : (epoch pk : ℕ) → Kept (lookup pk (at epoch s.votes)) (lookup pk (at epoch t.votes))
  pub certificates :
      (epoch pk : ℕ)
      → Kept (lookup pk (at epoch s.certificates)) (lookup pk (at epoch t.certificates))

pub KeepsBoth-refl : (s : State) → KeepsBoth s s
KeepsBoth-refl s = record { votes = λ e k. Kept-refl _; certificates = λ e k. Kept-refl _ }

pub KeepsBoth-trans : (s t r : State) → KeepsBoth s t → KeepsBoth t r → KeepsBoth s r
KeepsBoth-trans s t r h k = record {
  votes = λ e j. Kept-trans _ _ _ (h.votes e j) (k.votes e j);
  certificates = λ e j. Kept-trans _ _ _ (h.certificates e j) (k.certificates e j);
}

same_maps : (s t : State) → t.votes ≡ s.votes → t.certificates ≡ s.certificates → KeepsBoth s t
same_maps s t v c = record {
  votes = λ e k. rw v (Kept-refl _);
  certificates = λ e k. rw c (Kept-refl _);
}

from_same : (s t r : State) → t ≡ s → KeepsBoth t r → KeepsBoth s r
from_same s t r e h = rw⁻¹ e h

-- Saving a value that is not there, into a map that is made first.
add_own {ℓ} :
    {V : Type ℓ} (epoch pk : ℕ) (v : V) (m : Dict (Dict V)) (e k : ℕ)
    → has pk (at epoch (ensure epoch m)) ≡ false
    → Kept (lookup k (at e m)) (lookup k (at e (save epoch pk v (ensure epoch m))))
add_own epoch pk v m e k h =
    Kept-trans _ _ _ (ensure-Kept epoch e k m) (save-Kept epoch pk e k v (ensure epoch m) h)

module _ (u : Config) (lib : Library) (epoch : ℕ) where
  save_own_vote-KeepsBoth :
      (t : Try Document) (a : Authority) → KeepsBoth a.voted (save_own_vote u lib epoch t a).1.voted
  save_own_vote-KeepsBoth (failed text) a = KeepsBoth-refl a.voted
  save_own_vote-KeepsBoth (done vote) a =
      elim (Bool-cases (has lib.signer.identity (at epoch (ensure epoch a.voted.votes)))) [
        | inl there ↦ rw there (record {
          votes = λ e k. ensure-Kept epoch e k a.voted.votes;
          certificates = λ e k. Kept-refl _;
        })
        | inr missing ↦ rw missing (record {
          votes = λ e k. add_own epoch lib.signer.identity vote a.voted.votes e k missing;
          certificates = λ e k. Kept-refl _;
        })
      ]

  save_own_certificate-KeepsBoth :
      (doc : Document) (o : Option (List ℕ)) (a : Authority)
      → KeepsBoth a.voted (save_own_certificate u lib epoch doc o a).1.voted
  save_own_certificate-KeepsBoth doc (some text) a = KeepsBoth-refl a.voted
  save_own_certificate-KeepsBoth doc none a =
      elim (Bool-cases (has lib.signer.identity (at epoch (ensure epoch a.voted.certificates)))) [
        | inl there ↦ rw there (record {
          votes = λ e k. Kept-refl _;
          certificates = λ e k. ensure-Kept epoch e k a.voted.certificates;
        })
        | inr missing ↦ rw missing (record {
          votes = λ e k. Kept-refl _;
          certificates =
              λ e k. add_own epoch lib.signer.identity doc a.voted.certificates e k missing;
        })
      ]

  save_signed-KeepsBoth :
      (commit reveal : Try (List ℕ)) (s : State)
      → KeepsBoth s (save_signed lib.signer epoch commit reveal s).1
  save_signed-KeepsBoth (failed text) reveal s = KeepsBoth-refl s
  save_signed-KeepsBoth (done commit) (failed text) s = KeepsBoth-refl s
  save_signed-KeepsBoth (done commit) (done reveal) s = same_maps s _ refl refl

  do_commit-KeepsBoth : (s : State) → KeepsBoth s (do_commit lib.signer epoch s).1
  unfolding do_commit
  do_commit-KeepsBoth s = elim (Try-cases (lib.signer.commit epoch)) [
    | inl (text, e) ↦ rw e (KeepsBoth-refl s)
    | inr ((commit, reveal), e) ↦
        rw e (save_signed-KeepsBoth (lib.signer.sign epoch commit) (lib.signer.sign epoch reveal) s)
  ]

  commit_vote-KeepsBoth :
      (vote : Document) (r : Try (List ℕ) × State) (a : Authority)
      → KeepsBoth r.1 (commit_vote u lib epoch vote r a).1.voted
  commit_vote-KeepsBoth vote (failed text, s) a = KeepsBoth-refl s
  commit_vote-KeepsBoth vote (done commit, s) a = save_own_vote-KeepsBoth _ (record a { voted = s })

  finish_vote-KeepsBoth :
      (o : Option (Document × Authority)) (a : Authority)
      → ((doc : Document) (b : Authority) → o ≡ some (doc, b) → b.voted ≡ a.voted)
      → KeepsBoth a.voted (finish_vote u lib epoch o a).1.voted
  finish_vote-KeepsBoth none a same = KeepsBoth-refl a.voted
  finish_vote-KeepsBoth (some (vote, b)) a same = rw⁻¹ (same vote b refl) (
      KeepsBoth-trans b.voted _ _ (do_commit-KeepsBoth b.voted)
        (commit_vote-KeepsBoth vote (do_commit lib.signer epoch b.voted) b))

  with_document-voted :
      (o : Option Document) (a : Authority) → (with_document u lib o a).voted ≡ a.voted
  with_document-voted none a = refl
  with_document-voted (some d) a = refl

  pub get_vote-KeepsBoth :
      (now : ℕ) (a : Authority) → KeepsBoth a.voted (get_vote u lib now epoch a).1.voted
  unfolding get_vote
  get_vote-KeepsBoth now a =
      let b = with_prior u lib a in
      from_same a.voted b.voted _
        (with_document-voted (lookup (a.voted.voting_epoch - 1) a.documents) a)
        (finish_vote-KeepsBoth _ b (λ doc c e.
          (get_document-Filled u lib now (values (at epoch b.descriptors))
            (values (at epoch b.replica_descriptors)) u.parameters zeros b c doc e).kept_voted))

  check_certificate-KeepsBoth :
      (t : Try Document) (a : Authority)
      → KeepsBoth a.voted (check_certificate u lib epoch t a).1.voted
  check_certificate-KeepsBoth (failed text) a = KeepsBoth-refl a.voted
  check_certificate-KeepsBoth (done doc) a =
      save_own_certificate-KeepsBoth doc (lib.malformed doc) a

  finish_certificate-KeepsBoth :
      (o : Option (Document × Authority)) (a : Authority)
      → ((doc : Document) (b : Authority) → o ≡ some (doc, b) → b.voted ≡ a.voted)
      → KeepsBoth a.voted (finish_certificate u lib epoch o a).1.voted
  finish_certificate-KeepsBoth none a same = KeepsBoth-refl a.voted
  finish_certificate-KeepsBoth (some (doc, b)) a same =
      rw⁻¹ (same doc b refl)
        (check_certificate-KeepsBoth _ (record b { prior_srv = rotate u lib epoch b.prior_srv }))

  certify-KeepsBoth :
      (now : ℕ) (s : Step TallyError Tallied) (a : Authority)
      → KeepsBoth a.voted (certify u lib now epoch s a).1.voted
  certify-KeepsBoth now (stop e) a = KeepsBoth-refl a.voted
  certify-KeepsBoth now (go_on t) a = finish_certificate-KeepsBoth _ a (λ doc b e.
      (get_document-Filled u lib now t.nodes t.replica_nodes t.params zeros a b doc e).kept_voted)

  pub get_certificate-KeepsBoth :
      (now : ℕ) (a : Authority) → KeepsBoth a.voted (get_certificate u lib now epoch a).1.voted
  unfolding get_certificate
  get_certificate-KeepsBoth now a = certify-KeepsBoth now _ a
