-- ===== src/Dirauth/Consensus/Round.antt =====
-- A round of an authority: what it makes itself, and what peers send meanwhile, in any order.
use zknet_anon_rpc_demo.Common.{
  ℕ, ◌≡◌, ◌∙◌, refl, inl, inr, List, Bool, Option, none, some, Bool-cases,
}
use zknet_anon_rpc_demo.Common.Dict.{lookup}
use zknet_anon_rpc_demo.Common.Try.{Try, done, failed}
use zknet_anon_rpc_demo.Common.Step.{Step, go_on, stop}
use zknet_anon_rpc_demo.Dirauth.Pki.{Document, State}
use zknet_anon_rpc_demo.Dirauth.Uploads.{Command, after_commands}
use zknet_anon_rpc_demo.Dirauth.Uploads.Kept.{IsConsistent}
use zknet_anon_rpc_demo.Dirauth.Uploads.Consistent.{after_commands-Good}
use zknet_anon_rpc_demo.Dirauth.Tally.{Tallied, TallyError}
use zknet_anon_rpc_demo.Dirauth.Authority.{Authority, Config, Library, Refused}
use zknet_anon_rpc_demo.Dirauth.Authority.Filled.{get_document-Filled}
use zknet_anon_rpc_demo.Dirauth.Voting.{get_vote, get_certificate}
use zknet_anon_rpc_demo.Dirauth.Voting.Once.{
  KeepsBoth, KeepsBoth-refl, KeepsBoth-trans, get_vote-KeepsBoth, get_certificate-KeepsBoth,
}
use zknet_anon_rpc_demo.Dirauth.Consensus.{
  agreed_random, save_consensus, sign_consensus, finish_consensus, tally_consensus, with_values,
  with_random, get_my_consensus, publish, with_view, get_threshold_consensus,
}

module _ (u : Config) (lib : Library) where
  save_consensus-voted :
      (epoch : ℕ) (t : Try Document) (a : Authority)
      → (save_consensus u lib epoch t a).1.voted ≡ a.voted
  save_consensus-voted epoch (failed text) a = refl
  save_consensus-voted epoch (done doc) a = refl

  sign_consensus-voted :
      (epoch : ℕ) (doc : Document) (o : Option (List ℕ)) (a : Authority)
      → (sign_consensus u lib epoch doc o a).1.voted ≡ a.voted
  sign_consensus-voted epoch doc (some text) a = refl
  sign_consensus-voted epoch doc none a = save_consensus-voted epoch (lib.sign_document doc) a

  finish_consensus-voted :
      (epoch : ℕ) (o : Option (Document × Authority)) (a : Authority)
      → ((doc : Document) (b : Authority) → o ≡ some (doc, b) → b.voted ≡ a.voted)
      → (finish_consensus u lib epoch o a).1.voted ≡ a.voted
  finish_consensus-voted epoch none a same = refl
  finish_consensus-voted epoch (some (doc, b)) a same =
      sign_consensus-voted epoch doc (lib.malformed doc) b ∙ same doc b refl

  tally_consensus-voted :
      (now epoch : ℕ) (srv : List ℕ) (s : Step TallyError Tallied) (a : Authority)
      → (tally_consensus u lib now epoch srv s a).1.voted ≡ a.voted
  tally_consensus-voted now epoch srv (stop e) a = refl
  tally_consensus-voted now epoch srv (go_on t) a = finish_consensus-voted epoch _ a (λ doc b e.
      (get_document-Filled u lib now t.nodes t.replica_nodes t.params srv a b doc e).kept_voted)

  with_values-voted :
      (now epoch : ℕ) (srv : List ℕ) (o : Option (List (List ℕ))) (a : Authority)
      → (with_values u lib now epoch srv o a).1.voted ≡ a.voted
  with_values-voted now epoch srv none a = refl
  with_values-voted now epoch srv (some prior) a = tally_consensus-voted now epoch srv _ _

  with_random-voted :
      (now epoch : ℕ) (s : Step Refused (List ℕ)) (a : Authority)
      → (with_random u lib now epoch s a).1.voted ≡ a.voted
  with_random-voted now epoch (stop e) a = refl
  with_random-voted now epoch (go_on srv) a = with_values-voted now epoch srv _ a

  get_my_consensus-voted :
      (now epoch : ℕ) (a : Authority) → (get_my_consensus u lib now epoch a).1.voted ≡ a.voted
  unfolding get_my_consensus
  get_my_consensus-voted now epoch a = with_random-voted now epoch (agreed_random u lib epoch a) a

  publish-voted :
      (disk_ok : Bool) (epoch : ℕ) (doc : Document) (t : Try (List ℕ)) (a : Authority)
      → (publish u lib disk_ok epoch doc t a).1.voted ≡ a.voted
  publish-voted disk_ok epoch doc (failed text) a = refl
  publish-voted disk_ok epoch doc (done bytes) a = elim (Bool-cases (lib.verify_threshold bytes)) [
    | inr few ↦ rw few refl
    | inl enough ↦ elim (Bool-cases disk_ok) [
      | inl ok ↦ rw (enough, ok) refl
      | inr broken ↦ rw (enough, broken) refl
    ]
  ]

  with_view-voted :
      (disk_ok : Bool) (epoch : ℕ) (o : Option Document) (a : Authority)
      → (with_view u lib disk_ok epoch o a).1.voted ≡ a.voted
  with_view-voted disk_ok epoch none a = refl
  with_view-voted disk_ok epoch (some ours) a = publish-voted disk_ok epoch _ _ _

  -- One step of a round, at any replica epoch and for any epoch; the uploads of peers come in a consistent
  -- state.
  pub data Moves (a : Authority) : Authority → Type 0 where
    votes : (now epoch : ℕ) → Moves a (get_vote u lib now epoch a).1
    certifies : (now epoch : ℕ) → Moves a (get_certificate u lib now epoch a).1
    agrees : (now epoch : ℕ) → Moves a (get_my_consensus u lib now epoch a).1
    publishes :
        (disk_ok : Bool) (epoch : ℕ) → Moves a (get_threshold_consensus u lib disk_ok epoch a).1
    hears :
        (commands : List Command)
        → IsConsistent a.voted
        → Moves a (record a { voted = after_commands lib.certs commands a.voted })

  pub data Run (a : Authority) : Authority → Type 0 where
    start : Run a a
    after : (b c : Authority) → Run a b → Moves b c → Run a c

  to_same : (s t : State) → t ≡ s → KeepsBoth s t
  to_same s t e = rw e (KeepsBoth-refl s)

  Moves-KeepsBoth : (a b : Authority) → Moves a b → KeepsBoth a.voted b.voted
  unfolding get_threshold_consensus
  Moves-KeepsBoth a _ (votes now epoch) = get_vote-KeepsBoth u lib epoch now a
  Moves-KeepsBoth a _ (certifies now epoch) = get_certificate-KeepsBoth u lib epoch now a
  Moves-KeepsBoth a _ (agrees now epoch) = to_same a.voted _ (get_my_consensus-voted now epoch a)
  Moves-KeepsBoth a _ (publishes disk_ok epoch) =
      to_same a.voted _ (with_view-voted disk_ok epoch (lookup epoch a.my_consensus) a)
  Moves-KeepsBoth a _ (hears commands v) =
      let k = (after_commands-Good lib.certs commands a.voted v).1 in
      record { votes = k.votes; certificates = k.certificates }

  -- However often an authority votes, certifies, agrees and publishes, for whatever epochs, and
  -- whatever commands peers send meanwhile, where the maps are consistent when they do: it never
  -- replaces or loses a vote or a certificate that it has, its own among them. Its own certificate is
  -- kept as it was made, but for the maps of commits and reveals where it shares those of the state.
  pub Run-KeepsBoth : (a b : Authority) → Run a b → KeepsBoth a.voted b.voted
  Run-KeepsBoth a _ start = KeepsBoth-refl a.voted
  Run-KeepsBoth a c (after b _ run move) =
      KeepsBoth-trans a.voted b.voted c.voted (Run-KeepsBoth a b run) (Moves-KeepsBoth b c move)
