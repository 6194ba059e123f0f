-- ===== src/Dirauth/Consensus/Weekly.antt =====
-- The shared random values of the weeks before, in an epoch that begins a week.
use zknet_anon_rpc_demo.Common.{
  ℕ, ◌%◌, ◌≡◌, ◌≢◌, refl, sym, ap, ◌∙◌, inl, inr, List, [], ◌∷◌, Option, none, some, arith,
  Bool-cases,
}
use zknet_anon_rpc_demo.Common.Dict.{lookup, has}
use zknet_anon_rpc_demo.Common.Try.{Try, done, failed}
use zknet_anon_rpc_demo.Common.Step.{Step, go_on, stop}
use zknet_anon_rpc_demo.Dirauth.Pki.{Document, at, ensure}
use zknet_anon_rpc_demo.Dirauth.Tally.{Tallied, TallyError, tally_votes}
use zknet_anon_rpc_demo.Dirauth.Authority.{Authority, Config, Library, zeros}
use zknet_anon_rpc_demo.Dirauth.Authority.Filled.{get_document-Filled}
use zknet_anon_rpc_demo.Dirauth.Voting.{
  rotate, save_own_certificate, check_certificate, finish_certificate, certify, get_certificate,
}
use zknet_anon_rpc_demo.Dirauth.Consensus.{get_my_consensus}
use zknet_anon_rpc_demo.Dirauth.Consensus.Sound.{get_my_consensus-Steps}

module _ (u : Config) (lib : Library) (epoch : ℕ) where
  save_own_certificate-prior :
      (certificate doc : Document) (o : Option (List ℕ)) (a b : Authority)
      → save_own_certificate u lib epoch certificate o a ≡ (go_on doc, b)
      → b.prior_srv ≡ a.prior_srv
  save_own_certificate-prior certificate doc (some text) a b h = absurd (ground arith)
  save_own_certificate-prior certificate doc none a b h =
      elim (Bool-cases (has lib.signer.identity (at epoch (ensure epoch a.voted.certificates)))) [
        | inl there ↦ absurd (ground (arith, h, there))
        | inr missing ↦ ground (arith, h, missing)
      ]

  check_certificate-prior :
      (t : Try Document) (doc : Document) (a b : Authority)
      → check_certificate u lib epoch t a ≡ (go_on doc, b)
      → b.prior_srv ≡ a.prior_srv
  check_certificate-prior (failed text) doc a b h = absurd (ground arith)
  check_certificate-prior (done certificate) doc a b h =
      save_own_certificate-prior certificate doc (lib.malformed certificate) a b h

  finish_certificate-prior :
      (o : Option (Document × Authority)) (doc : Document) (a b : Authority)
      → ((made : Document) (c : Authority) → o ≡ some (made, c) → c.prior_srv ≡ a.prior_srv)
      → finish_certificate u lib epoch o a ≡ (go_on doc, b)
      → b.prior_srv ≡ rotate u lib epoch a.prior_srv
  finish_certificate-prior none doc a b same h = absurd (ground arith)
  finish_certificate-prior (some (made, c)) doc a b same h =
      check_certificate-prior _ doc (record c { prior_srv = rotate u lib epoch c.prior_srv }) b h
      ∙ ap (rotate u lib epoch) (same made c refl)

  certify-prior :
      (now : ℕ) (s : Step TallyError Tallied) (doc : Document) (a b : Authority)
      → certify u lib now epoch s a ≡ (go_on doc, b)
      → b.prior_srv ≡ rotate u lib epoch a.prior_srv
  certify-prior now (stop e) doc a b h = absurd (ground arith)
  certify-prior now (go_on t) doc a b h =
      finish_certificate-prior _ doc a b
        (λ made c e.
          (get_document-Filled u lib now t.nodes t.replica_nodes t.params zeros a c made
            e).kept_prior)
        h

  get_certificate-prior :
      (now : ℕ) (doc : Document) (a b : Authority)
      → get_certificate u lib now epoch a ≡ (go_on doc, b)
      → b.prior_srv ≡ rotate u lib epoch a.prior_srv
  unfolding get_certificate
  get_certificate-prior now doc a b h =
      certify-prior now (tally_votes lib.codec u.pinned u.threshold (lookup epoch a.voted.votes))
        doc a b h

  -- In an epoch that begins a week and is not the first of the network, an authority that has made its
  -- certificate, and has left the values of the weeks before as they are since, makes a consensus with
  -- 32 zero bytes for the value of the week before, whatever that value was: both steps rotate.
  pub get_my_consensus-zeros :
      (now later : ℕ) (a b c d : Authority) (certificate doc : Document) (first : List ℕ)
      (rest : List (List ℕ))
      → a.prior_srv ≡ first ∷ rest
      → epoch % u.week_of_epochs ≡ 0
      → get_certificate u lib now epoch a ≡ (go_on certificate, b)
      → c.prior_srv ≡ b.prior_srv
      → epoch ≢ c.genesis_epoch
      → get_my_consensus u lib later epoch c ≡ (go_on doc, d)
      → (unsigned : Document) × (lib.sign_document unsigned ≡ done doc)
        × (unsigned.prior_shared_random ≡ unsigned.shared_random_value ∷ zeros ∷ [])
  get_my_consensus-zeros now later a b c d certificate doc first rest known week certified same old
        h =
      let s = get_my_consensus-Steps u lib later epoch c d doc h in
      let t = s.tallied in
      let f =
        get_document-Filled u lib later t.nodes t.replica_nodes t.params s.srv
          (record c { prior_srv = s.prior }) s.made s.unsigned s.document in
      let rotated : b.prior_srv ≡ zeros ∷ first ∷ [] =
        ground (arith, get_certificate-prior now certificate a b certified, known, week) in
      let begun : c.prior_srv ≡ zeros ∷ first ∷ [] = same ∙ rotated in
      let ends : s.prior ≡ s.srv ∷ zeros ∷ [] = ground (arith, s.prior_known, begun, old, week) in
      (s.unsigned, s.signed, f.prior ∙ (ends ∙ ap (λ v. v ∷ zeros ∷ []) (sym f.value)))
