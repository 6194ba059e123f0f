-- ===== src/Dirauth/Consensus/Sound.antt =====
-- What the consensus of one authority rests on.
use zknet_anon_rpc_demo.Common.{
  ℕ, ◌-◌, ◌≤◌, ◌≡◌, refl, sym, ap, inl, inr, List, Option, none, some, leb, ◌==◌, length, arith,
  Option-cases,
}
use zknet_anon_rpc_demo.Common.Dict.{Dict, lookup, put}
use zknet_anon_rpc_demo.Common.Try.{done, Try-cases}
use zknet_anon_rpc_demo.Common.Step.{
  go_on, require, found, first_step, require-true, found-some, Step-cases,
}
use zknet_anon_rpc_demo.Dirauth.Pki.{Document}
use zknet_anon_rpc_demo.Dirauth.Authorization.{is_descriptor_authorized}
use zknet_anon_rpc_demo.Dirauth.Tally.{Tallied, tally_votes}
use zknet_anon_rpc_demo.Dirauth.Tally.Support.{support, mix_listed}
use zknet_anon_rpc_demo.Dirauth.Tally.Select.{Chosen}
use zknet_anon_rpc_demo.Dirauth.Tally.Threshold.{tally_votes_lem}
use zknet_anon_rpc_demo.Dirauth.Random.{verify_commits, compute_shared_random}
use zknet_anon_rpc_demo.Dirauth.Random.Checked.{AllBoth, verify_commits_lem}
use zknet_anon_rpc_demo.Dirauth.Authority.{
  Authority, Config, Library, crashed, get_document, no_certificates, too_few_certificates,
  too_few_commits,
}
use zknet_anon_rpc_demo.Dirauth.Authority.Everywhere.{Everywhere, get_document-Everywhere}
use zknet_anon_rpc_demo.Dirauth.Authority.Filled.{get_document-Filled}
use zknet_anon_rpc_demo.Dirauth.Consensus.{
  random_value, certificates_of, agreed_random, prior_values, finish_consensus, get_my_consensus,
}

module _ (u : Config) (lib : Library) where
  -- The shared random value of an epoch comes from at least a threshold of certificates and of verified
  -- commits.
  pub record IsRandom (epoch : ℕ) (a : Authority) (srv : List ℕ) : Type 0 where
    pub certificates : Dict Document
    pub certified : lookup epoch a.voted.certificates ≡ some certificates
    pub enough_certificates : u.threshold ≤ length certificates
    pub commits : Dict (List ℕ)
    pub reveals : Dict (List ℕ)
    pub verified :
        verify_commits lib.certs lib.shared_random u.reverse_hash epoch
          (certificates_of u lib epoch a certificates)
        ≡ (commits, reveals)
    pub by_authors : AllBoth lib.certs lib.shared_random u.reverse_hash epoch commits reveals
    pub as_many : length commits ≡ length reveals
    pub enough_commits : u.threshold ≤ length commits
    pub computed :
        compute_shared_random lib.sort_slice lib.blake2b lib.get_certified u.threshold epoch
          (random_value (lookup (a.voted.voting_epoch - 1) a.documents))
          commits
          reveals
        ≡ some srv

  agreed_random-IsRandom :
      (epoch : ℕ) (a : Authority) (srv : List ℕ)
      → agreed_random u lib epoch a ≡ go_on srv
      → IsRandom epoch a srv
  unfolding agreed_random
  agreed_random-IsRandom epoch a srv h =
      let (certificates, p1, h1) =
        first_step (found (lookup epoch a.voted.certificates) no_certificates) _ h in
      let (by_authors, as_many) =
        verify_commits_lem lib.certs lib.shared_random u.reverse_hash epoch
          (certificates_of u lib epoch a certificates) in
      let (x, p2, h2) =
        first_step (require (leb u.threshold (length certificates)) too_few_certificates) _ h1 in
      let v =
        verify_commits lib.certs lib.shared_random u.reverse_hash epoch
          (certificates_of u lib epoch a certificates) in
      let (y, p3, h3) = first_step (require (leb u.threshold (length v.0)) too_few_commits) _ h2 in
      let (z, p4, h4) = first_step (require (length v.0 == length v.1) crashed) _ h3 in
      record {
        certificates = certificates;
        certified = found-some _ _ p1;
        enough_certificates = ground (arith, require-true _ _ p2);
        commits = v.0;
        reveals = v.1;
        verified = refl;
        by_authors = by_authors;
        as_many = as_many;
        enough_commits = ground (arith, require-true _ _ p3);
        computed = found-some _ _ h4;
      }

  -- A document that is signed: well-formed, with the tally's parameters and replicas, and with no node
  -- that fewer votes than the threshold list, or that is not pinned.
  pub record IsSound (epoch : ℕ) (a : Authority) (doc : Document) (b : Authority) : Type 0 where
    pub srv : List ℕ
    pub random : IsRandom epoch a srv
    pub votes : Dict Document
    pub tallied : Tallied
    pub voted : lookup epoch a.voted.votes ≡ some votes
    pub tally : tally_votes lib.codec u.pinned u.threshold (some votes) ≡ go_on tallied
    pub unsigned : Document
    pub signed : lib.sign_document unsigned ≡ done doc
    pub well_formed : lib.malformed unsigned ≡ none
    pub value : unsigned.shared_random_value ≡ srv
    pub for_epoch : unsigned.epoch ≡ a.voted.voting_epoch
    pub params : unsigned.params ≡ tallied.params
    pub replicas : unsigned.storage_replicas ≡ tallied.replica_nodes
    pub nodes :
        Everywhere
          (Chosen lib.codec.unmarshal_mix
            (is_descriptor_authorized u.pinned)
            u.threshold
            (λ k. support (mix_listed lib.codec k) votes))
          unsigned
    pub saved : b.my_consensus ≡ put epoch doc a.my_consensus
    pub kept : b.voted ≡ a.voted

  module _ (epoch : ℕ) (c : Authority) where
    -- The last steps.
    pub finish_consensus-signed :
        (o : Option (Document × Authority)) (doc : Document) (b : Authority)
        → finish_consensus u lib epoch o c ≡ (go_on doc, b)
        → (unsigned : Document) × (d : Authority) × (o ≡ some (unsigned, d))
          × (lib.malformed unsigned ≡ none)
          × (lib.sign_document unsigned ≡ done doc)
          × (b ≡ record d { my_consensus = put epoch doc d.my_consensus })
    finish_consensus-signed none doc b h = absurd (ground arith)
    finish_consensus-signed (some (unsigned, d)) doc b h =
        elim (Option-cases (lib.malformed unsigned)) [
          | inr (text, e) ↦ absurd (ground arith)
          | inl e ↦ elim (Try-cases (lib.sign_document unsigned)) [
            | inl (text, f) ↦ absurd (ground arith)
            | inr (signed, f) ↦
                let same : signed ≡ doc = ground arith in
                let after : record d { my_consensus = put epoch signed d.my_consensus } ≡ b =
                  ground arith in
                (unsigned, d, refl, e, rw (sym same) f, rw (sym same) (sym after))
          ]
        ]

  -- A consensus that is made has gone through every step.
  pub record Steps (now epoch : ℕ) (a : Authority) (doc : Document) (b : Authority) : Type 0 where
    pub srv : List ℕ
    pub agreed : agreed_random u lib epoch a ≡ go_on srv
    pub prior : List (List ℕ)
    pub prior_known : prior_values u lib epoch srv a ≡ some prior
    pub tallied : Tallied
    pub tally :
        tally_votes lib.codec u.pinned u.threshold (lookup epoch a.voted.votes) ≡ go_on tallied
    pub unsigned : Document
    pub made : Authority
    pub document :
        get_document u lib now tallied.nodes tallied.replica_nodes tallied.params srv
          (record a { prior_srv = prior })
        ≡ some (unsigned, made)
    pub well_formed : lib.malformed unsigned ≡ none
    pub signed : lib.sign_document unsigned ≡ done doc
    pub after : b ≡ record made { my_consensus = put epoch doc made.my_consensus }

  pub get_my_consensus-Steps :
      (now epoch : ℕ) (a b : Authority) (doc : Document)
      → get_my_consensus u lib now epoch a ≡ (go_on doc, b)
      → Steps now epoch a doc b
  unfolding get_my_consensus
  get_my_consensus-Steps now epoch a b doc h = elim (Step-cases (agreed_random u lib epoch a)) [
    | inl (e, p) ↦ absurd (ground (arith, h, p))
    | inr (srv, p) ↦ elim (Option-cases (prior_values u lib epoch srv a)) [
      | inl q ↦ absurd (ground (arith, h, p, q))
      | inr (prior, q) ↦
          let c = record a { prior_srv = prior } in
          let votes = lookup epoch a.voted.votes in
          elim (Step-cases (tally_votes lib.codec u.pinned u.threshold votes)) [
            | inl (e, r) ↦ absurd (ground (arith, h, p, q, r))
            | inr (t, r) ↦
                let o = get_document u lib now t.nodes t.replica_nodes t.params srv c in
                let last : finish_consensus u lib epoch o c ≡ (go_on doc, b) =
                  ground (arith, h, p, q, r) in
                let (unsigned, made, e, f, g, k) = finish_consensus-signed epoch c o doc b last in
                record {
                  srv = srv;
                  agreed = p;
                  prior = prior;
                  prior_known = q;
                  tallied = t;
                  tally = r;
                  unsigned = unsigned;
                  made = made;
                  document = e;
                  well_formed = f;
                  signed = g;
                  after = k;
                }
          ]
    ]
  ]

  tally_of_votes :
      (t : Tallied) (o : Option (Dict Document))
      → tally_votes lib.codec u.pinned u.threshold o ≡ go_on t
      → (votes : Dict Document) × (o ≡ some votes)
        × (tally_votes lib.codec u.pinned u.threshold (some votes) ≡ go_on t)
  unfolding tally_votes
  tally_of_votes t none h = cc
  tally_of_votes t (some votes) h = (votes, refl, h)

  -- A consensus that an authority makes and signs: its shared random value comes from at least a
  -- threshold of certificates, and from at least a threshold of commits, each of the epoch and signed by
  -- its author's known key, and of as many reveals, each signed by the same key and fitting the commit; its parameters and replicas are those of the tally of the votes; it was well-formed
  -- before it was signed; and every gateway, service node and mix in it is pinned, and is listed by the
  -- votes, under an encoding that decodes to it, as often as the threshold says.
  pub get_my_consensus-IsSound :
      (now epoch : ℕ) (a b : Authority) (doc : Document)
      → get_my_consensus u lib now epoch a ≡ (go_on doc, b)
      → IsSound epoch a doc b
  get_my_consensus-IsSound now epoch a b doc h =
      let s = get_my_consensus-Steps now epoch a b doc h in
      let t = s.tallied in
      let f =
        get_document-Filled u lib now t.nodes t.replica_nodes t.params s.srv
          (record a { prior_srv = s.prior }) s.made s.unsigned s.document in
      let (votes, voted, tally) = tally_of_votes t (lookup epoch a.voted.votes) s.tally in
      let (mixes, replicas, params) =
        tally_votes_lem lib.codec u.pinned u.threshold votes t tally in
      record {
        srv = s.srv;
        random = agreed_random-IsRandom epoch a s.srv s.agreed;
        votes = votes;
        tallied = t;
        voted = voted;
        tally = tally;
        unsigned = s.unsigned;
        signed = s.signed;
        well_formed = s.well_formed;
        value = f.value;
        for_epoch = f.for_epoch;
        params = f.same_params;
        replicas = f.same_replicas;
        nodes =
            get_document-Everywhere _ u lib now t.nodes t.replica_nodes t.params s.srv
              (record a { prior_srv = s.prior }) s.made s.unsigned s.document mixes;
        saved = rw s.after (ap (λ m. put epoch doc m) f.kept_view);
        kept = rw s.after f.kept_voted;
      }
