-- ===== src/Dirauth/Tally/Threshold.antt =====
-- What the result of a tally rests on.
use zknet_anon_rpc_demo.Common.{
  ℕ, ◌+◌, ◌*◌, ◌≤◌, ◌<◌, ◌≡◌, refl, inl, inr, List, [], ◌∷◌, true, false, Option, none, some, ltb,
  length, arith, Bool-cases, All,
}
use zknet_anon_rpc_demo.Common.Sorted.{In}
use zknet_anon_rpc_demo.Common.Text.{same_text, same_text_lem}
use zknet_anon_rpc_demo.Common.Dict.{Dict}
use zknet_anon_rpc_demo.Common.Try.{Try, done, failed}
use zknet_anon_rpc_demo.Common.Step.{go_on, orelse, first_step, orelse-done}
use zknet_anon_rpc_demo.Dirauth.Pki.{MixDescriptor, ReplicaDescriptor, Parameters, Document}
use zknet_anon_rpc_demo.Dirauth.Authorization.{
  Pinned, is_descriptor_authorized, is_replica_descriptor_authorized,
}
use zknet_anon_rpc_demo.Dirauth.Tally.{
  Codec, Table, append_encoded, append_all, append_layers, Tallies, add_vote, tally_vote, tally_all,
  select, select_params, sort_by, Tallied, some_params, tally_nodes, tally_votes,
}
use zknet_anon_rpc_demo.Dirauth.Tally.Support.{
  entries, support, mix_listed, replica_listed, params_listed, one_if, tally_all-entries,
}
use zknet_anon_rpc_demo.Dirauth.Tally.Select.{
  Distinct, sort_by-All, sort_by-In, Chosen, select-Chosen, select-In, select_params_lem,
  append_vote-Distinct,
}

append_encoded-Distinct :
    (t : Try (List ℕ)) (vote : Document) (table : Table)
    → Distinct table
    → Distinct (append_encoded t vote table)
append_encoded-Distinct (failed text) vote table d = d
append_encoded-Distinct (done k) vote table d = append_vote-Distinct k vote table d

append_all-Distinct {ℓ} :
    {A : Type ℓ} (encode : A → Try (List ℕ)) (values : List A) (vote : Document) (table : Table)
    → Distinct table
    → Distinct (append_all encode values vote table)
unfolding append_all
append_all-Distinct encode [] vote table d = d
append_all-Distinct encode (a ∷ rest) vote table d =
    append_all-Distinct encode rest vote _ (append_encoded-Distinct (encode a) vote table d)

append_layers-Distinct :
    (encode : MixDescriptor → Try (List ℕ)) (layers : List (List MixDescriptor)) (vote : Document)
    (table : Table)
    → Distinct table
    → Distinct (append_layers encode layers vote table)
unfolding append_layers
append_layers-Distinct encode [] vote table d = d
append_layers-Distinct encode (layer ∷ layers) vote table d =
    append_layers-Distinct encode layers vote _ (append_all-Distinct encode layer vote table d)

add_vote-Distinct :
    (c : Codec) (vote : Document) (t : Tallies) (e : Try (List ℕ))
    → Distinct t.mix_tally
    → Distinct (add_vote c vote t e).mix_tally
add_vote-Distinct c vote t (failed text) d = d
add_vote-Distinct c vote t (done bs) d = append_layers-Distinct c.marshal_mix vote.topology vote _ (
    append_all-Distinct c.marshal_mix vote.service_nodes vote _
      (append_all-Distinct c.marshal_mix vote.gateway_nodes vote _ d))

pub tally_all-Distinct :
    (c : Codec) (votes : Dict Document) (t : Tallies)
    → Distinct t.mix_tally
    → Distinct (tally_all c votes t).mix_tally
unfolding tally_all tally_vote
tally_all-Distinct c [] t d = d
tally_all-Distinct c ((id, vote) ∷ votes) t d =
    tally_all-Distinct c votes _ (add_vote-Distinct c vote t (c.encode_params vote.params) d)

abbrev pub no_tallies : Tallies
no_tallies = record { mix_params = []; mix_tally = []; replica_tally = [] }

module _ (c : Codec) (p : Pinned) (threshold : ℕ) (votes : Dict Document) (r : Tallied) where
  -- What `tallyVotes` has selected, before it is sorted.
  pub record Selected : Type 0 where
    pub nodes : List MixDescriptor
    pub replicas : List ReplicaDescriptor
    pub tallies : Tallies
    pub is_tally : tallies ≡ tally_all c votes no_tallies
    pub nodes_selected :
        select c.unmarshal_mix (is_descriptor_authorized p) threshold tallies.mix_tally ≡ done nodes
    pub replicas_selected :
        select c.unmarshal_replica
          (is_replica_descriptor_authorized p)
          threshold
          tallies.replica_tally
        ≡ done replicas
    pub params_selected : select_params c.decode_params threshold tallies.mix_params ≡ some r.params
    pub same_nodes : r.nodes ≡ sort_by (λ desc. p.sum256 desc.identity_key) nodes
    pub same_replicas : r.replica_nodes ≡ sort_by (λ desc. p.sum256 desc.identity_key) replicas

  some_params_lem : (o : Option Parameters) {q : Parameters} → some_params o ≡ go_on q → o ≡ some q
  some_params_lem none h = cc
  some_params_lem (some q) h = ground arith

  pub tally_votes-Selected : tally_votes c p threshold (some votes) ≡ go_on r → Selected
  unfolding tally_votes tally_nodes
  tally_votes-Selected h = elim (Bool-cases (ltb (length votes) threshold)) [
    | inl few ↦ absurd (ground arith)
    | inr many ↦
        let t = tally_all c votes no_tallies in
        let run : tally_nodes c p threshold t ≡ go_on r = ground arith in
        let (nodes, p1, h1) = first_step (orelse (select _ _ _ t.mix_tally) _) _ run in
        let (replicas, p2, h2) = first_step (orelse (select _ _ _ t.replica_tally) _) _ h1 in
        let (params, p3, h3) =
          first_step (some_params (select_params c.decode_params threshold t.mix_params)) _ h2 in
        record {
          nodes = nodes;
          replicas = replicas;
          tallies = t;
          is_tally = refl;
          nodes_selected = orelse-done _ _ p1;
          replicas_selected = orelse-done _ _ p2;
          params_selected = ground (arith, some_params_lem _ p3);
          same_nodes = ground arith;
          same_replicas = ground arith;
        }
  ]

  -- Every mix and every replica of a tally is authorised, and decodes from bytes that the votes list
  -- at least as often as the threshold says; and so many votes have the parameters of the tally.
  pub tally_votes_lem :
      tally_votes c p threshold (some votes) ≡ go_on r
      → All
          (Chosen c.unmarshal_mix
            (is_descriptor_authorized p)
            threshold
            (λ k. support (mix_listed c k) votes))
          r.nodes
        × All
            (Chosen c.unmarshal_replica
              (is_replica_descriptor_authorized p)
              threshold
              (λ k. support (replica_listed c k) votes))
            r.replica_nodes
        × ((k : List ℕ) × (c.decode_params k ≡ done r.params)
            × (threshold ≤ support (params_listed c k) votes))
  unfolding entries
  tally_votes_lem h =
      let s = tally_votes-Selected h in
      let e = s.is_tally in
      (
        rw s.same_nodes (
            sort_by-All _ _ s.nodes (
              select-Chosen _ _ threshold _ s.tallies.mix_tally s.nodes
                (λ k. ground (arith, tally_all-entries c k votes no_tallies, e)) s.nodes_selected)),
        rw s.same_replicas (
            sort_by-All _ _ s.replicas (
              select-Chosen _ _ threshold _ s.tallies.replica_tally s.replicas
                (λ k. ground (arith, tally_all-entries c k votes no_tallies, e))
                s.replicas_selected)),
        select_params_lem c.decode_params threshold _ s.tallies.mix_params r.params
            (λ k. ground (arith, tally_all-entries c k votes no_tallies, e)) s.params_selected,
      )

  -- Every descriptor that is authorised, and that the votes list at least as often as a positive
  -- threshold says under an encoding that decodes to it, is among the mixes of a tally.
  pub tally_votes_complete :
      (k : List ℕ) (desc : MixDescriptor)
      → 0 < threshold
      → tally_votes c p threshold (some votes) ≡ go_on r
      → c.unmarshal_mix k ≡ done desc
      → is_descriptor_authorized p desc ≡ true
      → threshold ≤ support (mix_listed c k) votes
      → In desc r.nodes
  unfolding entries
  tally_votes_complete k desc z h d a n =
      let s = tally_votes-Selected h in
      let t = tally_all c votes no_tallies in
      let e = s.is_tally in
      rw s.same_nodes (
        sort_by-In _ desc s.nodes (
          select-In _ _ threshold (λ i. 0) s.tallies.mix_tally s.nodes k desc
            (rw e (tally_all-Distinct c votes no_tallies tt)) z s.nodes_selected d a
            (ground (arith, tally_all-entries c k votes no_tallies, e, n))))

one_if-two : (j k : List ℕ) (t : Try (List ℕ)) → same_text j k ≡ false → one_if j t + one_if k t ≤ 1
one_if-two j k (failed text) h = omega arith
one_if-two j k (done i) h = ground (arith, same_text_lem i j, same_text_lem i k)

support-two :
    (c : Codec) (j k : List ℕ) (votes : Dict Document)
    → same_text j k ≡ false
    → support (params_listed c j) votes + support (params_listed c k) votes ≤ length votes
unfolding support
support-two c j k [] h = omega arith
support-two c j k ((id, vote) ∷ votes) h =
    omega (arith, one_if-two j k (c.encode_params vote.params) h, support-two c j k votes h)

-- Two authorities with the same support for every parameters, in whatever order their maps are
-- read, tally the same parameters, where the threshold is more than half of the votes.
pub tally_votes_params :
    (c : Codec) (p q : Pinned) (threshold : ℕ) (votes votes' : Dict Document) (r r' : Tallied)
    → length votes < 2 * threshold
    → ((k : List ℕ) → support (params_listed c k) votes ≡ support (params_listed c k) votes')
    → tally_votes c p threshold (some votes) ≡ go_on r
    → tally_votes c q threshold (some votes') ≡ go_on r'
    → r.params ≡ r'.params
tally_votes_params c p q threshold votes votes' r r' majority same h h' =
    let (a, b, (j, dj, nj)) = tally_votes_lem c p threshold votes r h in
    let (a', b', (k, dk, nk)) = tally_votes_lem c q threshold votes' r' h' in
    let s = same k in
    elim (Bool-cases (same_text j k)) [
      | inl e ↦ let i : j ≡ k = same_text_lem j k e in ground arith
      | inr e ↦ absurd (omega (arith, support-two c j k votes e, nj, nk, s, majority))
    ]
