-- ===== src/Dirauth/Tally/Support.antt =====
-- How many votes stand for a value, and what the tables of a tally hold.
use zknet_anon_rpc_demo.Common.{
  ℕ, ◌+◌, ◌≡◌, List, [], ◌∷◌, if◌then◌else◌, length, arith, length-append,
}
use zknet_anon_rpc_demo.Common.Text.{same_text, same_text_lem}
use zknet_anon_rpc_demo.Common.Dict.{Dict}
use zknet_anon_rpc_demo.Common.Try.{Try, done, failed}
use zknet_anon_rpc_demo.Dirauth.Pki.{MixDescriptor, Document}
use zknet_anon_rpc_demo.Dirauth.Tally.{
  Codec, Table, append_vote, append_encoded, append_all, append_layers, Tallies, add_vote,
  tally_vote, tally_all,
}

-- The number of entries with the key `k`, over the whole table.
unfoldable pub entries : List ℕ → Table → ℕ
entries k [] = 0
entries k ((j, votes) ∷ table) =
    let rest = entries k table in if same_text j k then length votes + rest else rest

-- 1 if a value encodes to `k`, else 0.
abbrev pub one_if : List ℕ → Try (List ℕ) → ℕ
one_if k (failed text) = 0
one_if k (done j) = if same_text j k then 1 else 0

unfoldable pub listed {ℓ} : {A : Type ℓ} → (A → Try (List ℕ)) → List ℕ → List A → ℕ
listed encode k [] = 0
listed encode k (a ∷ rest) = one_if k (encode a) + listed encode k rest

unfoldable pub listed_layers :
    (MixDescriptor → Try (List ℕ)) → List ℕ → List (List MixDescriptor) → ℕ
listed_layers encode k [] = 0
listed_layers encode k (layer ∷ layers) = listed encode k layer + listed_layers encode k layers

append_vote-entries :
    (j k : List ℕ) (vote : Document) (table : Table)
    → entries k (append_vote j vote table) ≡ (if same_text j k then 1 else 0) + entries k table
unfolding entries append_vote
append_vote-entries j k vote [] = ground arith
append_vote-entries j k vote ((i, votes) ∷ table) =
    ground (
      arith,
      append_vote-entries j k vote table,
      length-append votes (vote ∷ []),
      same_text_lem i j,
    )

append_encoded-entries :
    (t : Try (List ℕ)) (k : List ℕ) (vote : Document) (table : Table)
    → entries k (append_encoded t vote table) ≡ one_if k t + entries k table
append_encoded-entries (failed text) k vote table = omega arith
append_encoded-entries (done j) k vote table = append_vote-entries j k vote table

append_all-entries {ℓ} :
    {A : Type ℓ} (encode : A → Try (List ℕ)) (k : List ℕ) (values : List A) (vote : Document)
    (table : Table)
    → entries k (append_all encode values vote table) ≡ listed encode k values + entries k table
unfolding append_all listed
append_all-entries encode k [] vote table = omega arith
append_all-entries encode k (a ∷ rest) vote table = omega (
  arith,
  append_all-entries encode k rest vote (append_encoded (encode a) vote table),
  append_encoded-entries (encode a) k vote table,
)

append_layers-entries :
    (encode : MixDescriptor → Try (List ℕ)) (k : List ℕ) (layers : List (List MixDescriptor))
    (vote : Document) (table : Table)
    → entries k (append_layers encode layers vote table)
      ≡ listed_layers encode k layers + entries k table
unfolding append_layers listed_layers
append_layers-entries encode k [] vote table = omega arith
append_layers-entries encode k (layer ∷ layers) vote table = omega (
  arith,
  append_layers-entries encode k layers vote (append_all encode layer vote table),
  append_all-entries encode k layer vote table,
)

-- A count of a vote whose parameters could be encoded.
abbrev pub if_done : Try (List ℕ) → ℕ → ℕ
if_done (failed text) n = 0
if_done (done bs) n = n

module _ (c : Codec) (k : List ℕ) where
  -- How often a vote lists the mix, gateway or service node that is encoded as `k`.
  abbrev pub mix_listed : Document → ℕ
  mix_listed vote = if_done (c.encode_params vote.params) (
      listed_layers c.marshal_mix k vote.topology
      + (listed c.marshal_mix k vote.service_nodes + listed c.marshal_mix k vote.gateway_nodes))

  abbrev pub replica_listed : Document → ℕ
  replica_listed vote =
      if_done (c.encode_params vote.params) (listed c.marshal_replica k vote.storage_replicas)

  abbrev pub params_listed : Document → ℕ
  params_listed vote = one_if k (c.encode_params vote.params)

-- A sum over the votes.
unfoldable pub support : (Document → ℕ) → Dict Document → ℕ
support count [] = 0
support count ((id, vote) ∷ votes) = count vote + support count votes

module _ (c : Codec) (k : List ℕ) where
  add_vote-entries :
      (vote : Document) (t : Tallies) (e : Try (List ℕ))
      → (entries k (add_vote c vote t e).mix_tally
          ≡ if_done e (
              listed_layers c.marshal_mix k vote.topology
              + (listed c.marshal_mix k vote.service_nodes
                  + listed c.marshal_mix k vote.gateway_nodes))
            + entries k t.mix_tally)
        × (entries k (add_vote c vote t e).replica_tally
            ≡ if_done e (listed c.marshal_replica k vote.storage_replicas)
              + entries k t.replica_tally)
        × (entries k (add_vote c vote t e).mix_params ≡ one_if k e + entries k t.mix_params)
  add_vote-entries vote t (failed text) = (omega arith, omega arith, omega arith)
  add_vote-entries vote t (done bs) =
      let gateways = append_all c.marshal_mix vote.gateway_nodes vote t.mix_tally in
      let nodes = append_all c.marshal_mix vote.service_nodes vote gateways in
      (
        omega (
          arith,
          append_layers-entries c.marshal_mix k vote.topology vote nodes,
          append_all-entries c.marshal_mix k vote.service_nodes vote gateways,
          append_all-entries c.marshal_mix k vote.gateway_nodes vote t.mix_tally,
        ),
        append_all-entries c.marshal_replica k vote.storage_replicas vote t.replica_tally,
        append_vote-entries bs k vote t.mix_params,
      )

  pub tally_all-entries :
      (votes : Dict Document) (t : Tallies)
      → (entries k (tally_all c votes t).mix_tally
          ≡ support (mix_listed c k) votes + entries k t.mix_tally)
        × (entries k (tally_all c votes t).replica_tally
            ≡ support (replica_listed c k) votes + entries k t.replica_tally)
        × (entries k (tally_all c votes t).mix_params
            ≡ support (params_listed c k) votes + entries k t.mix_params)
  unfolding tally_all support tally_vote
  tally_all-entries [] t = (omega arith, omega arith, omega arith)
  tally_all-entries ((id, vote) ∷ votes) t =
      let (a, b, d) = tally_all-entries votes (tally_vote c vote t) in
      let (a', b', d') = add_vote-entries vote t (c.encode_params vote.params) in
      (omega (arith, a, a'), omega (arith, b, b'), omega (arith, d, d'))
