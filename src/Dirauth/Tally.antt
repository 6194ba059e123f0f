-- ===== src/Dirauth/Tally.antt =====
-- `tallyVotes` of katzenpost/authority/voting/server/state.go. A Go map from a serialised value to
-- the votes that have it is a list, in the order in which a `range` over it happens to go.
pub mod Support
pub mod Select
pub mod Threshold
pub mod Agreement
use zknet_anon_rpc_demo.Common.{
  ℕ, List, [], ◌∷◌, ◌++◌, Bool, true, false, Option, none, some, ltb, leb, if◌then◌else◌, length,
}
use zknet_anon_rpc_demo.Common.Text.{same_text}
use zknet_anon_rpc_demo.Common.Dict.{Dict}
use zknet_anon_rpc_demo.Common.Step.{Step, go_on, stop, ◌>>=◌, ◌>>◌, orelse}
use zknet_anon_rpc_demo.Common.Try.{Try, done, failed}
use zknet_anon_rpc_demo.Dirauth.Pki.{MixDescriptor, ReplicaDescriptor, Parameters, Document}
use zknet_anon_rpc_demo.Dirauth.Authorization.{
  Pinned, is_descriptor_authorized, is_replica_descriptor_authorized,
}

-- The encodings of descriptors and of parameters, of core/pki and encoding/gob.
pub record Codec : Type 0 where
  pub marshal_mix : MixDescriptor → Try (List ℕ)
  pub unmarshal_mix : List ℕ → Try MixDescriptor
  pub marshal_replica : ReplicaDescriptor → Try (List ℕ)
  pub unmarshal_replica : List ℕ → Try ReplicaDescriptor
  pub encode_params : Parameters → Try (List ℕ)
  pub decode_params : List ℕ → Try Parameters

abbrev pub Table : Type 0
Table = List (List ℕ × List Document)

-- `m[k] = append(m[k], vote)`, where a missing entry is made first
unfoldable pub append_vote : List ℕ → Document → Table → Table
append_vote k vote [] = (k, vote ∷ []) ∷ []
append_vote k vote ((j, votes) ∷ table) =
    let rest = append_vote k vote table in
    if same_text j k then (j, votes ++ (vote ∷ [])) ∷ table else (j, votes) ∷ rest

abbrev pub append_encoded : Try (List ℕ) → Document → Table → Table
append_encoded (failed text) vote table = table
append_encoded (done k) vote table = append_vote k vote table

-- A loop over values of a vote, in which a value that cannot be encoded is skipped.
unfoldable pub append_all {ℓ} :
    {A : Type ℓ} → (A → Try (List ℕ)) → List A → Document → Table → Table
append_all encode [] vote table = table
append_all encode (a ∷ rest) vote table =
    append_all encode rest vote (append_encoded (encode a) vote table)

unfoldable pub append_layers :
    (MixDescriptor → Try (List ℕ)) → List (List MixDescriptor) → Document → Table → Table
append_layers encode [] vote table = table
append_layers encode (layer ∷ layers) vote table =
    append_layers encode layers vote (append_all encode layer vote table)

pub record Tallies : Type 0 where
  pub mix_params : Table
  pub mix_tally : Table
  pub replica_tally : Table

-- `len(votes) >= s.threshold`
abbrev pub enough {ℓ} : {A : Type ℓ} → ℕ → List A → Bool
enough threshold votes = leb threshold (length votes)

module _ (c : Codec) where
  -- One vote, which is skipped as a whole if its parameters cannot be encoded.
  abbrev pub add_vote : Document → Tallies → Try (List ℕ) → Tallies
  add_vote vote t (failed text) = t
  add_vote vote t (done bs) = record {
    mix_params = append_vote bs vote t.mix_params;
    mix_tally = append_layers c.marshal_mix vote.topology vote (
        append_all c.marshal_mix vote.service_nodes vote
          (append_all c.marshal_mix vote.gateway_nodes vote t.mix_tally));
    replica_tally = append_all c.marshal_replica vote.storage_replicas vote t.replica_tally;
  }

  unfoldable pub tally_vote : Document → Tallies → Tallies
  tally_vote vote t = add_vote vote t (c.encode_params vote.params)

  unfoldable pub tally_all : Dict Document → Tallies → Tallies
  tally_all [] t = t
  tally_all ((id, vote) ∷ votes) t = tally_all votes (tally_vote vote t)

-- The values with enough votes that are authorised; one that cannot be decoded ends it with an error.
unfoldable pub select {ℓ} : {A : Type ℓ} → (List ℕ → Try A) → (A → Bool) → ℕ → Table → Try (List A)
select decode authorized threshold [] = done []
select decode authorized threshold ((k, votes) ∷ table) =
    let rest = select decode authorized threshold table in
    if enough threshold votes
    then elim (decode k) [
      | failed text ↦ failed text
      | done a ↦ elim rest [
        | failed text ↦ failed text
        | done chosen ↦ if authorized a then done (a ∷ chosen) else done chosen
      ]
    ]
    else rest

-- The first parameters with enough votes; those that cannot be decoded are skipped.
unfoldable pub select_params : (List ℕ → Try Parameters) → ℕ → Table → Option Parameters
select_params decode threshold [] = none
select_params decode threshold ((k, votes) ∷ table) =
    let rest = select_params decode threshold table in
    elim (decode k) [
      | failed text ↦ rest
      | done params ↦ if enough threshold votes then some params else rest
    ]

-- `sort.Slice` by a key, ascending: values of one key are left in some order.
unfoldable pub insert_by {ℓ} : {A : Type ℓ} → (A → ℕ) → A → List A → List A
insert_by key a [] = a ∷ []
insert_by key a (b ∷ bs) =
    let rest = insert_by key a bs in if ltb (key b) (key a) then b ∷ rest else a ∷ b ∷ bs

unfoldable pub sort_by {ℓ} : {A : Type ℓ} → (A → ℕ) → List A → List A
sort_by key [] = []
sort_by key (a ∷ rest) = insert_by key a (sort_by key rest)

-- The mixes, the replicas and the parameters of a consensus.
pub record Tallied : Type 0 where
  pub nodes : List MixDescriptor
  pub replica_nodes : List ReplicaDescriptor
  pub params : Parameters

pub data TallyError : Type 0 where
  no_votes not_enough_votes no_params : TallyError
  bad_descriptor : List ℕ → TallyError

abbrev pub some_params : Option Parameters → Step TallyError Parameters
some_params none = stop no_params
some_params (some params) = go_on params

module _ (c : Codec) (p : Pinned) (threshold : ℕ) where
  unfoldable pub tally_nodes : Tallies → Step TallyError Tallied
  tally_nodes t = do
    nodes ←
        orelse (select c.unmarshal_mix (is_descriptor_authorized p) threshold t.mix_tally)
          bad_descriptor
    replicas ←
        orelse
          (select c.unmarshal_replica (is_replica_descriptor_authorized p) threshold
            t.replica_tally)
          bad_descriptor
    params ← some_params (select_params c.decode_params threshold t.mix_params)
    go_on (record {
      nodes = sort_by (λ desc. p.sum256 desc.identity_key) nodes;
      replica_nodes = sort_by (λ desc. p.sum256 desc.identity_key) replicas;
      params = params;
    })

  -- `none`: there is no map of votes for the epoch.
  unfoldable pub tally_votes : Option (Dict Document) → Step TallyError Tallied
  tally_votes none = stop no_votes
  tally_votes (some votes) =
      if ltb (length votes) threshold
      then stop not_enough_votes
      else tally_nodes
          (tally_all c votes (record { mix_params = []; mix_tally = []; replica_tally = [] }))
