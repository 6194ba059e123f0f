-- ===== src/Dirauth/Examples/Tally.antt =====
-- The tally of votes at concrete inputs.
use zknet_anon_rpc_demo.Common.{
  ℕ, ◌≤◌, ◌≡◌, refl, sym, ◌∙◌, inl, inr, Bool-cases, List, [], ◌∷◌, true, some, arith, All,
}
use zknet_anon_rpc_demo.Common.Text.{same_text, same_text_lem}
use zknet_anon_rpc_demo.Common.Dict.{Dict, lookup}
use zknet_anon_rpc_demo.Common.Try.{done}
use zknet_anon_rpc_demo.Common.Step.{go_on, stop}
use zknet_anon_rpc_demo.Dirauth.Pki.{Document}
use zknet_anon_rpc_demo.Dirauth.Authorization.{
  is_descriptor_authorized, is_replica_descriptor_authorized, descriptor_authorization_error,
}
use zknet_anon_rpc_demo.Dirauth.Tally.{
  Codec, Tallied, tally_votes, tally_nodes, tally_all, tally_vote, append_vote, append_all,
  append_layers, select, select_params, sort_by, insert_by, not_enough_votes,
}
use zknet_anon_rpc_demo.Dirauth.Tally.Support.{
  support, mix_listed, replica_listed, params_listed, listed, listed_layers,
}
use zknet_anon_rpc_demo.Common.Sorted.{In}
use zknet_anon_rpc_demo.Dirauth.Tally.Select.{Chosen}
use zknet_anon_rpc_demo.Dirauth.Tally.Threshold.{
  tally_votes_lem, tally_votes_complete, tally_votes_params,
}
use zknet_anon_rpc_demo.Dirauth.Tally.Agreement.{OneEach, key_of, tally_votes_agree}
use zknet_anon_rpc_demo.Dirauth.Examples.{parameters, mix, pinned, ballot, head_or_zero}

-- A descriptor is written as its identity key, and parameters as the bits of Mu.
abbrev pub codec : Codec
codec = record {
  marshal_mix = λ desc. done desc.identity_key;
  unmarshal_mix = λ key. done (record mix { identity_key = key });
  marshal_replica = λ desc. done desc.identity_key;
  unmarshal_replica = λ key.
      done
        (record { name = []; identity_key = key; replica_id = 0; envelope_keys = []; others = [] });
  encode_params = λ params. done (params.mu ∷ []);
  decode_params = λ bytes. done (record parameters { mu = head_or_zero bytes });
}

-- A vote with other parameters, and with a mix that nobody has pinned.
abbrev stray : Document
stray = record ballot {
  params = record parameters { mu = 8 };
  topology = ((record mix { identity_key = 4 ∷ [] }) ∷ mix ∷ []) ∷ [];
}

abbrev votes : Dict Document
votes = (3, stray) ∷ (1, ballot) ∷ (2, ballot) ∷ []

abbrev reordered : Dict Document
reordered = (2, ballot) ∷ (3, stray) ∷ (1, ballot) ∷ []

abbrev tallied : Tallied
tallied = record { nodes = mix ∷ []; replica_nodes = []; params = parameters }

tally_of_votes : tally_votes codec pinned 2 (some votes) ≡ go_on tallied
unfolding tally_votes tally_nodes tally_all tally_vote append_vote append_all append_layers select
    select_params sort_by insert_by same_text descriptor_authorization_error lookup
tally_of_votes = refl

same_tally : tally_votes codec pinned 2 (some reordered) ≡ go_on tallied
unfolding tally_votes tally_nodes tally_all tally_vote append_vote append_all append_layers select
    select_params sort_by insert_by same_text descriptor_authorization_error lookup
same_tally = refl

too_few : tally_votes codec pinned 2 (some ((1, ballot) ∷ [])) ≡ stop not_enough_votes
unfolding tally_votes
too_few = refl

mix-authorized : is_descriptor_authorized pinned mix ≡ true
unfolding descriptor_authorization_error same_text lookup
mix-authorized = refl

mix-supported : 2 ≤ support (mix_listed codec (9 ∷ [])) votes
unfolding support listed listed_layers same_text
mix-supported = omega arith

same_support :
    (k : List ℕ) → support (params_listed codec k) votes ≡ support (params_listed codec k) reordered
unfolding support
same_support k = omega arith

tally_votes_lem_example :
    All
      (Chosen codec.unmarshal_mix
        (is_descriptor_authorized pinned)
        2
        (λ k. support (mix_listed codec k) votes))
      tallied.nodes
    × All
        (Chosen codec.unmarshal_replica
          (is_replica_descriptor_authorized pinned)
          2
          (λ k. support (replica_listed codec k) votes))
        tallied.replica_nodes
    × ((k : List ℕ) × (codec.decode_params k ≡ done tallied.params)
        × (2 ≤ support (params_listed codec k) votes))
tally_votes_lem_example = tally_votes_lem codec pinned 2 votes tallied tally_of_votes

tally_votes_complete_example : In mix tallied.nodes
tally_votes_complete_example =
    tally_votes_complete codec pinned 2 votes tallied (9 ∷ []) mix (omega arith) tally_of_votes refl
      mix-authorized mix-supported

tally_votes_params_example : tallied.params ≡ tallied.params
tally_votes_params_example =
    tally_votes_params codec pinned pinned 2 votes reordered tallied tallied (omega arith)
      same_support tally_of_votes same_tally

-- Only the encoding of `mix` has two votes.
only_mix : (j : List ℕ) → 2 ≤ support (mix_listed codec j) votes → 9 ∷ [] ≡ j
unfolding support listed listed_layers
only_mix j h = elim (Bool-cases (same_text (9 ∷ []) j)) [
  | inl same ↦ same_text_lem (9 ∷ []) j same
  | inr differs ↦ absurd (ground (arith, differs))
]

one_each : OneEach (key_of pinned) codec.unmarshal_mix 2 (λ k. support (mix_listed codec k) votes)
one_each j k a b d e n m same = sym (only_mix j n) ∙ only_mix k m

same_mixes :
    (k : List ℕ) → support (mix_listed codec k) votes ≡ support (mix_listed codec k) reordered
unfolding support
same_mixes k = omega arith

tally_votes_agree_example : tallied.nodes ≡ tallied.nodes
tally_votes_agree_example =
    tally_votes_agree codec pinned 2 votes reordered tallied tallied (omega arith) one_each
      same_mixes tally_of_votes same_tally
