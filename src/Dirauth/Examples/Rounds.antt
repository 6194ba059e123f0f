-- ===== src/Dirauth/Examples/Rounds.antt =====
-- The voting schedule at concrete inputs.
use zknet_anon_rpc_demo.Common.{ℕ, ◌+◌, ◌≤◌, ◌<◌, ◌≡◌, refl, [], true, some, arith}
use zknet_anon_rpc_demo.Common.Try.{done}
use zknet_anon_rpc_demo.Dirauth.Phases.{
  accept_descriptor, accept_vote, bootstrap, Machine, Now, Inputs, signature, fsm,
}
use zknet_anon_rpc_demo.Dirauth.Phases.Schedule.{OnTime}
use zknet_anon_rpc_demo.Dirauth.Phases.Rounds.{Call, IsTimely, run, run-OnTime, round_begins}

abbrev inputs : Inputs
inputs = record {
  vote = done [];
  reveal = some [];
  certificate = done [];
  consensus = signature [];
  threshold_consensus = true;
}

-- Every call takes 10 and is 5 late, in a period of 1200.
abbrev calls : ℕ → Call
calls i = record { inputs = inputs; work = 10; delay = 5 }

calls-IsTimely : (i : ℕ) → IsTimely 1200 (calls i)
calls-IsTimely i = record { soon = omega arith; has_reveal = refl; no_fatal = refl }

abbrev start : Now
start = record { epoch = 3; elapsed = 100 }

abbrev booting : Machine
booting = record { phase = bootstrap; voting_epoch = 0 }

-- A round, from the start of the authority to the next phase that accepts descriptors.
one_round :
    run 1200 7 calls start booting
    ≡ (record { epoch = 4; elapsed = 305 }, record { phase = accept_vote; voting_epoch = 5 })
unfolding run fsm
one_round = refl

run-OnTime_example :
    OnTime 1200 (run 1200 7 calls start booting).0 (run 1200 7 calls start booting).1
run-OnTime_example = run-OnTime 1200 7 calls start booting calls-IsTimely (omega arith)

round_begins_example :
    (j : ℕ) × (2 < j) × (j ≤ 2 + 6) × ((run 1200 j calls start booting).1.phase ≡ accept_descriptor)
round_begins_example = round_begins 1200 2 calls start booting calls-IsTimely (omega arith)
