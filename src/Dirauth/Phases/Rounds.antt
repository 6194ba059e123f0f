-- ===== src/Dirauth/Phases/Rounds.antt =====
-- Runs of `fsm`: the schedule is kept, and every round begins.
use zknet_anon_rpc_demo.Common.{
  ℕ, zero, suc, ◌+◌, ◌/◌, ◌≤◌, ◌<◌, ◌≡◌, refl, ◌⊎◌, inl, inr, Bool, true, false, ltb, if◌then◌else◌,
  arith, Bool-cases,
}
use zknet_anon_rpc_demo.Dirauth.Phases.{
  Phase, bootstrap, accept_descriptor, accept_vote, accept_reveal, accept_cert, accept_signature,
  Machine, Now, Inputs, fsm, no_consensus, no_signature, not_marshalled, not_signed, signature,
  Consensus, is_none, mix_publish_deadline,
}
use zknet_anon_rpc_demo.Dirauth.Phases.Schedule.{timed, OnTime, phase-OnTime}

-- One call, with the time that its work takes and by how much the next call is late.
pub record Call : Type 0 where
  pub inputs : Inputs
  pub work : ℕ
  pub delay : ℕ

abbrev pub goes_on : Consensus → Bool
goes_on no_consensus = true
goes_on no_signature = false
goes_on not_marshalled = false
goes_on not_signed = false
goes_on (signature sig) = true

module _ (period : ℕ) where
  -- Work and delay are less than an eighth of a period together, and there is no fatal error.
  pub record IsTimely (c : Call) : Type 0 where
    pub soon : c.work + c.delay < period / 8
    pub has_reveal : is_none c.inputs.reveal ≡ false
    pub no_fatal : goes_on c.inputs.consensus ≡ true

  unfoldable pub run : ℕ → (ℕ → Call) → Now → Machine → Now × Machine
  run zero calls now m = (now, m)
  run (suc n) calls now m =
      let (now', m') = run n calls now m in
      let (now'', o) = timed period (calls n).inputs (calls n).work (calls n).delay now' m' in
      (now'', o.machine)

  not_fatal :
      (c : Call) (now : Now) (p : Phase) (epoch elapsed : ℕ)
      → IsTimely c
      → (fsm period c.inputs now elapsed (record { phase = p; voting_epoch = epoch })).fatal ≡ false
  unfolding fsm
  not_fatal c now bootstrap e t w = ground arith
  not_fatal c now accept_descriptor e t w = refl
  not_fatal c now accept_vote e t w = w.has_reveal
  not_fatal c now accept_reveal e t w = refl
  not_fatal c now accept_cert e t w = ground (arith, w.no_fatal)
  not_fatal c now accept_signature e t w = ground arith

  step-OnTime :
      (c : Call) (now : Now) (m : Machine)
      → IsTimely c
      → OnTime period now m
      → OnTime period
          (timed period c.inputs c.work c.delay now m).0
          (timed period c.inputs c.work c.delay now m).1.machine
  step-OnTime c now m w h =
      phase-OnTime period c.inputs c.work c.delay now m.voting_epoch m.phase h w.soon
        (not_fatal c now m.phase m.voting_epoch (now.elapsed + c.work) w)

  -- Where no call is late by an eighth of a period and none meets a fatal error: after any number of
  -- calls, an authority in a voting phase votes on the epoch after the current one, and the five
  -- phases fall into the second to the sixth eighth of the current one, if that holds at the start.
  pub run-OnTime :
      (n : ℕ) (calls : ℕ → Call) (now : Now) (m : Machine)
      → ((i : ℕ) → IsTimely (calls i))
      → OnTime period now m
      → OnTime period (run n calls now m).0 (run n calls now m).1
  unfolding run
  run-OnTime zero calls now m w h = h
  run-OnTime (suc n) calls now m w h =
      step-OnTime (calls n) (run n calls now m).0 (run n calls now m).1 (w n)
        (run-OnTime n calls now m w h)

  -- The most calls until the phase that accepts descriptors begins.
  abbrev due : Now → Phase → ℕ
  due now bootstrap = if ltb (mix_publish_deadline period) now.elapsed then 2 else 1
  due now accept_descriptor = 6
  due now accept_vote = 5
  due now accept_reveal = 4
  due now accept_cert = 3
  due now accept_signature = 2

  due-step :
      (c : Call) (now : Now) (p : Phase) (epoch : ℕ)
      → let m : Machine = record { phase = p; voting_epoch = epoch } in
        IsTimely c
        → OnTime period now m
        → ((timed period c.inputs c.work c.delay now m).1.machine.phase ≡ accept_descriptor)
          ⊎ (suc (
                due
                  (timed period c.inputs c.work c.delay now m).0
                  (timed period c.inputs c.work c.delay now m).1.machine.phase)
              ≤ due now p)
  unfolding fsm
  due-step c now bootstrap e w h =
      elim (Bool-cases (ltb (mix_publish_deadline period) now.elapsed)) [
        | inl late ↦ inr (rw late (ground (arith, w.soon)))
        | inr timely ↦ inl (rw timely refl)
      ]
  due-step c now accept_descriptor e w h = inr (omega arith)
  due-step c now accept_vote e w h = inr (omega arith)
  due-step c now accept_reveal e w h = inr (omega arith)
  due-step c now accept_cert e w h = inr (ground (arith, w.no_fatal))
  due-step c now accept_signature e w h = elim (Bool-cases c.inputs.threshold_consensus) [
    | inl reached ↦ inl (rw reached refl)
    | inr failed ↦ inr (rw failed (ground (arith, w.soon)))
  ]

  due-pos : (now : Now) (p : Phase) → 0 < due now p
  due-pos now bootstrap = ground arith
  due-pos now accept_descriptor = omega arith
  due-pos now accept_vote = omega arith
  due-pos now accept_reveal = omega arith
  due-pos now accept_cert = omega arith
  due-pos now accept_signature = omega arith

  due-max : (now : Now) (p : Phase) → due now p ≤ 6
  due-max now bootstrap = ground arith
  due-max now accept_descriptor = omega arith
  due-max now accept_vote = omega arith
  due-max now accept_reveal = omega arith
  due-max now accept_cert = omega arith
  due-max now accept_signature = omega arith

  next_round :
      (k n : ℕ) (calls : ℕ → Call) (now : Now) (m : Machine)
      → ((i : ℕ) → IsTimely (calls i))
      → OnTime period now m
      → due (run n calls now m).0 (run n calls now m).1.phase ≤ k
      → (j : ℕ) × (n < j) × (j ≤ n + k) × ((run j calls now m).1.phase ≡ accept_descriptor)
  unfolding run
  next_round zero n calls now m w h d =
      absurd (omega (arith, d, due-pos (run n calls now m).0 (run n calls now m).1.phase))
  next_round (suc k) n calls now m w h d =
      let here = run n calls now m in
      elim (due-step (calls n) here.0 here.1.phase here.1.voting_epoch (w n)
        (run-OnTime n calls now m w h)) [
          | inl begun ↦ (suc n, omega arith, omega arith, begun)
          | inr sooner ↦
              let (j, after, within, begun) =
                next_round k (suc n) calls now m w h (omega (arith, sooner, d)) in
              (j, omega (arith, after), omega (arith, within), begun)
        ]

  -- Where no call is late by an eighth of a period and none meets a fatal error: of any six calls in
  -- a row, one begins a round, whether consensus is reached or not.
  pub round_begins :
      (n : ℕ) (calls : ℕ → Call) (now : Now) (m : Machine)
      → ((i : ℕ) → IsTimely (calls i))
      → OnTime period now m
      → (j : ℕ) × (n < j) × (j ≤ n + 6) × ((run j calls now m).1.phase ≡ accept_descriptor)
  round_begins n calls now m w h =
      next_round 6 n calls now m w h (due-max (run n calls now m).0 (run n calls now m).1.phase)
