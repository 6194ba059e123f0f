-- ===== src/Dirauth/Phases/Schedule.antt =====
-- The calls of `fsm` in time.
use zknet_anon_rpc_demo.Common.{
  ℕ, ◌+◌, ◌-◌, ◌*◌, ◌/◌, ◌≤◌, ◌<◌, ◌≡◌, inl, inr, false, ltb, if◌then◌else◌, arith, Bool-cases,
}
use zknet_anon_rpc_demo.Dirauth.Phases.{
  Phase, bootstrap, accept_descriptor, accept_vote, accept_reveal, accept_cert, accept_signature,
  Machine, Now, Inputs, Outcome, fsm, no_consensus, no_signature, not_marshalled, not_signed,
  signature, on_consensus, Consensus, mix_publish_deadline, publish_consensus_deadline,
}

module _ (period : ℕ) where
  -- The time after `d` more, which is less than a period beyond the end of the epoch.
  abbrev pub later : Now → ℕ → Now
  later now d =
      if ltb (now.elapsed + d) period
      then record { epoch = now.epoch; elapsed = now.elapsed + d }
      else record { epoch = now.epoch + 1; elapsed = now.elapsed + d - period }

  -- One call, whose work takes `work`, and the time of the next one, which is `delay` late.
  abbrev pub timed : Inputs → ℕ → ℕ → Now → Machine → Now × Outcome
  timed i work delay now m =
      let o = fsm period i now (now.elapsed + work) m in (later now (work + o.sleep + delay), o)

  abbrev pub Window : ℕ → Now → Machine → Type 0
  Window k now m =
      (k * (period / 8) ≤ now.elapsed)
      × (now.elapsed < (k + 1) * (period / 8))
      × (m.voting_epoch ≡ now.epoch + 1)

  abbrev pub InPhase : Phase → Now → Machine → Type 0
  InPhase bootstrap now m = now.elapsed < period
  InPhase accept_descriptor now m = Window 1 now m
  InPhase accept_vote now m = Window 2 now m
  InPhase accept_reveal now m = Window 3 now m
  InPhase accept_cert now m = Window 4 now m
  InPhase accept_signature now m = Window 5 now m

  -- The machine votes on the next epoch, and its k-th phase falls into the k-th eighth of this one.
  abbrev pub OnTime : Now → Machine → Type 0
  OnTime now m = InPhase m.phase now m

  consensus-OnTime :
      (now : Now) (m : Machine) (work delay : ℕ) (c : Consensus)
      → Window 4 now m
      → work + delay < period / 8
      → (on_consensus m (publish_consensus_deadline period - (now.elapsed + work)) c).fatal ≡ false
      → OnTime
          (later now (
            work
            + (on_consensus m (publish_consensus_deadline period - (now.elapsed + work)) c).sleep
            + delay))
          (on_consensus m (publish_consensus_deadline period - (now.elapsed + work)) c).machine
  consensus-OnTime now m work delay no_consensus (a, b, v) w f = ground arith
  consensus-OnTime now m work delay no_signature (a, b, v) w f = absurd (ground arith)
  consensus-OnTime now m work delay not_marshalled (a, b, v) w f = absurd (ground arith)
  consensus-OnTime now m work delay not_signed (a, b, v) w f = absurd (ground arith)
  consensus-OnTime now m work delay (signature s) (a, b, v) w f = ground arith

  pub phase-OnTime :
      (i : Inputs) (work delay : ℕ) (now : Now) (epoch : ℕ) (p : Phase)
      → let m : Machine = record { phase = p; voting_epoch = epoch } in
        OnTime now m
        → work + delay < period / 8
        → (timed i work delay now m).1.fatal ≡ false
        → OnTime (timed i work delay now m).0 (timed i work delay now m).1.machine
  unfolding fsm
  phase-OnTime i work delay now e bootstrap h w f =
      elim (Bool-cases (ltb (mix_publish_deadline period) now.elapsed)) [
        | inl late ↦ rw late (ground arith)
        | inr timely ↦ rw timely (ground arith)
      ]
  phase-OnTime i work delay now e accept_descriptor (a, b, v) w f = ground arith
  phase-OnTime i work delay now e accept_vote (a, b, v) w f = ground arith
  phase-OnTime i work delay now e accept_reveal (a, b, v) w f = ground arith
  phase-OnTime i work delay now e accept_cert h w f =
      consensus-OnTime now _ work delay i.consensus h w f
  phase-OnTime i work delay now e accept_signature (a, b, v) w f =
      elim (Bool-cases i.threshold_consensus) [
        | inl reached ↦ rw reached (ground arith)
        | inr failed ↦ rw failed (ground arith)
      ]
