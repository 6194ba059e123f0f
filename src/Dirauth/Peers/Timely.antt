-- ===== src/Dirauth/Peers/Timely.antt =====
-- No attempt to send a command begins after the end of its phase.
use zknet_anon_rpc_demo.Common.{
  ℕ, zero, suc, ◌+◌, ◌-◌, ◌≤◌, ◌≡◌, ◌≢◌, refl, inl, inr, ◌⊎◌, List, [], ◌∷◌, Option, none, some,
  ltb, arith, All, length, Bool-cases,
}
use zknet_anon_rpc_demo.Dirauth.Peers.{
  Sent, sent, refused, crashed, Network, Delivery, delivered, given_up, unanswered, died,
  last_or_late, begins, attempts, send_command_to_peer_with_deadline, phase_deadline,
}

Sent-cases :
    (s : Sent)
    → ((answer : List ℕ) × (s ≡ sent answer))
      ⊎ (((text : List ℕ) × (s ≡ refused text)) ⊎ (s ≡ crashed))
Sent-cases (sent answer) = inl (answer, refl)
Sent-cases (refused text) = inr (inl (text, refl))
Sent-cases crashed = inr (inr refl)

-- An attempt was made, or one is left.
abbrev Asked : ℕ → Option (List ℕ) → Type 0
Asked zero none = ⊥
Asked zero (some text) = Unit
Asked (suc left) last = Unit

module _ (n : Network) (deadline : ℕ) where
  -- Every attempt begins by the deadline, there are no more than `left`, and there is a result.
  pub record IsTimely (left : ℕ) (r : Delivery × List ℕ) : Type 0 where
    pub in_time : All (λ t. t ≤ deadline) r.1
    pub bounded : length r.1 ≤ left
    pub answered : r.0 ≢ unanswered

  begins-in_time : (attempt now : ℕ) → now ≤ deadline → begins n deadline attempt now ≤ deadline
  begins-in_time zero now h = h
  begins-in_time (suc attempt) now h = omega (arith, h)

  last_or_late-answered : (o : Option (List ℕ)) → last_or_late o ≢ unanswered
  last_or_late-answered none e = cc
  last_or_late-answered (some text) e = cc

  some-Asked : (left : ℕ) (text : List ℕ) → Asked left (some text)
  some-Asked zero text = tt
  some-Asked (suc left) text = tt

  one-IsTimely :
      (left t : ℕ) (result : Delivery)
      → t ≤ deadline
      → result ≢ unanswered
      → IsTimely (suc left) (result, t ∷ [])
  one-IsTimely left t result h a = record { in_time = (h, tt); bounded = omega arith; answered = a }

  attempts-IsTimely :
      (left attempt : ℕ) (last : Option (List ℕ)) (now : ℕ)
      → Asked left last
      → IsTimely left (attempts n deadline left attempt last now)
  unfolding attempts
  attempts-IsTimely zero attempt none now a = absurd a
  attempts-IsTimely zero attempt (some text) now a = record {
    in_time = tt;
    bounded = omega arith;
    answered = λ e. cc;
  }
  attempts-IsTimely (suc left) attempt last now a = elim (Bool-cases (ltb deadline now)) [
    | inl over ↦
        let r : attempts n deadline (suc left) attempt last now ≡ (last_or_late last, []) =
          ground arith in
        rw r (record { in_time = tt; bounded = omega arith; answered = last_or_late-answered last })
    | inr early ↦
        let at_time = begins n deadline attempt now in
        let soon = begins-in_time attempt now (ground arith) in
        elim (Sent-cases (n.answer attempt)) [
          | inl (answer, e) ↦
              let r : attempts n deadline (suc left) attempt last now
                  ≡ (delivered answer, at_time ∷ []) =
                ground arith in
              rw r (one-IsTimely left at_time (delivered answer) soon (λ e. cc))
          | inr (inr e) ↦
              let r : attempts n deadline (suc left) attempt last now ≡ (died, at_time ∷ []) =
                ground arith in
              rw r (one-IsTimely left at_time died soon (λ e. cc))
          | inr (inl (text, e)) ↦ elim (Bool-cases (n.is_transient text)) [
            | inr permanent ↦
                let r : attempts n deadline (suc left) attempt last now
                    ≡ (given_up text, at_time ∷ []) =
                  ground arith in
                rw r (one-IsTimely left at_time (given_up text) soon (λ e. cc))
            | inl transient ↦
                let again = at_time + n.took attempt in
                let more =
                  attempts-IsTimely left (suc attempt) (some text) again (some-Asked left text) in
                let (result, times) = attempts n deadline left (suc attempt) (some text) again in
                let r : attempts n deadline (suc left) attempt last now
                    ≡ (result, at_time ∷ times) =
                  ground arith in
                rw r (record {
                  in_time = (soon, more.in_time);
                  bounded = omega (arith, more.bounded);
                  answered = more.answered;
                })
          ]
        ]
  ]

  send-IsTimely :
      (addrs : List (List ℕ)) (max_attempts now : ℕ)
      → IsTimely
          (max_attempts + 1)
          (send_command_to_peer_with_deadline n deadline addrs max_attempts now)
  send-IsTimely [] max_attempts now = record {
    in_time = tt;
    bounded = omega arith;
    answered = λ e. cc;
  }
  send-IsTimely (a ∷ addrs) max_attempts now =
      let r = attempts-IsTimely (suc max_attempts) 0 none now tt in
      record { in_time = r.in_time; bounded = omega (arith, r.bounded); answered = r.answered }

phase_deadline-within :
    (target elapsed now : ℕ) → phase_deadline target elapsed now ≤ now + (target - elapsed)
unfolding phase_deadline
phase_deadline-within target elapsed now = ground arith

within-All :
    (bound bound' : ℕ) (times : List ℕ)
    → bound ≤ bound'
    → All (λ t. t ≤ bound) times
    → All (λ t. t ≤ bound') times
within-All bound bound' [] h ps = tt
within-All bound bound' (t ∷ times) h (p, ps) =
    (omega (arith, h, p), within-All bound bound' times h ps)

-- A command that is sent with the deadline of a phase, whatever the peer answers and however long that
-- takes: the sending ends with an answer, an error, a crash or the deadline; it makes no more attempts
-- than the configuration says, and one; and no attempt begins after the end of the phase.
pub send_command_to_peer_with_deadline-IsTimely :
    (n : Network) (addrs : List (List ℕ)) (max_attempts now start target elapsed : ℕ)
    → let r =
        send_command_to_peer_with_deadline n
          (phase_deadline target elapsed start)
          addrs
          max_attempts
          now in
      All (λ t. t ≤ start + (target - elapsed)) r.1
      × (length r.1 ≤ max_attempts + 1)
      × (r.0 ≢ unanswered)
send_command_to_peer_with_deadline-IsTimely n addrs max_attempts now start target elapsed =
    let deadline = phase_deadline target elapsed start in
    let r = send-IsTimely n deadline addrs max_attempts now in
    (
      within-All deadline (start + (target - elapsed)) _
          (phase_deadline-within target elapsed start) r.in_time,
      r.bounded,
      r.answered,
    )
