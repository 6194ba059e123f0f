-- ===== src/Walletshield/Probes/Count.antt =====
-- How many probes `SendTestProbes` sends.
use zknet_anon_rpc_demo.Common.{
  ℕ, zero, suc, ◌+◌, ◌≤◌, ◌<◌, ◌≡◌, refl, Option, none, some, arith, Bool-cases, inl, inr, leb,
}
use zknet_anon_rpc_demo.Walletshield.Probes.{Probes, no_probes, probe_round, send_test_probes}

round_count :
    (p : Probes) (r : Option ℕ) → (probe_round p r).packets_transmitted ≡ p.packets_transmitted + 1
unfolding probe_round
round_count p r = ground arith

probes_from :
    (fuel count : ℕ) (replies : ℕ → Option ℕ) (p : Probes)
    → p.packets_transmitted < count
    → count ≤ fuel + p.packets_transmitted
    → (q : Probes) × (send_test_probes fuel count replies p ≡ some q)
      × (q.packets_transmitted ≡ count)
unfolding send_test_probes
probes_from zero count replies p h f = absurd (omega arith)
probes_from (suc fuel) count replies p h f =
    let next = probe_round p (replies p.packets_transmitted) in
    let one = round_count p (replies p.packets_transmitted) in
    elim (Bool-cases (leb count next.packets_transmitted)) [
      | inl last ↦ (next, ground arith, ground arith)
      | inr more ↦
          let (q, e, n) = probes_from fuel count replies next (ground arith) (omega (arith, one)) in
          (q, ground (arith, e), n)
    ]

-- With a count of one or more the loop ends, and it ends when exactly that many probes have been
-- sent, whatever the replies; as many rounds of fuel are enough.
pub send_test_probes_count :
    (fuel count : ℕ) (replies : ℕ → Option ℕ)
    → 0 < count
    → count ≤ fuel
    → (q : Probes) × (send_test_probes fuel count replies no_probes ≡ some q)
      × (q.packets_transmitted ≡ count)
send_test_probes_count fuel count replies pos enough =
    probes_from fuel count replies no_probes pos (omega arith)

-- With a count of 0 the loop never ends.
pub send_test_probes_endless :
    (fuel : ℕ) (replies : ℕ → Option ℕ) (p : Probes) → send_test_probes fuel 0 replies p ≡ none
unfolding send_test_probes
send_test_probes_endless zero replies p = refl
send_test_probes_endless (suc fuel) replies p = send_test_probes_endless fuel replies _
