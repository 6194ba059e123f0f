-- ===== src/Walletshield/Probes/Rtt.antt =====
-- The least round-trip time that `SendTestProbes` reports.
use zknet_anon_rpc_demo.Common.{ℕ, ◌<◌, ◌≡◌, refl, List, [], ◌∷◌, Option, none, some, arith, min}
use zknet_anon_rpc_demo.Walletshield.Probes.{num, nan, Probes, no_probes, probe_round}

abbrev pub rounds : Probes → List (Option ℕ) → Probes
rounds p [] = p
rounds p (r ∷ rs) = rounds (probe_round p r) rs

-- The least of `m` and the times among the replies.
abbrev pub least_from : ℕ → List (Option ℕ) → ℕ
least_from m [] = m
least_from m (none ∷ rs) = least_from m rs
least_from m (some t ∷ rs) = least_from (min m t) rs

round_nan : (p : Probes) (r : Option ℕ) → p.rtt_min ≡ nan → (probe_round p r).rtt_min ≡ nan
unfolding probe_round
round_nan p r h = ground arith

rounds_nan : (p : Probes) (rs : List (Option ℕ)) → p.rtt_min ≡ nan → (rounds p rs).rtt_min ≡ nan
rounds_nan p [] h = h
rounds_nan p (r ∷ rs) h = rounds_nan (probe_round p r) rs (round_nan p r h)

-- If the first probe fails, the least time is NaN in every line that is reported, whatever the later
-- probes do.
pub rounds_first_lost : (rs : List (Option ℕ)) → (rounds no_probes (none ∷ rs)).rtt_min ≡ nan
unfolding probe_round
rounds_first_lost rs = rounds_nan _ rs refl

round_min :
    (p : Probes) (m : ℕ) (r : Option ℕ)
    → p.rtt_min ≡ num m
    → 0 < p.packets_received
    → ((probe_round p r).rtt_min ≡ num (least_from m (r ∷ [])))
      × (0 < (probe_round p r).packets_received)
unfolding probe_round
round_min p m none h pos = ground arith
round_min p m (some t) h pos = ground arith

rounds_min :
    (p : Probes) (m : ℕ) (rs : List (Option ℕ))
    → p.rtt_min ≡ num m
    → 0 < p.packets_received
    → (rounds p rs).rtt_min ≡ num (least_from m rs)
rounds_min p m [] h pos = h
rounds_min p m (none ∷ rs) h pos =
    let (e, q) = round_min p m none h pos in rounds_min (probe_round p none) m rs e q
rounds_min p m (some t ∷ rs) h pos =
    let (e, q) = round_min p m (some t) h pos in
    rounds_min (probe_round p (some t)) (min m t) rs e q

-- If the first probe is answered, the least time that is reported is the least of all the answers.
pub rounds_first_answered :
    (t : ℕ) (rs : List (Option ℕ))
    → (rounds no_probes (some t ∷ rs)).rtt_min ≡ num (least_from t rs)
unfolding probe_round
rounds_first_answered t rs = rounds_min _ t rs refl (omega arith)
