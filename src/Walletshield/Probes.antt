-- ===== src/Walletshield/Probes.antt =====
-- `SendTestProbes` of walletshield/main.go. The times are float64 values that are only added and
-- compared here: a number of nanoseconds, the largest float64, or NaN.
pub mod Rtt
pub mod Count
use zknet_anon_rpc_demo.Common.{
  ℕ, zero, suc, ◌+◌, ◌&&◌, List, [], ◌∷◌, Bool, true, false, Option, none, some, ltb, leb, ◌==◌,
  not, if◌then◌else◌,
}

pub data Float : Type 0 where
  num : ℕ → Float
  max_float nan : Float

-- IEEE `<`: false whenever a side is NaN.
abbrev pub less : Float → Float → Bool
less (num a) (num b) = ltb a b
less (num a) max_float = true
less (num a) nan = false
less max_float _ = false
less nan _ = false

pub record Probes : Type 0 where
  pub packets_transmitted : ℕ
  pub packets_received : ℕ
  pub rtt_min : Float
  pub rtt_max : Float
  pub rtt_total : ℕ

abbrev pub no_probes : Probes
no_probes = record {
  packets_transmitted = 0;
  packets_received = 0;
  rtt_min = max_float;
  rtt_max = num 0;
  rtt_total = 0;
}

-- One probe: the time until its reply, or `none` for an error.
abbrev count_reply : Probes → Option ℕ → Probes
count_reply p none = p
count_reply p (some elapsed) = record p {
  packets_received = p.packets_received + 1;
  rtt_total = p.rtt_total + elapsed;
  rtt_min = if less (num elapsed) p.rtt_min then num elapsed else p.rtt_min;
  rtt_max = if less p.rtt_max (num elapsed) then num elapsed else p.rtt_max;
}

-- `if packetsReceived == 0 { rttMin = math.NaN() }`
abbrev nan_if_none : Probes → Probes
nan_if_none p = if p.packets_received == 0 then record p { rtt_min = nan } else p

-- One round of the loop, up to the line that it reports.
unfoldable pub probe_round : Probes → Option ℕ → Probes
probe_round p reply =
    nan_if_none (count_reply (record p { packets_transmitted = p.packets_transmitted + 1 }) reply)

-- The loop: `replies n` is the reply to the n-th probe. The result is what the last line before
-- `os.Exit(0)` reports; `none` is a loop that has not ended within the fuel.
unfoldable pub send_test_probes : ℕ → ℕ → (ℕ → Option ℕ) → Probes → Option Probes
unfolding probe_round
send_test_probes zero count replies p = none
send_test_probes (suc fuel) count replies p =
    let p' = probe_round p (replies p.packets_transmitted) in
    let rest = send_test_probes fuel count replies p' in
    if not (count == 0) && leb count p'.packets_transmitted then some p' else rest
