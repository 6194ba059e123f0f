-- ===== src/KpsMonitor/Loop/Lost.antt =====
-- What the monitor says and uses after a connection is lost.
use zknet_anon_rpc_demo.Common.{contains, ℕ, ◌+◌, ◌≡◌, refl, List, [], true, false, some, arith}
use zknet_anon_rpc_demo.KpsMonitor.Rpc.{RpcOutcome, RpcErr}
use zknet_anon_rpc_demo.KpsMonitor.Loop.{connecting, probing, Monitor, dial_failed, probed, step}
use zknet_anon_rpc_demo.KpsMonitor.Loop.Invariant.{Inv}
use zknet_anon_rpc_demo.KpsMonitor.Stats.{record_result}

-- In a state that the loop reaches, a probe that fails twice ends the inner loop, but the state goes on to be reported as connected,
-- and the lost connection stays the one that the `/rpc` handler uses; one more error is counted.
pub lost_probe :
    (m : Monitor) (c now : ℕ) (first second : RpcOutcome) (e e' : RpcErr)
    → Inv m
    → m.phase ≡ probing c
    → first.rpc_err ≡ some e
    → second.rpc_err ≡ some e'
    → (m' : Monitor) × (step m (probed now first second) ≡ some m')
      × (m'.phase ≡ connecting)
      × (m'.stats.connected ≡ true)
      × (m'.current ≡ some c)
      × (m'.stats.error_count ≡ m.stats.error_count + 1)
unfolding step record_result
lost_probe m c now first second e e' v p f g = (
  record m {
    stats =
        record_result m.stats now
          (record { success = false; rtt_ms = 0; result = []; err = some e' });
    phase = connecting;
  },
  ground arith,
  refl,
  ground arith,
  ground arith,
  refl,
)

-- Where a dial fails after the loop had a connection, that connection has been closed, and it is
-- still the one that the `/rpc` handler uses.
pub dial_failed_closed :
    (m m' : Monitor) (addr : List ℕ) (c : ℕ)
    → m.current ≡ some c
    → step m (dial_failed addr) ≡ some m'
    → (m'.current ≡ some c) × (contains m'.closed c ≡ true)
unfolding step
dial_failed_closed m m' addr c p s = ground arith
