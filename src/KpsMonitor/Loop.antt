-- ===== src/KpsMonitor/Loop.antt =====
-- The main loop of kps-monitor/main.go: it fetches the address, dials, and probes until a probe
-- fails twice. What the network answers is an event; log lines are left out.
pub mod Backoff
pub mod Invariant
pub mod Lost
use zknet_anon_rpc_demo.Common.{
  ℕ, zero, suc, ◌+◌, ◌*◌, ◌^◌, ◌||◌, List, [], ◌∷◌, Bool, true, false, Option, none, some, ltb,
  ◌==◌, if◌then◌else◌, ◌≡◌, ◌≢◌, contains,
}
use zknet_anon_rpc_demo.KpsMonitor.Rpc.{RpcErr, RpcOutcome}
use zknet_anon_rpc_demo.KpsMonitor.Stats.{RpcState, ProbeResult, new_state, record_result}

unfoldable pub min_int : ℕ → ℕ → ℕ
min_int a b = if ltb a b then a else b

-- `minInt(5<<minInt(backoffCount, 3), 60)`, in seconds
unfoldable pub backoff_delay : ℕ → ℕ
unfolding min_int
backoff_delay backoff_count = min_int (5 * 2 ^ min_int backoff_count 3) 60

-- Where the loop stands: before `fetchKPSAddr`, or in the inner loop over a connection. A
-- connection is a number.
pub data Phase : Type 0 where
  connecting : Phase
  probing : ℕ → Phase

-- `closed` are the connections that `Close` was called on, `delays` the pauses taken before a new
-- attempt, both the newest first.
pub record Monitor : Type 0 where
  pub stats : RpcState
  pub current : Option ℕ
  pub closed : List ℕ
  pub backoff_count : ℕ
  pub delays : List ℕ
  pub phase : Phase

pub data Event : Type 0 where
  boot_failed : Event
  dial_failed : List ℕ → Event
  dialled : List ℕ → ℕ → Event
  probed : ℕ → RpcOutcome → RpcOutcome → Event

abbrev pub init : ℕ → Monitor
init now = record {
  stats = new_state now;
  current = none;
  closed = [];
  backoff_count = 0;
  delays = [];
  phase = connecting;
}

-- `backoffCount++`, the pause, and `st.connected = false`
abbrev back_off : Monitor → Monitor
back_off m =
    let n = m.backoff_count + 1 in
    record m {
      backoff_count = n;
      delays = backoff_delay n ∷ m.delays;
      stats = record m.stats { connected = false };
    }

abbrev pub close_current : Option ℕ → List ℕ → List ℕ
close_current none closed = closed
close_current (some c) closed = c ∷ closed

-- From the address on, up to `kps.Dial`.
abbrev before_dial : Monitor → List ℕ → Monitor
before_dial m addr = record m {
  stats = record m.stats { kps_addr = addr };
  closed = close_current m.current m.closed;
}

-- The retry of a probe that failed.
abbrev pub last_attempt : RpcOutcome → RpcOutcome → Option RpcErr → RpcOutcome
last_attempt first second none = first
last_attempt first second (some e) = second

abbrev after_probe : Monitor → ℕ → RpcOutcome → Option RpcErr → Monitor
after_probe m now o none = record m {
  stats =
      record_result m.stats now
        (record { success = true; rtt_ms = o.rtt_ms; result = o.result; err = none });
}
after_probe m now o (some e) = record m {
  stats =
      record_result m.stats now (record { success = false; rtt_ms = 0; result = []; err = some e });
  phase = connecting;
}

-- `none`: the event cannot happen where the loop stands.
abbrev dispatch : Phase → Event → Monitor → Option Monitor
dispatch connecting boot_failed m = some (back_off m)
dispatch connecting (dial_failed addr) m = some (back_off (before_dial m addr))
dispatch connecting (dialled addr c) m =
    let m' = before_dial m addr in
    some (record m' {
      backoff_count = 0;
      current = some c;
      stats = record m'.stats { connected = true };
      phase = probing c;
    })
dispatch (probing c) (probed now first second) m =
    let o = last_attempt first second first.rpc_err in some (after_probe m now o o.rpc_err)
dispatch _ _ m = none

unfoldable pub step : Monitor → Event → Option Monitor
step m e = dispatch m.phase e m

-- `kps.Dial` returns a connection of its own, none of those before.
abbrev pub IsFresh : Monitor → Event → Type 0
IsFresh m (dialled addr c) = (contains m.closed c ≡ false) × (m.current ≢ some c)
IsFresh m _ = Unit {0}

pub data Reach (start : ℕ) : Monitor → Type 0 where
  here : Reach start (init start)
  next :
      {m m' : Monitor} (e : Event)
      → Reach start m
      → IsFresh m e
      → step m e ≡ some m'
      → Reach start m'
