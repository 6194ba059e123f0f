-- ===== src/KpsMonitor/Stats.antt =====
-- `rpcState` of kps-monitor/main.go. Round-trip times are whole milliseconds, which a float64 holds
-- exactly up to 2^53, and so does a sum of them; the two other float64 expressions are parameters.
pub mod History
pub mod Summary
pub mod Average
use zknet_anon_rpc_demo.Common.{
  ℕ, ◌+◌, ◌-◌, ◌/◌, List, [], ◌∷◌, ◌++◌, Bool, true, false, Option, none, some, ltb, if◌then◌else◌,
  length, drop,
}
use zknet_anon_rpc_demo.KpsMonitor.Rpc.{RpcErr}

pub record ProbeResult : Type 0 where
  pub success : Bool
  pub rtt_ms : ℕ
  pub result : List ℕ
  pub err : Option RpcErr

-- Times are nanoseconds. `min_rtt_ms` is `none` for +Inf.
pub record RpcState : Type 0 where
  pub connected : Bool
  pub kps_addr : List ℕ
  pub started_at : ℕ
  pub last_probe_at : ℕ
  pub last_rtt_ms : ℕ
  pub last_result : List ℕ
  pub min_rtt_ms : Option ℕ
  pub max_rtt_ms : ℕ
  pub total_rtt_ms : ℕ
  pub success_count : ℕ
  pub error_count : ℕ
  pub last_err : Option RpcErr
  pub history : List ProbeResult

-- `&rpcState{startedAt: time.Now(), minRTTMs: math.Inf(1)}`
abbrev pub new_state : ℕ → RpcState
new_state now = record {
  connected = false;
  kps_addr = [];
  started_at = now;
  last_probe_at = 0;
  last_rtt_ms = 0;
  last_result = [];
  min_rtt_ms = none;
  max_rtt_ms = 0;
  total_rtt_ms = 0;
  success_count = 0;
  error_count = 0;
  last_err = none;
  history = [];
}

abbrev pub max_history : ℕ
max_history = 20

-- `if rtt < s.minRTTMs { s.minRTTMs = rtt }`
abbrev pub lower : ℕ → Option ℕ → Option ℕ
lower rtt none = some rtt
lower rtt (some m) = if ltb rtt m then some rtt else some m

abbrev pub higher : ℕ → ℕ → ℕ
higher rtt m = if ltb m rtt then rtt else m

unfoldable pub push_history : List ProbeResult → ProbeResult → List ProbeResult
push_history history result =
    let history' = history ++ (result ∷ []) in
    if ltb max_history (length history')
    then drop (length history' - max_history) history'
    else history'

abbrev pub count_result : RpcState → ProbeResult → Bool → RpcState
count_result s r true = record s {
  success_count = s.success_count + 1;
  last_rtt_ms = r.rtt_ms;
  last_result = r.result;
  total_rtt_ms = s.total_rtt_ms + r.rtt_ms;
  min_rtt_ms = lower r.rtt_ms s.min_rtt_ms;
  max_rtt_ms = higher r.rtt_ms s.max_rtt_ms;
}
count_result s r false = record s { error_count = s.error_count + 1; last_err = r.err }

-- The method `record`, at the time `now`.
unfoldable pub record_result : RpcState → ℕ → ProbeResult → RpcState
unfolding push_history
record_result s now r =
    let t = count_result (record s { last_probe_at = now }) r r.success in
    record t { history = push_history t.history r }

-- `int(time.Since(t).Seconds())` of a duration, and `int(float64(a) / float64(b) * 100)`.
pub record Floats : Type 0 where
  pub whole_seconds : ℕ → ℕ
  pub percent : ℕ → ℕ → ℕ

pub record Snapshot : Type 0 where
  pub connected : Bool
  pub kps_addr : List ℕ
  pub uptime_seconds : ℕ
  pub last_probe_at : ℕ
  pub last_rtt_ms : ℕ
  pub last_result : List ℕ
  pub min_rtt_ms : ℕ
  pub max_rtt_ms : ℕ
  pub avg_rtt_ms : ℕ
  pub success_count : ℕ
  pub error_count : ℕ
  pub success_rate : ℕ
  pub last_error : Option RpcErr
  pub history : List ProbeResult

abbrev zero_if_inf : Option ℕ → ℕ
zero_if_inf none = 0
zero_if_inf (some m) = m

unfoldable pub snapshot : Floats → RpcState → ℕ → Snapshot
snapshot f s now =
    let total = s.success_count + s.error_count in
    record {
      connected = s.connected;
      kps_addr = s.kps_addr;
      uptime_seconds = f.whole_seconds (now - s.started_at);
      last_probe_at = s.last_probe_at;
      last_rtt_ms = s.last_rtt_ms;
      last_result = s.last_result;
      min_rtt_ms = zero_if_inf s.min_rtt_ms;
      max_rtt_ms = s.max_rtt_ms;
      avg_rtt_ms = if ltb 0 s.success_count then s.total_rtt_ms / s.success_count else 0;
      success_count = s.success_count;
      error_count = s.error_count;
      success_rate = if ltb 0 total then f.percent s.success_count total else 0;
      last_error = s.last_err;
      history = s.history;
    }
