-- ===== src/KpsMonitor/Loop/Invariant.antt =====
-- What holds of the monitor between two events.
use zknet_anon_rpc_demo.Common.{
  contains, ℕ, ◌+◌, ◌≤◌, ◌<◌, ◌≡◌, [], ◌∷◌, true, false, some, All, arith, length, length-append,
  length-drop, ◌++◌, ◌-◌,
}
use zknet_anon_rpc_demo.KpsMonitor.Loop.{
  Phase, connecting, probing, Monitor, Event, boot_failed, dial_failed, dialled, probed, init, step,
  IsFresh, Reach, here, next,
}
use zknet_anon_rpc_demo.KpsMonitor.Loop.Backoff.{backoff_delay_bounds}
use zknet_anon_rpc_demo.KpsMonitor.Stats.{RpcState, ProbeResult, max_history, record_result}

abbrev pub Delay : ℕ → Type 0
Delay d = (10 ≤ d) × (d ≤ 40)

-- What holds of the connection, by the place of the loop. An open one is current and not closed.
abbrev pub Connection : Monitor → Phase → Type 0
Connection m connecting = 0 < m.backoff_count → m.stats.connected ≡ false
Connection m (probing c) =
    (m.stats.connected ≡ true)
    × (m.current ≡ some c)
    × (contains m.closed c ≡ false)
    × (m.backoff_count ≡ 0)

pub record Inv (m : Monitor) : Type 0 where
  pub connection : Connection m m.phase
  pub paused : All Delay m.delays
  pub window : length m.stats.history ≤ max_history

init-Inv : (now : ℕ) → Inv (init now)
init-Inv now = ground arith

record_result_window :
    (s : RpcState) (now : ℕ) (r : ProbeResult)
    → length s.history ≤ max_history
    → length (record_result s now r).history ≤ max_history
unfolding record_result
record_result_window s now r h = ground (
  arith,
  length-append s.history (r ∷ []),
  length-drop (length (s.history ++ (r ∷ [])) - max_history) (s.history ++ (r ∷ [])),
)

record_result_connected :
    (s : RpcState) (now : ℕ) (r : ProbeResult) → (record_result s now r).connected ≡ s.connected
unfolding record_result
record_result_connected s now r = ground arith

step-Inv : (m m' : Monitor) (e : Event) → Inv m → IsFresh m e → step m e ≡ some m' → Inv m'
unfolding step
step-Inv m m' boot_failed v fresh s = ground (arith, backoff_delay_bounds (m.backoff_count + 1))
step-Inv m m' (dial_failed addr) v fresh s =
    ground (arith, backoff_delay_bounds (m.backoff_count + 1))
step-Inv m m' (dialled addr c) v fresh s = ground arith
step-Inv m m' (probed now first second) v fresh s =
    grind (arith, record_result_window, record_result_connected)

-- Whatever the network does, in every state that the loop reaches: a connection that is being
-- probed is the current one, is open and is reported as connected; after a failed attempt the
-- state is reported as not connected; every pause was of 10 to 40 seconds; and the history holds
-- twenty results at most.
pub Reach-Inv : (start : ℕ) (m : Monitor) → Reach start m → Inv m
Reach-Inv start m here = init-Inv start
Reach-Inv start m (next {m = before} e r fresh s) =
    step-Inv before m e (Reach-Inv start before r) fresh s
