-- ===== src/Walletshield/Tasks/Alone.antt =====
-- A task that runs alone does what the sequential functions do.
use zknet_anon_rpc_demo.Common.{ap, ℕ, zero, suc, ◌≡◌, refl, List, true, false}
use zknet_anon_rpc_demo.Walletshield.Thin.{Env, Server, Sent, ok, err, send_request, reconnect}
use zknet_anon_rpc_demo.Walletshield.Handler.{retry, send_twice}
use zknet_anon_rpc_demo.Walletshield.Tasks.{Task, arrived, finished, after_send, run_task}

module _ (e : Env) where
  unfoldable pub run_times : ℕ → Task → Server → Task × Server
  run_times zero task s = (task, s)
  run_times (suc n) task s = let (task', s') = run_task e task s in run_times n task' s'

  after_send_once : (payload : List ℕ) (sent : Sent) → after_send false payload sent ≡ finished sent
  after_send_once payload (ok reply) = refl
  after_send_once payload (err x) = refl

  after_send-retry :
      (payload : List ℕ) (first : Sent × Server)
      → run_times 2 (after_send true payload first.0) first.1
        ≡ (finished (retry e payload first).0, (retry e payload first).1)
  unfolding run_times run_task
  after_send-retry payload (ok reply, s) = refl
  after_send-retry payload (err x, s) =
      let second = send_request e (reconnect e s).0 payload (reconnect e s).1 in
      ap (λ task. (task, second.1)) (after_send_once payload second.0)

  after_send-stream :
      (payload : List ℕ) (first : Sent × Server)
      → run_times 2 (after_send false payload first.0) first.1 ≡ (finished first.0, first.1)
  unfolding run_times run_task
  after_send-stream payload (ok reply, s) = refl
  after_send-stream payload (err x, s) = refl

  -- A request from the browser that no other task interrupts has ended after four parts, with what
  -- the sequential handler's two attempts give, and so has a KPS stream, with what its one
  -- `sendRequest` gives; both leave the server as the sequential functions do.
  pub run_times-send_twice :
      (payload : List ℕ) (s : Server)
      → (run_times 4 (arrived true payload) s
          ≡ (finished (send_twice e payload s).0, (send_twice e payload s).1))
        × (run_times 4 (arrived false payload) s
            ≡ (finished (send_request e s.thin payload s).0, (send_request e s.thin payload s).1))
  unfolding run_times run_task send_twice
  run_times-send_twice payload s = (
    after_send-retry payload (send_request e s.thin payload s),
    after_send-stream payload (send_request e s.thin payload s),
  )
