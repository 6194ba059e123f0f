-- ===== src/Walletshield/Tasks.antt =====
-- The goroutines of walletshield/main.go that share the server: a request from the browser, a KPS
-- stream, and the watcher of connection events. The parts between which others may run are
-- `getThin` and `reconnect`, which the mutex makes whole, and `sendRequest`, which runs outside it.
pub mod Alone
pub mod Interleaved
pub mod Race
use zknet_anon_rpc_demo.Common.{ℕ, zero, suc, List, [], ◌∷◌, ◌++◌, Bool, true, false}
use zknet_anon_rpc_demo.Walletshield.Thin.{
  Env, Server, SendErr, Sent, ok, err, send_request, reconnect, get_thin,
}

-- `true` for a request from the browser, which is tried again after an error, `false` for a KPS
-- stream. `holding`: a client was taken, and `sendRequest` comes next.
pub data Task : Type 0 where
  arrived : Bool → List ℕ → Task
  holding : Bool → ℕ → List ℕ → Task
  broken : List ℕ → Task
  finished : Sent → Task

abbrev pub after_send : Bool → List ℕ → Sent → Task
after_send retry payload (ok reply) = finished (ok reply)
after_send false payload (err x) = finished (err x)
after_send true payload (err x) = broken payload

pub record System : Type 0 where
  pub server : Server
  pub tasks : List Task

-- `watcher` is the reconnect of the goroutine that watches the events, `run i` lets the i-th task
-- go on.
pub data Event : Type 0 where
  arrive : Bool → List ℕ → Event
  watcher : Event
  run : ℕ → Event

module _ (e : Env) where
  -- The next part of a task.
  unfoldable pub run_task : Task → Server → Task × Server
  run_task (arrived retry payload) s = (holding retry (get_thin s) payload, s)
  run_task (holding retry client payload) s =
      let (sent, s') = send_request e client payload s in (after_send retry payload sent, s')
  run_task (broken payload) s =
      let (client, s') = reconnect e s in (holding false client payload, s')
  run_task (finished sent) s = (finished sent, s)

  unfoldable pub run_at : ℕ → List Task → Server → List Task × Server
  run_at i [] s = ([], s)
  run_at zero (task ∷ tasks) s = let (task', s') = run_task task s in (task' ∷ tasks, s')
  run_at (suc i) (task ∷ tasks) s = let (tasks', s') = run_at i tasks s in (task ∷ tasks', s')

  unfoldable pub step : System → Event → System
  step y (arrive retry payload) = record y { tasks = y.tasks ++ (arrived retry payload ∷ []) }
  step y watcher = record y { server = (reconnect e y.server).1 }
  step y (run i) =
      let (tasks, server) = run_at i y.tasks y.server in record { server = server; tasks = tasks }

  unfoldable pub run_events : System → List Event → System
  run_events y [] = y
  run_events y (event ∷ events) = run_events (step y event) events
