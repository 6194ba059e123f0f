-- ===== src/Walletshield/Tasks/Interleaved.antt =====
-- What holds of the server under every interleaving of its tasks.
use zknet_anon_rpc_demo.Common.{
  ℕ, zero, suc, ◌+◌, ◌*◌, ◌≤◌, ◌≡◌, refl, ap, List, [], ◌∷◌, ◌++◌, Bool, true, false, length,
  length-append, arith,
}
use zknet_anon_rpc_demo.Walletshield.Thin.{Env, Server, Sent, ok, err, send_request, reconnect}
use zknet_anon_rpc_demo.Walletshield.Thin.Live.{send_request-IsLive, reconnect-IsLive}
use zknet_anon_rpc_demo.Walletshield.Thin.Limit.{send_request-Fits, reconnect-messages}
use zknet_anon_rpc_demo.Walletshield.Handler.Outcome.{IsServing, reconnect-Fits}
use zknet_anon_rpc_demo.Walletshield.Kps.Streams.{send_request-keeps}
use zknet_anon_rpc_demo.Walletshield.Tasks.{
  Task, arrived, holding, broken, finished, after_send, System, Event, arrive, watcher, run,
  run_task, run_at, step, run_events,
}

-- How many messages a task may have handed over by now.
abbrev pub used : Task → ℕ
used (arrived retry payload) = 0
used (holding true client payload) = 0
used (holding false client payload) = 1
used (broken payload) = 1
used (finished sent) = 2

abbrev pub used_all : List Task → ℕ
used_all [] = 0
used_all (task ∷ tasks) = used task + used_all tasks

abbrev pub arrival : Event → ℕ
arrival (arrive retry payload) = 1
arrival watcher = 0
arrival (run i) = 0

abbrev pub arrivals : List Event → ℕ
arrivals [] = 0
arrivals (event ∷ events) = arrival event + arrivals events

used_all-append :
    (tasks : List Task) (task : Task) → used_all (tasks ++ (task ∷ [])) ≡ used_all tasks + used task
used_all-append [] task = omega arith
used_all-append (t ∷ tasks) task = omega (arith, used_all-append tasks task)

used-max : (task : Task) → used task ≤ 2
used-max (arrived retry payload) = omega arith
used-max (holding true client payload) = omega arith
used-max (holding false client payload) = omega arith
used-max (broken payload) = omega arith
used-max (finished sent) = omega arith

used_all-max : (tasks : List Task) → used_all tasks ≤ 2 * length tasks
used_all-max [] = omega arith
used_all-max (task ∷ tasks) = omega (arith, used-max task, used_all-max tasks)

used-after_send :
    (retry : Bool) (client : ℕ) (payload : List ℕ) (sent : Sent)
    → used (holding retry client payload) + 1 ≤ used (after_send retry payload sent)
used-after_send true client payload (ok reply) = omega arith
used-after_send true client payload (err x) = omega arith
used-after_send false client payload (ok reply) = omega arith
used-after_send false client payload (err x) = omega arith

-- `t` serves, and what it handed over after `s` is within what the tasks used from `m` to `n`.
abbrev Within : Server → Server → ℕ → ℕ → Type 0
Within s t m n = IsServing t × (length t.messages + m ≤ length s.messages + n)

module _ (e : Env) where
  reconnect-IsServing : (s : Server) → IsServing s → IsServing (reconnect e s).1
  reconnect-IsServing s v = record {
    live = (reconnect-IsLive e s v.live).0;
    fits = reconnect-Fits e s v.fits;
  }

  run_task-Within :
      (task : Task) (s : Server)
      → IsServing s
      → Within s (run_task e task s).1 (used task) (used (run_task e task s).0)
  unfolding run_task
  run_task-Within (arrived true payload) s v = (v, omega arith)
  run_task-Within (arrived false payload) s v = (v, omega arith)
  run_task-Within (holding retry client payload) s v =
      let (a, b, c, more) = send_request-keeps e client payload s in
      let sent = (send_request e client payload s).0 in
      (
        record {
          live = send_request-IsLive e client payload s v.live;
          fits = send_request-Fits e client payload s v.fits;
        },
        omega (arith, more, used-after_send retry client payload sent),
      )
  run_task-Within (broken payload) s v =
      (reconnect-IsServing s v, omega (arith, ap length (reconnect-messages e s)))
  run_task-Within (finished sent) s v = (v, omega arith)

  run_at-Within :
      (i : ℕ) (tasks : List Task) (s : Server)
      → IsServing s
      → Within s (run_at e i tasks s).1 (used_all tasks) (used_all (run_at e i tasks s).0)
        × (length (run_at e i tasks s).0 ≡ length tasks)
  unfolding run_at
  run_at-Within i [] s v = ((v, omega arith), refl)
  run_at-Within zero (task ∷ tasks) s v =
      let (v', l) = run_task-Within task s v in ((v', omega (arith, l)), refl)
  run_at-Within (suc i) (task ∷ tasks) s v =
      let ((v', l), n) = run_at-Within i tasks s v in ((v', omega (arith, l)), omega (arith, n))

  step-Within :
      (event : Event) (y : System)
      → IsServing y.server
      → let z = step e y event in
        Within y.server z.server (used_all y.tasks) (used_all z.tasks)
        × (length z.tasks ≡ length y.tasks + arrival event)
  unfolding step
  step-Within (arrive retry payload) y v = (
    (v, omega (arith, used_all-append y.tasks (arrived retry payload))),
    omega (arith, length-append y.tasks (arrived retry payload ∷ [])),
  )
  step-Within watcher y v = (
    (reconnect-IsServing y.server v, omega (arith, ap length (reconnect-messages e y.server))),
    omega arith,
  )
  step-Within (run i) y v = let (w, n) = run_at-Within i y.tasks y.server v in (w, omega (arith, n))

  run_events-Within :
      (events : List Event) (y : System)
      → IsServing y.server
      → let z = run_events e y events in
        Within y.server z.server (used_all y.tasks) (used_all z.tasks)
        × (length z.tasks ≡ length y.tasks + arrivals events)
  unfolding run_events
  run_events-Within [] y v = ((v, omega arith), omega arith)
  run_events-Within (event ∷ events) y v =
      let ((v', l), n) = step-Within event y v in
      let ((v'', l'), n') = run_events-Within events (step e y event) v' in
      ((v'', omega (arith, l, l')), omega (arith, n, n'))

  -- From a server with an open client and messages that fit, under every interleaving of any
  -- requests, KPS streams and reconnects: the server's client is open and every message fits the
  -- limit; each arrival is one task; and no more than two messages are handed over per arrival.
  pub run_events-IsServing :
      (events : List Event) (s : Server)
      → IsServing s
      → let t = run_events e (record { server = s; tasks = [] }) events in
        IsServing t.server
        × (length t.tasks ≡ arrivals events)
        × (length t.server.messages ≤ length s.messages + 2 * arrivals events)
  run_events-IsServing events s v =
      let start : System = record { server = s; tasks = [] } in
      let ((v', l), n) = run_events-Within events start v in
      (v', omega (arith, n), omega (arith, l, n, used_all-max (run_events e start events).tasks))
