-- ===== src/Walletshield/Tasks/Race.antt =====
-- Two requests whose first attempts have both failed.
use zknet_anon_rpc_demo.Common.{ℕ, suc, ◌≡◌, List, [], ◌∷◌, true, false, contains, arith}
use zknet_anon_rpc_demo.Common.Try.{done}
use zknet_anon_rpc_demo.Walletshield.Thin.{Env, Server, reconnect}
use zknet_anon_rpc_demo.Walletshield.Tasks.{
  holding, broken, run, run_task, run_at, step, run_events,
}

reconnect_done :
    (e : Env) (s : Server)
    → e.load_file s.next_client ≡ done tt
    → e.dial s.next_client ≡ done tt
    → reconnect e s ≡ (
      s.next_client,
      record s {
        thin = s.next_client;
        closed = s.thin ∷ s.closed;
        next_client = suc s.next_client;
      },
    )
unfolding reconnect
reconnect_done e s l d = ground arith

-- Where the first attempts of two requests have failed, and both reconnects, one right after the
-- other, succeed: the second reconnect closes the client that the first has just made and that the
-- first request is about to send on.
pub run_events_race :
    (e : Env) (p q : List ℕ) (s : Server)
    → e.load_file s.next_client ≡ done tt
    → e.dial s.next_client ≡ done tt
    → e.load_file (suc s.next_client) ≡ done tt
    → e.dial (suc s.next_client) ≡ done tt
    → let t =
        run_events e
          (record { server = s; tasks = broken p ∷ broken q ∷ [] })
          (run 0 ∷ run 1 ∷ []) in
      (t.tasks ≡ holding false s.next_client p ∷ holding false (suc s.next_client) q ∷ [])
      × (contains t.server.closed s.next_client ≡ true)
unfolding run_events step run_at run_task
run_events_race e p q s l d l' d' =
    let s' = record s {
      thin = s.next_client;
      closed = s.thin ∷ s.closed;
      next_client = suc s.next_client;
    } in
    ground (arith, reconnect_done e s l d, reconnect_done e s' l' d')
