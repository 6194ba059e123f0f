-- ===== src/Walletshield/Examples.antt =====
-- Tests of the model of walletshield, and the theorems at concrete inputs.
use zknet_anon_rpc_demo.Common.{
  ℕ, zero, suc, contains, ◌*◌, ◌+◌, ◌≤◌, ◌≡◌, refl, List, [], ◌∷◌, true, false, none, some, arith,
  length, replicate,
}
use zknet_anon_rpc_demo.Common.Bytes.{codes}
use zknet_anon_rpc_demo.Common.Decimal.{decimal}
use zknet_anon_rpc_demo.Common.Try.{done, failed}
use zknet_anon_rpc_demo.Walletshield.Thin.{
  Env, Server, ThinCall, ok, err, not_sent, send_request, reconnect, error_text, too_large,
}
use zknet_anon_rpc_demo.Walletshield.Thin.Live.{IsLive}
use zknet_anon_rpc_demo.Walletshield.Thin.Limit.{Adds}
use zknet_anon_rpc_demo.Walletshield.Handler.{
  Decoders, http_error, handler, answer, copy_headers, send_twice,
}
use zknet_anon_rpc_demo.Walletshield.Handler.Outcome.{
  IsServing, Relayed, handler_too_large, handler-IsServing, handler_relays,
}
use zknet_anon_rpc_demo.Common.Step.{go_on, stop}
use zknet_anon_rpc_demo.Walletshield.Boot.{start_kps}
use zknet_anon_rpc_demo.Walletshield.Start.{
  Flags, no_listen, Started, Request, start, after_requests,
}
use zknet_anon_rpc_demo.Walletshield.Start.Requests.{start-IsServing}
use zknet_anon_rpc_demo.Walletshield.Events.{ThinEvent, connection_status, other_event, watch}
use zknet_anon_rpc_demo.Walletshield.Events.Edges.{reconnect_times, watch_reconnects, watch-IsLive}
use zknet_anon_rpc_demo.Walletshield.Kps.{handle_kps_conn}
use zknet_anon_rpc_demo.Walletshield.Kps.Streams.{handle_kps_conn_lem}
use zknet_anon_rpc_demo.Walletshield.Tasks.{
  arrived, holding, broken, finished, Event, arrive, watcher, run, run_task, run_at, step,
  run_events,
}
use zknet_anon_rpc_demo.Walletshield.Tasks.Alone.{run_times, run_times-send_twice}
use zknet_anon_rpc_demo.Walletshield.Tasks.Interleaved.{arrivals, run_events-IsServing}
use zknet_anon_rpc_demo.Walletshield.Tasks.Race.{run_events_race}
use zknet_anon_rpc_demo.Walletshield.Probes.{Probes, no_probes, send_test_probes}
use zknet_anon_rpc_demo.Walletshield.Probes.Count.{send_test_probes_count, send_test_probes_endless}

oversize_text : error_text (too_large 2001) ≡ codes "payload size 2001 exceeds maximum 2000 bytes"
unfolding error_text decimal
oversize_text = refl

-- The daemon has lost the first client; the second one echoes the payload.
abbrev silent : ThinCall
silent = record {
  has_document = true;
  get_service = done (record { identity_key = 1 ∷ []; recipient_queue_id = codes "+http" });
  blocking_send_message = λ payload node queue. failed (codes "not connected");
}

abbrev env : Env
env = record {
  sum256 = λ key. key;
  thin_call = λ client n. elim client [
    | zero ↦ silent
    | suc c ↦ record silent { blocking_send_message = λ payload node queue. done payload }
  ];
  load_file = λ n. done tt;
  dial = λ c. done tt;
}

abbrev server : Server
server = record { thin = 0; closed = []; next_client = 1; calls = 0; messages = [] }

server-IsServing : IsServing server
server-IsServing = record {
  live = record { open_client = refl; made = omega arith; closed_made = tt };
  fits = tt;
}

abbrev decoders : Decoders
decoders = record {
  unmarshal = λ reply. done reply;
  read_response = λ payload. done (record { status_code = 200; headers = []; body = payload });
}

handler_too_large_example :
    (handler env decoders (done (replicate 2001 65)) server
      ≡ (http_error 500 (codes "custom 500"), (reconnect env server).1))
    × ((handler env decoders (done (replicate 2001 65)) server).1.messages ≡ server.messages)
handler_too_large_example = handler_too_large env decoders (replicate 2001 65) server (omega arith)

handler-IsServing_example :
    IsServing (handler env decoders (done (codes "GET")) server).1
    × Adds 2 (codes "GET") server (handler env decoders (done (codes "GET")) server).1
handler-IsServing_example = handler-IsServing env decoders (codes "GET") server server-IsServing

-- A response with a header of two values and one of one value.
abbrev with_headers : Decoders
with_headers = record decoders {
  read_response = λ payload. done (record {
    status_code = 200;
    headers = (codes "Vary", codes "a" ∷ codes "b" ∷ []) ∷ (codes "Date", codes "c" ∷ []) ∷ [];
    body = payload;
  });
}

abbrev browser_headers : List (List ℕ × List ℕ)
browser_headers =
    (codes "Vary", codes "a") ∷ (codes "Vary", codes "b") ∷ (codes "Date", codes "c") ∷ []

-- The first attempt fails; the retry on the new client is relayed.
handler_relays_example :
    Relayed env with_headers (codes "GET") server 200 browser_headers (codes "GET")
unfolding handler send_twice answer copy_headers send_request reconnect
handler_relays_example =
    handler_relays env with_headers (codes "GET") server 200 browser_headers (codes "GET") refl

abbrev flags : Flags
flags = record {
  config = codes "client.toml";
  delay_start = 0;
  listen = codes "localhost:7070";
  kps_listen = codes "0.0.0.0:9202";
  probe = false;
  contract = codes "0x1";
}

abbrev started : Started
started = record { server = server; kps_addr = codes "kps"; slept = 0; probing = false }

starts : start flags env (λ n. 0) (done (codes "kps")) ≡ go_on started
unfolding start start_kps
starts = refl

no_flags : start (record flags { listen = [] }) env (λ n. 0) (failed []) ≡ stop no_listen
unfolding start
no_flags = refl

-- A request that the server answers itself, and one that it sends.
abbrev requests : List Request
requests =
    record { path = codes "/get-worker"; dumped = done []; worker = failed [] }
    ∷ record { path = codes "/rpc"; dumped = done (codes "POST"); worker = failed [] }
    ∷ []

start-IsServing_example :
    IsServing (after_requests flags env decoders started.kps_addr requests started.server)
start-IsServing_example =
    start-IsServing flags env decoders (λ n. 0) (done (codes "kps")) started requests starts

abbrev events : List ThinEvent
events =
    connection_status false
    ∷ connection_status true
    ∷ other_event
    ∷ connection_status false
    ∷ connection_status false
    ∷ []

watch_reconnects_example :
    watch env (record { ever_connected = false; server = server }) events
    ≡ record { ever_connected = false; server = reconnect_times env 1 server }
watch_reconnects_example = watch_reconnects env server events

watch-IsLive_example :
    IsLive (watch env (record { ever_connected = false; server = server }) events).server
watch-IsLive_example = watch-IsLive env server events server-IsServing.live

run_times-send_twice_example :
    (run_times env 4 (arrived true (codes "GET")) server
      ≡ (finished (send_twice env (codes "GET") server).0, (send_twice env (codes "GET") server).1))
    × (run_times env 4 (arrived false (codes "GET")) server ≡ (
      finished (send_request env server.thin (codes "GET") server).0,
      (send_request env server.thin (codes "GET") server).1,
    ))
run_times-send_twice_example = run_times-send_twice env (codes "GET") server

-- Two requests take the first client, and the watcher reconnects before they send.
abbrev interleaving : List Event
interleaving =
    arrive true (codes "GET")
    ∷ arrive false (codes "two")
    ∷ run 0
    ∷ run 1
    ∷ watcher
    ∷ run 0
    ∷ run 0
    ∷ run 1
    ∷ run 0
    ∷ []

interleaving_result :
    (run_events env (record { server = server; tasks = [] }) interleaving).tasks
    ≡ finished (ok (codes "GET")) ∷ finished (err (not_sent (codes "not connected"))) ∷ []
unfolding run_events step run_at run_task send_request reconnect
interleaving_result = refl

run_events-IsServing_example :
    let t = run_events env (record { server = server; tasks = [] }) interleaving in
    IsServing t.server
    × (length t.tasks ≡ arrivals interleaving)
    × (length t.server.messages ≤ length server.messages + 2 * arrivals interleaving)
run_events-IsServing_example = run_events-IsServing env interleaving server server-IsServing

run_events_race_example :
    let t =
      run_events env
        (record { server = server; tasks = broken (codes "a") ∷ broken (codes "b") ∷ [] })
        (run 0 ∷ run 1 ∷ []) in
    (t.tasks ≡ holding false 1 (codes "a") ∷ holding false 2 (codes "b") ∷ [])
    × (contains t.server.closed 1 ≡ true)
run_events_race_example = run_events_race env (codes "a") (codes "b") server refl refl refl refl

abbrev streams : List (List ℕ)
streams = codes "one" ∷ replicate 2001 65 ∷ []

handle_kps_conn_lem_example :
    let written = (handle_kps_conn env streams server).0 in
    let t = (handle_kps_conn env streams server).1 in
    IsServing t
    × (t.thin ≡ server.thin)
    × (t.closed ≡ server.closed)
    × (t.next_client ≡ server.next_client)
    × (length written ≡ length streams)
    × (length t.messages ≤ length server.messages + length streams)
handle_kps_conn_lem_example = handle_kps_conn_lem env streams server server-IsServing

send_test_probes_count_example :
    (q : Probes) × (send_test_probes 3 3 (λ n. some n) no_probes ≡ some q)
    × (q.packets_transmitted ≡ 3)
send_test_probes_count_example =
    send_test_probes_count 3 3 (λ n. some n) (omega arith) (omega arith)

send_test_probes_endless_example : send_test_probes 9 0 (λ n. some n) no_probes ≡ none
send_test_probes_endless_example = send_test_probes_endless 9 (λ n. some n) no_probes
