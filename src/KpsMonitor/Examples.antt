-- ===== src/KpsMonitor/Examples.antt =====
-- Tests of the model of kps-monitor, and the theorems at concrete inputs.
use zknet_anon_rpc_demo.Common.{
  ℕ, ◌+◌, ◌≡◌, ◌↔◌, refl, List, [], ◌∷◌, true, false, none, some, arith,
}
use zknet_anon_rpc_demo.Common.Bytes.{codes}
use zknet_anon_rpc_demo.Common.Decimal.{decimal}
use zknet_anon_rpc_demo.KpsMonitor.Http.{build_http_request}
use zknet_anon_rpc_demo.KpsMonitor.Http.Parser.{parse_request}
use zknet_anon_rpc_demo.KpsMonitor.Http.RoundTrip.{headers_of, parse_request-build_http_request}
use zknet_anon_rpc_demo.Common.Try.{done, failed}
use zknet_anon_rpc_demo.KpsMonitor.Rpc.{
  open_stream, read, Exchange, RpcOutcome, do_rpc, rpc_result, handle_rpc, send_request, receive,
}
use zknet_anon_rpc_demo.KpsMonitor.Rpc.Outcome.{Success, do_rpc-Success, handle_rpc_result}
use zknet_anon_rpc_demo.KpsMonitor.Stats.{ProbeResult, new_state, Floats}
use zknet_anon_rpc_demo.KpsMonitor.Stats.Summary.{
  Summarises, results, record_all, record_all-Summarises,
}
use zknet_anon_rpc_demo.KpsMonitor.Loop.{
  Monitor, dialled, probed, connecting, probing, init, step, Reach, here, next,
}
use zknet_anon_rpc_demo.KpsMonitor.Loop.Invariant.{Inv, Reach-Inv}
use zknet_anon_rpc_demo.KpsMonitor.Loop.Lost.{lost_probe}

abbrev host : List ℕ
host = codes "rpc.example"

abbrev two_bytes : List ℕ
two_bytes = codes "{}"

request_text :
    build_http_request host two_bytes
    ≡ codes
        "POST / HTTP/1.1\r\nHost: rpc.example\r\nContent-Type: application/json\r\nContent-Length: 2\r\n\r\n{}"
unfolding build_http_request decimal
request_text = refl

parse_request-build_http_request_example :
    parse_request (build_http_request host two_bytes)
    ≡ some (record {
      request_line = codes "POST / HTTP/1.1";
      headers = headers_of host two_bytes;
      body = two_bytes;
      rest = [];
    })
parse_request-build_http_request_example =
    parse_request-build_http_request host two_bytes (omega arith)

-- An exchange in which all goes well, and one in which the stream breaks while it is read.
abbrev good : Exchange
good = record {
  stream = done tt;
  send = λ request. done tt;
  read_all = done (7 ∷ []);
  elapsed = 250;
  unmarshal_cbor = λ bytes. done bytes;
  read_response = λ payload. done (done payload);
  unmarshal_json = λ body. done (record { result = body; error = none });
}

abbrev broken : Exchange
broken = record good { read_all = failed (codes "reset") }

broken_outcome :
    do_rpc broken host two_bytes
    ≡ record { result = []; rtt_ms = 250; rpc_err = some (read (codes "reset")) }
unfolding do_rpc send_request receive
broken_outcome = refl

do_rpc-Success_example :
    (do_rpc good host two_bytes ≡ record { result = 7 ∷ []; rtt_ms = 250; rpc_err = none })
    ↔ Success good host two_bytes (7 ∷ [])
do_rpc-Success_example = do_rpc-Success good host two_bytes (7 ∷ [])

handle_rpc_result_example :
    (handle_rpc true (done two_bytes) (some 1) (λ (c : ℕ). good) host ≡ rpc_result (7 ∷ []) 250) ↔ (
      (true ≡ true)
      × ((bytes : List ℕ) × (conn : ℕ) × (done two_bytes ≡ done bytes)
          × (some 1 ≡ some conn)
          × Success good host bytes (7 ∷ [])
          × (250 ≡ good.elapsed)))
handle_rpc_result_example =
    handle_rpc_result true (done two_bytes) (some 1) (λ (c : ℕ). good) host (7 ∷ []) 250

abbrev ok_probe : ℕ → ProbeResult
ok_probe rtt = record { success = true; rtt_ms = rtt; result = []; err = none }

abbrev bad_probe : ProbeResult
bad_probe = record { success = false; rtt_ms = 0; result = []; err = some (open_stream []) }

abbrev probes : List (ℕ × ProbeResult)
probes = (1, ok_probe 300) ∷ (2, bad_probe) ∷ (3, ok_probe 100) ∷ (4, ok_probe 220) ∷ []

record_all-Summarises_example : Summarises (results probes) (record_all (new_state 0) probes)
record_all-Summarises_example = record_all-Summarises 0 probes

abbrev floats : Floats
floats = record { whole_seconds = λ d. d; percent = λ a b. a }

abbrev lost : RpcOutcome
lost = record { result = []; rtt_ms = 0; rpc_err = some (open_stream (codes "closed")) }

abbrev addr : List ℕ
addr = codes "kps"

abbrev dialled_once : Monitor
dialled_once = record (init 0) {
  stats = record (new_state 0) { connected = true; kps_addr = addr };
  current = some 1;
  phase = probing 1;
}

first_dial : Reach 0 dialled_once
unfolding step
first_dial = next (dialled addr 1) here (refl, λ e. cc) refl

Reach-Inv_example : Inv dialled_once
Reach-Inv_example = Reach-Inv 0 dialled_once first_dial

lost_probe_example :
    (m' : Monitor) × (step dialled_once (probed 5 lost lost) ≡ some m')
    × (m'.phase ≡ connecting)
    × (m'.stats.connected ≡ true)
    × (m'.current ≡ some 1)
    × (m'.stats.error_count ≡ dialled_once.stats.error_count + 1)
lost_probe_example =
    lost_probe dialled_once 1 5 lost lost (open_stream (codes "closed"))
      (open_stream (codes "closed")) Reach-Inv_example refl refl refl

-- The same connection, once its probes have failed.
abbrev waiting : Monitor
waiting = record dialled_once { phase = connecting }

abbrev after_failed_dial : Monitor
after_failed_dial = record waiting {
  stats = record waiting.stats { connected = false };
  closed = 1 ∷ [];
  backoff_count = 1;
  delays = 10 ∷ [];
}
