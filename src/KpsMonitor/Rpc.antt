-- ===== src/KpsMonitor/Rpc.antt =====
-- `doRPC` and the `/rpc` handler of kps-monitor/main.go. What the KPS connection and the standard
-- library's decoders answer in one exchange is a parameter.
pub mod Outcome
use zknet_anon_rpc_demo.Common.{ℕ, List, [], Bool, true, false, Option, none, some}
use zknet_anon_rpc_demo.Common.Int.{ℤ}
use zknet_anon_rpc_demo.Common.Step.{Step, go_on, stop, ◌>>=◌, ◌>>◌, orelse}
use zknet_anon_rpc_demo.Common.Try.{Try, done, failed}
use zknet_anon_rpc_demo.KpsMonitor.Http.{build_http_request}

-- `rpcErr`, each with the prefix that the program formats it with; the empty text is `none`.
pub data RpcErr : Type 0 where
  open_stream write read cbor parse_http read_body parse_rpc : List ℕ → RpcErr
  rpc_error : ℤ → List ℕ → RpcErr

-- `struct { Result json.RawMessage; Error *struct { Code; Message } }`
pub record RpcResp : Type 0 where
  pub result : List ℕ
  pub error : Option (ℤ × List ℕ)

-- The calls of one `doRPC`, as functions of what they are given; `elapsed` is the time from its
-- start to the end of the reading, in milliseconds.
pub record Exchange : Type 0 where
  pub stream : Try (Unit {0})
  pub send : List ℕ → Try (Unit {0})
  pub read_all : Try (List ℕ)
  pub elapsed : ℕ
  pub unmarshal_cbor : List ℕ → Try (List ℕ)
  pub read_response : List ℕ → Try (Try (List ℕ))
  pub unmarshal_json : List ℕ → Try RpcResp

abbrev pub check_error : RpcResp → Option (ℤ × List ℕ) → Step RpcErr (List ℕ)
check_error r none = go_on r.result
check_error r (some (code, message)) = stop (rpc_error code message)

-- Up to `stream.CloseWrite()`: an error here is returned with a round-trip time of 0.
unfoldable pub send_request : Exchange → List ℕ → List ℕ → Step RpcErr (Unit {0})
send_request x host body = do
  orelse x.stream open_stream
  orelse (x.send (build_http_request host body)) write

-- From `io.ReadAll(stream)` on.
unfoldable pub receive : Exchange → Step RpcErr (List ℕ)
receive x = do
  resp_bytes ← orelse x.read_all read
  payload ← orelse (x.unmarshal_cbor resp_bytes) cbor
  http_resp ← orelse (x.read_response payload) parse_http
  body ← orelse http_resp read_body
  rpc_resp ← orelse (x.unmarshal_json body) parse_rpc
  check_error rpc_resp rpc_resp.error

-- (result, rttMs, rpcErr)
pub record RpcOutcome : Type 0 where
  pub result : List ℕ
  pub rtt_ms : ℕ
  pub rpc_err : Option RpcErr

abbrev outcome : ℕ → Step RpcErr (List ℕ) → RpcOutcome
outcome rtt (go_on result) = record { result = result; rtt_ms = rtt; rpc_err = none }
outcome rtt (stop e) = record { result = []; rtt_ms = rtt; rpc_err = some e }

unfoldable pub do_rpc : Exchange → List ℕ → List ℕ → RpcOutcome
do_rpc x host body = elim (send_request x host body) [
  | go_on sent ↦ outcome x.elapsed (receive x)
  | stop e ↦ record { result = []; rtt_ms = 0; rpc_err = some e }
]

-- What the `/rpc` handler writes: status 405, or status 200 with one of three JSON objects.
pub data Answer : Type 0 where
  use_post : Answer
  request_error : List ℕ → Answer
  no_connection : Answer
  rpc_failed : RpcErr → ℕ → Answer
  rpc_result : List ℕ → ℕ → Answer

abbrev answer : RpcOutcome → Option RpcErr → Answer
answer o none = rpc_result o.result o.rtt_ms
answer o (some e) = rpc_failed e o.rtt_ms

-- `currentConn` is a connection, or nil; the exchange is the one over that connection.
unfoldable pub handle_rpc {ℓ} :
    {Conn : Type ℓ} → Bool → Try (List ℕ) → Option Conn → (Conn → Exchange) → List ℕ → Answer
handle_rpc false body conn exchange host = use_post
handle_rpc true (failed text) conn exchange host = request_error text
handle_rpc true (done body) none exchange host = no_connection
handle_rpc true (done body) (some conn) exchange host =
    let o = do_rpc (exchange conn) host body in answer o o.rpc_err
