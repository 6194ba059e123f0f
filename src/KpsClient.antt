-- ===== src/KpsClient.antt =====
-- kps-client/main.go: one JSON-RPC request over KPS, from the lookup of the address to what is
-- printed. The network and the standard library's decoders are a parameter.
pub mod Outcome
pub mod Examples
use zknet_anon_rpc_demo.Common.{ℕ, List, [], ◌∷◌, ◌++◌, Option, none, some}
use zknet_anon_rpc_demo.Common.Int.{ℤ}
use zknet_anon_rpc_demo.Common.Bytes.{codes}
use zknet_anon_rpc_demo.Common.Try.{Try, done, failed}
use zknet_anon_rpc_demo.Common.Step.{Step, go_on, stop, ◌>>=◌, ◌>>◌, orelse}
use zknet_anon_rpc_demo.KpsMonitor.Http.{build_http_request}
use zknet_anon_rpc_demo.KpsMonitor.Rpc.{RpcResp}

pub record Flags : Type 0 where
  pub boot_url : List ℕ
  pub rpc_method : List ℕ
  pub rpc_host : List ℕ

-- What is printed before `os.Exit(1)`.
pub data Failure : Type 0 where
  get_boot decode_boot dial open_stream write read cbor parse_http : List ℕ → Failure
  no_address : Failure

-- `resp.StatusCode`, and what `io.ReadAll(resp.Body)` has read, which may be less than the body: its
-- error is dropped.
pub record HttpResponse : Type 0 where
  pub status_code : ℕ
  pub body : List ℕ

-- The calls that the program makes, as functions of what they are given. `decode_boot` gives the
-- field kpsAddr, which stays empty where the answer has none, and `marshal` the JSON text of the
-- request for a method. `unmarshal_json` is into the program's own struct, whose fields jsonrpc and id
-- are typed and can make it fail, and of which result and error are read.
pub record World : Type 0 where
  pub get : List ℕ → Try (List ℕ)
  pub decode_boot : List ℕ → Try (List ℕ)
  pub dial : List ℕ → Try (Unit {0})
  pub stream : Try (Unit {0})
  pub marshal : List ℕ → List ℕ
  pub send : List ℕ → Try (Unit {0})
  pub read_all : Try (List ℕ)
  pub unmarshal_cbor : List ℕ → Try (List ℕ)
  pub read_response : List ℕ → Try HttpResponse
  pub unmarshal_json : List ℕ → Try RpcResp

pub data Shown : Type 0 where
  response_body : List ℕ → Shown
  rpc_error : ℤ → List ℕ → Shown
  result : List ℕ → Shown

-- `exit_1`, or the end of `main`, with status 0.
pub data Ended : Type 0 where
  exit_1 : Failure → Ended
  printed : ℕ → Shown → Ended

abbrev pub check_address : List ℕ → Step Failure (List ℕ)
check_address [] = stop no_address
check_address (x ∷ xs) = go_on (x ∷ xs)

-- Up to the line "KPS address".
unfoldable pub kps_address : World → List ℕ → Step Failure (List ℕ)
kps_address w boot_url = do
  boot_resp ← orelse (w.get (boot_url ++ codes "/boot")) get_boot
  address ← orelse (w.decode_boot boot_resp) decode_boot
  check_address address

-- From `kps.Dial` to `http.ReadResponse`.
unfoldable pub exchange : World → Flags → List ℕ → Step Failure HttpResponse
exchange w f address = do
  orelse (w.dial address) dial
  orelse w.stream open_stream
  orelse (w.send (build_http_request f.rpc_host (w.marshal f.rpc_method))) write
  resp_bytes ← orelse w.read_all read
  payload ← orelse (w.unmarshal_cbor resp_bytes) cbor
  orelse (w.read_response payload) parse_http

abbrev show_resp : RpcResp → Option (ℤ × List ℕ) → Shown
show_resp r none = result r.result
show_resp r (some (code, message)) = rpc_error code message

abbrev pub show : List ℕ → Try RpcResp → Shown
show body (failed text) = response_body body
show body (done r) = show_resp r r.error

abbrev pub finish : World → Step Failure HttpResponse → Ended
finish w (stop e) = exit_1 e
finish w (go_on resp) = printed resp.status_code (show resp.body (w.unmarshal_json resp.body))

unfoldable pub main : World → Flags → Ended
unfolding kps_address exchange
main w f = finish w (kps_address w f.boot_url >>= exchange w f)
