-- ===== src/KpsSendtx/Rpc.antt =====
-- `rpcClient.call` and `parseUint` of kps-sendtx/main.go. The network, and the JSON text that
-- encoding/json reads, enter as values.
pub mod ParseUint
use zknet_anon_rpc_demo.Common.{
  ℕ, ◌%◌, ◌^◌, List, [], ◌∷◌, Option, none, some, ltb, if◌then◌else◌, length, drop,
}
use zknet_anon_rpc_demo.KpsSendtx.Hex.{set_string}

-- A JSON value, as far as the program tells values apart.
pub data Json : Type 0 where
  null : Json
  text : List ℕ → Json
  other : List ℕ → Json

-- `struct { Result, Error json.RawMessage }`: `none` is a field that the object does not have.
pub record RpcResp : Type 0 where
  pub result : Option Json
  pub error : Option Json

-- What `http.Client.Do` and `json.Unmarshal` make of a request.
pub data Reply : Type 0 where
  transport_error : Reply
  unparsable : Reply
  parsed : RpcResp → Reply

pub data CallErr : Type 0 where
  transport parse : CallErr
  rpc_error : Json → CallErr

pub data Called : Type 0 where
  ok : Option Json → Called
  err : CallErr → Called

-- `len(rpcResp.Error) > 0 && string(rpcResp.Error) != "null"`
abbrev check_error : Option Json → Option Json → Called
check_error none result = ok result
check_error (some null) result = ok result
check_error (some (text s)) result = err (rpc_error (text s))
check_error (some (other s)) result = err (rpc_error (other s))

unfoldable pub call : Reply → Called
call transport_error = err transport
call unparsable = err parse
call (parsed r) = check_error r.error r.result

-- `panic` is the run-time error of `s[2:]` on a shorter string.
pub data Parsed : Type 0 where
  value : ℕ → Parsed
  bad_json bad_hex panic : Parsed

abbrev low64 : Option ℕ → Parsed
low64 none = bad_hex
low64 (some n) = value (n % 2 ^ 64)

abbrev parse_text : List ℕ → Parsed
parse_text s = if ltb (length s) 2 then panic else low64 (set_string (drop 2 s))

-- `null` is unmarshalled into a string without an error, and leaves it empty.
unfoldable pub parse_uint : Option Json → Parsed
parse_uint none = bad_json
parse_uint (some null) = parse_text []
parse_uint (some (text s)) = parse_text s
parse_uint (some (other s)) = bad_json
