-- ===== src/Walletshield/Handler.antt =====
-- The HTTP handler of walletshield/main.go, `Server.Handler`.
pub mod Outcome
use zknet_anon_rpc_demo.Common.{
  ℕ, ◌||◌, ◌&&◌, List, [], ◌∷◌, ◌++◌, Bool, true, false, ◌==◌, if◌then◌else◌,
}
use zknet_anon_rpc_demo.Common.Bytes.{codes}
use zknet_anon_rpc_demo.Common.Try.{Try, done, failed}
use zknet_anon_rpc_demo.Walletshield.Thin.{
  Env, Server, SendErr, error_text, Sent, ok, err, send_request, reconnect, get_thin,
}

unfoldable pub is_prefix : List ℕ → List ℕ → Bool
is_prefix [] s = true
is_prefix (x ∷ xs) [] = false
is_prefix (x ∷ xs) (y ∷ s) = x == y && is_prefix xs s

-- `strings.Contains(s, pattern)`
unfoldable pub contains_text : List ℕ → List ℕ → Bool
contains_text [] pattern = is_prefix pattern []
contains_text (x ∷ s) pattern = is_prefix pattern (x ∷ s) || contains_text s pattern

pub record HttpResponse : Type 0 where
  pub status_code : ℕ
  pub headers : List (List ℕ × List (List ℕ))
  pub body : List ℕ

-- The decoders: `cbor.UnmarshalFirst` to the payload, and `http.ReadResponse`.
pub record Decoders : Type 0 where
  pub unmarshal : List ℕ → Try (List ℕ)
  pub read_response : List ℕ → Try HttpResponse

-- What is written to the browser: an error of `http.Error`, or the proxied response, each header
-- value added on its own.
pub data Written : Type 0 where
  http_error : ℕ → List ℕ → Written
  response : ℕ → List (List ℕ × List ℕ) → List ℕ → Written

abbrev pub with_key : List ℕ → List (List ℕ) → List (List ℕ × List ℕ) → List (List ℕ × List ℕ)
with_key k [] rest = rest
with_key k (v ∷ vs) rest = (k, v) ∷ with_key k vs rest

-- `for k, v := range resp.Header { for _, hv := range v { w.Header().Add(k, hv) } }`
unfoldable pub copy_headers : List (List ℕ × List (List ℕ)) → List (List ℕ × List ℕ)
copy_headers [] = []
copy_headers ((k, vs) ∷ headers) = with_key k vs (copy_headers headers)

abbrev internal_error : Written
internal_error = http_error 500 (codes "Internal Server Error")

abbrev relay : Try HttpResponse → Written
relay (failed text) = internal_error
relay (done r) = response r.status_code (copy_headers r.headers) r.body

abbrev decode_payload : Decoders → Try (List ℕ) → Written
decode_payload d (failed text) = internal_error
decode_payload d (done payload) = relay (d.read_response payload)

-- From the check of the last error on.
unfoldable pub answer : Decoders → Sent → Written
unfolding copy_headers
answer d (ok raw_reply) = decode_payload d (d.unmarshal raw_reply)
answer d (err e) =
    if contains_text (error_text e) (codes "exceeds maximum")
    then http_error 500 (codes "custom 500")
    else http_error 404 (codes "custom 404")

module _ (e : Env) where
  abbrev pub retry : List ℕ → Sent × Server → Sent × Server
  retry serialized (ok reply, s) = (ok reply, s)
  retry serialized (err x, s) = let (thin, s') = reconnect e s in send_request e thin serialized s'

  -- The first attempt, and the second one after a reconnect.
  unfoldable pub send_twice : List ℕ → Server → Sent × Server
  send_twice serialized s = retry serialized (send_request e (get_thin s) serialized s)

  -- `httputil.DumpRequest` has given the request's bytes, or an error.
  unfoldable pub handler : Decoders → Try (List ℕ) → Server → Written × Server
  handler d (failed text) s = (http_error 400 (codes "Bad request"), s)
  handler d (done serialized) s = let (sent, s') = send_twice serialized s in (answer d sent, s')
