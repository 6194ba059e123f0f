-- ===== src/KpsMonitor/Rpc/Outcome.antt =====
-- When `doRPC` and the `/rpc` handler give a result.
use zknet_anon_rpc_demo.Common.{
  ℕ, ◌≡◌, ◌↔◌, ◌⊎◌, inl, inr, refl, List, Bool, true, false, Option, none, some, arith,
}
use zknet_anon_rpc_demo.Common.Int.{ℤ}
use zknet_anon_rpc_demo.KpsMonitor.Http.{build_http_request}
use zknet_anon_rpc_demo.Common.Try.{Try, done, failed}
use zknet_anon_rpc_demo.Common.Step.{go_on, orelse, first_step, orelse-done, Step-cases}
use zknet_anon_rpc_demo.KpsMonitor.Rpc.{
  RpcErr, open_stream, write, RpcResp, Exchange, check_error, send_request, receive, RpcOutcome,
  do_rpc, rpc_result, handle_rpc,
}

-- Every stage of an exchange went well, and `result` is what the node answered.
pub record Success (x : Exchange) (host body result : List ℕ) : Type 0 where
  pub resp_bytes : List ℕ
  pub payload : List ℕ
  pub http_body : List ℕ
  pub rpc_resp : RpcResp
  pub opened : x.stream ≡ done tt
  pub written : x.send (build_http_request host body) ≡ done tt
  pub answered : x.read_all ≡ done resp_bytes
  pub unwrapped : x.unmarshal_cbor resp_bytes ≡ done payload
  pub parsed : x.read_response payload ≡ done (done http_body)
  pub decoded : x.unmarshal_json http_body ≡ done rpc_resp
  pub no_error : rpc_resp.error ≡ none
  pub is_result : rpc_resp.result ≡ result

check_error_lem :
    (r : RpcResp) (e : Option (ℤ × List ℕ)) (result : List ℕ)
    → check_error r e ≡ go_on result
    → (e ≡ none) × (r.result ≡ result)
check_error_lem r none result h = (refl, ground arith)
check_error_lem r (some (code, message)) result h = cc

send_request_lem :
    (x : Exchange) (host body : List ℕ)
    → send_request x host body ≡ go_on tt
    → (x.stream ≡ done tt) × (x.send (build_http_request host body) ≡ done tt)
unfolding send_request
send_request_lem x host body h =
    let (a, p, q) = first_step (orelse x.stream open_stream) _ h in
    (
      orelse-done x.stream open_stream p,
      orelse-done (x.send (build_http_request host body)) write q,
    )

receive_lem :
    (x : Exchange) (host body result : List ℕ)
    → send_request x host body ≡ go_on tt
    → receive x ≡ go_on result
    → Success x host body result
unfolding receive
receive_lem x host body result s h =
    let (opened, written) = send_request_lem x host body s in
    let (b, p1, h1) = first_step (orelse x.read_all _) _ h in
    let (payload, p2, h2) = first_step (orelse (x.unmarshal_cbor b) _) _ h1 in
    let (resp, p3, h3) = first_step (orelse (x.read_response payload) _) _ h2 in
    let (hb, p4, h4) = first_step (orelse resp _) _ h3 in
    let (r, p5, h5) = first_step (orelse (x.unmarshal_json hb) _) _ h4 in
    let (n, q) = check_error_lem r r.error result h5 in
    record {
      resp_bytes = b;
      payload = payload;
      http_body = hb;
      rpc_resp = r;
      opened = opened;
      written = written;
      answered = orelse-done _ _ p1;
      unwrapped = orelse-done _ _ p2;
      parsed = ground (arith, orelse-done _ _ p3, orelse-done _ _ p4);
      decoded = orelse-done _ _ p5;
      no_error = n;
      is_result = q;
    }

do_rpc_ok :
    (x : Exchange) (host body result : List ℕ) (rtt : ℕ)
    → do_rpc x host body ≡ record { result = result; rtt_ms = rtt; rpc_err = none }
    → (send_request x host body ≡ go_on tt) × (receive x ≡ go_on result) × (rtt ≡ x.elapsed)
unfolding do_rpc
do_rpc_ok x host body result rtt e = elim (Step-cases (send_request x host body)) [
  | inl (f, p) ↦ absurd (ground arith)
  | inr (a, p) ↦ elim (Step-cases (receive x)) [
    | inl (f, q) ↦ absurd (ground arith)
    | inr (r, q) ↦ (p, ground arith, ground arith)
  ]
]

do_rpc_of_Success :
    (x : Exchange) (host body result : List ℕ)
    → Success x host body result
    → do_rpc x host body ≡ record { result = result; rtt_ms = x.elapsed; rpc_err = none }
unfolding do_rpc send_request receive
do_rpc_of_Success x host body result w = ground (
  arith, w.opened, w.written, w.answered, w.unwrapped, w.parsed, w.decoded, w.no_error, w.is_result,
)

-- `doRPC` returns no error exactly when every stage of the exchange succeeded and the node's answer
-- holds no error object. The result is then the node's, and the time that of the whole exchange.
pub do_rpc-Success :
    (x : Exchange) (host body result : List ℕ)
    → (do_rpc x host body ≡ record { result = result; rtt_ms = x.elapsed; rpc_err = none })
      ↔ Success x host body result
do_rpc-Success x host body result = (
  λ e.
      let (sent, received, _) = do_rpc_ok x host body result x.elapsed e in
      receive_lem x host body result sent received,
  do_rpc_of_Success x host body result,
)

RpcOutcome-cases : (o : RpcOutcome) → ((e : RpcErr) × (o.rpc_err ≡ some e)) ⊎ (o.rpc_err ≡ none)
RpcOutcome-cases o = elim o.rpc_err as (λ e. ((f : RpcErr) × (e ≡ some f)) ⊎ (e ≡ none)) [
  | none ↦ inr refl
  | some e ↦ inl (e, refl)
]

handle_rpc_inv {ℓ} :
    {Conn : Type ℓ} (post : Bool) (body : Try (List ℕ)) (current : Option Conn)
    (exchange : Conn → Exchange) (host result : List ℕ) (rtt : ℕ)
    → handle_rpc post body current exchange host ≡ rpc_result result rtt
    → (post ≡ true)
      × ((bytes : List ℕ) × (conn : Conn) × (body ≡ done bytes)
          × (current ≡ some conn)
          × Success (exchange conn) host bytes result
          × (rtt ≡ (exchange conn).elapsed))
unfolding handle_rpc
handle_rpc_inv false body current exchange host result rtt h = cc
handle_rpc_inv true (failed text) current exchange host result rtt h = cc
handle_rpc_inv true (done bytes) none exchange host result rtt h = cc
handle_rpc_inv true (done bytes) (some conn) exchange host result rtt h =
    elim (RpcOutcome-cases (do_rpc (exchange conn) host bytes)) [
      | inl (e, p) ↦ absurd (ground arith)
      | inr p ↦
          let e : do_rpc (exchange conn) host bytes
              ≡ record { result = result; rtt_ms = rtt; rpc_err = none } =
            ground arith in
          let (sent, received, same) = do_rpc_ok (exchange conn) host bytes result rtt e in
          (
            refl,
            (
              bytes,
              conn,
              refl,
              refl,
              receive_lem (exchange conn) host bytes result sent received,
              same,
            ),
          )
    ]

-- The `/rpc` handler answers with a result exactly on a POST whose body can be read, while there is
-- a connection, and when the exchange over that connection succeeds with that body.
pub handle_rpc_result {ℓ} :
    {Conn : Type ℓ} (post : Bool) (body : Try (List ℕ)) (current : Option Conn)
    (exchange : Conn → Exchange) (host result : List ℕ) (rtt : ℕ)
    → (handle_rpc post body current exchange host ≡ rpc_result result rtt) ↔ (
        (post ≡ true)
        × ((bytes : List ℕ) × (conn : Conn) × (body ≡ done bytes)
            × (current ≡ some conn)
            × Success (exchange conn) host bytes result
            × (rtt ≡ (exchange conn).elapsed)))
unfolding handle_rpc
handle_rpc_result post body current exchange host result rtt = (
  handle_rpc_inv post body current exchange host result rtt,
  λ (p, (bytes, conn, hb, hc, w, e)).
      rw (p, hb, hc, do_rpc_of_Success (exchange conn) host bytes result w, e),
)
