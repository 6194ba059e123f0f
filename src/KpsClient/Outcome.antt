-- ===== src/KpsClient/Outcome.antt =====
-- When kps-client prints a result.
use zknet_anon_rpc_demo.Common.{ℕ, ◌≡◌, ◌≢◌, ◌↔◌, inl, inr, List, [], ◌∷◌, ◌++◌, none, arith}
use zknet_anon_rpc_demo.Common.Bytes.{codes}
use zknet_anon_rpc_demo.Common.Try.{done, Try-cases}
use zknet_anon_rpc_demo.Common.Step.{go_on, orelse, first_step, orelse-done, Step-cases}
use zknet_anon_rpc_demo.KpsMonitor.Http.{build_http_request}
use zknet_anon_rpc_demo.KpsMonitor.Rpc.{RpcResp}
use zknet_anon_rpc_demo.KpsClient.{
  Flags, World, HttpResponse, result, printed, check_address, kps_address, exchange, finish, main,
}

-- The walletshield is asked at `<boot url>/boot`, and its answer names an address.
pub record Booted (w : World) (boot_url address : List ℕ) : Type 0 where
  pub boot_resp : List ℕ
  pub fetched : w.get (boot_url ++ codes "/boot") ≡ done boot_resp
  pub decoded : w.decode_boot boot_resp ≡ done address
  pub not_empty : address ≢ []

-- The exchange over the connection to `address` gives an HTTP response.
pub record Exchanged (w : World) (f : Flags) (address : List ℕ) (resp : HttpResponse) : Type 0 where
  pub resp_bytes : List ℕ
  pub payload : List ℕ
  pub dialled : w.dial address ≡ done tt
  pub opened : w.stream ≡ done tt
  pub written : w.send (build_http_request f.rpc_host (w.marshal f.rpc_method)) ≡ done tt
  pub answered : w.read_all ≡ done resp_bytes
  pub unwrapped : w.unmarshal_cbor resp_bytes ≡ done payload
  pub parsed : w.read_response payload ≡ done resp

check_address_lem :
    (address a : List ℕ) → check_address address ≡ go_on a → (address ≡ a) × (address ≢ [])
check_address_lem [] a h = cc
check_address_lem (x ∷ xs) a h = (ground arith, λ e. cc)

pub kps_address-Booted :
    (w : World) (boot_url address : List ℕ)
    → kps_address w boot_url ≡ go_on address
    → Booted w boot_url address
unfolding kps_address
kps_address-Booted w boot_url address h =
    let (resp, p, h1) = first_step (orelse (w.get _) _) _ h in
    let (a, q, h2) = first_step (orelse (w.decode_boot resp) _) _ h1 in
    let (same, n) = check_address_lem a address h2 in
    record {
      boot_resp = resp;
      fetched = orelse-done _ _ p;
      decoded = ground (arith, orelse-done _ _ q, same);
      not_empty = λ e. n (ground (arith, same, e));
    }

pub kps_address_of_Booted :
    (w : World) (boot_url address : List ℕ)
    → Booted w boot_url address
    → kps_address w boot_url ≡ go_on address
unfolding kps_address
kps_address_of_Booted w boot_url address b = ground (arith, b.fetched, b.decoded, b.not_empty)

exchange-Exchanged :
    (w : World) (f : Flags) (address : List ℕ) (resp : HttpResponse)
    → exchange w f address ≡ go_on resp
    → Exchanged w f address resp
unfolding exchange
exchange-Exchanged w f address resp h =
    let (u, p1, h1) = first_step (orelse (w.dial address) _) _ h in
    let (u, p2, h2) = first_step (orelse w.stream _) _ h1 in
    let (u, p3, h3) = first_step (orelse (w.send _) _) _ h2 in
    let (b, p4, h4) = first_step (orelse w.read_all _) _ h3 in
    let (p, p5, h5) = first_step (orelse (w.unmarshal_cbor b) _) _ h4 in
    record {
      resp_bytes = b;
      payload = p;
      dialled = orelse-done _ _ p1;
      opened = orelse-done _ _ p2;
      written = orelse-done _ _ p3;
      answered = orelse-done _ _ p4;
      unwrapped = orelse-done _ _ p5;
      parsed = orelse-done _ _ h5;
    }

exchange_of_Exchanged :
    (w : World) (f : Flags) (address : List ℕ) (resp : HttpResponse)
    → Exchanged w f address resp
    → exchange w f address ≡ go_on resp
unfolding exchange
exchange_of_Exchanged w f address resp x =
    ground (arith, x.dialled, x.opened, x.written, x.answered, x.unwrapped, x.parsed)

-- The response's body is a JSON-RPC answer without an error object, whose result is `r`.
pub record Answered (w : World) (f : Flags) (status : ℕ) (r : List ℕ) : Type 0 where
  pub address : List ℕ
  pub resp : HttpResponse
  pub rpc_resp : RpcResp
  pub booted : Booted w f.boot_url address
  pub exchanged : Exchanged w f address resp
  pub same_status : resp.status_code ≡ status
  pub decoded : w.unmarshal_json resp.body ≡ done rpc_resp
  pub no_error : rpc_resp.error ≡ none
  pub is_result : rpc_resp.result ≡ r

show_lem :
    (w : World) (resp : HttpResponse) (status : ℕ) (r : List ℕ)
    → finish w (go_on resp) ≡ printed status (result r)
    → (resp.status_code ≡ status)
      × ((rpc_resp : RpcResp) × (w.unmarshal_json resp.body ≡ done rpc_resp)
          × (rpc_resp.error ≡ none)
          × (rpc_resp.result ≡ r))
show_lem w resp status r h = elim (Try-cases (w.unmarshal_json resp.body)) [
  | inl (e, p) ↦ absurd (ground arith)
  | inr (rpc_resp, p) ↦ (ground arith, (rpc_resp, p, ground arith, ground arith))
]

main-Answered :
    (w : World) (f : Flags) (status : ℕ) (r : List ℕ)
    → main w f ≡ printed status (result r)
    → Answered w f status r
unfolding main
main-Answered w f status r h = elim (Step-cases (kps_address w f.boot_url)) [
  | inl (e, p) ↦ absurd (ground arith)
  | inr (address, p) ↦ elim (Step-cases (exchange w f address)) [
    | inl (e, q) ↦ absurd (ground arith)
    | inr (resp, q) ↦
        let (s, (rpc_resp, d, n, i)) = show_lem w resp status r (ground arith) in
        record {
          address = address;
          resp = resp;
          rpc_resp = rpc_resp;
          booted = kps_address-Booted w f.boot_url address p;
          exchanged = exchange-Exchanged w f address resp q;
          same_status = s;
          decoded = d;
          no_error = n;
          is_result = i;
        }
  ]
]

main_of_Answered :
    (w : World) (f : Flags) (status : ℕ) (r : List ℕ)
    → Answered w f status r
    → main w f ≡ printed status (result r)
unfolding main
main_of_Answered w f status r a =
    let p = kps_address_of_Booted w f.boot_url a.address a.booted in
    let q = exchange_of_Exchanged w f a.address a.resp a.exchanged in
    ground (arith, p, q, a.same_status, a.decoded, a.no_error, a.is_result)

-- kps-client prints a result exactly when the walletshield at the boot URL has named a KPS address,
-- every stage of the exchange with that address succeeded, and the body of the HTTP response is a
-- JSON-RPC answer without an error object. The result and the status printed are the node's.
pub main_result :
    (w : World) (f : Flags) (status : ℕ) (r : List ℕ)
    → (main w f ≡ printed status (result r)) ↔ Answered w f status r
main_result w f status r = (main-Answered w f status r, main_of_Answered w f status r)
