-- ===== src/Walletshield/Kps/Streams.antt =====
-- What a KPS connection does to the server.
use zknet_anon_rpc_demo.Common.{ℕ, suc, ◌+◌, ◌≤◌, ◌≡◌, refl, List, [], ◌∷◌, arith, length, ap, ◌∙◌}
use zknet_anon_rpc_demo.Walletshield.Thin.{Env, Server, send_request}
use zknet_anon_rpc_demo.Walletshield.Thin.Live.{send_request-IsLive}
use zknet_anon_rpc_demo.Walletshield.Thin.Limit.{send_request-Fits}
use zknet_anon_rpc_demo.Walletshield.Handler.Outcome.{IsServing}
use zknet_anon_rpc_demo.Walletshield.Kps.{handle_stream, handle_kps_conn}

-- A stream makes no reconnect, and hands over one message at most.
pub send_request-keeps :
    (e : Env) (client : ℕ) (payload : List ℕ) (s : Server)
    → let t = (send_request e client payload s).1 in
      (t.thin ≡ s.thin)
      × (t.closed ≡ s.closed)
      × (t.next_client ≡ s.next_client)
      × (length t.messages ≤ length s.messages + 1)
unfolding send_request
send_request-keeps e client payload s = ground arith

handle_stream-IsServing :
    (e : Env) (body : List ℕ) (s : Server) → IsServing s → IsServing (handle_stream e body s).1
unfolding handle_stream
handle_stream-IsServing e body s v = record {
  live = send_request-IsLive e s.thin body s v.live;
  fits = send_request-Fits e s.thin body s v.fits;
}

-- Over any streams of a connection to a server with an open client whose messages fit: the client stays the same, also after errors, and nothing is
-- closed or dialled; each stream gets one answer or none, and hands over one message at most; and
-- the server stays one with an open client whose messages fit.
pub handle_kps_conn_lem :
    (e : Env) (bodies : List (List ℕ)) (s : Server)
    → IsServing s
    → let (written, t) = handle_kps_conn e bodies s in
      IsServing t
      × (t.thin ≡ s.thin)
      × (t.closed ≡ s.closed)
      × (t.next_client ≡ s.next_client)
      × (length written ≡ length bodies)
      × (length t.messages ≤ length s.messages + length bodies)
unfolding handle_kps_conn handle_stream
handle_kps_conn_lem e [] s v = (v, refl, refl, refl, refl, omega arith)
handle_kps_conn_lem e (body ∷ bodies) s v =
    let s' = (send_request e s.thin body s).1 in
    let (a, b, c, d, n, m) = handle_kps_conn_lem e bodies s' (handle_stream-IsServing e body s v) in
    let (p, q, r, k) = send_request-keeps e s.thin body s in
    (a, b ∙ p, c ∙ q, d ∙ r, ap suc n, omega (arith, m, k))
