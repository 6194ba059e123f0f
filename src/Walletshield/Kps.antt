-- ===== src/Walletshield/Kps.antt =====
-- `handleKPSConn` of walletshield/main.go: each stream of a KPS connection carries one request.
pub mod Streams
use zknet_anon_rpc_demo.Common.{ℕ, List, [], ◌∷◌, Option, none, some}
use zknet_anon_rpc_demo.Walletshield.Thin.{Env, Server, Sent, ok, err, send_request, get_thin}

-- What is written to the stream: `none` is nothing but its close.
abbrev written : Sent → Option (List ℕ)
written (ok reply) = some reply
written (err x) = none

module _ (e : Env) where
  -- One stream, of which `body` could be read; an error of `io.ReadAll` is dropped.
  unfoldable pub handle_stream : List ℕ → Server → Option (List ℕ) × Server
  handle_stream body s = let (r, s') = send_request e (get_thin s) body s in (written r, s')

  -- The streams of a connection, in the order in which their requests are sent, until
  -- `AcceptStream` fails.
  unfoldable pub handle_kps_conn : List (List ℕ) → Server → List (Option (List ℕ)) × Server
  handle_kps_conn [] s = ([], s)
  handle_kps_conn (body ∷ bodies) s =
      let (w, s') = handle_stream body s in
      let (ws, s'') = handle_kps_conn bodies s' in (w ∷ ws, s'')
