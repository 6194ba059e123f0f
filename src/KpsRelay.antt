-- ===== src/KpsRelay.antt =====
-- `handleConn` of kps-relay/main.go: each stream of a KPS connection is one POST to the upstream
-- server. `http.NewRequest` and the HTTP client are a parameter.
pub mod Streams
pub mod Boot
pub mod Examples
use zknet_anon_rpc_demo.Common.{ℕ, List, [], ◌∷◌, ◌++◌, Option, none, some, length}
use zknet_anon_rpc_demo.Common.Bytes.{codes}
use zknet_anon_rpc_demo.Common.Try.{Try, done, failed}

pub record Post : Type 0 where
  pub url : List ℕ
  pub content_type : List ℕ
  pub body : List ℕ

-- `new_request` parses a URL; `client_do` sends a request, the one with the given number, and gives
-- what `io.ReadAll(resp.Body)` has read of the answer, whatever its status.
pub record Client : Type 0 where
  pub new_request : List ℕ → Try (Unit {0})
  pub client_do : ℕ → Post → Try (List ℕ)

abbrev pub ethereum_url : List ℕ → List ℕ
ethereum_url upstream = upstream ++ codes "/ethereum"

abbrev pub post_of : List ℕ → List ℕ → Post
post_of upstream body = record {
  url = ethereum_url upstream;
  content_type = codes "application/json";
  body = body;
}

-- What is written to the stream: `none` is nothing but its close.
abbrev pub written : Try (List ℕ) → Option (List ℕ)
written (failed text) = none
written (done resp_body) = some resp_body

module _ (client : Client) (upstream : List ℕ) where
  abbrev pub forward : Try (Unit {0}) → List ℕ → List Post → Option (List ℕ) × List Post
  forward (failed text) body posts = (none, posts)
  forward (done _) body posts =
      let post = post_of upstream body in
      (written (client.client_do (length posts) post), post ∷ posts)

  -- One stream, with what `io.ReadAll` makes of it, and the requests sent so far, the last first.
  unfoldable pub handle_stream : Try (List ℕ) → List Post → Option (List ℕ) × List Post
  handle_stream (failed text) posts = (none, posts)
  handle_stream (done body) posts = forward (client.new_request (ethereum_url upstream)) body posts

  -- The streams of a connection, in the order in which their requests are sent, until
  -- `AcceptStream` fails.
  unfoldable pub handle_conn : List (Try (List ℕ)) → List Post → List (Option (List ℕ)) × List Post
  handle_conn [] posts = ([], posts)
  handle_conn (stream ∷ streams) posts =
      let (w, posts') = handle_stream stream posts in
      let (ws, posts'') = handle_conn streams posts' in (w ∷ ws, posts'')
