-- ===== src/KpsRelay/Streams.antt =====
-- What the streams of a relayed connection are answered with.
use zknet_anon_rpc_demo.Common.{
  ℕ, ◌≡◌, refl, ◌⊎◌, inl, inr, List, [], ◌∷◌, ◌++◌, Option, none, some, length, map,
}
use zknet_anon_rpc_demo.Common.Bytes.{codes}
use zknet_anon_rpc_demo.Common.Try.{Try, done, failed, Try-cases}
use zknet_anon_rpc_demo.KpsRelay.{
  Client, Post, ethereum_url, post_of, written, forward, handle_stream, handle_conn,
}

-- A POST of `body` to the path /ethereum of the upstream server.
pub record IsPostOf (upstream body : List ℕ) (post : Post) : Type 0 where
  pub to_ethereum : post.url ≡ upstream ++ codes "/ethereum"
  pub as_json : post.content_type ≡ codes "application/json"
  pub same_body : post.body ≡ body

-- A stream that comes when `posts` have been sent, what is written to it, and the requests after it:
-- a request is numbered by those before it.
pub data Relayed (client : Client) (upstream : List ℕ) (posts : List Post)
    : Try (List ℕ) → Option (List ℕ) → List Post → Type 0 where
  unread : (text : List ℕ) → Relayed client upstream posts (failed text) none posts
  bad_url :
      (body text : List ℕ)
      → client.new_request (upstream ++ codes "/ethereum") ≡ failed text
      → Relayed client upstream posts (done body) none posts
  refused :
      (body text : List ℕ) (post : Post)
      → IsPostOf upstream body post
      → client.client_do (length posts) post ≡ failed text
      → Relayed client upstream posts (done body) none (post ∷ posts)
  answered :
      (body resp_body : List ℕ) (post : Post)
      → IsPostOf upstream body post
      → client.client_do (length posts) post ≡ done resp_body
      → Relayed client upstream posts (done body) (some resp_body) (post ∷ posts)

pub data AllRelayed (client : Client) (upstream : List ℕ)
    : List Post → List (Try (List ℕ)) → List (Option (List ℕ)) → List Post → Type 0 where
  end_of_streams : (posts : List Post) → AllRelayed client upstream posts [] [] posts
  and_then :
      {stream : Try (List ℕ)} {streams : List (Try (List ℕ))} {w : Option (List ℕ)}
      {ws : List (Option (List ℕ))} {posts next last : List Post}
      → Relayed client upstream posts stream w next
      → AllRelayed client upstream next streams ws last
      → AllRelayed client upstream posts (stream ∷ streams) (w ∷ ws) last

-- The bytes of the streams that can be read, each before those that came earlier.
unfoldable pub reads : List (Try (List ℕ)) → List (List ℕ) → List (List ℕ)
reads [] earlier = earlier
reads (failed text ∷ streams) earlier = reads streams earlier
reads (done body ∷ streams) earlier = reads streams (body ∷ earlier)

abbrev pub bodies : List Post → List (List ℕ)
bodies posts = map (λ post. post.body) posts

module _ (client : Client) (upstream : List ℕ) where
  post_of-IsPostOf : (body : List ℕ) → IsPostOf upstream body (post_of upstream body)
  post_of-IsPostOf body = record { to_ethereum = refl; as_json = refl; same_body = refl }

  written-Relayed :
      (body : List ℕ) (posts : List Post) (t : Try (List ℕ))
      → client.client_do (length posts) (post_of upstream body) ≡ t
      → Relayed client upstream posts (done body) (written t) (post_of upstream body ∷ posts)
  written-Relayed body posts (failed text) p =
      refused body text (post_of upstream body) (post_of-IsPostOf body) p
  written-Relayed body posts (done resp_body) p =
      answered body resp_body (post_of upstream body) (post_of-IsPostOf body) p

  forward-Relayed :
      (request : Try (Unit {0})) (body : List ℕ) (posts : List Post)
      → client.new_request (ethereum_url upstream) ≡ request
      → let (w, posts') = forward client upstream request body posts in
        Relayed client upstream posts (done body) w posts'
  forward-Relayed (failed text) body posts p = bad_url body text p
  forward-Relayed (done _) body posts p = written-Relayed body posts _ refl

  handle_stream-Relayed :
      (stream : Try (List ℕ)) (posts : List Post)
      → let (w, posts') = handle_stream client upstream stream posts in
        Relayed client upstream posts stream w posts'
  unfolding handle_stream
  handle_stream-Relayed (failed text) posts = unread text
  handle_stream-Relayed (done body) posts =
      forward-Relayed (client.new_request (ethereum_url upstream)) body posts refl

  handle_conn-AllRelayed :
      (streams : List (Try (List ℕ))) (posts : List Post)
      → let (ws, posts') = handle_conn client upstream streams posts in
        AllRelayed client upstream posts streams ws posts'
  unfolding handle_conn
  handle_conn-AllRelayed [] posts = end_of_streams posts
  handle_conn-AllRelayed (stream ∷ streams) posts =
      and_then (handle_stream-Relayed stream posts)
        (handle_conn-AllRelayed streams (handle_stream client upstream stream posts).1)

  no_requests :
      (text : List ℕ) (streams : List (Try (List ℕ))) (posts : List Post)
      → client.new_request (ethereum_url upstream) ≡ failed text
      → (handle_conn client upstream streams posts).1 ≡ posts
  unfolding handle_conn handle_stream
  no_requests text [] posts p = refl
  no_requests text (failed t ∷ streams) posts p = no_requests text streams posts p
  no_requests text (done body ∷ streams) posts p = rw p (no_requests text streams posts p)

  all_requests :
      (u : Unit {0}) (streams : List (Try (List ℕ))) (posts : List Post)
      → client.new_request (ethereum_url upstream) ≡ done u
      → bodies (handle_conn client upstream streams posts).1 ≡ reads streams (bodies posts)
  unfolding handle_conn handle_stream reads
  all_requests u [] posts p = refl
  all_requests u (failed t ∷ streams) posts p = all_requests u streams posts p
  all_requests u (done body ∷ streams) posts p =
      rw p (all_requests u streams (post_of upstream body ∷ posts) p)

  -- Over any streams of a connection: a stream is answered with what the upstream server said to the
  -- one request that was sent for it, a JSON POST of that stream's own bytes to the server's path
  -- /ethereum; or it is closed without an answer because it could not be read, the upstream URL is no
  -- URL, or that request failed. Either the URL is none, and no request is sent, or the bodies of the
  -- requests sent are the bytes of the streams that could be read, each of them once and in order.
  pub handle_conn_lem :
      (streams : List (Try (List ℕ))) (posts : List Post)
      → let (ws, posts') = handle_conn client upstream streams posts in
        AllRelayed client upstream posts streams ws posts'
        × (((text : List ℕ) × (client.new_request (upstream ++ codes "/ethereum") ≡ failed text)
              × (posts' ≡ posts))
            ⊎ (bodies posts' ≡ reads streams (bodies posts)))
  handle_conn_lem streams posts = (
    handle_conn-AllRelayed streams posts,
    elim (Try-cases (client.new_request (ethereum_url upstream))) [
      | inl (text, p) ↦ inl (text, p, no_requests text streams posts p)
      | inr (u, p) ↦ inr (all_requests u streams posts p)
    ],
  )
