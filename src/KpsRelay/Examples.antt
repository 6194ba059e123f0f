-- ===== src/KpsRelay/Examples.antt =====
-- Tests of the model of kps-relay, and the theorems at concrete inputs.
use zknet_anon_rpc_demo.Common.{ℕ, ◌≡◌, ◌⊎◌, refl, List, [], ◌∷◌, ◌++◌, none, some}
use zknet_anon_rpc_demo.Common.Bytes.{codes}
use zknet_anon_rpc_demo.Common.Try.{Try, done, failed}
use zknet_anon_rpc_demo.KpsRelay.{Client, post_of, handle_stream, handle_conn}
use zknet_anon_rpc_demo.KpsRelay.Streams.{AllRelayed, bodies, reads, handle_conn_lem}

abbrev upstream : List ℕ
upstream = codes "http://127.0.0.1:9202"

-- An upstream server that echoes what it is sent.
abbrev echo : Client
echo = record { new_request = λ url. done tt; client_do = λ n post. done post.body }

abbrev streams : List (Try (List ℕ))
streams = done (codes "ab") ∷ failed (codes "reset") ∷ done (codes "c") ∷ []

echoed : handle_conn echo upstream streams [] ≡ (
  some (codes "ab") ∷ none ∷ some (codes "c") ∷ [],
  post_of upstream (codes "c") ∷ post_of upstream (codes "ab") ∷ [],
)
unfolding handle_conn handle_stream
echoed = refl

handle_conn_lem_example :
    let (ws, posts) = handle_conn echo upstream streams [] in
    AllRelayed echo upstream [] streams ws posts
    × (((text : List ℕ) × (echo.new_request (upstream ++ codes "/ethereum") ≡ failed text)
          × (posts ≡ []))
        ⊎ (bodies posts ≡ reads streams []))
handle_conn_lem_example = handle_conn_lem echo upstream streams []

all_sent : reads streams [] ≡ codes "c" ∷ codes "ab" ∷ []
unfolding reads
all_sent = refl
