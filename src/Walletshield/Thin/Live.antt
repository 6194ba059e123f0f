-- ===== src/Walletshield/Thin/Live.antt =====
-- The client that the server holds is open.
use zknet_anon_rpc_demo.Common.{ℕ, suc, ◌≤◌, ◌<◌, ◌≡◌, List, [], ◌∷◌, refl, false, arith, contains}
use zknet_anon_rpc_demo.Walletshield.Thin.{Env, Server, send_request, reconnect}

abbrev pub Below : ℕ → List ℕ → Type 0
Below n [] = Unit {0}
Below n (c ∷ cs) = (c < n) × Below n cs

-- The server's client was made and is not closed, and no client is closed before it is made.
pub record IsLive (s : Server) : Type 0 where
  pub open_client : contains s.closed s.thin ≡ false
  pub made : s.thin < s.next_client
  pub closed_made : Below s.next_client s.closed

Below-mono : (m n : ℕ) (cs : List ℕ) → m ≤ n → Below m cs → Below n cs
Below-mono m n [] h b = tt
Below-mono m n (c ∷ cs) h (p, b) = (omega arith, Below-mono m n cs h b)

contains-Below : (n : ℕ) (cs : List ℕ) → Below n cs → contains cs n ≡ false
contains-Below n [] b = refl
contains-Below n (c ∷ cs) (p, b) = ground (arith, contains-Below n cs)

pub send_request-IsLive :
    (e : Env) (client : ℕ) (payload : List ℕ) (s : Server)
    → IsLive s
    → IsLive (send_request e client payload s).1
unfolding send_request
send_request-IsLive e client payload s v = ground arith

-- A reconnect goes on with an open client, which is the server's, whether it succeeds or fails.
pub reconnect-IsLive :
    (e : Env) (s : Server)
    → IsLive s
    → IsLive (reconnect e s).1 × ((reconnect e s).0 ≡ (reconnect e s).1.thin)
unfolding reconnect
reconnect-IsLive e s v = ground (
  arith,
  contains-Below s.next_client s.closed,
  Below-mono s.next_client (suc s.next_client) s.closed,
)
