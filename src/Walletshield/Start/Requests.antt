-- ===== src/Walletshield/Start/Requests.antt =====
-- What holds of the server from the start of the program on.
use zknet_anon_rpc_demo.Common.{ℕ, ◌≡◌, refl, inl, inr, List, [], ◌∷◌, ◌&&◌, not, arith, Bool-cases}
use zknet_anon_rpc_demo.Common.Text.{same_text}
use zknet_anon_rpc_demo.Common.Bytes.{codes}
use zknet_anon_rpc_demo.Common.Try.{Try, done, failed}
use zknet_anon_rpc_demo.Common.Step.{go_on, first_step, orelse, require}
use zknet_anon_rpc_demo.Walletshield.Thin.{Env, Server}
use zknet_anon_rpc_demo.Walletshield.Handler.{Decoders, handler}
use zknet_anon_rpc_demo.Walletshield.Handler.Outcome.{IsServing, handler-IsServing}
use zknet_anon_rpc_demo.Walletshield.Start.{
  Flags, no_listen, no_config, bad_config, bad_dial, is_empty, Started, start, new_server, Request,
  serve, after_requests,
}

new_server-IsServing : IsServing new_server
new_server-IsServing = record {
  live = record { open_client = refl; made = omega arith; closed_made = tt };
  fits = tt;
}

start-new_server :
    (f : Flags) (e : Env) (intn : ℕ → ℕ) (listened : Try (List ℕ)) (st : Started)
    → start f e intn listened ≡ go_on st
    → st.server ≡ new_server
unfolding start
start-new_server f e intn listened st h =
    let (a, p1, h1) = first_step (require (not (is_empty f.listen && not f.probe)) no_listen) _ h in
    let (b, p2, h2) = first_step (require (not (is_empty f.config)) no_config) _ h1 in
    let (c, p3, h3) = first_step (orelse (e.load_file 0) bad_config) _ h2 in
    let (d, p4, h4) = first_step (orelse (e.dial 0) bad_dial) _ h3 in ground arith

module _ (f : Flags) (e : Env) (d : Decoders) (kps_addr : List ℕ) where
  handled-IsServing : (t : Try (List ℕ)) (s : Server) → IsServing s → IsServing (handler e d t s).1
  unfolding handler
  handled-IsServing (failed text) s v = v
  handled-IsServing (done serialized) s v = (handler-IsServing e d serialized s v).0

  serve-IsServing :
      (r : Request) (s : Server) → IsServing s → IsServing (serve f e d kps_addr r s).1
  unfolding serve
  serve-IsServing r s v = elim (Bool-cases (same_text r.path (codes "/boot"))) [
    | inl b ↦ rw b v
    | inr b ↦ elim (Bool-cases (same_text r.path (codes "/get-worker"))) [
      | inl g ↦ rw (b, g) v
      | inr g ↦ rw (b, g) (handled-IsServing r.dumped s v)
    ]
  ]

  after_requests-IsServing :
      (requests : List Request) (s : Server)
      → IsServing s
      → IsServing (after_requests f e d kps_addr requests s)
  unfolding after_requests
  after_requests-IsServing [] s v = v
  after_requests-IsServing (r ∷ requests) s v =
      after_requests-IsServing requests _ (serve-IsServing r s v)

-- From a start that succeeds on: after any requests for any paths, one after the other, whatever the
-- library, the network and the file system answer, the server has an open client, and every message
-- that it has handed over fits the limit of 2000 bytes.
pub start-IsServing :
    (f : Flags) (e : Env) (d : Decoders) (intn : ℕ → ℕ) (listened : Try (List ℕ)) (st : Started)
    (requests : List Request)
    → start f e intn listened ≡ go_on st
    → IsServing (after_requests f e d st.kps_addr requests st.server)
start-IsServing f e d intn listened st requests h =
    after_requests-IsServing f e d st.kps_addr requests st.server
      (rw (start-new_server f e intn listened st h) new_server-IsServing)
