-- ===== src/Dirauth/Examples/Peers.antt =====
-- Sending a command to a peer.
use zknet_anon_rpc_demo.Common.{
  ℕ, zero, suc, ◌+◌, ◌-◌, ◌≤◌, ◌≡◌, ◌≢◌, refl, List, [], ◌∷◌, true, Option, none, some, All, length,
}
use zknet_anon_rpc_demo.Common.Bytes.{codes}
use zknet_anon_rpc_demo.Common.Try.{Try, done, failed}
use zknet_anon_rpc_demo.Dirauth.Peers.{
  Network, Sent, sent, refused, crashed, delivered, unanswered, attempts, dial_first,
  do_send_command, send_command_to_peer_with_deadline, phase_deadline,
}
use zknet_anon_rpc_demo.Dirauth.Peers.Timely.{send_command_to_peer_with_deadline-IsTimely}

-- The peer answers the third attempt.
abbrev third_time : ℕ → Sent
third_time zero = refused (codes "timeout")
third_time (suc zero) = refused (codes "timeout")
third_time (suc (suc n)) = sent (codes "ok")

abbrev network : Network
network = record {
  answer = third_time;
  took = λ attempt. 10;
  retry_delay = λ attempt. 100;
  is_transient = λ text. true;
}

abbrev addrs : List (List ℕ)
addrs = codes "tcp://127.0.0.1:29483" ∷ []

-- The third attempt waits for what is left, 70, and not for 100.
in_time :
    send_command_to_peer_with_deadline network 190 addrs 5 0
    ≡ (delivered (codes "ok"), 0 ∷ 110 ∷ 190 ∷ [])
unfolding attempts
in_time = refl

too_few : (send_command_to_peer_with_deadline network 190 addrs 1 0).1 ≡ 0 ∷ 110 ∷ []
unfolding attempts
too_few = refl

-- A first address that cannot be dialled, and a last one that is no URL: there is no connection, and
-- no error either.
abbrev dial : List ℕ → Option (Try ℕ)
dial [] = none
dial (c ∷ address) = some (failed (codes "connection refused"))

no_connection :
    do_send_command dial (λ conn. done (codes "ok")) (codes "tcp://down" ∷ [] ∷ []) ≡ crashed
unfolding dial_first
no_connection = refl

send_command_to_peer_with_deadline-IsTimely_example :
    let r = send_command_to_peer_with_deadline network (phase_deadline 500 200 1000) addrs 5 1000 in
    All (λ t. t ≤ 1000 + (500 - 200)) r.1 × (length r.1 ≤ 5 + 1) × (r.0 ≢ unanswered)
send_command_to_peer_with_deadline-IsTimely_example =
    send_command_to_peer_with_deadline-IsTimely network addrs 5 1000 1000 500 200
