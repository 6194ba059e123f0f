-- ===== src/Dirauth/Peers.antt =====
-- The commands that an authority sends to its peers: `sendCommandToPeerWithDeadline`, `doSendCommand`,
-- `phaseDeadline` and `PhaseInfo` of katzenpost/authority/voting/server/state.go.
pub mod Timely
use zknet_anon_rpc_demo.Common.{
  ℕ, zero, suc, ◌+◌, ◌-◌, ◌*◌, List, [], ◌∷◌, ◌++◌, Bool, true, false, not, Option, none, some, ltb,
  ◌==◌, if◌then◌else◌, min,
}
use zknet_anon_rpc_demo.Common.Text.{same_text}
use zknet_anon_rpc_demo.Common.Bytes.{codes}
use zknet_anon_rpc_demo.Common.Dict.{Dict, lookup}
use zknet_anon_rpc_demo.Common.Try.{Try, done, failed}
use zknet_anon_rpc_demo.Dirauth.Authorization.{Pinned, ReplicaInfo}
use zknet_anon_rpc_demo.Dirauth.Phases.{
  Phase, bootstrap, accept_descriptor, accept_vote, accept_reveal, accept_cert, accept_signature,
  mix_publish_deadline, authority_vote_deadline, authority_reveal_deadline, authority_cert_deadline,
  publish_consensus_deadline,
}

-- The connection that a session is made on. `no_conn` is nil, on which the session crashes.
pub data Link : Type 0 where
  connected : ℕ → Link
  exhausted : List ℕ → Link
  no_conn : Link

-- The addresses in turn: `none` is an address that is no URL, which is skipped.
unfoldable pub dial_first : (List ℕ → Option (Try ℕ)) → List (List ℕ) → Link
dial_first dial [] = no_conn
dial_first dial (a ∷ addrs) =
    let rest = dial_first dial addrs in
    elim (dial a) [
      | none ↦ rest
      | some (done conn) ↦ connected conn
      | some (failed text) ↦ elim addrs [ [] ↦ exhausted text | ◌∷◌ b bs ↦ rest ]
    ]

-- What comes of a command: `sent` has the answer.
pub data Sent : Type 0 where
  sent : List ℕ → Sent
  refused : List ℕ → Sent
  crashed : Sent

abbrev pub of_answer : Try (List ℕ) → Sent
of_answer (done answer) = sent answer
of_answer (failed text) = refused text

-- `session conn` is the session on a connection: the handshake, the command and the answer.
abbrev pub do_send_command : (List ℕ → Option (Try ℕ)) → (ℕ → Try (List ℕ)) → List (List ℕ) → Sent
do_send_command dial session addrs = elim (dial_first dial addrs) [
  | connected conn ↦ of_answer (session conn)
  | exhausted text ↦ refused (codes "all addresses exhausted: " ++ text)
  | no_conn ↦ crashed
]

-- The peer in time: what an attempt comes to, how long it takes, and the delay after it; which errors
-- are transient.
pub record Network : Type 0 where
  pub answer : ℕ → Sent
  pub took : ℕ → ℕ
  pub retry_delay : ℕ → ℕ
  pub is_transient : List ℕ → Bool

-- The result, with the times at which the attempts begin. `late` is the deadline, and `unanswered` an
-- answer of nil and no error, which needs a negative number of attempts in the configuration.
pub data Delivery : Type 0 where
  delivered : List ℕ → Delivery
  given_up : List ℕ → Delivery
  late unanswered died : Delivery

abbrev pub last_or_late : Option (List ℕ) → Delivery
last_or_late none = late
last_or_late (some text) = given_up text

abbrev pub last_or_nil : Option (List ℕ) → Delivery
last_or_nil none = unanswered
last_or_nil (some text) = given_up text

module _ (n : Network) (deadline : ℕ) where
  -- A retry waits, but not beyond the deadline.
  abbrev pub begins : ℕ → ℕ → ℕ
  begins zero now = now
  begins (suc attempt) now = now + min (n.retry_delay attempt) (deadline - now)

  -- `left` attempts are left, and `last` is the error of the last one.
  unfoldable pub attempts : ℕ → ℕ → Option (List ℕ) → ℕ → Delivery × List ℕ
  attempts zero attempt last now = (last_or_nil last, [])
  attempts (suc left) attempt last now = elim (ltb deadline now) [
    | true ↦ (last_or_late last, [])
    | false ↦
        let at_time = begins attempt now in
        elim (n.answer attempt) [
          | sent answer ↦ (delivered answer, at_time ∷ [])
          | crashed ↦ (died, at_time ∷ [])
          | refused text ↦ elim (n.is_transient text) [
            | false ↦ (given_up text, at_time ∷ [])
            | true ↦
                let (result, times) =
                  attempts left (suc attempt) (some text) (at_time + n.took attempt) in
                (result, at_time ∷ times)
          ]
        ]
  ]

  -- From the time `now` on, for a number of retries that is not negative; the addresses are those that
  -- filterPeerAddresses leaves.
  abbrev pub send_command_to_peer_with_deadline : List (List ℕ) → ℕ → ℕ → Delivery × List ℕ
  send_command_to_peer_with_deadline [] max_attempts now =
      (given_up (codes "no usable addresses"), [])
  send_command_to_peer_with_deadline (a ∷ addrs) max_attempts now =
      attempts (suc max_attempts) 0 none now

-- The time that is left for a phase, less 5 seconds where there are more.
unfoldable pub phase_deadline : ℕ → ℕ → ℕ → ℕ
phase_deadline target elapsed now =
    let remaining = target - elapsed in
    let buffer = 5 * 1000000000 in
    now + (if ltb buffer remaining then remaining - buffer else remaining)

-- The name of the phase is the phase; a state has one from its start on.
unfoldable pub phase_info : ℕ → ℕ → Phase → ℕ
phase_info period elapsed bootstrap = mix_publish_deadline period - elapsed
phase_info period elapsed accept_descriptor = mix_publish_deadline period - elapsed
phase_info period elapsed accept_vote = authority_vote_deadline period - elapsed
phase_info period elapsed accept_reveal = authority_reveal_deadline period - elapsed
phase_info period elapsed accept_cert = authority_cert_deadline period - elapsed
phase_info period elapsed accept_signature = publish_consensus_deadline period - elapsed
