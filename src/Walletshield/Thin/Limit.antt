-- ===== src/Walletshield/Thin/Limit.antt =====
-- What `sendRequest` hands to the thin client.
use zknet_anon_rpc_demo.Common.{
  ℕ, ◌≤◌, ◌<◌, ◌≡◌, ◌⊎◌, inl, inr, List, [], ◌∷◌, ◌++◌, refl, All, arith, length, ltb, Bool-cases,
}
use zknet_anon_rpc_demo.Common.Try.{Try-cases}
use zknet_anon_rpc_demo.Walletshield.Thin.{
  Env, Server, Message, err, too_large, send_request, reconnect, user_forward_payload_length,
}

-- Every message that was handed over fits the mixnet's payload.
abbrev pub Fits : Server → Type 0
Fits s = All (λ (m : Message). length m.payload ≤ user_forward_payload_length) s.messages

-- `t` is `s` with `n` messages more at most, each of them `payload`.
abbrev pub Adds : ℕ → List ℕ → Server → Server → Type 0
Adds n payload s t =
    (new : List Message) × (t.messages ≡ new ++ s.messages)
    × (length new ≤ n)
    × All (λ (m : Message). m.payload ≡ payload) new

pub send_request-Fits :
    (e : Env) (client : ℕ) (payload : List ℕ) (s : Server)
    → Fits s
    → Fits (send_request e client payload s).1
unfolding send_request
send_request-Fits e client payload s h = ground arith

pub reconnect-messages : (e : Env) (s : Server) → (reconnect e s).1.messages ≡ s.messages
unfolding reconnect
reconnect-messages e s = ground arith

send_request_log :
    (e : Env) (client : ℕ) (payload : List ℕ) (s : Server)
    → ((send_request e client payload s).1.messages ≡ s.messages)
      ⊎ ((m : Message) × (m.payload ≡ payload)
          × ((send_request e client payload s).1.messages ≡ m ∷ s.messages))
unfolding send_request
send_request_log e client payload s =
    elim (Bool-cases (ltb user_forward_payload_length (length payload))) [
      | inl large ↦ inl (ground arith)
      | inr fits ↦ elim (Bool-cases (e.thin_call client s.calls).has_document) [
        | inr missing ↦ inl (ground arith)
        | inl found ↦ elim (Try-cases (e.thin_call client s.calls).get_service) [
          | inl (text, f) ↦ inl (ground arith)
          | inr (t, f) ↦ inr (
            record {
              client = client;
              payload = payload;
              node = e.sum256 t.identity_key;
              queue = t.recipient_queue_id;
            },
            refl,
            ground arith,
          )
        ]
      ]
    ]

pub send_request-Adds :
    (e : Env) (client : ℕ) (payload : List ℕ) (s : Server)
    → Adds 1 payload s (send_request e client payload s).1
send_request-Adds e client payload s = elim (send_request_log e client payload s) [
  | inl same ↦ ([], same, omega arith, tt)
  | inr (m, p, more) ↦ (m ∷ [], more, omega arith, (p, tt))
]

-- A request that is too large is refused before the thin client is asked for anything.
pub send_request_too_large :
    (e : Env) (client : ℕ) (payload : List ℕ) (s : Server)
    → user_forward_payload_length < length payload
    → send_request e client payload s ≡ (err (too_large (length payload)), s)
unfolding send_request
send_request_too_large e client payload s h = ground arith
