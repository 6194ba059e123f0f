-- ===== src/Walletshield/Handler/Outcome.antt =====
-- What `Server.Handler` answers and sends.
use zknet_anon_rpc_demo.Common.{
  ℕ, ◌<◌, ◌≡◌, ◌⊎◌, inl, inr, List, [], ◌∷◌, ◌++◌, refl, true, All-append, arith, length,
  length-append, ◌∙◌, ap, sym, if◌then◌else◌,
}
use zknet_anon_rpc_demo.Common.Text.{same_text}
use zknet_anon_rpc_demo.Common.Bytes.{codes}
use zknet_anon_rpc_demo.Common.Decimal.{decimal}
use zknet_anon_rpc_demo.Common.Try.{done, Try-cases}
use zknet_anon_rpc_demo.Walletshield.Thin.{
  Env, Server, Message, SendErr, too_large, error_text, Sent, ok, err, send_request, reconnect,
  user_forward_payload_length,
}
use zknet_anon_rpc_demo.Walletshield.Thin.Live.{IsLive, send_request-IsLive, reconnect-IsLive}
use zknet_anon_rpc_demo.Walletshield.Thin.Limit.{
  Fits, Adds, send_request-Fits, send_request-Adds, reconnect-messages, send_request_too_large,
}
use zknet_anon_rpc_demo.Walletshield.Handler.{
  is_prefix, contains_text, HttpResponse, Decoders, http_error, response, with_key, copy_headers,
  answer, send_twice, handler,
}
use mathlib.Core.List.{append_assoc}

contains_text-append :
    (front s pattern : List ℕ)
    → contains_text s pattern ≡ true
    → contains_text (front ++ s) pattern ≡ true
unfolding contains_text
contains_text-append [] s pattern h = h
contains_text-append (x ∷ front) s pattern h = ground (arith, contains_text-append front s pattern)

too_large_text : (n : ℕ) → contains_text (error_text (too_large n)) (codes "exceeds maximum") ≡ true
unfolding error_text
too_large_text n =
    contains_text-append (codes "payload size " ++ decimal n) _ _
      (unfold contains_text is_prefix in refl)

-- A request of more than 2000 bytes is answered with status 500, and no message is handed to a thin
-- client, neither at first nor after the reconnect; but the handler does reconnect, and what it
-- leaves is the server after that reconnect.
pub handler_too_large :
    (e : Env) (d : Decoders) (serialized : List ℕ) (s : Server)
    → user_forward_payload_length < length serialized
    → (handler e d (done serialized) s ≡ (http_error 500 (codes "custom 500"), (reconnect e s).1))
      × ((handler e d (done serialized) s).1.messages ≡ s.messages)
unfolding handler send_twice answer
handler_too_large e d serialized s h = (
  rw (
    send_request_too_large e s.thin serialized s h,
    send_request_too_large e (reconnect e s).0 serialized (reconnect e s).1 h,
    too_large_text (length serialized),
  ),
  rw
      (
        send_request_too_large e s.thin serialized s h,
        send_request_too_large e (reconnect e s).0 serialized (reconnect e s).1 h,
      )
      (reconnect-messages e s),
)

Sent-cases : (r : Sent) → ((x : SendErr) × (r ≡ err x)) ⊎ ((reply : List ℕ) × (r ≡ ok reply))
Sent-cases (err x) = inl (x, refl)
Sent-cases (ok reply) = inr (reply, refl)

-- The two shapes of `send_twice`: the first attempt, or the second after a reconnect.
send_twice_cases :
    (e : Env) (serialized : List ℕ) (s : Server)
    → (send_twice e serialized s ≡ send_request e s.thin serialized s)
      ⊎ (let after = (send_request e s.thin serialized s).1 in
          send_twice e serialized s
          ≡ send_request e (reconnect e after).0 serialized (reconnect e after).1)
unfolding send_twice
send_twice_cases e serialized s = elim (Sent-cases (send_request e s.thin serialized s).0) [
  | inl (x, p) ↦ inr (ground arith)
  | inr (reply, p) ↦ inl (ground arith)
]

pub reconnect-Fits : (e : Env) (s : Server) → Fits s → Fits (reconnect e s).1
reconnect-Fits e s h = rw (reconnect-messages e s) h

Adds-trans :
    (payload : List ℕ) (s t u v : Server)
    → Adds 1 payload s t
    → u.messages ≡ t.messages
    → Adds 1 payload u v
    → Adds 2 payload s v
Adds-trans payload s t u v (xs, p, n, h) same (ys, q, m, k) = (
  ys ++ xs,
  q ∙ ap (λ (l : List Message). ys ++ l) (same ∙ p) ∙ sym (append_assoc ys xs s.messages),
  omega (arith, length-append ys xs),
  All-append (λ (msg : Message). msg.payload ≡ payload) ys xs k h,
)

send_twice-Adds :
    (e : Env) (serialized : List ℕ) (s : Server) → Adds 2 serialized s (send_twice e serialized s).1
send_twice-Adds e serialized s = elim (send_twice_cases e serialized s) [
  | inl once ↦
      let (new, p, n, h) = send_request-Adds e s.thin serialized s in
      rw once (new, p, omega (arith, n), h)
  | inr again ↦
      let after = (send_request e s.thin serialized s).1 in
      rw again (
        Adds-trans serialized s after (reconnect e after).1
          (send_request e (reconnect e after).0 serialized (reconnect e after).1).1
          (send_request-Adds e s.thin serialized s) (reconnect-messages e after)
          (send_request-Adds e (reconnect e after).0 serialized (reconnect e after).1))
]

-- What holds of the server between requests: its client is open, and every message so far fits.
pub record IsServing (s : Server) : Type 0 where
  pub live : IsLive s
  pub fits : Fits s

send_twice-IsServing :
    (e : Env) (serialized : List ℕ) (s : Server)
    → IsServing s
    → IsServing (send_twice e serialized s).1
send_twice-IsServing e serialized s v =
    let after = (send_request e s.thin serialized s).1 in
    let live = send_request-IsLive e s.thin serialized s v.live in
    let fits = send_request-Fits e s.thin serialized s v.fits in
    elim (send_twice_cases e serialized s) [
      | inl once ↦ rw once (record { live = live; fits = fits })
      | inr again ↦ rw again (record {
        live = send_request-IsLive e _ serialized _ (reconnect-IsLive e after live).0;
        fits = send_request-Fits e _ serialized _ (reconnect-Fits e after fits);
      })
    ]

-- Whatever the library and the network answer, a request that finds the server with an open client
-- and messages that fit the limit of 2000 bytes leaves it so, and hands over two messages at most,
-- each of which is the request's bytes.
pub handler-IsServing :
    (e : Env) (d : Decoders) (serialized : List ℕ) (s : Server)
    → IsServing s
    → let t = (handler e d (done serialized) s).1 in IsServing t × Adds 2 serialized s t
unfolding handler
handler-IsServing e d serialized s v =
    (send_twice-IsServing e serialized s v, send_twice-Adds e serialized s)

-- The values of a header, in the order in which they are written to the browser, and those that the
-- response has.
unfoldable pub written_values : List ℕ → List (List ℕ × List ℕ) → List (List ℕ)
written_values k [] = []
written_values k ((j, v) ∷ headers) =
    let rest = written_values k headers in if same_text j k then v ∷ rest else rest

unfoldable pub response_values : List ℕ → List (List ℕ × List (List ℕ)) → List (List ℕ)
response_values k [] = []
response_values k ((j, vs) ∷ headers) =
    let rest = response_values k headers in if same_text j k then vs ++ rest else rest

with_key-written_values :
    (k j : List ℕ) (vs : List (List ℕ)) (rest : List (List ℕ × List ℕ))
    → written_values k (with_key j vs rest)
      ≡ (if same_text j k then vs ++ written_values k rest else written_values k rest)
unfolding written_values
with_key-written_values k j [] rest = ground arith
with_key-written_values k j (v ∷ vs) rest = ground (arith, with_key-written_values k j vs rest)

copy_headers-written_values :
    (k : List ℕ) (headers : List (List ℕ × List (List ℕ)))
    → written_values k (copy_headers headers) ≡ response_values k headers
unfolding copy_headers written_values response_values
copy_headers-written_values k [] = refl
copy_headers-written_values k ((j, vs) ∷ headers) = ground (
  arith,
  with_key-written_values k j vs (copy_headers headers),
  copy_headers-written_values k headers,
)

-- The first attempt has the reply; or it fails, and the second one has it, over the reconnected client.
abbrev pub Received : Env → List ℕ → Server → List ℕ → Type 0
Received e serialized s reply =
    let (first, after) = send_request e s.thin serialized s in
    (first ≡ ok reply)
    ⊎ ((x : SendErr) × (first ≡ err x)
        × ((send_request e (reconnect e after).0 serialized (reconnect e after).1).0 ≡ ok reply))

send_twice-Received :
    (e : Env) (serialized : List ℕ) (s : Server) (reply : List ℕ)
    → (send_twice e serialized s).0 ≡ ok reply
    → Received e serialized s reply
unfolding send_twice
send_twice-Received e serialized s reply h =
    elim (Sent-cases (send_request e s.thin serialized s).0) [
      | inl (x, p) ↦ inr (x, p, ground arith)
      | inr (r, p) ↦ inl (ground arith)
    ]

-- What a relayed response rests on: a reply, decoded twice.
pub record Relayed (e : Env) (d : Decoders) (serialized : List ℕ) (s : Server) (code : ℕ)
    (headers : List (List ℕ × List ℕ)) (body : List ℕ) : Type 0 where
  pub reply : List ℕ
  pub payload : List ℕ
  pub proxied : HttpResponse
  pub received : Received e serialized s reply
  pub unwrapped : d.unmarshal reply ≡ done payload
  pub parsed : d.read_response payload ≡ done proxied
  pub same_code : proxied.status_code ≡ code
  pub same_headers : (k : List ℕ) → written_values k headers ≡ response_values k proxied.headers
  pub same_body : proxied.body ≡ body

answer_lem :
    (d : Decoders) (r : Sent) (code : ℕ) (headers : List (List ℕ × List ℕ)) (body : List ℕ)
    → answer d r ≡ response code headers body
    → (reply : List ℕ) × (payload : List ℕ) × (proxied : HttpResponse) × (r ≡ ok reply)
      × (d.unmarshal reply ≡ done payload)
      × (d.read_response payload ≡ done proxied)
      × (proxied.status_code ≡ code)
      × (copy_headers proxied.headers ≡ headers)
      × (proxied.body ≡ body)
unfolding answer
answer_lem d (err x) code headers body h = absurd (ground arith)
answer_lem d (ok reply) code headers body h = elim (Try-cases (d.unmarshal reply)) [
  | inl (text, p) ↦ absurd (ground arith)
  | inr (payload, p) ↦ elim (Try-cases (d.read_response payload)) [
    | inl (text, q) ↦ absurd (ground arith)
    | inr (r, q) ↦ (reply, payload, r, refl, p, q, ground arith, ground arith, ground arith)
  ]
]

-- The handler relays a response only if the first attempt was answered, or the first failed and the one
-- after the reconnect was answered, and the answer decodes to an HTTP response. It relays that
-- response's status, its body, and for every header name the values that the response has, in order.
pub handler_relays :
    (e : Env) (d : Decoders) (serialized : List ℕ) (s : Server) (code : ℕ)
    (headers : List (List ℕ × List ℕ)) (body : List ℕ)
    → (handler e d (done serialized) s).0 ≡ response code headers body
    → Relayed e d serialized s code headers body
unfolding handler
handler_relays e d serialized s code headers body h =
    let (reply, payload, proxied, p, q, r, a, b, c) =
      answer_lem d (send_twice e serialized s).0 code headers body h in
    record {
      reply = reply;
      payload = payload;
      proxied = proxied;
      received = send_twice-Received e serialized s reply p;
      unwrapped = q;
      parsed = r;
      same_code = a;
      same_headers = λ k. rw (sym b) (copy_headers-written_values k proxied.headers);
      same_body = c;
    }
