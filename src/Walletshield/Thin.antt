-- ===== src/Walletshield/Thin.antt =====
-- The server's thin client in walletshield/main.go: `sendRequest`, `reconnect` and `getThin`. The
-- thin client library and the daemon that it talks to are a parameter; a client is a number.
pub mod Live
pub mod Limit
use zknet_anon_rpc_demo.Common.{
  ℕ, suc, ◌+◌, ◌||◌, ◌&&◌, List, [], ◌∷◌, ◌++◌, Bool, true, false, length, ltb, ◌==◌, if◌then◌else◌,
}
use zknet_anon_rpc_demo.Common.Bytes.{codes}
use zknet_anon_rpc_demo.Common.Decimal.{decimal}
use zknet_anon_rpc_demo.Common.Try.{Try, done, failed}

-- A service descriptor: the identity key of its node and the queue it reads.
pub record Target : Type 0 where
  pub identity_key : List ℕ
  pub recipient_queue_id : List ℕ

-- What a thin client answers in the course of one `sendRequest`; `blocking_send_message` takes the
-- payload, the node and the queue.
pub record ThinCall : Type 0 where
  pub has_document : Bool
  pub get_service : Try Target
  pub blocking_send_message : List ℕ → List ℕ → List ℕ → Try (List ℕ)

-- `thin_call c n` is the n-th call, made on the client `c`; `load_file n` and `dial c` are those of
-- `reconnect`, by the number of the client to be made.
pub record Env : Type 0 where
  pub sum256 : List ℕ → List ℕ
  pub thin_call : ℕ → ℕ → ThinCall
  pub load_file : ℕ → Try (Unit {0})
  pub dial : ℕ → Try (Unit {0})

pub record Message : Type 0 where
  pub client : ℕ
  pub payload : List ℕ
  pub node : List ℕ
  pub queue : List ℕ

-- `closed` are the clients that `Close` was called on, `next_client` is the number of clients made
-- so far, `calls` the number of `sendRequest`s that reached the library, and `messages` what was
-- handed to `BlockingSendMessage`; the newest stands first.
pub record Server : Type 0 where
  pub thin : ℕ
  pub closed : List ℕ
  pub next_client : ℕ
  pub calls : ℕ
  pub messages : List Message

abbrev pub user_forward_payload_length : ℕ
user_forward_payload_length = 2000

pub data SendErr : Type 0 where
  too_large : ℕ → SendErr
  no_document : SendErr
  no_service : List ℕ → SendErr
  not_sent : List ℕ → SendErr

-- `err.Error()`
unfoldable pub error_text : SendErr → List ℕ
error_text (too_large n) =
    (codes "payload size " ++ decimal n)
    ++ (codes " exceeds maximum"
        ++ (codes " " ++ (decimal user_forward_payload_length ++ codes " bytes")))
error_text no_document = codes "PKI document is not available"
error_text (no_service text) = codes "GetService(http_proxy) failed: " ++ text
error_text (not_sent text) = text

pub data Sent : Type 0 where
  ok : List ℕ → Sent
  err : SendErr → Sent

abbrev from_try : Try (List ℕ) → Sent
from_try (done reply) = ok reply
from_try (failed text) = err (not_sent text)

module _ (e : Env) where
  abbrev with_target : ℕ → List ℕ → ThinCall → Server → Try Target → Sent × Server
  with_target client payload c s (failed text) = (err (no_service text), s)
  with_target client payload c s (done target) =
      let node = e.sum256 target.identity_key in
      let queue = target.recipient_queue_id in
      (
        from_try (c.blocking_send_message payload node queue),
        record s {
          messages =
              record { client = client; payload = payload; node = node; queue = queue }
              ∷ s.messages;
        },
      )

  unfoldable pub send_request : ℕ → List ℕ → Server → Sent × Server
  send_request client payload s =
      if ltb user_forward_payload_length (length payload)
      then (err (too_large (length payload)), s)
      else (let c = e.thin_call client s.calls in
          let s' = record s { calls = suc s.calls } in
          if c.has_document
          then with_target client payload c s' c.get_service
          else (err no_document, s'))

  abbrev after_dial : ℕ → Server → Try (Unit {0}) → ℕ × Server
  after_dial client s (failed text) = (s.thin, s)
  after_dial client s (done _) = (client, record s { thin = client; closed = s.thin ∷ s.closed })

  abbrev after_load : Server → Try (Unit {0}) → ℕ × Server
  after_load s (failed text) = (s.thin, s)
  after_load s (done _) =
      let client = s.next_client in
      after_dial client (record s { next_client = suc client }) (e.dial client)

  -- The client to go on with, and the server.
  unfoldable pub reconnect : Server → ℕ × Server
  reconnect s = after_load s (e.load_file s.next_client)

abbrev pub get_thin : Server → ℕ
get_thin s = s.thin
