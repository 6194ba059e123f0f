-- ===== src/KpsSendtx/Run/Crash.antt =====
-- When `main` ends with a run-time error.
use zknet_anon_rpc_demo.Common.{
  ℕ, ◌<◌, ◌≡◌, ◌≢◌, ◌⊎◌, inl, inr, List, [], ◌∷◌, Option, none, some, ltb, length, drop, arith,
  Bool-cases, Option-cases,
}
use zknet_anon_rpc_demo.KpsSendtx.Tx.{Crypto, private_key_to_address}
use zknet_anon_rpc_demo.KpsSendtx.Hex.{decode_string}
use zknet_anon_rpc_demo.KpsSendtx.Rpc.{Json, null, text, Reply, ok, call}
use zknet_anon_rpc_demo.KpsSendtx.Rpc.ParseUint.{parse_uint_panics}
use zknet_anon_rpc_demo.KpsSendtx.Run.{
  Flags, Request, get_transaction_count, gas_price, crashed, hex_text, parse_uint_or_zero, Run,
  after, request, choose_key, valid_recipient, broadcast, with_gas_price, with_nonce,
  with_recipient, main,
}
use zknet_anon_rpc_demo.KpsSendtx.Run.Broadcast.{Called-cases}

-- An answer of a node that is `null`, or a text of fewer than two bytes.
abbrev pub IsShort : Option Json → Type 0
IsShort raw = (raw ≡ some null) ⊎ ((s : List ℕ) × (raw ≡ some (text s)) × (length s < 2))

-- What made the program crash, with the requests that it had sent.
pub data Crash (f : Flags) (net : Request → Reply) : List Request → Type 0 where
  short_recipient : length f.to < 2 → Crash f net []
  short_nonce :
      (from : List ℕ) (raw : Option Json)
      → call (net (get_transaction_count from)) ≡ ok raw
      → IsShort raw
      → Crash f net (get_transaction_count from ∷ [])
  short_gas_price :
      (from : List ℕ) (raw : Option Json)
      → call (net gas_price) ≡ ok raw
      → IsShort raw
      → Crash f net (get_transaction_count from ∷ gas_price ∷ [])

requests-Crash :
    (f : Flags) (net : Request → Reply) (r : Run) {rs : List Request}
    → r.0 ≡ rs
    → Crash f net rs
    → Crash f net r.0
requests-Crash f net r e h = rw e h

parse_uint_or_zero-IsShort : (raw : Option Json) → parse_uint_or_zero raw ≡ none → IsShort raw
unfolding parse_uint_or_zero
parse_uint_or_zero-IsShort raw h = (parse_uint_panics raw).0 (ground arith)

module _ (c : Crypto) (f : Flags) (net : Request → Reply) (key : c.PrivateKey) where
  broadcast_ne :
      (to : List ℕ) (nonce price : ℕ)
      → (broadcast c f net key (request c f net to nonce price)).1 ≢ crashed
  unfolding broadcast
  broadcast_ne to nonce price h = ground arith

  with_gas_price-Crash :
      (from to : List ℕ) (nonce : ℕ)
      → (with_gas_price c f net key to nonce).1 ≡ crashed
      → Crash f net (get_transaction_count from ∷ (with_gas_price c f net key to nonce).0)
  unfolding with_gas_price
  with_gas_price-Crash from to nonce h = elim (Called-cases (call (net gas_price))) [
    | inl (e, p) ↦ absurd (ground (arith, h, p))
    | inr (raw, p) ↦ elim (Option-cases (parse_uint_or_zero raw)) [
      | inl e ↦
          requests-Crash f net
            (after (get_transaction_count from) (with_gas_price c f net key to nonce))
            (ground (arith, p, e)) (short_gas_price from raw p (parse_uint_or_zero-IsShort raw e))
      | inr (price, e) ↦ absurd (broadcast_ne to nonce price (ground (arith, h, p, e)))
    ]
  ]

  with_nonce-Crash :
      (from to : List ℕ)
      → (with_nonce c f net key from to).1 ≡ crashed
      → Crash f net (with_nonce c f net key from to).0
  unfolding with_nonce
  with_nonce-Crash from to h =
      elim (Called-cases (call (net (get_transaction_count (hex_text from))))) [
        | inl (e, p) ↦ absurd (ground (arith, h, p))
        | inr (raw, p) ↦ elim (Option-cases (parse_uint_or_zero raw)) [
          | inl e ↦
              requests-Crash f net (with_nonce c f net key from to) (ground (arith, p, e))
                (short_nonce (hex_text from) raw p (parse_uint_or_zero-IsShort raw e))
          | inr (nonce, e) ↦
              requests-Crash f net (with_nonce c f net key from to) (ground (arith, p, e))
                (with_gas_price-Crash (hex_text from) to nonce (ground (arith, h, p, e)))
        ]
      ]

  with_recipient-Crash :
      (from : List ℕ)
      → (with_recipient c f net key from).1 ≡ crashed
      → Crash f net (with_recipient c f net key from).0
  unfolding with_recipient
  with_recipient-Crash from h = elim (Bool-cases (ltb (length f.to) 2)) [
    | inl e ↦ rw e (short_recipient (ground (arith, e)))
    | inr e ↦ elim (Option-cases (valid_recipient (decode_string (drop 2 f.to)))) [
      | inl p ↦ absurd (ground (arith, h, e, p))
      | inr (to, p) ↦ rw (e, p) (with_nonce-Crash from to (ground (arith, h, e, p)))
    ]
  ]

-- If the program ends with a run-time error, then either the recipient's text has fewer than two bytes,
-- and no request was sent; or the node answered the request for the nonce, or then the one for the gas
-- price, with `null` or a text of fewer than two bytes, and that request was the last one. No
-- transaction was sent in any of these.
pub main-Crash :
    (c : Crypto) (f : Flags) (net : Request → Reply)
    → (main c f net).1 ≡ crashed
    → Crash f net (main c f net).0
unfolding main
main-Crash c f net h = elim (Option-cases (choose_key c f)) [
  | inl e ↦ absurd (ground (arith, h, e))
  | inr (key, e) ↦ elim (Option-cases (private_key_to_address c key)) [
    | inl p ↦ absurd (ground (arith, h, e, p))
    | inr (from, p) ↦
        requests-Crash f net (main c f net) (ground (arith, e, p))
          (with_recipient-Crash c f net key from (ground (arith, h, e, p)))
  ]
]
