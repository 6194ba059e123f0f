-- ===== src/KpsSendtx/Run/Broadcast.antt =====
-- What `main` has sent when it reaches the broadcast.
use zknet_anon_rpc_demo.Common.{
  ℕ, ◌^◌, ◌<◌, ◌≡◌, ◌⊎◌, inl, inr, refl, List, [], ◌∷◌, Option, none, some, length, drop, arith,
  All, ◌+◌, ◌*◌, ap, ◌∙◌, Bool, true, false, Option-cases,
}
use zknet_anon_rpc_demo.Common.Bytes.{IsByte}
use zknet_anon_rpc_demo.KpsSendtx.Tx.{Crypto, SignsCompact, sign_legacy_tx, private_key_to_address}
use zknet_anon_rpc_demo.KpsSendtx.Tx.Decoder.{SignedTx, decode_tx}
use zknet_anon_rpc_demo.KpsSendtx.Tx.Signed.{IsRequest, decode_tx-sign_legacy_tx}
use zknet_anon_rpc_demo.KpsSendtx.Hex.{hex_digit, decode_string}
use zknet_anon_rpc_demo.KpsSendtx.Rpc.{Json, Reply, CallErr, Called, ok, err, call, parse_uint}
use zknet_anon_rpc_demo.KpsSendtx.Run.{
  Flags, Request, get_transaction_count, gas_price, send_raw_transaction, Outcome, fatal, crashed,
  after, sent, broadcast_failed, hex_text, parse_uint_or_zero, Run, request, choose_key, broadcast,
  with_gas_price, with_nonce, with_recipient, main,
}
use zknet_anon_rpc_demo.Common.Maybe.{◌>>=◌}
use mathlib.Core.Path.{subst}

hex_digit-lt : (c d : ℕ) → hex_digit c ≡ some d → d < 16
unfolding hex_digit
hex_digit-lt c d h = ground arith

abbrev IsBytes : Option (List ℕ) → Type 0
IsBytes none = Unit {0}
IsBytes (some bytes) = All IsByte bytes

decode_string-IsBytes : (text : List ℕ) → IsBytes (decode_string text)
unfolding decode_string
decode_string-IsBytes [] = tt
decode_string-IsBytes (x ∷ []) = tt
decode_string-IsBytes (x ∷ y ∷ text) = elim (Option-cases (hex_digit x)) [
  | inl e ↦ rw e tt
  | inr (high, e) ↦ rw e (elim (Option-cases (hex_digit y)) [
    | inl e' ↦ rw e' tt
    | inr (low, e') ↦ rw e' (
        prepend high low (hex_digit-lt x high e) (hex_digit-lt y low e') _
          (decode_string-IsBytes text))
  ])
]
  where
    prepend :
        (high low : ℕ)
        → high < 16
        → low < 16
        → (rest : Option (List ℕ)) → IsBytes rest
        → IsBytes (rest >>= λ bytes. some ((high * 16 + low) ∷ bytes))
    prepend high low h l none r = tt
    prepend high low h l (some bytes) r = (omega arith, r)

-- Whether a run came as far as the broadcast.
abbrev pub is_broadcast : Outcome → Bool
is_broadcast (fatal e) = false
is_broadcast crashed = false
is_broadcast (broadcast_failed e) = true
is_broadcast (sent r) = true

pub Called-cases : (d : Called) → ((e : CallErr) × (d ≡ err e)) ⊎ ((r : Option Json) × (d ≡ ok r))
Called-cases (ok r) = inr (r, refl)
Called-cases (err e) = inl (e, refl)

-- The number that `main` takes from the reply to a request: 0 also where the reply is no number.
abbrev pub Number : Reply → ℕ → Type 0
Number reply n = (raw : Option Json) × (call reply ≡ ok raw) × (parse_uint_or_zero raw ≡ some n)

module _ (c : Crypto) (f : Flags) (net : Request → Reply) (key : c.PrivateKey) where
  with_gas_price_lem :
      (to : List ℕ) (nonce : ℕ)
      → is_broadcast (with_gas_price c f net key to nonce).1 ≡ true
      → (price : ℕ) × Number (net gas_price) price
        × (with_gas_price c f net key to nonce
            ≡ after gas_price (broadcast c f net key (request c f net to nonce price)))
  unfolding with_gas_price
  with_gas_price_lem to nonce h = elim (Called-cases (call (net gas_price))) [
    | inl (e, p) ↦ absurd (ground arith)
    | inr (raw, p) ↦ elim (Option-cases (parse_uint_or_zero raw)) [
      | inl e ↦ absurd (ground arith)
      | inr (price, e) ↦ (price, (raw, p, e), ground arith)
    ]
  ]

  with_nonce_lem :
      (from to : List ℕ)
      → is_broadcast (with_nonce c f net key from to).1 ≡ true
      → (nonce : ℕ) × Number (net (get_transaction_count (hex_text from))) nonce
        × (is_broadcast (with_gas_price c f net key to nonce).1 ≡ true)
        × (with_nonce c f net key from to
            ≡ after (get_transaction_count (hex_text from)) (with_gas_price c f net key to nonce))
  unfolding with_nonce
  with_nonce_lem from to h =
      elim (Called-cases (call (net (get_transaction_count (hex_text from))))) [
        | inl (e, p) ↦ absurd (ground arith)
        | inr (raw, p) ↦ elim (Option-cases (parse_uint_or_zero raw)) [
          | inl e ↦ absurd (ground arith)
          | inr (nonce, e) ↦ (nonce, (raw, p, e), ground arith, ground arith)
        ]
      ]

  with_recipient_lem :
      (from : List ℕ)
      → is_broadcast (with_recipient c f net key from).1 ≡ true
      → (to : List ℕ) × (decode_string (drop 2 f.to) ≡ some to)
        × (length to ≡ 20)
        × (is_broadcast (with_nonce c f net key from to).1 ≡ true)
        × (with_recipient c f net key from ≡ with_nonce c f net key from to)
  unfolding with_recipient
  with_recipient_lem from h = elim (Option-cases (decode_string (drop 2 f.to))) [
    | inl e ↦ absurd (ground arith)
    | inr (to, e) ↦ (to, e, ground arith, ground arith, ground arith)
  ]

-- What a run that reached the broadcast has done: the requests in their order, and the transaction
-- that a strict decoder reads in the text of the last.
pub record Broadcast (c : Crypto) (f : Flags) (net : Request → Reply) (requests : List Request)
    : Type 0 where
  pub from : List ℕ
  pub to : List ℕ
  pub nonce : ℕ
  pub price : ℕ
  pub bytes : List ℕ
  pub tx : SignedTx
  pub order :
      requests
      ≡ get_transaction_count (hex_text from)
        ∷ gas_price
        ∷ send_raw_transaction (hex_text bytes)
        ∷ []
  pub recipient : decode_string (drop 2 f.to) ≡ some to
  pub recipient_size : length to ≡ 20
  pub nonce_from_reply : Number (net (get_transaction_count (hex_text from))) nonce
  pub price_from_reply : Number (net gas_price) price
  pub decoded : decode_tx bytes ≡ some tx
  pub tx_nonce : tx.nonce ≡ nonce
  pub tx_gas_price : tx.gas_price ≡ price
  pub tx_gas_limit : tx.gas_limit ≡ f.gas_limit
  pub tx_to : tx.to ≡ to
  pub tx_value : tx.value ≡ f.value
  pub tx_payload : tx.payload ≡ []

-- The numeric flags are of type uint64.
pub record IsFlags (f : Flags) : Type 0 where
  pub value_u64 : f.value < 2 ^ 64
  pub gas_limit_u64 : f.gas_limit < 2 ^ 64
  pub chain_id_u64 : f.chain_id < 2 ^ 64

parse_uint_or_zero-lt : (raw : Option Json) (n : ℕ) → parse_uint_or_zero raw ≡ some n → n < 2 ^ 64
unfolding parse_uint_or_zero parse_uint
parse_uint_or_zero-lt raw n e = ground arith

request-IsRequest :
    (c : Crypto) (f : Flags) (net : Request → Reply) (to : List ℕ) (nonce price : ℕ)
    → IsFlags f
    → decode_string (drop 2 f.to) ≡ some to
    → length to ≡ 20
    → nonce < 2 ^ 64
    → price < 2 ^ 64
    → IsRequest (request c f net to nonce price)
request-IsRequest c f net to nonce price flags e size hn hp = record {
  chain_id_u64 = flags.chain_id_u64;
  nonce_u64 = hn;
  gas_price_u64 = hp;
  gas_limit_u64 = flags.gas_limit_u64;
  value_u64 = flags.value_u64;
  to_bytes = subst IsBytes e (decode_string-IsBytes (drop 2 f.to));
  to_short = omega arith;
  payload_bytes = tt;
  payload_short = omega arith;
}

with_recipient-Broadcast :
    (c : Crypto) (f : Flags) (net : Request → Reply) (key : c.PrivateKey) (from : List ℕ)
    → SignsCompact c key
    → IsFlags f
    → is_broadcast (with_recipient c f net key from).1 ≡ true
    → Broadcast c f net (with_recipient c f net key from).0
unfolding broadcast
with_recipient-Broadcast c f net key from law flags h =
    let (to, te, size, h1, e1) = with_recipient_lem c f net key from h in
    let (nonce, hn, h2, e2) = with_nonce_lem c f net key from to h1 in
    let (price, hp, e3) = with_gas_price_lem c f net key to nonce h2 in
    let t = request c f net to nonce price in
    let valid =
      request-IsRequest c f net to nonce price flags te size (parse_uint_or_zero-lt hn.0 nonce hn.2)
        (parse_uint_or_zero-lt hp.0 price hp.2) in
    record {
      from = from;
      to = to;
      nonce = nonce;
      price = price;
      bytes = sign_legacy_tx c key t;
      tx = _;
      order =
          ap (λ (r : Run). r.0) (e1 ∙ e2 ∙ ap (after (get_transaction_count (hex_text from))) e3);
      recipient = te;
      recipient_size = size;
      nonce_from_reply = hn;
      price_from_reply = hp;
      decoded = (decode_tx-sign_legacy_tx c key t law valid).0;
      tx_nonce = refl;
      tx_gas_price = refl;
      tx_gas_limit = refl;
      tx_to = refl;
      tx_value = refl;
      tx_payload = refl;
    }

-- With signatures of the form that the library documents and flags in the range of their types:
-- whatever the endpoint answers, nothing is broadcast unless both earlier requests were answered;
-- then exactly three requests were made, and the bytes of the last are one transaction with the
-- requested recipient, value, gas limit and empty data, and with the nonce and the gas price of
-- the answers, where an answer that is no number counts as 0.
pub main-Broadcast :
    (c : Crypto) (f : Flags) (net : Request → Reply)
    → ((key : c.PrivateKey) → SignsCompact c key)
    → IsFlags f
    → is_broadcast (main c f net).1 ≡ true
    → Broadcast c f net (main c f net).0
unfolding main
main-Broadcast c f net law flags h = elim (Option-cases (choose_key c f)) [
  | inl e ↦ absurd (ground arith)
  | inr (key, e) ↦ elim (Option-cases (private_key_to_address c key)) [
    | inl e' ↦ absurd (ground arith)
    | inr (from, e') ↦
        let same : main c f net ≡ with_recipient c f net key from = ground arith in
        rw same (with_recipient-Broadcast c f net key from (law key) flags (rw same at h))
  ]
]
