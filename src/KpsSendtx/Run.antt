-- ===== src/KpsSendtx/Run.antt =====
-- `main` of kps-sendtx/main.go after its flags are parsed, log lines left out. The JSON-RPC
-- endpoint is a function from the program's requests to replies.
pub mod Broadcast
pub mod Crash
use zknet_anon_rpc_demo.Common.{
  ℕ, zero, suc, List, [], ◌∷◌, ◌++◌, Option, none, some, ltb, ◌==◌, if◌then◌else◌, length, drop,
}
use zknet_anon_rpc_demo.Common.Bytes.{codes}
use zknet_anon_rpc_demo.KpsSendtx.Tx.{Crypto, TxRequest, private_key_to_address, sign_legacy_tx}
use zknet_anon_rpc_demo.KpsSendtx.Hex.{decode_string, encode_to_string}
use zknet_anon_rpc_demo.KpsSendtx.Rpc.{
  Json, Reply, CallErr, Called, ok, err, call, Parsed, value, bad_json, bad_hex, panic, parse_uint,
}
use mathlib.Core.Option

pub record Flags : Type 0 where
  pub pk : List ℕ
  pub to : List ℕ
  pub value : ℕ
  pub gas_limit : ℕ
  pub chain_id : ℕ

pub data Request : Type 0 where
  get_transaction_count : List ℕ → Request
  gas_price : Request
  send_raw_transaction : List ℕ → Request

pub data Fatal : Type 0 where
  bad_private_key derive_address bad_recipient : Fatal
  no_nonce no_gas_price : CallErr → Fatal

-- `crashed` is a run-time error, `broadcast_failed` the exit with status 1.
pub data Outcome : Type 0 where
  fatal : Fatal → Outcome
  crashed : Outcome
  broadcast_failed : CallErr → Outcome
  sent : Option Json → Outcome

-- The requests that the program made, in order, and how it ended.
abbrev pub Run : Type 0
Run = List Request × Outcome

abbrev pub after : Request → Run → Run
after r (rs, o) = (r ∷ rs, o)

-- `fmt.Sprintf("0x%x", b)`
abbrev pub hex_text : List ℕ → List ℕ
hex_text b = codes "0x" ++ encode_to_string b

-- `n, _ := parseUint(raw)`: the error is dropped and leaves 0; `none` is the run-time error.
unfoldable pub parse_uint_or_zero : Option Json → Option ℕ
parse_uint_or_zero raw = elim (parse_uint raw) [
  | value n ↦ some n
  | bad_json ↦ some 0
  | bad_hex ↦ some 0
  | panic ↦ none
]

abbrev pub valid_recipient : Option (List ℕ) → Option (List ℕ)
valid_recipient none = none
valid_recipient (some to) = if length to == 20 then some to else none

module _ (c : Crypto) (f : Flags) where
  open c use {PrivateKey, priv_key_from_bytes, generate_private_key}

  unfoldable pub choose_key : Option PrivateKey
  choose_key = elim f.pk [
    | [] ↦ some generate_private_key
    | x ∷ xs ↦ Option.map priv_key_from_bytes (decode_string (x ∷ xs))
  ]

module _ (c : Crypto) (f : Flags) (net : Request → Reply) where
  open c use {PrivateKey}

  abbrev pub request : List ℕ → ℕ → ℕ → TxRequest
  request to nonce price = record {
    chain_id = f.chain_id;
    nonce = nonce;
    gas_price = price;
    gas_limit = f.gas_limit;
    value = f.value;
    to = to;
    payload = [];
  }

  unfoldable pub broadcast : PrivateKey → TxRequest → Run
  broadcast priv t =
      let req = send_raw_transaction (hex_text (sign_legacy_tx c priv t)) in
      (req ∷ [], elim (call (net req)) [ ok r ↦ sent r | err e ↦ broadcast_failed e ])

  unfoldable pub with_gas_price : PrivateKey → List ℕ → ℕ → Run
  with_gas_price priv to nonce = elim (call (net gas_price)) [
    | err e ↦ (gas_price ∷ [], fatal (no_gas_price e))
    | ok raw ↦ elim (parse_uint_or_zero raw) [
      | none ↦ (gas_price ∷ [], crashed)
      | some price ↦ after gas_price (broadcast priv (request to nonce price))
    ]
  ]

  unfoldable pub with_nonce : PrivateKey → List ℕ → List ℕ → Run
  with_nonce priv from to =
      let req = get_transaction_count (hex_text from) in
      elim (call (net req)) [
        | err e ↦ (req ∷ [], fatal (no_nonce e))
        | ok raw ↦ elim (parse_uint_or_zero raw) [
          | none ↦ (req ∷ [], crashed)
          | some nonce ↦ after req (with_gas_price priv to nonce)
        ]
      ]

  -- `(*toAddr)[2:]` is a run-time error on a shorter text.
  unfoldable pub with_recipient : PrivateKey → List ℕ → Run
  with_recipient priv from =
      if ltb (length f.to) 2
      then ([], crashed)
      else elim (valid_recipient (decode_string (drop 2 f.to))) [
        | none ↦ ([], fatal bad_recipient)
        | some to ↦ with_nonce priv from to
      ]

  unfoldable pub main : Run
  main = elim (choose_key c f) [
    | none ↦ ([], fatal bad_private_key)
    | some priv ↦ elim (private_key_to_address c priv) [
      | none ↦ ([], fatal derive_address)
      | some from ↦ with_recipient priv from
    ]
  ]
