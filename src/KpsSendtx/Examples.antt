-- ===== src/KpsSendtx/Examples.antt =====
-- Tests of the model of kps-sendtx, those of main_test.go among them, and the theorems at concrete
-- inputs.
use zknet_anon_rpc_demo.Common.{
  ℕ, ◌≡◌, ◌≢◌, refl, List, [], ◌∷◌, ◌++◌, some, none, replicate, arith, get_or,
}
use zknet_anon_rpc_demo.Common.Bytes.{codes}
use zknet_anon_rpc_demo.KpsSendtx.Rlp.{
  rlp_encode_bytes, rlp_encode_uint, rlp_encode_list, big_endian,
}
use zknet_anon_rpc_demo.KpsSendtx.Rlp.Decoder.{string, decode_item}
use zknet_anon_rpc_demo.KpsSendtx.Rlp.RoundTrip.{decode_item-rlp_encode_bytes}
use zknet_anon_rpc_demo.KpsSendtx.Tx.{
  Crypto, SignsCompact, TxRequest, recovery_v, signing_hash, sign_legacy_tx, private_key_to_address,
}
use zknet_anon_rpc_demo.KpsSendtx.Tx.Decoder.{decode_tx}
use zknet_anon_rpc_demo.KpsSendtx.Tx.Signed.{signed, decode_tx-sign_legacy_tx}
use zknet_anon_rpc_demo.KpsSendtx.Tx.Digest.{eip155_hash, signing_hash-ne-eip155_hash}
use zknet_anon_rpc_demo.KpsSendtx.Hex.{decode_string, set_string, hex_value, hex_digit}
use zknet_anon_rpc_demo.KpsSendtx.Rpc.{null, text, Reply, parsed, transport_error, call, parse_uint}
use zknet_anon_rpc_demo.KpsSendtx.Run.{
  Flags, Request, get_transaction_count, gas_price, send_raw_transaction, main, choose_key,
  with_recipient, with_nonce, with_gas_price, broadcast, parse_uint_or_zero,
}
use zknet_anon_rpc_demo.KpsSendtx.Run.Broadcast.{Broadcast, main-Broadcast}
use zknet_anon_rpc_demo.KpsSendtx.Run.Crash.{Crash, main-Crash}

-- TestRLPEncode
encode_two_items : rlp_encode_list ((0x80 ∷ []) ∷ (0x01 ∷ []) ∷ []) ≡ 0xc2 ∷ 0x80 ∷ 0x01 ∷ []
unfolding rlp_encode_list
encode_two_items = refl

encode_dog : rlp_encode_bytes (codes "dog") ≡ 0x83 ∷ 0x64 ∷ 0x6f ∷ 0x67 ∷ []
unfolding rlp_encode_bytes
encode_dog = refl

encode_zero : rlp_encode_uint 0 ≡ 0x80 ∷ []
unfolding rlp_encode_uint
encode_zero = refl

encode_one : rlp_encode_uint 1 ≡ 1 ∷ []
unfolding rlp_encode_uint rlp_encode_bytes big_endian
encode_one = refl

encode_gas_limit : rlp_encode_uint 21000 ≡ 0x82 ∷ 0x52 ∷ 0x08 ∷ []
unfolding rlp_encode_uint rlp_encode_bytes big_endian
encode_gas_limit = refl

decode_item-rlp_encode_bytes_example :
    decode_item (rlp_encode_bytes (codes "dog") ++ (7 ∷ [])) ≡ some (string (codes "dog"), 7 ∷ [])
decode_item-rlp_encode_bytes_example =
    decode_item-rlp_encode_bytes (codes "dog") (7 ∷ []) (omega arith) (omega arith)

abbrev sixty_items : List (List ℕ)
sixty_items = replicate 60 (5 ∷ [])

-- A key is a number, and keys, digests and signatures are as simple as the laws allow.
abbrev toy : Crypto
toy = record {
  PrivateKey = ℕ;
  keccak256 = λ bytes. bytes;
  sign_compact = λ key digest. 28 ∷ replicate 64 3;
  serialize_uncompressed = λ key. 4 ∷ replicate 64 7;
  priv_key_from_bytes = λ bytes. get_or bytes 0 0;
  generate_private_key = 9;
}

toy-SignsCompact : (key : ℕ) → SignsCompact toy key
toy-SignsCompact key = record { size = λ d. refl; bytes = λ d. omega arith }

abbrev transfer : TxRequest
transfer = record {
  chain_id = 11155111;
  nonce = 7;
  gas_price = 1000000000;
  gas_limit = 21000;
  value = 5;
  to = replicate 20 0xab;
  payload = [];
}

decode_tx-sign_legacy_tx_example :
    (decode_tx (sign_legacy_tx toy 9 transfer)
      ≡ some (signed transfer (recovery_v 11155111 28) (replicate 32 3) (replicate 32 3)))
    × (◌≡◌ {A = ℕ} 32 32)
    × (◌≡◌ {A = ℕ} 32 32)
decode_tx-sign_legacy_tx_example =
    decode_tx-sign_legacy_tx toy 9 transfer (toy-SignsCompact 9) (omega arith)

signing_hash-ne-eip155_hash_example : signing_hash toy transfer ≢ eip155_hash toy transfer
signing_hash-ne-eip155_hash_example =
    signing_hash-ne-eip155_hash toy transfer (omega arith) (λ e. e)

abbrev flags : Flags
flags = record {
  pk = [];
  to = codes "0xabababababababababababababababababababab";
  value = 5;
  gas_limit = 21000;
  chain_id = 11155111;
}

-- The node answers the first request with a word that is no number.
abbrev endpoint : Request → Reply
endpoint (get_transaction_count from) =
    parsed (record { result = some (text (codes "latest")); error = none })
endpoint gas_price =
    parsed (record { result = some (text (codes "0x3b9aca00")); error = some null })
endpoint (send_raw_transaction raw) = transport_error

main-Broadcast_example : Broadcast toy flags endpoint (main toy flags endpoint).0
unfolding main choose_key with_recipient with_nonce with_gas_price broadcast private_key_to_address
    decode_string hex_digit parse_uint_or_zero parse_uint call set_string hex_value
main-Broadcast_example = main-Broadcast toy flags endpoint toy-SignsCompact (omega arith) refl

-- The node answers the request for the gas price with `null`, having answered the one for the nonce.
abbrev null_gas : Request → Reply
null_gas gas_price = parsed (record { result = some null; error = none })
null_gas (get_transaction_count from) = endpoint (get_transaction_count from)
null_gas (send_raw_transaction raw) = transport_error

main-Crash_example : Crash flags null_gas (main toy flags null_gas).0
unfolding main choose_key with_recipient with_nonce with_gas_price private_key_to_address
    decode_string hex_digit parse_uint_or_zero parse_uint call set_string hex_value
main-Crash_example = main-Crash toy flags null_gas refl
