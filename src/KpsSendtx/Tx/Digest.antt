-- ===== src/KpsSendtx/Tx/Digest.antt =====
-- Which digest `signLegacyTx` signs.
use zknet_anon_rpc_demo.Common.{
  ℕ, ◌%◌, ◌^◌, sym, length-append, ◌<◌, ◌≡◌, ◌≢◌, List, [], ◌∷◌, ◌++◌, length, get_or, arith, ap,
}
use zknet_anon_rpc_demo.Common.Bytes.{or_0xc0}
use zknet_anon_rpc_demo.KpsSendtx.Rlp.{rlp_encode_list, rlp_encode_uint, join}
use zknet_anon_rpc_demo.KpsSendtx.Rlp.Uint.{length-big_endian}
use zknet_anon_rpc_demo.KpsSendtx.Tx.{
  Crypto, TxRequest, tx_fields, signing_bytes, message_prefix, signing_hash,
}
use zknet_anon_rpc_demo.KpsSendtx.Tx.Signed.{
  IsRequest, length-rlp_encode_uint, length-rlp_encode_bytes,
}

-- EIP-155: the digest of a legacy transaction is the Keccak-256 hash of its nine-item list.
abbrev pub eip155_hash : Crypto → TxRequest → List ℕ
eip155_hash c t = c.keccak256 (signing_bytes t)

-- `prefixed`
abbrev pub personal_message : Crypto → TxRequest → List ℕ
personal_message c t = message_prefix ++ c.keccak256 (signing_bytes t)

rlp_encode_list_head :
    (items : List (List ℕ))
    → length (join items) < 2 ^ 64
    → get_or (rlp_encode_list items) 0 0 ≢ 0x19
unfolding rlp_encode_list
rlp_encode_list_head items h =
    ground (arith, or_0xc0 (length (join items) % 256), length-big_endian 8 (length (join items)))

abbrev items_to_sign : TxRequest → List (List ℕ)
items_to_sign t =
    tx_fields t ++ (rlp_encode_uint t.chain_id ∷ rlp_encode_uint 0 ∷ rlp_encode_uint 0 ∷ [])

length-join-items_to_sign : (t : TxRequest) → IsRequest t → length (join (items_to_sign t)) < 2 ^ 64
unfolding join
length-join-items_to_sign t ok = omega (
  arith,
  length-append {0},
  length-rlp_encode_uint t.nonce ok.nonce_u64,
  length-rlp_encode_uint t.gas_price ok.gas_price_u64,
  length-rlp_encode_uint t.gas_limit ok.gas_limit_u64,
  length-rlp_encode_bytes t.to,
  length-rlp_encode_uint t.value ok.value_u64,
  length-rlp_encode_bytes t.payload,
  length-rlp_encode_uint t.chain_id ok.chain_id_u64,
  length-rlp_encode_uint 0 (omega arith),
)

-- For any request whose numbers are uint64 and whose byte fields are short, the digest that is signed
-- is not the one of EIP-155, unless Keccak-256 collides on the two messages that are hashed.
pub signing_hash-ne-eip155_hash :
    (c : Crypto) (t : TxRequest)
    → IsRequest t
    → (c.keccak256 (personal_message c t) ≡ c.keccak256 (signing_bytes t)
        → personal_message c t ≡ signing_bytes t)
    → signing_hash c t ≢ eip155_hash c t
unfolding signing_hash signing_bytes
signing_hash-ne-eip155_hash c t ok no_collision e =
    rlp_encode_list_head (items_to_sign t) (length-join-items_to_sign t ok)
      (sym (ap (λ (bytes : List ℕ). get_or bytes 0 0) (no_collision e)))
