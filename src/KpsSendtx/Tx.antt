-- ===== src/KpsSendtx/Tx.antt =====
-- Signing in kps-sendtx/main.go. Keccak-256 and the secp256k1 library are parameters.
pub mod Decoder
pub mod Signed
pub mod Digest
use zknet_anon_rpc_demo.Common.{
  ℕ, ◌+◌, ◌-◌, ◌*◌, ◌%◌, ◌^◌, ◌&&◌, ◌≡◌, List, [], ◌∷◌, ◌++◌, Option, none, some, ◌==◌,
  if◌then◌else◌, length, get_or, take, drop, All, ◌⊎◌,
}
use zknet_anon_rpc_demo.Common.Bytes.{codes, IsByte}
use zknet_anon_rpc_demo.KpsSendtx.Rlp.{rlp_encode_bytes, rlp_encode_uint, rlp_encode_list}

-- What the program takes of golang.org/x/crypto/sha3 and of decred's secp256k1.
pub record Crypto : Type 1 where
  pub PrivateKey : Type 0
  pub keccak256 : List ℕ → List ℕ
  pub sign_compact : PrivateKey → List ℕ → List ℕ
  pub serialize_uncompressed : PrivateKey → List ℕ
  pub priv_key_from_bytes : List ℕ → PrivateKey
  pub generate_private_key : PrivateKey

-- A compact signature is the recovery code and two scalars of 32 bytes.
pub record SignsCompact (c : Crypto) (key : c.PrivateKey) : Type 0 where
  pub size : (digest : List ℕ) → length (c.sign_compact key digest) ≡ 65
  pub bytes : (digest : List ℕ) → All IsByte (c.sign_compact key digest)

-- The arguments of `signLegacyTx` beside the key; the numbers are of type uint64.
pub record TxRequest : Type 0 where
  pub chain_id : ℕ
  pub nonce : ℕ
  pub gas_price : ℕ
  pub gas_limit : ℕ
  pub value : ℕ
  pub to : List ℕ
  pub payload : List ℕ

module _ (c : Crypto) where
  open c use {PrivateKey, keccak256, sign_compact, serialize_uncompressed}

  -- `none` is the error "unexpected pubkey length".
  unfoldable pub private_key_to_address : PrivateKey → Option (List ℕ)
  private_key_to_address priv =
      let key = serialize_uncompressed priv in
      if length key == 65 && get_or key 0 0 == 0x04
      then some (drop 12 (keccak256 (drop 1 key)))
      else none

-- The six fields that come first in both lists of `signLegacyTx`.
abbrev pub tx_fields : TxRequest → List (List ℕ)
tx_fields t =
    rlp_encode_uint t.nonce
    ∷ rlp_encode_uint t.gas_price
    ∷ rlp_encode_uint t.gas_limit
    ∷ rlp_encode_bytes t.to
    ∷ rlp_encode_uint t.value
    ∷ rlp_encode_bytes t.payload
    ∷ []

-- `signing`
unfoldable pub signing_bytes : TxRequest → List ℕ
signing_bytes t =
    rlp_encode_list
      (tx_fields t ++ (rlp_encode_uint t.chain_id ∷ rlp_encode_uint 0 ∷ rlp_encode_uint 0 ∷ []))

-- "\x19Ethereum Signed Message:\n32"
abbrev pub message_prefix : List ℕ
message_prefix = 0x19 ∷ codes "Ethereum Signed Message:" ++ (10 ∷ 51 ∷ 50 ∷ [])

-- `v := chainID*2 + 35 + uint64(recID)` with `recID := int(compact[0]) - 27`, in 64 bits.
unfoldable pub recovery_v : ℕ → ℕ → ℕ
recovery_v chain_id code = (chain_id * 2 + 35 + (code + 2 ^ 64 - 27)) % 2 ^ 64

module _ (c : Crypto) where
  open c use {PrivateKey, keccak256, sign_compact}

  -- `hash`, the digest that is signed
  unfoldable pub signing_hash : TxRequest → List ℕ
  signing_hash t = keccak256 (message_prefix ++ keccak256 (signing_bytes t))

  unfoldable pub sign_legacy_tx : PrivateKey → TxRequest → List ℕ
  sign_legacy_tx priv t =
      let compact = sign_compact priv (signing_hash t) in
      let v = recovery_v t.chain_id (get_or compact 0 0) in
      let r = take 32 (drop 1 compact) in
      let s = take 32 (drop 33 compact) in
      rlp_encode_list
        (tx_fields t ++ (rlp_encode_uint v ∷ rlp_encode_bytes r ∷ rlp_encode_bytes s ∷ []))
