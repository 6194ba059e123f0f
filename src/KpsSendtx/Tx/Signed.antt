-- ===== src/KpsSendtx/Tx/Signed.antt =====
-- `signLegacyTx` writes a transaction that a strict decoder reads back field by field.
use zknet_anon_rpc_demo.Common.{
  ℕ, ◌+◌, ◌-◌, ◌*◌, ◌/◌, ◌%◌, ◌^◌, ◌≤◌, ◌<◌, ◌≡◌, List, [], ◌∷◌, ◌++◌, some, length, get_or, arith,
  All, All-take, All-drop, take, drop, length-take, length-drop, length-append, ◌⊎◌,
}
use zknet_anon_rpc_demo.Common.Bytes.{IsByte}
use zknet_anon_rpc_demo.KpsSendtx.Rlp.{
  rlp_encode_bytes, rlp_encode_uint, rlp_encode_list, join, big_endian,
}
use zknet_anon_rpc_demo.KpsSendtx.Rlp.Uint.{length-big_endian}
use zknet_anon_rpc_demo.KpsSendtx.Rlp.Decoder.{decode_bytes}
use zknet_anon_rpc_demo.KpsSendtx.Rlp.RoundTrip.{
  decode_item-rlp_encode_bytes, decode_uint-rlp_encode_uint, decode_list-rlp_encode_list,
}
use zknet_anon_rpc_demo.KpsSendtx.Tx.{
  Crypto, SignsCompact, TxRequest, tx_fields, recovery_v, signing_hash, sign_legacy_tx,
}
use zknet_anon_rpc_demo.KpsSendtx.Tx.Decoder.{SignedTx, decode_fields, decode_tx}
use mathlib.Core.List.{append-nil}

decode_bytes-rlp_encode_bytes :
    (b rest : List ℕ)
    → All IsByte b
    → length b < 56
    → decode_bytes (rlp_encode_bytes b ++ rest) ≡ some (b, rest)
unfolding decode_bytes
decode_bytes-rlp_encode_bytes b rest h small = rw (decode_item-rlp_encode_bytes b rest h small)

pub length-rlp_encode_bytes : (b : List ℕ) → length (rlp_encode_bytes b) ≤ 1 + length b
unfolding rlp_encode_bytes
length-rlp_encode_bytes b = ground arith

pub length-rlp_encode_uint : (n : ℕ) → n < 2 ^ 64 → length (rlp_encode_uint n) ≤ 9
unfolding rlp_encode_uint
length-rlp_encode_uint n h =
    ground (arith, length-rlp_encode_bytes (big_endian n), length-big_endian 8 n h)

-- What the arguments of `signLegacyTx` satisfy: uint64 numbers, and byte slices that fit the short
-- form of RLP.
pub record IsRequest (t : TxRequest) : Type 0 where
  pub chain_id_u64 : t.chain_id < 2 ^ 64
  pub nonce_u64 : t.nonce < 2 ^ 64
  pub gas_price_u64 : t.gas_price < 2 ^ 64
  pub gas_limit_u64 : t.gas_limit < 2 ^ 64
  pub value_u64 : t.value < 2 ^ 64
  pub to_bytes : All IsByte t.to
  pub to_short : length t.to < 56
  pub payload_bytes : All IsByte t.payload
  pub payload_short : length t.payload < 56

-- The nine items of a signed transaction, one behind the other.
abbrev nine : TxRequest → ℕ → List ℕ → List ℕ → List (List ℕ)
nine t v r s = tx_fields t ++ (rlp_encode_uint v ∷ rlp_encode_bytes r ∷ rlp_encode_bytes s ∷ [])

abbrev pub signed : TxRequest → ℕ → List ℕ → List ℕ → SignedTx
signed t v r s = record {
  nonce = t.nonce;
  gas_price = t.gas_price;
  gas_limit = t.gas_limit;
  to = t.to;
  value = t.value;
  payload = t.payload;
  v = v;
  r = r;
  s = s;
}

module _ (t : TxRequest) (v : ℕ) (r s : List ℕ) (ok : IsRequest t) (hv : v < 2 ^ 64)
    (r_bytes : All IsByte r) (r_short : length r < 56) (s_bytes : All IsByte s)
    (s_short : length s < 56) where
  decode_fields-nine : decode_fields (join (nine t v r s)) ≡ some (signed t v r s)
  unfolding decode_fields join
  decode_fields-nine = rw (
    decode_uint-rlp_encode_uint t.nonce _ ok.nonce_u64,
    decode_uint-rlp_encode_uint t.gas_price _ ok.gas_price_u64,
    decode_uint-rlp_encode_uint t.gas_limit _ ok.gas_limit_u64,
    decode_bytes-rlp_encode_bytes t.to _ ok.to_bytes ok.to_short,
    decode_uint-rlp_encode_uint t.value _ ok.value_u64,
    decode_bytes-rlp_encode_bytes t.payload _ ok.payload_bytes ok.payload_short,
    decode_uint-rlp_encode_uint v _ hv,
    decode_bytes-rlp_encode_bytes r _ r_bytes r_short,
    decode_bytes-rlp_encode_bytes s _ s_bytes s_short,
  )

  length-join-nine : length (join (nine t v r s)) < 2 ^ 64
  unfolding join
  length-join-nine = omega (
    arith,
    length-append {0},
    length-rlp_encode_uint t.nonce ok.nonce_u64,
    length-rlp_encode_uint t.gas_price ok.gas_price_u64,
    length-rlp_encode_uint t.gas_limit ok.gas_limit_u64,
    length-rlp_encode_bytes t.to,
    length-rlp_encode_uint t.value ok.value_u64,
    length-rlp_encode_bytes t.payload,
    length-rlp_encode_uint v hv,
    length-rlp_encode_bytes r,
    length-rlp_encode_bytes s,
  )

decode_tx-nine :
    (t : TxRequest) (v : ℕ) (r s : List ℕ)
    → IsRequest t
    → v < 2 ^ 64
    → All IsByte r
    → length r ≡ 32
    → All IsByte s
    → length s ≡ 32
    → decode_tx (rlp_encode_list (nine t v r s)) ≡ some (signed t v r s)
unfolding decode_tx
decode_tx-nine t v r s ok hv rb rn sb sn =
    let short = λ (xs : List ℕ) (e : length xs ≡ 32). let q : length xs < 56 = omega arith in q in
    let fits = length-join-nine t v r s ok hv rb (short r rn) sb (short s sn) in
    let whole = rw append-nil at (decode_list-rlp_encode_list (nine t v r s) [] fits) in
    rw whole (decode_fields-nine t v r s ok hv rb (short r rn) sb (short s sn))

-- A scalar of a compact signature, cut out of its 65 bytes.
scalar :
    (n : ℕ) (compact : List ℕ)
    → n ≤ 33
    → length compact ≡ 65
    → All IsByte compact
    → All IsByte (take 32 (drop n compact)) × (length (take 32 (drop n compact)) ≡ 32)
scalar n compact low size bytes = (
  All-take IsByte 32 (drop n compact) (All-drop IsByte n compact bytes),
  omega (arith, length-take 32 (drop n compact), length-drop n compact),
)

recovery_v-lt : (chain_id code : ℕ) → recovery_v chain_id code < 2 ^ 64
unfolding recovery_v
recovery_v-lt chain_id code = omega arith

-- For a request whose numbers are uint64 and whose byte fields are short, and a signature of the
-- form that the library documents: the bytes that `signLegacyTx` returns are one transaction and
-- nothing more. The decoder reads back the requested numbers, recipient and data, the v of the
-- signature's recovery code, and its two scalars, each of 32 bytes.
pub decode_tx-sign_legacy_tx :
    (c : Crypto) (key : c.PrivateKey) (t : TxRequest)
    → SignsCompact c key
    → IsRequest t
    → let compact = c.sign_compact key (signing_hash c t) in
      let r = take 32 (drop 1 compact) in
      let s = take 32 (drop 33 compact) in
      (decode_tx (sign_legacy_tx c key t)
        ≡ some (signed t (recovery_v t.chain_id (get_or compact 0 0)) r s))
      × (length r ≡ 32)
      × (length s ≡ 32)
unfolding sign_legacy_tx
decode_tx-sign_legacy_tx c key t law ok =
    let digest = signing_hash c t in
    let (rb, rn) =
      scalar 1 (c.sign_compact key digest) (omega arith) (law.size digest) (law.bytes digest) in
    let (sb, sn) =
      scalar 33 (c.sign_compact key digest) (omega arith) (law.size digest) (law.bytes digest) in
    (decode_tx-nine t _ _ _ ok (recovery_v-lt t.chain_id _) rb rn sb sn, rn, sn)

-- Where twice the chain id leaves room in 64 bits, the chain id is read back from v as EIP-155
-- says, `(v - 35) / 2`, and the recovery code is its parity.
pub recovery_v_chain_id :
    (chain_id code : ℕ)
    → 2 * chain_id + 36 < 2 ^ 64
    → (code ≡ 27) ⊎ (code ≡ 28)
    → ((recovery_v chain_id code - 35) / 2 ≡ chain_id)
      × ((recovery_v chain_id code - 35) % 2 + 27 ≡ code)
unfolding recovery_v
recovery_v_chain_id chain_id code room h = ground arith
