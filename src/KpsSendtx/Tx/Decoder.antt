-- ===== src/KpsSendtx/Tx/Decoder.antt =====
-- A legacy Ethereum transaction read back from its bytes, by the strict RLP decoder.
use zknet_anon_rpc_demo.Common.{ℕ, List, [], ◌∷◌, Option, none, some}
use zknet_anon_rpc_demo.KpsSendtx.Rlp.Decoder.{decode_uint, decode_bytes, decode_list}
use zknet_anon_rpc_demo.Common.Maybe.{◌>>=◌}

pub record SignedTx : Type 0 where
  pub nonce : ℕ
  pub gas_price : ℕ
  pub gas_limit : ℕ
  pub to : List ℕ
  pub value : ℕ
  pub payload : List ℕ
  pub v : ℕ
  pub r : List ℕ
  pub s : List ℕ

abbrev pub at_end {ℓ} : {A : Type ℓ} → A → List ℕ → Option A
at_end a [] = some a
at_end a (x ∷ xs) = none

unfoldable pub decode_fields : List ℕ → Option SignedTx
decode_fields bytes = do
  (nonce, bytes) ← decode_uint bytes
  (gas_price, bytes) ← decode_uint bytes
  (gas_limit, bytes) ← decode_uint bytes
  (to, bytes) ← decode_bytes bytes
  (value, bytes) ← decode_uint bytes
  (payload, bytes) ← decode_bytes bytes
  (v, bytes) ← decode_uint bytes
  (r, bytes) ← decode_bytes bytes
  (s, bytes) ← decode_bytes bytes
  at_end
      (record {
        nonce = nonce;
        gas_price = gas_price;
        gas_limit = gas_limit;
        to = to;
        value = value;
        payload = payload;
        v = v;
        r = r;
        s = s;
      })
      bytes

unfoldable pub decode_tx : List ℕ → Option SignedTx
decode_tx bytes = do
  (fields, rest) ← decode_list bytes
  fields ← at_end fields rest
  decode_fields fields
