-- ===== src/KpsSendtx/Rpc/ParseUint.antt =====
-- What `parseUint` makes of a node's answer.
use zknet_anon_rpc_demo.Common.{
  ℕ, ◌<◌, ◌≡◌, ◌↔◌, ◌⊎◌, inl, inr, ◌^◌, refl, List, Option, some, none, length, arith,
}
use zknet_anon_rpc_demo.KpsSendtx.Hex.RoundTrip.{quantity, set_string-quantity, length-quantity}
use zknet_anon_rpc_demo.KpsSendtx.Rpc.{Json, null, text, other, value, panic, parse_uint}

-- Every uint64 that a node writes as an Ethereum quantity, "0x" and its shortest hexadecimal
-- digits, is read back.
pub parse_uint-quantity : (n : ℕ) → n < 2 ^ 64 → parse_uint (some (text (quantity n))) ≡ value n
unfolding parse_uint
parse_uint-quantity n h = ground (arith, set_string-quantity n h, length-quantity n)

-- The slice `s[2:]` is out of range exactly when the answer is `null` or a text of fewer than two bytes.
pub parse_uint_panics :
    (raw : Option Json)
    → (parse_uint raw ≡ panic)
      ↔ ((raw ≡ some null) ⊎ ((s : List ℕ) × (raw ≡ some (text s)) × (length s < 2)))
unfolding parse_uint
parse_uint_panics none = (λ e. cc, λ h. ground arith)
parse_uint_panics (some null) = (λ e. inl refl, λ h. refl)
parse_uint_panics (some (text s)) = (λ e. inr (s, refl, ground arith), λ h. ground arith)
parse_uint_panics (some (other s)) = (λ e. cc, λ h. ground arith)
