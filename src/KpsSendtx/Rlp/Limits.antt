-- ===== src/KpsSendtx/Rlp/Limits.antt =====
-- Where `rlpEncodeBytes` stops being RLP: it has no long form.
use zknet_anon_rpc_demo.Common.{
  ℕ, ◌+◌, ◌-◌, ◌%◌, ◌≤◌, ◌<◌, ◌≡◌, ◌≢◌, List, ◌∷◌, ◌++◌, some, none, length, arith, All, take, drop,
  length-take, length-drop, length-append, refl,
}
use zknet_anon_rpc_demo.Common.Bytes.{IsByte, or_0x80}
use zknet_anon_rpc_demo.KpsSendtx.Rlp.{rlp_encode_bytes}
use zknet_anon_rpc_demo.KpsSendtx.Rlp.Decoder.{
  string, digits, decode_item, decode_bytes, split_at, long_form, short_string, decode_uint,
}
use zknet_anon_rpc_demo.KpsSendtx.Rlp.RoundTrip.{decode_item-rlp_encode_bytes}

split_at-length :
    (n : ℕ) (xs a r : List ℕ)
    → split_at n xs ≡ some (a, r)
    → (length a ≡ n) × (length a + length r ≡ length xs)
split_at-length n xs a r e = ground (arith, length-take n xs, length-drop n xs)

long_form-length :
    (k : ℕ) (xs a r : List ℕ)
    → 1 ≤ k
    → long_form k xs ≡ some (a, r)
    → length a + length r < length xs
long_form-length k xs a r pos e = ground (
  arith,
  split_at-length k xs (take k xs) (drop k xs),
  split_at-length (digits 0 (take k xs)) (drop k xs) a r,
)

short_string-length : (n : ℕ) (xs a r : List ℕ) → short_string n xs ≡ some (a, r) → length a ≡ n
short_string-length n xs a r e = ground (arith, split_at-length n xs (take n xs) (drop n xs))

-- A string of 56 bytes or more is not read back from its encoding, whatever its bytes and whatever
-- follows them.
pub rlp_encode_bytes_long :
    (b rest : List ℕ)
    → 56 ≤ length b
    → decode_item (rlp_encode_bytes b ++ rest) ≢ some (string b, rest)
unfolding decode_item rlp_encode_bytes
rlp_encode_bytes_long b rest long e = ground (
  arith,
  or_0x80 (length b % 256),
  short_string-length (length b % 128) (b ++ rest) b rest,
  long_form-length (length b % 128 - 55) (b ++ rest) b rest,
  length-append b rest,
)

-- The encoding of a string of at most 55 bytes, the first of which is zero, is refused by the strict
-- decoder of numbers, whatever follows it.
pub decode_uint-rlp_encode_bytes_zero :
    (b rest : List ℕ)
    → All IsByte b
    → length b < 55
    → decode_uint (rlp_encode_bytes (0 ∷ b) ++ rest) ≡ none
unfolding decode_uint decode_bytes
decode_uint-rlp_encode_bytes_zero b rest h short =
    rw (decode_item-rlp_encode_bytes (0 ∷ b) rest (omega arith, h) (omega arith)) refl
