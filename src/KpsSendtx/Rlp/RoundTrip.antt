-- ===== src/KpsSendtx/Rlp/RoundTrip.antt =====
-- What the encoders write, the strict decoder reads back, and leaves what follows.
use zknet_anon_rpc_demo.Common.{
  ℕ, ◌+◌, ◌-◌, ◌%◌, ◌^◌, ◌≤◌, ◌<◌, ◌≡◌, ◌≢◌, List, [], ◌∷◌, ◌++◌, some, length, get_or, All, arith,
  take-append_self, drop-append_self, length-append, refl, le→ltb,
}
use zknet_anon_rpc_demo.Common.Bytes.{IsByte, or_0x80, or_0xc0}
use zknet_anon_rpc_demo.KpsSendtx.Rlp.{
  big_endian, list_header, rlp_encode_bytes, rlp_encode_uint, rlp_encode_list, join,
}
use zknet_anon_rpc_demo.KpsSendtx.Rlp.Uint.{
  digits-big_endian, big_endian-IsByte, big_endian_head, length-big_endian,
}
use zknet_anon_rpc_demo.KpsSendtx.Rlp.Decoder.{
  string, list, digits, decode_item, decode_bytes, decode_uint, decode_list, split_at, as_uint,
}
use mathlib.Core.List.{append_assoc}

split_at_front : (xs rest : List ℕ) → split_at (length xs) (xs ++ rest) ≡ some (xs, rest)
split_at_front xs rest = rw (
  le→ltb (length (xs ++ rest)) (length xs) (omega (arith, length-append xs rest)),
  take-append_self xs rest,
  drop-append_self xs rest,
)

split_at_exact :
    (n : ℕ) (xs rest : List ℕ) → n ≡ length xs → split_at n (xs ++ rest) ≡ some (xs, rest)
split_at_exact n xs rest e = rw e (split_at_front xs rest)

decode_short :
    (p : ℕ) (b rest : List ℕ)
    → p ≡ 128 + length b
    → length b < 56
    → (length b ≡ 1 → 128 ≤ get_or b 0 0)
    → decode_item (p ∷ b ++ rest) ≡ some (string b, rest)
unfolding decode_item
decode_short p b rest e small one = ground (arith, split_at_exact (p - 128) b rest (omega arith))

decode_single :
    (x : ℕ) (rest : List ℕ) → x < 128 → decode_item (x ∷ rest) ≡ some (string (x ∷ []), rest)
unfolding decode_item
decode_single x rest h = ground arith

decode_long_list :
    (p : ℕ) (len_bytes b rest : List ℕ)
    → p ≡ 247 + length len_bytes
    → length len_bytes ≤ 8
    → digits 0 len_bytes ≡ length b
    → get_or len_bytes 0 0 ≢ 0
    → 56 ≤ length b
    → decode_item (p ∷ len_bytes ++ (b ++ rest)) ≡ some (list b, rest)
unfolding decode_item
decode_long_list p len_bytes b rest e short len nonzero long = ground (
  arith,
  split_at_exact (p - 247) len_bytes (b ++ rest) (omega arith),
  split_at_exact (digits 0 len_bytes) b rest len,
)

decode_short_list :
    (p : ℕ) (b rest : List ℕ)
    → p ≡ 192 + length b
    → length b < 56
    → decode_item (p ∷ b ++ rest) ≡ some (list b, rest)
unfolding decode_item
decode_short_list p b rest e small = ground (arith, split_at_exact (p - 192) b rest (omega arith))

-- A string of fewer than 56 bytes, header and all.
pub decode_item-rlp_encode_bytes :
    (b rest : List ℕ)
    → All IsByte b
    → length b < 56
    → decode_item (rlp_encode_bytes b ++ rest) ≡ some (string b, rest)
unfolding rlp_encode_bytes
decode_item-rlp_encode_bytes [] rest h small =
    decode_short 128 [] rest refl (omega arith) (λ q. absurd (omega arith))
decode_item-rlp_encode_bytes (x ∷ []) rest h small =
    ground (arith, or_0x80 1, decode_short 129 (x ∷ []) rest, decode_single x rest)
decode_item-rlp_encode_bytes (x ∷ y ∷ zs) rest h small = ground (
  arith,
  or_0x80 (length (x ∷ y ∷ zs) % 256),
  decode_short (128 + length (x ∷ y ∷ zs)) (x ∷ y ∷ zs) rest,
)

as_uint-digits :
    (bs rest : List ℕ) → get_or bs 0 0 ≢ 0 → as_uint (bs, rest) ≡ some (digits 0 bs, rest)
as_uint-digits [] rest h = absurd (h refl)
as_uint-digits (b ∷ bs) rest h = ground arith

-- Every uint64 is read back from its encoding, whatever follows it, by the strict decoder, which
-- refuses a number that is not in its shortest form.
pub decode_uint-rlp_encode_uint :
    (n : ℕ) (rest : List ℕ) → n < 2 ^ 64 → decode_uint (rlp_encode_uint n ++ rest) ≡ some (n, rest)
unfolding rlp_encode_uint decode_uint decode_bytes
decode_uint-rlp_encode_uint n rest h = ground (
  arith,
  decode_short 128 [] rest,
  decode_item-rlp_encode_bytes (big_endian n) rest (big_endian-IsByte n),
  length-big_endian 8 n h,
  as_uint-digits (big_endian n) rest,
  big_endian_head n,
  digits-big_endian n,
)

decode_item-list_header :
    (body rest : List ℕ)
    → length body < 2 ^ 64
    → decode_item ((list_header body ++ body) ++ rest) ≡ some (list body, rest)
decode_item-list_header body rest h = ground (
  arith,
  or_0xc0 (length body % 256),
  decode_short_list (192 + length body) body rest,
  length-big_endian 8 (length body) h,
  digits-big_endian (length body),
  big_endian_head (length body),
  append_assoc (big_endian (length body)) body rest,
  decode_long_list (247 + length (big_endian (length body))) (big_endian (length body)) body rest,
)

-- Whatever follows it, the strict decoder reads an encoded list back as its items, one behind the
-- other, and finds what follows as the rest, where the items have fewer than 2^64 bytes together.
pub decode_list-rlp_encode_list :
    (items : List (List ℕ)) (rest : List ℕ)
    → length (join items) < 2 ^ 64
    → decode_list (rlp_encode_list items ++ rest) ≡ some (join items, rest)
unfolding rlp_encode_list decode_list
decode_list-rlp_encode_list items rest h = rw (decode_item-list_header (join items) rest h)
