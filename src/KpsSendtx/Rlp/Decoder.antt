-- ===== src/KpsSendtx/Rlp/Decoder.antt =====
-- RLP as Ethereum's yellow paper (appendix B) defines it, as a strict decoder: every encoding that
-- is not the shortest one is refused. It is written from that definition, not from the encoders.
use zknet_anon_rpc_demo.Common.{
  ℕ, ◌+◌, ◌-◌, ◌*◌, ◌&&◌, List, [], ◌∷◌, Option, none, some, ltb, ◌==◌, if◌then◌else◌, length,
  get_or, take, drop,
}
use zknet_anon_rpc_demo.Common.Maybe.{◌>>=◌}

pub data Item : Type 0 where
  string : List ℕ → Item
  list : List ℕ → Item

-- The number that big-endian digits stand for, after those that `acc` has read.
abbrev pub digits : ℕ → List ℕ → ℕ
digits acc [] = acc
digits acc (b ∷ bs) = digits (acc * 256 + b) bs

-- `n` bytes and what follows them.
abbrev pub split_at : ℕ → List ℕ → Option (List ℕ × List ℕ)
split_at n bytes = if ltb (length bytes) n then none else some (take n bytes, drop n bytes)

-- A length of `k` bytes, with no leading zero and at least 56, and then so many bytes.
abbrev pub long_form : ℕ → List ℕ → Option (List ℕ × List ℕ)
long_form k bytes = do
  (len_bytes, rest) ← split_at k bytes
  if get_or len_bytes 0 0 == 0
      then none
      else if ltb (digits 0 len_bytes) 56
      then none
      else split_at (digits 0 len_bytes) rest

-- One byte below 0x80 stands for itself, and no longer form of it is taken.
abbrev pub short_string : ℕ → List ℕ → Option (List ℕ × List ℕ)
short_string n bytes = do
  (payload, rest) ← split_at n bytes
  if n == 1 && ltb (get_or payload 0 0) 0x80 then none else some (payload, rest)

abbrev pub as_string : List ℕ × List ℕ → Option (Item × List ℕ)
as_string (payload, rest) = some (string payload, rest)

abbrev pub as_list : List ℕ × List ℕ → Option (Item × List ℕ)
as_list (payload, rest) = some (list payload, rest)

unfoldable pub decode_item : List ℕ → Option (Item × List ℕ)
decode_item [] = none
decode_item (p ∷ bytes) =
    if ltb p 0x80
    then some (string (p ∷ []), bytes)
    else if ltb p 0xb8
    then (short_string (p - 0x80) bytes >>= as_string)
    else if ltb p 0xc0
    then (long_form (p - 0xb7) bytes >>= as_string)
    else if ltb p 0xf8
    then (split_at (p - 0xc0) bytes >>= as_list)
    else (long_form (p - 0xf7) bytes >>= as_list)

abbrev pub as_bytes : Item × List ℕ → Option (List ℕ × List ℕ)
as_bytes (string s, rest) = some (s, rest)
as_bytes (list l, rest) = none

-- A number is its shortest big-endian digits: none at all for zero, no leading zero.
abbrev pub as_uint : List ℕ × List ℕ → Option (ℕ × List ℕ)
as_uint ([], rest) = some (0, rest)
as_uint (b ∷ bs, rest) = if b == 0 then none else some (digits 0 (b ∷ bs), rest)

unfoldable pub decode_bytes : List ℕ → Option (List ℕ × List ℕ)
decode_bytes bytes = decode_item bytes >>= as_bytes

unfoldable pub decode_uint : List ℕ → Option (ℕ × List ℕ)
decode_uint bytes = decode_bytes bytes >>= as_uint

abbrev pub as_payload : Item × List ℕ → Option (List ℕ × List ℕ)
as_payload (string s, rest) = none
as_payload (list l, rest) = some (l, rest)

unfoldable pub decode_list : List ℕ → Option (List ℕ × List ℕ)
decode_list bytes = decode_item bytes >>= as_payload
