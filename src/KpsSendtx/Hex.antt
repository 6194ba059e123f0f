-- ===== src/KpsSendtx/Hex.antt =====
-- Hexadecimal text as kps-sendtx/main.go uses it: encoding/hex, and the digits of
-- `big.Int.SetString(s, 16)`.
pub mod RoundTrip
use zknet_anon_rpc_demo.Common.{
  ℕ, zero, suc, ◌+◌, ◌-◌, ◌*◌, ◌/◌, ◌%◌, ◌&&◌, List, [], ◌∷◌, ◌++◌, Option, none, some, ltb, leb,
  ◌==◌, if◌then◌else◌,
}
use zknet_anon_rpc_demo.Common.Maybe.{◌>>=◌}

unfoldable pub hex_digit : ℕ → Option ℕ
hex_digit c =
    if leb b'0' c && leb c b'9'
    then some (c - 48)
    else if leb b'a' c && leb c b'f'
    then some (c - 87)
    else if leb b'A' c && leb c b'F'
    then some (c - 55)
    else none

unfoldable pub digit_char : ℕ → ℕ
digit_char d = if ltb d 10 then d + 48 else d + 87

-- `hex.DecodeString`
unfoldable pub decode_string : List ℕ → Option (List ℕ)
decode_string [] = some []
decode_string (x ∷ []) = none
decode_string (x ∷ y ∷ text) = do
  high ← hex_digit x
  low ← hex_digit y
  bytes ← decode_string text
  some ((high * 16 + low) ∷ bytes)

-- `hex.EncodeToString`, and `fmt`'s `%x`
unfoldable pub encode_to_string : List ℕ → List ℕ
encode_to_string [] = []
encode_to_string (b ∷ bytes) = digit_char (b / 16) ∷ digit_char (b % 16) ∷ encode_to_string bytes

-- The number that hexadecimal digits stand for, after those that `acc` has read.
unfoldable pub hex_value : ℕ → List ℕ → Option ℕ
hex_value acc [] = some acc
hex_value acc (c ∷ text) = do d ← hex_digit c; hex_value (acc * 16 + d) text

abbrev nonempty_value : List ℕ → Option ℕ
nonempty_value [] = none
nonempty_value (c ∷ text) = hex_value 0 (c ∷ text)

-- `SetString(s, 16)`, up to the sign, which `Uint64` drops: a sign may stand in front.
unfoldable pub set_string : List ℕ → Option ℕ
unfolding hex_value
set_string [] = none
set_string (c ∷ text) =
    if c == b'+'
    then nonempty_value text
    else if c == b'-'
    then nonempty_value text
    else hex_value 0 (c ∷ text)
