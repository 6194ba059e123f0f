-- ===== src/KpsSendtx/Hex/RoundTrip.antt =====
-- Hexadecimal text is read back.
use zknet_anon_rpc_demo.Common.{
  ℕ, zero, suc, ◌+◌, ◌*◌, ◌/◌, ◌%◌, ◌^◌, ◌≤◌, ◌<◌, ◌≡◌, refl, List, [], ◌∷◌, some, ltb,
  if◌then◌else◌, All, arith, length, drop, ◌∙◌, ap,
}
use zknet_anon_rpc_demo.Common.Bytes.{IsByte}
use zknet_anon_rpc_demo.KpsSendtx.Hex.{
  hex_digit, digit_char, decode_string, encode_to_string, hex_value, set_string,
}
use native.Mathlib.Nat.{div-add-mod}

hex_digit-digit_char : (d : ℕ) → d < 16 → hex_digit (digit_char d) ≡ some d
unfolding hex_digit digit_char
hex_digit-digit_char d h = ground arith

-- Every byte string is read back from its hexadecimal text.
pub decode_string-encode_to_string :
    (bytes : List ℕ) → All IsByte bytes → decode_string (encode_to_string bytes) ≡ some bytes
unfolding decode_string encode_to_string
decode_string-encode_to_string [] h = refl
decode_string-encode_to_string (b ∷ bytes) (hb, h) =
    rw
      (
        hex_digit-digit_char (b / 16) (omega arith),
        hex_digit-digit_char (b % 16) (omega arith),
        decode_string-encode_to_string bytes h,
      )
      (ap (λ (x : ℕ). some (x ∷ bytes)) (omega arith))

-- The digits of a number in base 16, the highest first and none in front of them that is not
-- needed: an Ethereum quantity. `fuel` bounds their number, `16 ^ fuel` the number.
pub quantity_digits : ℕ → ℕ → List ℕ → List ℕ
quantity_digits zero n acc = acc
quantity_digits (suc fuel) n acc =
    let more = quantity_digits fuel (n / 16) (digit_char (n % 16) ∷ acc) in
    if ltb n 16 then digit_char n ∷ acc else more

hex_value_digit :
    (a d : ℕ) (acc : List ℕ)
    → d < 16
    → hex_value a (digit_char d ∷ acc) ≡ hex_value (a * 16 + d) acc
unfolding hex_value
hex_value_digit a d acc h = rw (hex_digit-digit_char d h)

hex_value-quantity_digits :
    (fuel n : ℕ) (acc : List ℕ)
    → n < 16 ^ suc fuel
    → hex_value 0 (quantity_digits (suc fuel) n acc) ≡ hex_value n acc
unfolding quantity_digits hex_value
hex_value-quantity_digits zero n acc h = ground (arith, hex_digit-digit_char n)
hex_value-quantity_digits (suc fuel) n acc h = ground (
  arith,
  hex_value_digit 0 n acc,
  hex_value-quantity_digits fuel (n / 16) (digit_char (n % 16) ∷ acc),
  hex_value_digit (n / 16) (n % 16) acc,
  div-add-mod n 16,
)

length-quantity_digits : (fuel n : ℕ) (acc : List ℕ) → 1 ≤ length (quantity_digits (suc fuel) n acc)
unfolding quantity_digits
length-quantity_digits zero n acc = ground arith
length-quantity_digits (suc fuel) n acc =
    ground (arith, length-quantity_digits fuel (n / 16) (digit_char (n % 16) ∷ acc))

set_string_of_hex_value :
    (s : List ℕ) (v : ℕ) → 1 ≤ length s → hex_value 0 s ≡ some v → set_string s ≡ some v
unfolding set_string hex_digit
set_string_of_hex_value [] v h e = absurd (omega arith)
set_string_of_hex_value (c ∷ s) v h e = ground arith

-- "0x" and the shortest hexadecimal digits of a number.
pub quantity : ℕ → List ℕ
quantity n = b'0' ∷ b'x' ∷ quantity_digits 16 n []

pub set_string-quantity : (n : ℕ) → n < 2 ^ 64 → set_string (drop 2 (quantity n)) ≡ some n
unfolding quantity
set_string-quantity n h =
    set_string_of_hex_value _ n (length-quantity_digits 15 n [])
      (hex_value-quantity_digits 15 n [] h ∙ unfold hex_value in refl)

pub length-quantity : (n : ℕ) → 3 ≤ length (quantity n)
unfolding quantity
length-quantity n = omega (arith, length-quantity_digits 15 n [])
