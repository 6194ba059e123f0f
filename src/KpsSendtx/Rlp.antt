-- ===== src/KpsSendtx/Rlp.antt =====
-- The RLP encoders of kps-sendtx/main.go. A byte slice is a list of numbers below 256.
pub mod Decoder
pub mod Uint
pub mod RoundTrip
pub mod Limits
use zknet_anon_rpc_demo.Common.{
  ℕ, ◌+◌, ◌-◌, ◌/◌, ◌%◌, ◌<◌, ◌&&◌, List, [], ◌∷◌, ◌++◌, ltb, ◌==◌, if◌then◌else◌, length, get_or,
  arith,
}
use zknet_anon_rpc_demo.Common.Order.{lt_wf}
use Prim.Native.Nat.{bit_or}
use mathlib.Core.Logic.{dite}
use mathlib.Core.WellFounded.{Acc}
use native.Mathlib.Decide.{dec_lt}

unfoldable pub rlp_encode_bytes : List ℕ → List ℕ
rlp_encode_bytes b =
    if length b == 1 && ltb (get_or b 0 0) 0x80 then b else bit_or 0x80 (length b % 256) ∷ b

pub div_shrinks : (n : ℕ) → 0 < n → n / 256 < n
div_shrinks n h = omega arith

-- `for n > 0 { b = append([]byte{byte(n & 0xff)}, b...); n >>= 8 }`
pub big_endian_loop : (n : ℕ) → List ℕ → Acc ◌<◌ n → List ℕ
big_endian_loop n b (Acc.intro _ smaller) =
    dite (dec_lt 0 n)
      (λ more. big_endian_loop (n / 256) ((n % 256) ∷ b) (smaller (n / 256) (div_shrinks n more)))
      (λ _. b)

-- The bytes of a number, the highest first and with no leading zero; also `big.Int.Bytes`.
unfoldable pub big_endian : ℕ → List ℕ
unfolding big_endian_loop lt_wf dec_lt
big_endian n = big_endian_loop n [] (lt_wf.apply n)

unfoldable pub rlp_encode_uint : ℕ → List ℕ
rlp_encode_uint n = if n == 0 then 0x80 ∷ [] else rlp_encode_bytes (big_endian n)

-- The loop that joins the items of a list.
unfoldable pub join : List (List ℕ) → List ℕ
join [] = []
join (it ∷ items) = it ++ join items

abbrev pub list_header : List ℕ → List ℕ
list_header body =
    if ltb (length body) 56
    then bit_or 0xc0 (length body % 256) ∷ []
    else (let len_bytes = big_endian (length body) in
        ((0xf7 + length len_bytes % 256) % 256) ∷ len_bytes)

unfoldable pub rlp_encode_list : List (List ℕ) → List ℕ
unfolding join
rlp_encode_list items = let body = join items in list_header body ++ body
