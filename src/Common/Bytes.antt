-- ===== src/Common/Bytes.antt =====
-- Byte slices as lists of numbers: the ASCII codes of a text, and Go's `|` on bytes as arithmetic.
use Prim.Native.Nat.{ℕ, zero, suc, ◌+◌, ◌%◌, ◌<◌, bit_or}
use Prim.Native.Char.{code}
use Prim.Native.String.{String}
use mathlib.Core.Path.{◌≡◌, refl}
use mathlib.Core.Bool.{Bool, true, false}
use mathlib.Core.List.{List, [], ◌∷◌}
use native.Mathlib.Omega.{arith}
use zknet_anon_rpc_demo.Common.Tests.{◌==◌, if◌then◌else◌}

-- The code points of a text: its bytes, if it is ASCII.
abbrev pub codes : String → List ℕ
codes String.[] = []
codes (String.◌∷◌ c s) = code c ∷ codes s

abbrev pub IsByte : ℕ → Type 0
IsByte b = b < 256

-- Whether two functions on bytes have the same table, up to `bound`.
same_table : (f g : ℕ → ℕ) (bound : ℕ) → Bool
same_table f g zero = true
same_table f g (suc b) = if f b == g b then same_table f g b else false

same_table→eq : (f g : ℕ → ℕ) (bound x : ℕ) → same_table f g bound ≡ true → x < bound → f x ≡ g x
unfolding same_table
same_table→eq f g zero x same below = absurd (omega arith)
same_table→eq f g (suc b) x same below = ground (arith, same_table→eq f g b x)

-- `0x80 | x` sets the top bit of a byte, and `0xc0 | x` its two top bits.
pub or_0x80 : (x : ℕ) → x < 256 → bit_or 0x80 x ≡ 128 + x % 128
unfolding same_table
or_0x80 x = same_table→eq (bit_or 0x80) (λ y. 128 + y % 128) 256 x refl

pub or_0xc0 : (x : ℕ) → x < 256 → bit_or 0xc0 x ≡ 192 + x % 64
unfolding same_table
or_0xc0 x = same_table→eq (bit_or 0xc0) (λ y. 192 + y % 64) 256 x refl
