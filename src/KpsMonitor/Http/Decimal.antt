-- ===== src/KpsMonitor/Http/Decimal.antt =====
-- Decimal text is read back.
use zknet_anon_rpc_demo.Common.{
  ℕ, ◌+◌, ◌*◌, ◌/◌, ◌%◌, ◌<◌, ◌≤◌, ◌≡◌, List, [], ◌∷◌, some, arith, All, refl, ◌∙◌,
}
use zknet_anon_rpc_demo.Common.Order.{lt_wf}
use zknet_anon_rpc_demo.Common.Decimal.{decimal_loop, decimal}
use zknet_anon_rpc_demo.KpsMonitor.Http.Parser.{parse_decimal}
use mathlib.Core.WellFounded.{Acc}
use native.Mathlib.Nat.{div-add-mod}

parse_decimal_digit :
    (a d : ℕ) (acc : List ℕ)
    → d < 10
    → parse_decimal a ((48 + d) ∷ acc) ≡ parse_decimal (a * 10 + d) acc
unfolding parse_decimal
parse_decimal_digit a d acc h = ground arith

parse_decimal-decimal_loop :
    (n : ℕ) (acc : List ℕ) (w : Acc ◌<◌ n)
    → parse_decimal 0 (decimal_loop n acc w) ≡ parse_decimal n acc
unfolding decimal_loop
parse_decimal-decimal_loop n acc (Acc.intro _ smaller) = grind (
  arith,
  λ (p : n / 10 < n).
      parse_decimal-decimal_loop (n / 10) ((48 + n % 10) ∷ acc) (smaller (n / 10) p),
  parse_decimal_digit (n / 10) (n % 10) acc,
  parse_decimal_digit 0 (n % 10) acc,
  div-add-mod n 10,
)

pub parse_decimal-decimal : (n : ℕ) → parse_decimal 0 (decimal n) ≡ some n
unfolding decimal
parse_decimal-decimal n =
    parse_decimal-decimal_loop n [] (lt_wf.apply n) ∙ unfold parse_decimal in refl

abbrev pub IsDigit : ℕ → Type 0
IsDigit c = (48 ≤ c) × (c ≤ 57)

decimal_loop-IsDigit :
    (n : ℕ) (acc : List ℕ) (w : Acc ◌<◌ n) → All IsDigit acc → All IsDigit (decimal_loop n acc w)
unfolding decimal_loop
decimal_loop-IsDigit n acc (Acc.intro _ smaller) h = grind (
  arith,
  λ (p : n / 10 < n). decimal_loop-IsDigit (n / 10) ((48 + n % 10) ∷ acc) (smaller (n / 10) p),
)

pub decimal-IsDigit : (n : ℕ) → All IsDigit (decimal n)
unfolding decimal
decimal-IsDigit n = decimal_loop-IsDigit n [] (lt_wf.apply n) tt
