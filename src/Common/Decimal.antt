-- ===== src/Common/Decimal.antt =====
-- Decimal text, as `fmt` writes a number that is not negative.
use Prim.Native.Nat.{ℕ, ◌+◌, ◌/◌, ◌%◌, ◌<◌}
use mathlib.Core.List.{List, [], ◌∷◌}
use mathlib.Core.Logic.{dite}
use mathlib.Core.WellFounded.{Acc}
use native.Mathlib.Decide.{dec_lt}
use native.Mathlib.Omega.{arith}
use zknet_anon_rpc_demo.Common.Order.{lt_wf}

-- `fmt`'s `%d` on a number that is not negative
unfoldable pub decimal_loop : (n : ℕ) → List ℕ → Acc ◌<◌ n → List ℕ
decimal_loop n acc (Acc.intro _ smaller) =
    dite (dec_lt 9 n)
      (λ more.
        decimal_loop (n / 10) ((48 + n % 10) ∷ acc) (smaller (n / 10) (tenth_shrinks n more)))
      (λ _. (48 + n % 10) ∷ acc)
  where
    tenth_shrinks : (m : ℕ) → 9 < m → m / 10 < m
    tenth_shrinks m h = omega arith

unfoldable pub decimal : ℕ → List ℕ
unfolding decimal_loop lt_wf dec_lt
decimal n = decimal_loop n [] (lt_wf.apply n)
