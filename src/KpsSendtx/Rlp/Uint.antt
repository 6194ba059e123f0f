-- ===== src/KpsSendtx/Rlp/Uint.antt =====
-- The digits that the encoders write for a number, by recursion on the loop of `rlpEncodeUint`.
use zknet_anon_rpc_demo.Common.{
  ℕ, zero, suc, ◌+◌, ◌/◌, ◌%◌, ◌^◌, ◌≤◌, ◌<◌, ◌≡◌, ◌≢◌, List, [], ◌∷◌, length, get_or, All, arith,
}
use zknet_anon_rpc_demo.Common.Bytes.{IsByte}
use zknet_anon_rpc_demo.Common.Order.{lt_wf}
use zknet_anon_rpc_demo.KpsSendtx.Rlp.{big_endian_loop, big_endian}
use zknet_anon_rpc_demo.KpsSendtx.Rlp.Decoder.{digits}
use mathlib.Core.WellFounded.{Acc}
use native.Mathlib.Nat.{div-add-mod}

digits-big_endian_loop :
    (n : ℕ) (b : List ℕ) (w : Acc ◌<◌ n) → digits 0 (big_endian_loop n b w) ≡ digits n b
unfolding big_endian_loop
digits-big_endian_loop n b (Acc.intro _ smaller) = grind (
  arith,
  λ (p : n / 256 < n). digits-big_endian_loop (n / 256) ((n % 256) ∷ b) (smaller (n / 256) p),
  div-add-mod n 256,
)

big_endian_loop-IsByte :
    (n : ℕ) (b : List ℕ) (w : Acc ◌<◌ n) → All IsByte b → All IsByte (big_endian_loop n b w)
unfolding big_endian_loop
big_endian_loop-IsByte n b (Acc.intro _ smaller) h = grind (
  arith,
  λ (p : n / 256 < n). big_endian_loop-IsByte (n / 256) ((n % 256) ∷ b) (smaller (n / 256) p),
)

big_endian_loop_end : (n : ℕ) (b : List ℕ) (w : Acc ◌<◌ n) → n ≡ 0 → big_endian_loop n b w ≡ b
unfolding big_endian_loop
big_endian_loop_end n b (Acc.intro _ smaller) h = grind arith

-- The first digit is never a zero, where the loop writes any.
big_endian_loop_head :
    (n : ℕ) (b : List ℕ) (w : Acc ◌<◌ n) → 0 < n → get_or (big_endian_loop n b w) 0 0 ≢ 0
unfolding big_endian_loop
big_endian_loop_head n b (Acc.intro _ smaller) h = grind (
  arith,
  λ (p : n / 256 < n) (q : 0 < n / 256).
      big_endian_loop_head (n / 256) ((n % 256) ∷ b) (smaller (n / 256) p) q,
  λ (p : n / 256 < n) (q : n / 256 ≡ 0).
      big_endian_loop_end (n / 256) ((n % 256) ∷ b) (smaller (n / 256) p) q,
)

length-big_endian_loop :
    (k n : ℕ) (b : List ℕ) (w : Acc ◌<◌ n)
    → n < 256 ^ k
    → length (big_endian_loop n b w) ≤ k + length b
unfolding big_endian_loop
length-big_endian_loop zero n b (Acc.intro _ smaller) h = ground arith
length-big_endian_loop (suc k) n b (Acc.intro _ smaller) h = grind (
  arith,
  λ (p : n / 256 < n). length-big_endian_loop k (n / 256) ((n % 256) ∷ b) (smaller (n / 256) p),
)

pub digits-big_endian : (n : ℕ) → digits 0 (big_endian n) ≡ n
unfolding big_endian
digits-big_endian n = digits-big_endian_loop n [] (lt_wf.apply n)

pub big_endian-IsByte : (n : ℕ) → All IsByte (big_endian n)
unfolding big_endian
big_endian-IsByte n = big_endian_loop-IsByte n [] (lt_wf.apply n) tt

pub big_endian_head : (n : ℕ) → 0 < n → get_or (big_endian n) 0 0 ≢ 0
unfolding big_endian
big_endian_head n h = big_endian_loop_head n [] (lt_wf.apply n) h

pub length-big_endian : (k n : ℕ) → n < 256 ^ k → length (big_endian n) ≤ k
unfolding big_endian
length-big_endian k n h = omega (arith, length-big_endian_loop k n [] (lt_wf.apply n) h)
