-- ===== src/KpsMonitor/Stats/Average.antt =====
-- The average that `/stats` reports lies between the extremes that it reports.
use zknet_anon_rpc_demo.Common.{
  ℕ, suc, ◌+◌, ◌*◌, ◌/◌, ◌≤◌, ◌<◌, ◌≡◌, refl, List, [], ◌∷◌, length, arith, some, none, max, lt→ltb,
  Option-cases, inl, inr,
}
use zknet_anon_rpc_demo.KpsMonitor.Stats.{ProbeResult, new_state, Floats, snapshot}
use zknet_anon_rpc_demo.KpsMonitor.Stats.Summary.{
  rtts, sum, least, greatest, record_all, results, record_all-Summarises,
}
use native.Mathlib.Nat.{le-div_iff_mul-le, div-le_of_le-mul, mul_comm}

length-least-none : (xs : List ℕ) → least xs ≡ none → length xs ≡ 0
length-least-none [] e = refl
length-least-none (x ∷ xs) e = ground arith

mul_mono : (n a b : ℕ) → a ≤ b → n * a ≤ n * b
mul_mono n a b h = grind arith

suc_mul : (n k : ℕ) → suc n * k ≡ n * k + k
suc_mul n k = omega arith

least_bound : (xs : List ℕ) (m : ℕ) → least xs ≡ some m → length xs * m ≤ sum xs
least_bound [] m e = omega arith
least_bound (x ∷ xs) m e = elim (Option-cases (least xs)) [
  | inl none_left ↦ ground (arith, length-least-none xs none_left)
  | inr (k, more) ↦
      let smaller : (m ≤ k) × (m ≤ x) = ground arith in
      rw suc_mul (omega (arith, smaller, least_bound xs k more, mul_mono (length xs) m k smaller.0))
]

greatest_bound : (xs : List ℕ) → sum xs ≤ length xs * greatest xs
greatest_bound [] = omega arith
greatest_bound (x ∷ xs) = rw suc_mul (
    omega (
      arith,
      greatest_bound xs,
      mul_mono (length xs) (greatest xs) (max x (greatest xs)) (omega arith),
    ))

least_of_pos : (xs : List ℕ) → 0 < length xs → (m : ℕ) × (least xs ≡ some m)
least_of_pos xs h = elim (Option-cases (least xs)) [
  | inl e ↦ absurd (omega (arith, length-least-none xs e))
  | inr found ↦ found
]

div_bounds : (n m sum g : ℕ) → 0 < n → n * m ≤ sum → sum ≤ n * g → (m ≤ sum / n) × (sum / n ≤ g)
div_bounds n m sum g pos lo hi =
    ((le-div_iff_mul-le pos).1 (rw (mul_comm m n) lo), div-le_of_le-mul n hi)

-- After any calls of `record` since the start, once a probe has succeeded, the average round-trip
-- time that `snapshot` reports lies between the least and the greatest that it reports.
pub snapshot_average :
    (f : Floats) (start now : ℕ) (rs : List (ℕ × ProbeResult))
    → let s = snapshot f (record_all (new_state start) rs) now in
      0 < s.success_count → (s.min_rtt_ms ≤ s.avg_rtt_ms) × (s.avg_rtt_ms ≤ s.max_rtt_ms)
unfolding snapshot
snapshot_average f start now rs pos =
    let w = record_all-Summarises start rs in
    let xs = rtts (results rs) in
    let (m, e) = least_of_pos xs (omega (arith, w.successes)) in
    let (lo, hi) =
      div_bounds (length xs) m (sum xs) (greatest xs) (omega (arith, w.successes))
        (least_bound xs m e) (greatest_bound xs) in
    rw (lt→ltb 0 _ pos, w.minimum, e, w.successes, w.total, w.maximum) (lo, hi)
