-- ===== src/KpsMonitor/Loop/Backoff.antt =====
-- The pauses between attempts.
use zknet_anon_rpc_demo.Common.{ℕ, zero, suc, ◌≤◌, ◌<◌, ◌≡◌, refl, arith}
use zknet_anon_rpc_demo.KpsMonitor.Loop.{backoff_delay}

backoff_delay_third : (n : ℕ) → 3 ≤ n → backoff_delay n ≡ 40
unfolding backoff_delay
backoff_delay_third zero h = absurd (omega arith)
backoff_delay_third (suc zero) h = absurd (omega arith)
backoff_delay_third (suc (suc zero)) h = absurd (omega arith)
backoff_delay_third (suc (suc (suc n))) h = ground arith

-- The pause after the n-th attempt in a row that failed is 10 seconds, then 20, and from the third
-- on always 40; the cap of 60 is never reached.
pub backoff_delay_lem :
    (n : ℕ) → (backoff_delay 1 ≡ 10) × (backoff_delay 2 ≡ 20) × (3 ≤ n → backoff_delay n ≡ 40)
unfolding backoff_delay
backoff_delay_lem n = (refl, refl, backoff_delay_third n)

pub backoff_delay_bounds : (n : ℕ) → 0 < n → (10 ≤ backoff_delay n) × (backoff_delay n ≤ 40)
backoff_delay_bounds zero h = absurd (omega arith)
backoff_delay_bounds (suc zero) h = omega (arith, backoff_delay_lem 0)
backoff_delay_bounds (suc (suc zero)) h = omega (arith, backoff_delay_lem 0)
backoff_delay_bounds (suc (suc (suc n))) h = omega (arith, backoff_delay_third (suc (suc (suc n))))
