-- ===== src/KpsMonitor/Stats/Summary.antt =====
-- The statistics against a plain reading of the whole list of results.
use zknet_anon_rpc_demo.Common.{
  ℕ, ◌+◌, ◌≡◌, refl, List, [], ◌∷◌, ◌++◌, length, length-append, arith, Bool, true, false, Option,
  some, none, min, max,
}
use zknet_anon_rpc_demo.KpsMonitor.Rpc.{RpcErr}
use zknet_anon_rpc_demo.KpsMonitor.Stats.{
  ProbeResult, RpcState, new_state, max_history, lower, higher, record_result,
}
use zknet_anon_rpc_demo.KpsMonitor.Stats.History.{last_n, push_history-last_n}
use mathlib.Core.List.{append-nil, append_assoc}
use mathlib.Core.Path.{subst}

abbrev when {ℓ} : {A : Type ℓ} → Bool → A → List A → List A
when true x xs = x ∷ xs
when false x xs = xs

-- The round-trip times of the successful probes, and the errors of the others, in order.
abbrev pub rtts : List ProbeResult → List ℕ
rtts [] = []
rtts (r ∷ rs) = when r.success r.rtt_ms (rtts rs)

abbrev pub errors : List ProbeResult → List (Option RpcErr)
errors [] = []
errors (r ∷ rs) = elim r.success [ true ↦ errors rs | false ↦ r.err ∷ errors rs ]

abbrev pub sum : List ℕ → ℕ
sum [] = 0
sum (x ∷ xs) = x + sum xs

abbrev pub least : List ℕ → Option ℕ
least [] = none
least (x ∷ xs) = elim (least xs) [ none ↦ some x | some m ↦ some (min x m) ]

abbrev pub greatest : List ℕ → ℕ
greatest [] = 0
greatest (x ∷ xs) = max x (greatest xs)

abbrev pub last_or {ℓ} : {A : Type ℓ} → A → List A → A
last_or d [] = d
last_or d (x ∷ xs) = last_or x xs

-- What the state says is what a reading of all results `rs` since the start says.
pub record Summarises (rs : List ProbeResult) (s : RpcState) : Type 0 where
  pub successes : s.success_count ≡ length (rtts rs)
  pub failures : s.error_count ≡ length (errors rs)
  pub total : s.total_rtt_ms ≡ sum (rtts rs)
  pub minimum : s.min_rtt_ms ≡ least (rtts rs)
  pub maximum : s.max_rtt_ms ≡ greatest (rtts rs)
  pub last_rtt : s.last_rtt_ms ≡ last_or 0 (rtts rs)
  pub last_error : s.last_err ≡ last_or none (errors rs)
  pub window : s.history ≡ last_n max_history rs

new_state-Summarises : (now : ℕ) → Summarises [] (new_state now)
new_state-Summarises now = ground arith

rtts-append :
    (rs : List ProbeResult) (r : ProbeResult)
    → rtts (rs ++ (r ∷ [])) ≡ rtts rs ++ when r.success r.rtt_ms []
rtts-append [] r = refl
rtts-append (x ∷ rs) r = ground (arith, rtts-append rs r)

errors-append :
    (rs : List ProbeResult) (r : ProbeResult)
    → errors (rs ++ (r ∷ [])) ≡ errors rs ++ errors (r ∷ [])
errors-append [] r = refl
errors-append (x ∷ rs) r = ground (arith, errors-append rs r)

sum-append : (xs : List ℕ) (x : ℕ) → sum (xs ++ (x ∷ [])) ≡ sum xs + x
sum-append [] x = omega arith
sum-append (y ∷ xs) x = omega (arith, sum-append xs x)

least-append : (xs : List ℕ) (x : ℕ) → least (xs ++ (x ∷ [])) ≡ lower x (least xs)
least-append [] x = refl
least-append (y ∷ xs) x = ground (arith, least-append xs x)

greatest-append : (xs : List ℕ) (x : ℕ) → greatest (xs ++ (x ∷ [])) ≡ higher x (greatest xs)
greatest-append [] x = ground arith
greatest-append (y ∷ xs) x = ground (arith, greatest-append xs x)

last_or-append {ℓ} : {A : Type ℓ} (d : A) (xs : List A) (x : A) → last_or d (xs ++ (x ∷ [])) ≡ x
last_or-append d [] x = refl
last_or-append d (y ∷ xs) x = last_or-append y xs x

-- One more result keeps the statistics those of the whole list.
record_result-Summarises :
    (rs : List ProbeResult) (s : RpcState) (now : ℕ) (r : ProbeResult)
    → Summarises rs s
    → Summarises (rs ++ (r ∷ [])) (record_result s now r)
unfolding record_result
record_result-Summarises rs s now r w = ground (
  arith,
  rtts-append rs r,
  errors-append rs r,
  length-append (rtts rs) (r.rtt_ms ∷ []),
  length-append (errors rs) (r.err ∷ []),
  append-nil (rtts rs),
  append-nil (errors rs),
  sum-append (rtts rs) r.rtt_ms,
  least-append (rtts rs) r.rtt_ms,
  greatest-append (rtts rs) r.rtt_ms,
  last_or-append 0 (rtts rs) r.rtt_ms,
  last_or-append none (errors rs) r.err,
  push_history-last_n rs r,
)

-- The calls of `record`, each with its time.
abbrev pub record_all : RpcState → List (ℕ × ProbeResult) → RpcState
record_all s [] = s
record_all s ((now, r) ∷ rs) = record_all (record_result s now r) rs

abbrev pub results : List (ℕ × ProbeResult) → List ProbeResult
results [] = []
results ((now, r) ∷ rs) = r ∷ results rs

record_all-Summarises_from :
    (before : List ProbeResult) (s : RpcState) (rs : List (ℕ × ProbeResult))
    → Summarises before s
    → Summarises (before ++ results rs) (record_all s rs)
record_all-Summarises_from before s [] w = rw append-nil w
record_all-Summarises_from before s ((now, r) ∷ rs) w =
    subst (λ l. Summarises l (record_all (record_result s now r) rs))
      (append_assoc before (r ∷ []) (results rs))
      (record_all-Summarises_from (before ++ (r ∷ [])) (record_result s now r) rs
        (record_result-Summarises before s now r w))

-- After any calls of `record` since the start, the counters, the sum, the extremes and the last
-- values are those of the whole list of results, and the history is its last twenty, in order.
pub record_all-Summarises :
    (start : ℕ) (rs : List (ℕ × ProbeResult))
    → Summarises (results rs) (record_all (new_state start) rs)
record_all-Summarises start rs =
    record_all-Summarises_from [] (new_state start) rs (new_state-Summarises start)
