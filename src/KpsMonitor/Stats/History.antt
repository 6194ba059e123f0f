-- ===== src/KpsMonitor/Stats/History.antt =====
-- The history is a window on the last twenty results.
use zknet_anon_rpc_demo.Common.{
  ℕ, zero, suc, ◌+◌, ◌-◌, ◌≤◌, ◌≡◌, refl, List, [], ◌∷◌, ◌++◌, length, drop, length-append,
  length-drop, arith, ap, ◌∙◌,
}
use zknet_anon_rpc_demo.KpsMonitor.Stats.{ProbeResult, max_history, push_history}

module _ {ℓ} {A : Type ℓ} where
  drop-append : (n : ℕ) (xs ys : List A) → n ≤ length xs → drop n (xs ++ ys) ≡ drop n xs ++ ys
  drop-append zero xs ys h = refl
  drop-append (suc n) [] ys h = absurd (omega arith)
  drop-append (suc n) (x ∷ xs) ys h = drop-append n xs ys (omega arith)

  drop-nil : (n : ℕ) → drop {A = A} n [] ≡ []
  drop-nil zero = refl
  drop-nil (suc n) = refl

  drop_none : (n : ℕ) (xs : List A) → n ≡ 0 → drop n xs ≡ xs
  drop_none zero xs e = refl
  drop_none (suc n) xs e = absurd (omega arith)

  drop-drop : (m n : ℕ) (xs : List A) → drop m (drop n xs) ≡ drop (n + m) xs
  drop-drop m zero xs = ground arith
  drop-drop m (suc n) [] = ground (arith, drop-nil m, drop-nil (suc n + m))
  drop-drop m (suc n) (x ∷ xs) =
      drop-drop m n xs
      ∙ ap (λ (k : ℕ). drop k (x ∷ xs)) (let e : suc (n + m) ≡ suc n + m = omega arith in e)

-- The last `n` elements of a list, all of them where it is shorter.
abbrev pub last_n {ℓ} : {A : Type ℓ} → ℕ → List A → List A
last_n n xs = drop (length xs - n) xs

pub push_history-last_n :
    (rs : List ProbeResult) (r : ProbeResult)
    → push_history (last_n max_history rs) r ≡ last_n max_history (rs ++ (r ∷ []))
unfolding push_history
push_history-last_n rs r = ground (
  arith,
  length-drop (length rs - 20) rs,
  length-append (drop (length rs - 20) rs) (r ∷ []),
  length-append rs (r ∷ []),
  drop_none (length rs - 20) rs,
  drop_none (length (rs ++ (r ∷ [])) - 20) (rs ++ (r ∷ [])),
  drop-append (length rs - 20) rs (r ∷ []),
  drop-drop 1 (length rs - 20) (rs ++ (r ∷ [])),
)
