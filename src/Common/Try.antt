-- ===== src/Common/Try.antt =====
-- Go's (value, error) pair, with the error's text.
use Prim.Native.Nat.{ℕ}
use mathlib.Core.List.{List}
use mathlib.Core.Path.{◌≡◌, refl}
use mathlib.Core.Logic.{◌⊎◌, inl, inr}

pub data Try {ℓ} (A : Type ℓ) : Type ℓ where
  done : A → Try A
  failed : List ℕ → Try A

pub Try-cases {ℓ} :
    {A : Type ℓ} (t : Try A) → ((text : List ℕ) × (t ≡ failed text)) ⊎ ((a : A) × (t ≡ done a))
Try-cases (failed text) = inl (text, refl)
Try-cases (done a) = inr (a, refl)
