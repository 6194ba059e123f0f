-- ===== src/Common/Step.antt =====
-- A chain of steps that the first error ends: an early return of the source is `stop`.
use Prim.Native.Nat.{ℕ}
use mathlib.Core.List.{List}
use mathlib.Core.Bool.{Bool, true, false}
use mathlib.Core.Option.{Option, none, some}
use mathlib.Core.Path.{◌≡◌, refl}
use mathlib.Core.Logic.{◌⊎◌, inl, inr}
use native.Mathlib.Omega.{arith}
use zknet_anon_rpc_demo.Common.Try.{Try, done, failed}

pub data Step {ℓ κ} (E : Type ℓ) (A : Type κ) : Type (ℓ ⊔ κ) where
  go_on : A → Step E A
  stop : E → Step E A

infixl 5 ◌>>=◌ ◌>>◌
abbrev pub ◌>>=◌ {ℓ κ ν} :
    {E : Type ℓ} {A : Type κ} {B : Type ν} → Step E A → (A → Step E B) → Step E B
stop e >>= next = stop e
go_on a >>= next = next a

abbrev pub ◌>>◌ {ℓ κ ν} : {E : Type ℓ} {A : Type κ} {B : Type ν} → Step E A → Step E B → Step E B
first >> second = first >>= λ _. second

abbrev pub orelse {ℓ κ} : {E : Type ℓ} {A : Type κ} → Try A → (List ℕ → E) → Step E A
orelse (done a) f = go_on a
orelse (failed text) f = stop (f text)

abbrev pub require {ℓ} : {E : Type ℓ} → Bool → E → Step E (Unit {0})
require true e = go_on tt
require false e = stop e

abbrev pub found {ℓ κ} : {E : Type ℓ} {A : Type κ} → Option A → E → Step E A
found none e = stop e
found (some a) e = go_on a

-- A chain that ends well has gone through its first step.
pub first_step {ℓ κ ν} :
    {E : Type ℓ} {A : Type κ} {B : Type ν} (first : Step E A) (next : A → Step E B) {result : B}
    → (first >>= next) ≡ go_on result
    → (a : A) × (first ≡ go_on a) × (next a ≡ go_on result)
first_step (stop e) next h = cc
first_step (go_on a) next h = (a, refl, h)

pub orelse-done {ℓ κ} :
    {E : Type ℓ} {A : Type κ} (t : Try A) (f : List ℕ → E) {a : A}
    → orelse t f ≡ go_on a
    → t ≡ done a
orelse-done (done a) f h = ground arith
orelse-done (failed e) f h = cc

pub require-true {ℓ} :
    {E : Type ℓ} (b : Bool) (e : E) {u : Unit {0}} → require b e ≡ go_on u → b ≡ true
require-true true e h = refl
require-true false e h = cc

pub found-some {ℓ κ} :
    {E : Type ℓ} {A : Type κ} (o : Option A) (e : E) {a : A} → found o e ≡ go_on a → o ≡ some a
found-some none e h = cc
found-some (some b) e h = ground arith

pub Step-cases {ℓ κ} :
    {E : Type ℓ} {A : Type κ} (m : Step E A) → ((e : E) × (m ≡ stop e)) ⊎ ((a : A) × (m ≡ go_on a))
Step-cases (go_on a) = inr (a, refl)
Step-cases (stop e) = inl (e, refl)
