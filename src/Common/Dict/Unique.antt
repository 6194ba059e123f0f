-- ===== src/Common/Dict/Unique.antt =====
-- Maps in which no key stands twice, as is so for a Go map.
use Prim.Native.Nat.{ℕ, suc}
use mathlib.Core.Path.{◌≡◌, refl, ap}
use mathlib.Core.List.{[], ◌∷◌}
use mathlib.Core.Option.{none, some}
use mathlib.Core.Logic.{inl, inr}
use native.Mathlib.Omega.{arith}
use zknet_anon_rpc_demo.Common.Tests.{◌==◌, Bool-cases}
use zknet_anon_rpc_demo.Common.Lists.{length}
use zknet_anon_rpc_demo.Common.Dict.{Dict, lookup, delete, put, lookup-delete}

module _ {ℓ} {V : Type ℓ} where
  abbrev pub Unique : Dict V → Type ℓ
  Unique [] = Unit
  Unique ((k, v) ∷ m) = (lookup k m ≡ none) × Unique m

  pub delete-Unique : (k : ℕ) (m : Dict V) → Unique m → Unique (delete k m)
  unfolding delete
  delete-Unique k [] u = tt
  delete-Unique k ((j, v) ∷ m) (fresh, u) = elim (Bool-cases (j == k)) [
    | inl e ↦ rw e (delete-Unique k m u)
    | inr e ↦ rw e (ground (arith, lookup-delete k j m, fresh), delete-Unique k m u)
  ]

  pub put-Unique : (k : ℕ) (v : V) (m : Dict V) → Unique m → Unique (put k v m)
  put-Unique k v m u = (ground (arith, lookup-delete k k m), delete-Unique k m u)

  -- Deleting a key that is not there changes nothing, and one that is there shortens the map by 1.
  pub delete-missing : (k : ℕ) (m : Dict V) → lookup k m ≡ none → delete k m ≡ m
  unfolding lookup delete
  delete-missing k [] h = refl
  delete-missing k ((j, v) ∷ m) h = elim (Bool-cases (j == k)) [
    | inl e ↦ absurd (ground arith)
    | inr e ↦ rw e (ap (λ n. (j, v) ∷ n) (delete-missing k m (ground arith)))
  ]

  pub length-delete :
      (k : ℕ) (v : V) (m : Dict V)
      → Unique m
      → lookup k m ≡ some v
      → length m ≡ suc (length (delete k m))
  unfolding lookup delete
  length-delete k v [] u h = cc
  length-delete k v ((j, w) ∷ m) (fresh, u) h = elim (Bool-cases (j == k)) [
    | inl e ↦
        let same : j ≡ k = ground arith in
        let missing : lookup k m ≡ none = ground arith in
        let kept : delete k m ≡ m = delete-missing k m missing in rw e (ground (arith, kept))
    | inr e ↦ rw e (ap suc (length-delete k v m u (ground arith)))
  ]
