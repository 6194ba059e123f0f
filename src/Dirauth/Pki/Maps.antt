-- ===== src/Dirauth/Pki/Maps.antt =====
-- Maps by epoch and key hash: what is read after one is made or written.
use zknet_anon_rpc_demo.Common.{
  ℕ, ◌≡◌, refl, inl, inr, [], true, false, ◌&&◌, ◌||◌, Option, none, some, ◌==◌, if◌then◌else◌,
  arith, Option-cases,
}
use zknet_anon_rpc_demo.Common.Dict.{Dict, lookup, has, put, lookup-put}
use zknet_anon_rpc_demo.Dirauth.Pki.{at, ensure, save}

module _ {ℓ} {V : Type ℓ} where
  pub at-ensure : (epoch k : ℕ) (m : Dict (Dict V)) → at k (ensure epoch m) ≡ at k m
  unfolding lookup
  at-ensure epoch k m = elim (Option-cases (lookup epoch m)) [
    | inl e ↦ ground (arith, lookup-put epoch k [] m)
    | inr (f, e) ↦ ground arith
  ]

  pub lookup-save :
      (epoch pk k j : ℕ) (v : V) (m : Dict (Dict V))
      → lookup j (at k (save epoch pk v m))
        ≡ (if epoch == k && pk == j then some v else lookup j (at k m))
  lookup-save epoch pk k j v m =
      ground (arith, lookup-put epoch k (put pk v (at epoch m)) m, lookup-put pk j v (at epoch m))

  pub has-ensure : (epoch : ℕ) (m : Dict (Dict V)) → has epoch (ensure epoch m) ≡ true
  has-ensure epoch m = ground (arith, lookup-put epoch epoch [] m)

-- What was stored stays as it was stored.
abbrev pub Kept {ℓ} : {A : Type ℓ} → Option A → Option A → Type ℓ
Kept none o = Unit
Kept (some a) o = o ≡ some a

pub Kept-refl {ℓ} : {A : Type ℓ} (o : Option A) → Kept o o
Kept-refl none = tt
Kept-refl (some a) = refl

pub Kept-trans {ℓ} : {A : Type ℓ} (o p q : Option A) → Kept o p → Kept p q → Kept o q
Kept-trans none p q h k = tt
Kept-trans (some a) none q h k = cc
Kept-trans (some a) (some b) q h k = ground arith

module _ {ℓ} {V : Type ℓ} where
  pub ensure-Kept :
      (epoch k j : ℕ) (m : Dict (Dict V))
      → Kept (lookup j (at k m)) (lookup j (at k (ensure epoch m)))
  ensure-Kept epoch k j m = rw (at-ensure epoch k m) (Kept-refl (lookup j (at k m)))

  pub save-Kept :
      (epoch pk k j : ℕ) (v : V) (m : Dict (Dict V))
      → has pk (at epoch m) ≡ false
      → Kept (lookup j (at k m)) (lookup j (at k (save epoch pk v m)))
  save-Kept epoch pk k j v m h = elim (Option-cases (lookup j (at k m))) [
    | inl e ↦ rw e tt
    | inr (a, e) ↦ rw e (ground (arith, lookup-save epoch pk k j v m))
  ]

  pub has-save :
      (epoch pk j : ℕ) (v : V) (m : Dict (Dict V))
      → has j (at epoch (save epoch pk v m)) ≡ (pk == j || has j (at epoch m))
  has-save epoch pk j v m = ground (arith, lookup-save epoch pk epoch j v m)
