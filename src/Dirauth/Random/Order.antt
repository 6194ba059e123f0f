-- ===== src/Dirauth/Random/Order.antt =====
-- The shared random value does not depend on the order of a map, unless two reveals are the same.
use mathlib.Core.Path.{subst}
use mathlib.Core.List.{Permᴰ}
use mathlib.Core.List.Permᴰ
use zknet_anon_rpc_demo.Common.{
  ℕ, ◌≤◌, ◌<◌, ◌≡◌, ◌≢◌, refl, sym, ap, ◌∙◌, List, [], ◌∷◌, Option, All, arith,
}
use zknet_anon_rpc_demo.Common.Sorted.{Perm-In, Sorted, same_members}
use zknet_anon_rpc_demo.Dirauth.Random.{Reveal, hashed}

-- What `sort.Slice` by `>` on the digests promises: the elements, rearranged so that no digest is less
-- than a later one.
pub record IsSort (sort_slice : List Reveal → List Reveal) : Type 0 where
  pub rearranges : (xs : List Reveal) → Permᴰ xs (sort_slice xs)
  pub descends : (xs : List Reveal) → Sorted (λ a b. b.digest ≤ a.digest) (sort_slice xs)

-- No two reveals have one digest.
abbrev pub Apart : List Reveal → Type 0
Apart xs = Sorted (λ a b. b.digest ≢ a.digest) xs

Perm-All : (P : Reveal → Type 0) {xs ys : List Reveal} → Permᴰ xs ys → All P xs → All P ys
Perm-All P Permᴰ.nil h = h
Perm-All P (Permᴰ.cons e r) (p, ps) = (subst P e p, Perm-All P r ps)
Perm-All P (Permᴰ.swap e f) (p, (q, ps)) = (subst P f q, (subst P e p, ps))
Perm-All P (Permᴰ.trans r q) h = Perm-All P q (Perm-All P r h)

Perm-Apart : {xs ys : List Reveal} → Permᴰ xs ys → Apart xs → Apart ys
Perm-Apart Permᴰ.nil h = h
Perm-Apart (Permᴰ.cons {l₂ = ys} e r) (d, ds) = (
  subst (λ a. All (λ b. b.digest ≢ a.digest) ys) e (Perm-All (λ b. b.digest ≢ _) r d),
  Perm-Apart r ds,
)
Perm-Apart (Permᴰ.swap {l = xs} e f) ((d, ds), (c, cs)) = (
  (
    (λ h. d (ap (λ a. a.digest) f ∙ (sym h ∙ ap (λ a. a.digest) (sym e)))),
    subst (λ a. All (λ b. b.digest ≢ a.digest) xs) f c,
  ),
  (subst (λ a. All (λ b. b.digest ≢ a.digest) xs) e ds, cs),
)
Perm-Apart (Permᴰ.trans r q) h = Perm-Apart q (Perm-Apart r h)

strictly_below :
    (n : ℕ) (xs : List Reveal)
    → All (λ b. b.digest ≤ n) xs
    → All (λ b. b.digest ≢ n) xs
    → All (λ b. b.digest < n) xs
strictly_below n [] h d = tt
strictly_below n (x ∷ xs) (h, hs) (d, ds) = (ground (arith, h, d), strictly_below n xs hs ds)

strictly :
    (xs : List Reveal)
    → Sorted (λ a b. b.digest ≤ a.digest) xs
    → Apart xs
    → Sorted (λ a b. b.digest < a.digest) xs
strictly [] h d = tt
strictly (x ∷ xs) (h, hs) (d, ds) = (strictly_below x.digest xs h d, strictly xs hs ds)

module _ (f g : List Reveal → List Reveal) (f_sorts : IsSort f) (g_sorts : IsSort g) where
  sorts_agree : (xs ys : List Reveal) → Permᴰ xs ys → Apart xs → f xs ≡ g ys
  sorts_agree xs ys r d =
      let p = f_sorts.rearranges xs in
      let q = Permᴰ.trans r (g_sorts.rearranges ys) in
      same_members (λ a b. b.digest < a.digest) (λ a b h k. omega (arith, h, k)) (f xs) (g ys)
        (strictly (f xs) (f_sorts.descends xs) (Perm-Apart p d))
        (strictly (g ys) (g_sorts.descends ys) (Perm-Apart q d))
        (λ a m. Perm-In a q (Perm-In a (Permᴰ.symm p) m))
        (λ a m. Perm-In a p (Perm-In a (Permᴰ.symm q) m))

  -- The bytes that are hashed for the shared random value are the same for any order in which the map
  -- of reveals is read, and whatever `sort.Slice` does with equal elements, as long as no two reveals
  -- have one digest.
  pub hashed-Reordered :
      (epoch : ℕ) (prior : Option (List ℕ)) (xs ys : List Reveal)
      → Permᴰ xs ys
      → Apart xs
      → hashed f epoch prior xs ≡ hashed g epoch prior ys
  unfolding hashed
  hashed-Reordered epoch prior xs ys r d = rw (sorts_agree xs ys r d) refl
