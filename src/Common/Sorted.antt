-- ===== src/Common/Sorted.antt =====
-- Lists in a strict order, which are known by their members.
use mathlib.Core.Path.{subst}
use mathlib.Core.List.{Permᴰ}
use zknet_anon_rpc_demo.Common.{◌≡◌, refl, sym, ◌∙◌, ◌⊎◌, inl, inr, List, [], ◌∷◌, All}

pub data In {ℓ} {A : Type ℓ} (a : A) : List A → Type ℓ where
  here : {xs : List A} → In a (a ∷ xs)
  there : {x : A} {xs : List A} → In a xs → In a (x ∷ xs)

module _ {ℓ} {A : Type ℓ} where
  pub In-cases : (a y : A) (ys : List A) → In a (y ∷ ys) → (a ≡ y) ⊎ In a ys
  In-cases a y ys here = inl refl
  In-cases a y ys (there m) = inr m

  pub In-All {κ} : (P : A → Type κ) (a : A) (xs : List A) → In a xs → All P xs → P a
  In-All P a [] m ps = elim m [ ]
  In-All P a (x ∷ xs) m (p, ps) = elim (In-cases a x xs m) [
    | inl e ↦ rw e p
    | inr n ↦ In-All P a xs n ps
  ]

  pub Perm-In : {xs ys : List A} (a : A) → Permᴰ xs ys → In a xs → In a ys
  Perm-In a Permᴰ.nil m = m
  Perm-In a (Permᴰ.cons {a = x} {l₁ = xs} e r) m = elim (In-cases a x xs m) [
    | inl s ↦ rw (s ∙ e) here
    | inr n ↦ there (Perm-In a r n)
  ]
  Perm-In a (Permᴰ.swap {a = x} {b = y} {l = xs} e f) m = elim (In-cases a x (y ∷ xs) m) [
    | inl s ↦ rw (s ∙ e) (there here)
    | inr n ↦ elim (In-cases a y xs n) [ inl s ↦ rw (s ∙ f) here | inr o ↦ there (there o) ]
  ]
  Perm-In a (Permᴰ.trans r q) m = Perm-In a q (Perm-In a r m)

  module _ {κ} (less : A → A → Type κ) where
    abbrev pub Sorted : List A → Type κ
    Sorted [] = Unit
    Sorted (x ∷ xs) = All (λ y. less x y) xs × Sorted xs

    module _ (asym : (x y : A) → less x y → ¬ less y x) where
      same_head :
          (x y : A) (xs ys : List A)
          → Sorted (x ∷ xs)
          → Sorted (y ∷ ys)
          → In x (y ∷ ys)
          → In y (x ∷ xs)
          → x ≡ y
      same_head x y xs ys (p, s) (q, t) m n = elim (In-cases x y ys m) [
        | inl e ↦ e
        | inr m' ↦ elim (In-cases y x xs n) [
          | inl e ↦ sym e
          | inr n' ↦
              absurd
                (asym x y (In-All (λ z. less x z) y xs n' p) (In-All (λ z. less y z) x ys m' q))
        ]
      ]

      same_tail :
          (x y : A) (xs ys : List A)
          → All (λ z. less x z) xs
          → x ≡ y
          → ((a : A) → In a (x ∷ xs) → In a (y ∷ ys))
          → (a : A) → In a xs
          → In a ys
      same_tail x y xs ys p e f a m = elim (In-cases a y ys (f a (there m))) [
        | inr n ↦ n
        | inl d ↦
            let l : less x a = In-All (λ z. less x z) a xs m p in
            let k : less x x = subst (λ z. less x z) (d ∙ sym e) l in absurd (asym x x k k)
      ]

      -- Two lists in the order that have the same members are the same list.
      pub same_members :
          (xs ys : List A)
          → Sorted xs
          → Sorted ys
          → ((a : A) → In a xs → In a ys)
          → ((a : A) → In a ys → In a xs)
          → xs ≡ ys
      same_members [] [] s t f g = refl
      same_members [] (y ∷ ys) s t f g = elim (g y here) [ ]
      same_members (x ∷ xs) [] s t f g = elim (f x here) [ ]
      same_members (x ∷ xs) (y ∷ ys) (p, s) (q, t) f g =
          let e = same_head x y xs ys (p, s) (q, t) (f x here) (g y here) in
          let rest =
            same_members xs ys s t (same_tail x y xs ys p e f) (same_tail y x ys xs q (sym e) g) in
          rw (e, rest) refl
