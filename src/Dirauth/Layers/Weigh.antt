-- ===== src/Dirauth/Layers/Weigh.antt =====
-- A sum over a list, for any summand: two lists with the same sums hold the same values, each as often.
use zknet_anon_rpc_demo.Common.{
  ℕ, zero, suc, ◌+◌, ◌<◌, ◌≡◌, refl, sym, ◌∙◌, inl, inr, List, [], ◌∷◌, ◌++◌, Option, none, some,
  ◌==◌, length, arith, All, Bool-cases, Option-cases, get_elem?, replicate,
}
use zknet_anon_rpc_demo.Common.Dict.{Dict, lookup, delete, put, lookup-put}
use zknet_anon_rpc_demo.Common.Dict.Unique.{Unique, put-Unique, delete-missing}
use zknet_anon_rpc_demo.Dirauth.Topology.{pick, append_at, assign}
use zknet_anon_rpc_demo.Dirauth.Topology.Balanced.{get_elem?-some, length-append_at, next_layer}
use zknet_anon_rpc_demo.Dirauth.Tally.{insert_by, sort_by}
use zknet_anon_rpc_demo.Dirauth.Layers.{values, node_map}

module _ {ℓ} {A : Type ℓ} where
  unfoldable pub weigh : (A → ℕ) → List A → ℕ
  weigh f [] = 0
  weigh f (a ∷ xs) = f a + weigh f xs

  unfoldable pub weigh_all : (A → ℕ) → List (List A) → ℕ
  weigh_all f [] = 0
  weigh_all f (xs ∷ t) = weigh f xs + weigh_all f t

  pub weigh-append : (f : A → ℕ) (xs ys : List A) → weigh f (xs ++ ys) ≡ weigh f xs + weigh f ys
  unfolding weigh
  weigh-append f [] ys = omega arith
  weigh-append f (x ∷ xs) ys = omega (arith, weigh-append f xs ys)

  pub weigh_all-append :
      (f : A → ℕ) (t u : List (List A)) → weigh_all f (t ++ u) ≡ weigh_all f t + weigh_all f u
  unfolding weigh_all
  weigh_all-append f [] u = omega arith
  weigh_all-append f (xs ∷ t) u = omega (arith, weigh_all-append f t u)

  pub weigh_all-replicate : (f : A → ℕ) (n : ℕ) → weigh_all f (replicate n []) ≡ 0
  unfolding weigh weigh_all
  weigh_all-replicate f zero = refl
  weigh_all-replicate f (suc n) = omega (arith, weigh_all-replicate f n)

  pub weigh-length : (xs : List A) → weigh (λ a. 1) xs ≡ length xs
  unfolding weigh
  weigh-length [] = refl
  weigh-length (x ∷ xs) = omega (arith, weigh-length xs)

  pub weigh-insert_by :
      (f key : A → ℕ) (a : A) (xs : List A) → weigh f (insert_by key a xs) ≡ f a + weigh f xs
  unfolding weigh insert_by
  weigh-insert_by f key a [] = refl
  weigh-insert_by f key a (b ∷ bs) = ground (arith, weigh-insert_by f key a bs)

  pub weigh-sort_by : (f key : A → ℕ) (xs : List A) → weigh f (sort_by key xs) ≡ weigh f xs
  unfolding weigh sort_by
  weigh-sort_by f key [] = refl
  weigh-sort_by f key (a ∷ xs) =
      omega (arith, weigh-insert_by f key a (sort_by key xs), weigh-sort_by f key xs)

  pub weigh-delete :
      (f : A → ℕ) (k : ℕ) (v : A) (m : Dict A)
      → Unique m
      → lookup k m ≡ some v
      → weigh f (values m) ≡ f v + weigh f (values (delete k m))
  unfolding weigh lookup delete
  weigh-delete f k v [] u h = cc
  weigh-delete f k v ((j, w) ∷ m) (fresh, u) h = elim (Bool-cases (j == k)) [
    | inl e ↦
        let same : j ≡ k = ground arith in
        let missing : lookup k m ≡ none = ground arith in
        let kept : delete k m ≡ m = delete-missing k m missing in
        let found : w ≡ v = ground arith in rw (e, kept, found) refl
    | inr e ↦ rw e (omega (arith, weigh-delete f k v m u (ground arith)))
  ]

  -- The nodes under their keys.
  abbrev pub keyed : (A → ℕ) → List A → Dict A
  keyed key [] = []
  keyed key (v ∷ nodes) = (key v, v) ∷ keyed key nodes

  pub node_map-weigh :
      (f key : A → ℕ) (nodes : List A) (m : Dict A)
      → Unique m
      → Unique (keyed key nodes)
      → ((k : ℕ) (v w : A) → lookup k m ≡ some v → lookup k (keyed key nodes) ≡ some w → ⊥)
      → Unique (node_map key nodes m)
        × (weigh f (values (node_map key nodes m)) ≡ weigh f (values m) + weigh f nodes)
  unfolding node_map weigh lookup
  node_map-weigh f key [] m u v apart = (u, omega arith)
  node_map-weigh f key (n ∷ nodes) m u (fresh, v) apart =
      let missing : lookup (key n) m ≡ none = elim (Option-cases (lookup (key n) m)) [
        | inl o ↦ o
        | inr (w, o) ↦ absurd (apart (key n) w n o (ground arith))
      ] in
      let alone = delete-missing (key n) m missing in
      let (u', e) =
        node_map-weigh f key nodes (put (key n) n m) (put-Unique (key n) n m u) v (λ k w x o p.
          elim (Bool-cases (key n == k)) [
            | inl same ↦ let s : key n ≡ k = ground arith in absurd (ground (arith, s, fresh, p))
            | inr differs ↦
                apart k w x (ground (arith, lookup-put (key n) k n m, o)) (ground (arith, p))
          ]) in
      let grown : weigh f (values (put (key n) n m)) ≡ f n + weigh f (values m) = rw alone refl in
      (u', omega (arith, e, grown))

  pub weigh-append_at :
      (f : A → ℕ) (k : ℕ) (n : A) (t : List (List A))
      → k < length t
      → weigh_all f (append_at k n t) ≡ f n + weigh_all f t
  unfolding append_at weigh weigh_all
  weigh-append_at f k n [] h = absurd (omega (arith, h))
  weigh-append_at f zero n (l ∷ t) h = omega (arith, weigh-append f l (n ∷ []))
  weigh-append_at f (suc k) n (l ∷ t) h = omega (arith, weigh-append_at f k n t (omega (arith, h)))

  pub weigh-assign :
      (f : A → ℕ) (k : ℕ) (nodes : List A) (t : List (List A))
      → k < length t
      → weigh_all f (assign k nodes t) ≡ weigh f nodes + weigh_all f t
  unfolding assign weigh
  weigh-assign f k [] t h = omega arith
  weigh-assign f k (n ∷ nodes) t h =
      let u = append_at k n t in
      let size = length-append_at k n t in
      let more = weigh-append_at f k n t h in
      elim (next_layer k (length t) h) [
        | inl (inside, e) ↦
            rw e (omega (arith, weigh-assign f (suc k) nodes u (omega (arith, size, inside)), more))
        | inr (last, e) ↦
            rw e (omega (arith, weigh-assign f 0 nodes u (omega (arith, size, h)), more))
      ]

  abbrev pub at_or_zero : (A → ℕ) → Option A → ℕ
  at_or_zero f none = 0
  at_or_zero f (some a) = f a

pub pick-weigh {ℓ} :
    {A : Type ℓ} (f : A → ℕ) (nodes : List A) (indexes : List ℕ)
    → All (λ i. i < length nodes) indexes
    → (picked : List A) × (pick nodes indexes ≡ some picked)
      × (weigh f picked ≡ weigh (λ i. at_or_zero f (get_elem? nodes i)) indexes)
unfolding pick weigh
pick-weigh f nodes [] h = ([], refl, refl)
pick-weigh f nodes (i ∷ indexes) (h, hs) =
    let (a, e) = get_elem?-some nodes i h in
    let (picked, p, w) = pick-weigh f nodes indexes hs in
    (a ∷ picked, rw (e, p) refl, rw e (omega (arith, w)))

-- `n` numbers from `i` on.
unfoldable pub numbers : ℕ → ℕ → List ℕ
numbers i zero = []
numbers i (suc n) = i ∷ numbers (suc i) n

weigh-numbers :
    (g : ℕ → ℕ) (i n : ℕ) → weigh g (numbers (suc i) n) ≡ weigh (λ j. g (suc j)) (numbers i n)
unfolding weigh numbers
weigh-numbers g i zero = refl
weigh-numbers g i (suc n) = omega (arith, weigh-numbers g (suc i) n)

weigh_nodes {ℓ} :
    {A : Type ℓ} (f : A → ℕ) (nodes : List A)
    → weigh (λ i. at_or_zero f (get_elem? nodes i)) (numbers 0 (length nodes)) ≡ weigh f nodes
unfolding weigh numbers
weigh_nodes f [] = refl
weigh_nodes f (a ∷ nodes) = omega (
  arith,
  weigh-numbers (λ i. at_or_zero f (get_elem? (a ∷ nodes) i)) 0 (length nodes),
  weigh_nodes f nodes,
)

-- The numbers below `n`, each once, in some order.
pub record IsPermutation (n : ℕ) (indexes : List ℕ) : Type 0 where
  pub in_range : All (λ i. i < n) indexes
  pub same : (g : ℕ → ℕ) → weigh g indexes ≡ weigh g (numbers 0 n)

-- Nodes that are picked by a permutation are the same nodes.
pub pick_all {ℓ} :
    {A : Type ℓ} (nodes : List A) (indexes : List ℕ)
    → IsPermutation (length nodes) indexes
    → (picked : List A) × (pick nodes indexes ≡ some picked)
      × ((f : A → ℕ) → weigh f picked ≡ weigh f nodes)
pick_all nodes indexes h =
    let (picked, p, w) = pick-weigh (λ a. 1) nodes indexes h.in_range in
    (
      picked,
      p,
      λ f.
          let (again, q, x) = pick-weigh f nodes indexes h.in_range in
          let e : again ≡ picked = ground arith in
          let y = h.same (λ i. at_or_zero f (get_elem? nodes i)) in
          rw (sym e) (x ∙ (y ∙ weigh_nodes f nodes)),
    )
