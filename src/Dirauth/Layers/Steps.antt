-- ===== src/Dirauth/Layers/Steps.antt =====
-- Layers that are kept up to the target, and layers that are filled up to it.
use zknet_anon_rpc_demo.Common.{
  ℕ, suc, ◌+◌, ◌*◌, ◌≤◌, ◌<◌, ◌≡◌, refl, ap, inl, inr, List, [], ◌∷◌, ◌++◌, true, Option, some, leb,
  length, arith, All, Bool-cases, Option-cases, length-append,
}
use native.Mathlib.Nat.{suc-mul}
use zknet_anon_rpc_demo.Common.Dict.{Dict, lookup, delete}
use zknet_anon_rpc_demo.Common.Dict.Unique.{Unique, delete-Unique}
use zknet_anon_rpc_demo.Dirauth.Topology.Balanced.{get_elem?-some}
use zknet_anon_rpc_demo.Dirauth.Layers.{values, keep_layer, keep_layers, fill_layer, fill_layers}
use zknet_anon_rpc_demo.Dirauth.Layers.Weigh.{
  weigh, weigh_all, weigh-append, weigh-length, weigh-delete, IsPermutation,
}

module _ {ℓ} {A : Type ℓ} (key : A → ℕ) (target : ℕ) where
  record KeptLayer (layer : List A) (m : Dict A) (o : Option (List A × Dict A)) : Type ℓ where
    kept : List A
    left : Dict A
    is : o ≡ some (kept, left)
    unique : Unique left
    within : length kept ≤ target
    same : (f : A → ℕ) → weigh f kept + weigh f (values left) ≡ weigh f layer + weigh f (values m)

  keep_layer-KeptLayer :
      (old : List A) (indexes : List ℕ) (layer : List A) (m : Dict A)
      → All (λ i. i < length old) indexes
      → Unique m
      → length layer ≤ target
      → KeptLayer layer m (keep_layer key target old indexes layer m)
  unfolding keep_layer weigh
  keep_layer-KeptLayer old [] layer m h u w = record {
    kept = layer;
    left = m;
    is = refl;
    unique = u;
    within = w;
    same = λ f. refl;
  }
  keep_layer-KeptLayer old (i ∷ indexes) layer m (h, hs) u w =
      elim (Bool-cases (leb target (length layer))) [
        | inl full ↦ record {
          kept = layer;
          left = m;
          is = ground (arith, full);
          unique = u;
          within = w;
          same = λ f. refl;
        }
        | inr room ↦
            let (v, e) = get_elem?-some old i h in
            elim (Option-cases (lookup (key v) m)) [
              | inl gone ↦
                  let r = keep_layer-KeptLayer old indexes layer m hs u w in
                  record {
                    kept = r.kept;
                    left = r.left;
                    is = ground (arith, room, e, gone, r.is);
                    unique = r.unique;
                    within = r.within;
                    same = r.same;
                  }
              | inr (n, there) ↦
                  let size : length (layer ++ (n ∷ [])) ≤ target =
                    ground (arith, length-append layer (n ∷ []), room) in
                  let r =
                    keep_layer-KeptLayer old indexes (layer ++ (n ∷ [])) (delete (key v) m) hs
                      (delete-Unique (key v) m u) size in
                  record {
                    kept = r.kept;
                    left = r.left;
                    is = ground (arith, room, e, there, r.is);
                    unique = r.unique;
                    within = r.within;
                    same = λ f. omega (
                      arith,
                      r.same f,
                      weigh-append f layer (n ∷ []),
                      weigh-delete f (key v) n m u there,
                    );
                  }
            ]
      ]

module _ {ℓ} {A : Type ℓ} (key : A → ℕ) (perm : ℕ → ℕ → List ℕ) (target : ℕ)
    (is_perm : (call n : ℕ) → IsPermutation n (perm call n)) where
  pub record KeptLayers (olds : List (List A)) (m : Dict A) (o : Option (List (List A) × Dict A))
      : Type ℓ where
    pub kept : List (List A)
    pub left : Dict A
    pub is : o ≡ some (kept, left)
    pub unique : Unique left
    pub depth : length kept ≡ length olds
    pub within : All (λ l. length l ≤ target) kept
    pub same : (f : A → ℕ) → weigh_all f kept + weigh f (values left) ≡ weigh f (values m)

  pub keep_layers-KeptLayers :
      (call : ℕ) (olds : List (List A)) (m : Dict A)
      → Unique m
      → KeptLayers olds m (keep_layers key perm call target olds m)
  unfolding keep_layers weigh weigh_all
  keep_layers-KeptLayers call [] m u = record {
    kept = [];
    left = m;
    is = refl;
    unique = u;
    depth = refl;
    within = tt;
    same = λ f. omega arith;
  }
  keep_layers-KeptLayers call (old ∷ olds) m u =
      let one =
        keep_layer-KeptLayer key target old (perm call (length old)) [] m
          (is_perm call (length old)).in_range u (omega arith) in
      let more = keep_layers-KeptLayers (suc call) olds one.left one.unique in
      record {
        kept = one.kept ∷ more.kept;
        left = more.left;
        is = ground (arith, one.is, more.is);
        unique = more.unique;
        depth = ap suc more.depth;
        within = (one.within, more.within);
        same = λ f. omega (arith, one.same f, more.same f);
      }

module _ {ℓ} {A : Type ℓ} (target : ℕ) where
  record FilledLayer (layer pending : List A) (o : Option (List A × List A)) : Type ℓ where
    filled : List A
    left : List A
    is : o ≡ some (filled, left)
    full : length filled ≡ target
    same : (f : A → ℕ) → weigh f filled + weigh f left ≡ weigh f layer + weigh f pending

  fill_layer-FilledLayer :
      (layer pending : List A)
      → length layer ≤ target
      → target ≤ length layer + length pending
      → FilledLayer layer pending (fill_layer target layer pending)
  unfolding fill_layer weigh
  fill_layer-FilledLayer layer [] w h =
      let full : leb target (length layer) ≡ true = ground (arith, h) in
      rw full (record {
        filled = layer;
        left = [];
        is = refl;
        full = omega (arith, w, h);
        same = λ f. refl;
      })
  fill_layer-FilledLayer layer (n ∷ pending) w h = elim (Bool-cases (leb target (length layer))) [
    | inl full ↦ record {
      filled = layer;
      left = n ∷ pending;
      is = ground (arith, full);
      full = ground (arith, full, w);
      same = λ f. refl;
    }
    | inr room ↦
        let size = length-append layer (n ∷ []) in
        let r =
          fill_layer-FilledLayer (layer ++ (n ∷ [])) pending (ground (arith, size, room))
            (omega (arith, size, h)) in
        record {
          filled = r.filled;
          left = r.left;
          is = ground (arith, room, r.is);
          full = r.full;
          same = λ f. omega (arith, r.same f, weigh-append f layer (n ∷ []));
        }
  ]

  pub record FilledLayers (layers : List (List A)) (pending : List A)
      (o : Option (List (List A) × List A)) : Type ℓ where
    pub filled : List (List A)
    pub left : List A
    pub is : o ≡ some (filled, left)
    pub depth : length filled ≡ length layers
    pub full : All (λ l. length l ≡ target) filled
    pub same :
        (f : A → ℕ) → weigh_all f filled + weigh f left ≡ weigh_all f layers + weigh f pending

  weigh_all-within :
      (layers : List (List A))
      → All (λ l. length l ≤ target) layers
      → weigh_all (λ a. 1) layers ≤ length layers * target
  unfolding weigh_all
  weigh_all-within [] h = omega arith
  weigh_all-within (layer ∷ layers) (h, hs) =
      omega
        (arith, h, weigh-length layer, weigh_all-within layers hs, suc-mul (length layers) target)

  pub fill_layers-FilledLayers :
      (layers : List (List A)) (pending : List A)
      → All (λ l. length l ≤ target) layers
      → length layers * target ≤ weigh_all (λ a. 1) layers + length pending
      → FilledLayers layers pending (fill_layers target layers pending)
  unfolding fill_layers weigh weigh_all
  fill_layers-FilledLayers [] pending w h = record {
    filled = [];
    left = pending;
    is = refl;
    depth = refl;
    full = tt;
    same = λ f. refl;
  }
  fill_layers-FilledLayers (layer ∷ layers) pending (w, ws) h =
      let all_within = weigh_all-within layers ws in
      let size = weigh-length layer in
      let product = suc-mul (length layers) target in
      let one =
        fill_layer-FilledLayer layer pending w (omega (arith, h, all_within, size, product)) in
      let counted = one.same (λ a. 1) in
      let more = fill_layers-FilledLayers layers one.left ws (
        omega (
          arith,
          h,
          counted,
          size,
          product,
          one.full,
          weigh-length one.filled,
          weigh-length one.left,
          weigh-length pending,
        )) in
      record {
        filled = one.filled ∷ more.filled;
        left = more.left;
        is = ground (arith, one.is, more.is);
        depth = ap suc more.depth;
        full = (one.full, more.full);
        same = λ f. omega (arith, one.same f, more.same f);
      }
