-- ===== src/Dirauth/Examples/Random.antt =====
-- The shared random value at concrete inputs.
use mathlib.Core.List.{Permᴰ}
use mathlib.Core.List.Permᴰ
use zknet_anon_rpc_demo.Common.{
  ℕ, ◌≤◌, ◌≡◌, refl, inl, inr, List, [], ◌∷◌, none, ltb, if◌then◌else◌, All, Bool-cases, arith,
  length,
}
use zknet_anon_rpc_demo.Common.Sorted.{Sorted}
use zknet_anon_rpc_demo.Common.Text.{same_text}
use zknet_anon_rpc_demo.Common.Dict.{Dict, lookup, delete}
use zknet_anon_rpc_demo.Common.Bytes.{codes}
use zknet_anon_rpc_demo.Dirauth.Pki.{Document}
use zknet_anon_rpc_demo.Dirauth.Random.{
  SharedRandom, verify_commits, collect_all, collect_commits, check_entry, delete_all, Reveal,
  hashed,
}
use zknet_anon_rpc_demo.Dirauth.Random.Checked.{AllBoth, verify_commits_lem}
use zknet_anon_rpc_demo.Dirauth.Random.Order.{IsSort, hashed-Reordered}
use zknet_anon_rpc_demo.Dirauth.Examples.{ballot, certs}

-- Every commit is for epoch 7, and a reveal fits a commit that is the same.
abbrev random : SharedRandom
random = record { get_epoch = λ commit. 7; verify = same_text }

abbrev reverse_hash : Dict (List ℕ)
reverse_hash = (1, 1 ∷ []) ∷ (2, 2 ∷ []) ∷ []

abbrev good : Document
good = record ballot {
  shared_random_commit = (1, codes "a") ∷ (2, codes "b") ∷ [];
  shared_random_reveal = (1, codes "a") ∷ (2, codes "b") ∷ [];
}

-- A certificate that brings a reveal of node 2 that does not fit.
abbrev bad : Document
bad = record ballot {
  shared_random_commit = (2, codes "b") ∷ [];
  shared_random_reveal = (2, codes "c") ∷ [];
}

verify_commits_lem_example :
    let (commits, reveals) =
      verify_commits certs random reverse_hash 7 ((1, good) ∷ (2, bad) ∷ []) in
    AllBoth certs random reverse_hash 7 commits reveals × (length commits ≡ length reveals)
verify_commits_lem_example =
    verify_commits_lem certs random reverse_hash 7 ((1, good) ∷ (2, bad) ∷ [])

good_kept :
    verify_commits certs random reverse_hash 7 ((1, good) ∷ [])
    ≡ ((2, codes "b") ∷ (1, codes "a") ∷ [], (2, codes "b") ∷ (1, codes "a") ∷ [])
unfolding verify_commits collect_all collect_commits check_entry delete_all lookup delete same_text
good_kept = refl

-- The certificate of a third node, with an entry for a node that is not known: what it says of
-- node 1 counts only if that is read first.
abbrev unknown_last : Document
unknown_last = record good { shared_random_commit = (1, codes "a") ∷ (8, codes "d") ∷ [] }

abbrev unknown_first : Document
unknown_first = record good { shared_random_commit = (8, codes "d") ∷ (1, codes "a") ∷ [] }

unknown_order :
    (verify_commits certs random reverse_hash 7 ((3, unknown_last) ∷ [])
      ≡ ((1, codes "a") ∷ [], (1, codes "a") ∷ []))
    × (verify_commits certs random reverse_hash 7 ((3, unknown_first) ∷ []) ≡ ([], []))
unfolding verify_commits collect_all collect_commits check_entry delete_all lookup delete same_text
unknown_order = (refl, refl)

abbrev low : Reveal
low = record { public_key = 1; digest = 5 }

abbrev high : Reveal
high = record { public_key = 2; digest = 6 }

-- The reveal of the first node, copied by a third.
abbrev copied : Reveal
copied = record { public_key = 3; digest = 5 }

-- One way to sort, which keeps the order of reveals of one digest.
unfoldable insert_reveal : Reveal → List Reveal → List Reveal
insert_reveal a [] = a ∷ []
insert_reveal a (b ∷ bs) =
    let rest = insert_reveal a bs in if ltb a.digest b.digest then b ∷ rest else a ∷ b ∷ bs

unfoldable sort_reveals : List Reveal → List Reveal
sort_reveals [] = []
sort_reveals (a ∷ bs) = insert_reveal a (sort_reveals bs)

insert_reveal-Perm : (a : Reveal) (xs : List Reveal) → Permᴰ (a ∷ xs) (insert_reveal a xs)
unfolding insert_reveal
insert_reveal-Perm a [] = Permᴰ.refl (a ∷ [])
insert_reveal-Perm a (b ∷ bs) = elim (Bool-cases (ltb a.digest b.digest)) [
  | inl e ↦ rw e (Permᴰ.trans (Permᴰ.swap refl refl) (Permᴰ.cons refl (insert_reveal-Perm a bs)))
  | inr e ↦ rw e (Permᴰ.refl (a ∷ b ∷ bs))
]

sort_reveals-Perm : (xs : List Reveal) → Permᴰ xs (sort_reveals xs)
unfolding sort_reveals
sort_reveals-Perm [] = Permᴰ.nil
sort_reveals-Perm (a ∷ bs) =
    Permᴰ.trans (Permᴰ.cons refl (sort_reveals-Perm bs)) (insert_reveal-Perm a (sort_reveals bs))

below :
    (n m : ℕ) (xs : List Reveal) → n ≤ m → All (λ b. b.digest ≤ n) xs → All (λ b. b.digest ≤ m) xs
below n m [] h hs = tt
below n m (x ∷ xs) h (p, ps) = (omega (arith, h, p), below n m xs h ps)

insert_reveal-below :
    (n : ℕ) (a : Reveal) (xs : List Reveal)
    → a.digest ≤ n
    → All (λ b. b.digest ≤ n) xs
    → All (λ b. b.digest ≤ n) (insert_reveal a xs)
unfolding insert_reveal
insert_reveal-below n a [] h hs = (h, tt)
insert_reveal-below n a (b ∷ bs) h (p, ps) = elim (Bool-cases (ltb a.digest b.digest)) [
  | inl e ↦ rw e (p, insert_reveal-below n a bs h ps)
  | inr e ↦ rw e (h, (p, ps))
]

abbrev Descending : List Reveal → Type 0
Descending xs = Sorted (λ a b. b.digest ≤ a.digest) xs

insert_reveal-Descending :
    (a : Reveal) (xs : List Reveal) → Descending xs → Descending (insert_reveal a xs)
unfolding insert_reveal
insert_reveal-Descending a [] h = (tt, tt)
insert_reveal-Descending a (b ∷ bs) (p, ps) = elim (Bool-cases (ltb a.digest b.digest)) [
  | inl e ↦
      rw e
        (insert_reveal-below b.digest a bs (ground (arith, e)) p, insert_reveal-Descending a bs ps)
  | inr e ↦
      let l : b.digest ≤ a.digest = ground (arith, e) in
      rw e ((l, below b.digest a.digest bs l p), (p, ps))
]

sort_reveals-Descending : (xs : List Reveal) → Descending (sort_reveals xs)
unfolding sort_reveals
sort_reveals-Descending [] = tt
sort_reveals-Descending (a ∷ bs) =
    insert_reveal-Descending a (sort_reveals bs) (sort_reveals-Descending bs)

sort_reveals-IsSort : IsSort sort_reveals
sort_reveals-IsSort = record { rearranges = sort_reveals-Perm; descends = sort_reveals-Descending }

hashed-Reordered_example :
    hashed sort_reveals 7 none (low ∷ high ∷ []) ≡ hashed sort_reveals 7 none (high ∷ low ∷ [])
hashed-Reordered_example =
    hashed-Reordered sort_reveals sort_reveals sort_reveals-IsSort sort_reveals-IsSort 7 none
      (low ∷ high ∷ []) (high ∷ low ∷ []) (Permᴰ.swap refl refl) ((omega arith, tt), (tt, tt))

-- With a copied reveal, the order of the map decides what this way gives.
copied_order :
    (sort_reveals (low ∷ copied ∷ []) ≡ low ∷ copied ∷ [])
    × (sort_reveals (copied ∷ low ∷ []) ≡ copied ∷ low ∷ [])
unfolding sort_reveals insert_reveal
copied_order = (refl, refl)
