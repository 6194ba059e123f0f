-- ===== src/Dirauth/Tally/Select.antt =====
-- What is selected from a table.
use zknet_anon_rpc_demo.Common.{
  ℕ, ◌≤◌, ◌<◌, ◌≡◌, refl, sym, inl, inr, List, [], ◌∷◌, Bool, true, false, ◌||◌, some, ltb, length,
  arith, Bool-cases, All,
}
use zknet_anon_rpc_demo.Common.Sorted.{In, here, there}
use zknet_anon_rpc_demo.Common.Text.{same_text, same_text_lem, same_text_refl, same_text_sym}
use zknet_anon_rpc_demo.Common.Try.{Try, done, Try-cases}
use zknet_anon_rpc_demo.Dirauth.Pki.{Document, Parameters}
use zknet_anon_rpc_demo.Dirauth.Tally.{
  Table, append_vote, enough, select, select_params, insert_by, sort_by,
}
use zknet_anon_rpc_demo.Dirauth.Tally.Support.{entries}

module _ {ℓ} {A : Type ℓ} (key : A → ℕ) where
  pub insert_by-All {κ} :
      (P : A → Type κ) (a : A) (xs : List A) → P a → All P xs → All P (insert_by key a xs)
  unfolding insert_by
  insert_by-All P a [] p h = (p, tt)
  insert_by-All P a (b ∷ bs) p (q, h) = elim (Bool-cases (ltb (key b) (key a))) [
    | inl e ↦ rw e (q, insert_by-All P a bs p h)
    | inr e ↦ rw e (p, (q, h))
  ]

  pub sort_by-All {κ} : (P : A → Type κ) (xs : List A) → All P xs → All P (sort_by key xs)
  unfolding sort_by
  sort_by-All P [] h = tt
  sort_by-All P (a ∷ rest) (p, h) = insert_by-All P a (sort_by key rest) p (sort_by-All P rest h)

  behind_head :
      (a b c : A) (bs ds : List A)
      → ((m : In c (a ∷ bs)) → In c ds)
      → In c (a ∷ b ∷ bs)
      → In c (b ∷ ds)
  behind_head a b c bs ds f here = there (f here)
  behind_head a b c bs ds f (there here) = here
  behind_head a b c bs ds f (there (there n)) = there (f (there n))

  insert_by-In : (a c : A) (xs : List A) → In c (a ∷ xs) → In c (insert_by key a xs)
  unfolding insert_by
  insert_by-In a c [] m = m
  insert_by-In a c (b ∷ bs) m =
      let deeper = insert_by-In a c bs in
      elim (Bool-cases (ltb (key b) (key a))) [
        | inl e ↦ rw e (behind_head a b c bs (insert_by key a bs) deeper m)
        | inr e ↦ rw e m
      ]

  pub sort_by-In : (c : A) (xs : List A) → In c xs → In c (sort_by key xs)
  unfolding sort_by
  sort_by-In c [] m = elim m [ ]
  sort_by-In c (a ∷ rest) here = insert_by-In a a (sort_by key rest) here
  sort_by-In c (a ∷ rest) (there m) =
      insert_by-In a c (sort_by key rest) (there (sort_by-In c rest m))

-- No key stands in a table twice.
unfoldable pub has_key : List ℕ → Table → Bool
has_key k [] = false
has_key k ((j, votes) ∷ table) = same_text j k || has_key k table

abbrev pub Distinct : Table → Type 0
Distinct [] = Unit
Distinct ((k, votes) ∷ table) = (has_key k table ≡ false) × Distinct table

pub has_key-entries : (k : List ℕ) (table : Table) → has_key k table ≡ false → entries k table ≡ 0
unfolding has_key entries
has_key-entries k [] h = refl
has_key-entries k ((j, votes) ∷ table) h = ground (arith, has_key-entries k table)

pub entries-head :
    (k : List ℕ) (votes : List Document) (table : Table)
    → length votes ≤ entries k ((k, votes) ∷ table)
unfolding entries
entries-head k votes table = ground (arith, same_text_refl k)

pub entries-tail :
    (k j : List ℕ) (votes : List Document) (table : Table)
    → entries k table ≤ entries k ((j, votes) ∷ table)
unfolding entries
entries-tail k j votes table = ground arith

module _ {ℓ} {A : Type ℓ} (decode : List ℕ → Try A) (authorized : A → Bool) (threshold : ℕ)
    (f : List ℕ → ℕ) where
  -- What a value that is selected rests on: `f` counts the votes for a key.
  pub record Chosen (a : A) : Type ℓ where
    pub key : List ℕ
    pub decoded : decode key ≡ done a
    pub is_authorized : authorized a ≡ true
    pub supported : threshold ≤ f key

  pub select-Chosen :
      (table : Table) (xs : List A)
      → ((k : List ℕ) → entries k table ≤ f k)
      → select decode authorized threshold table ≡ done xs
      → All Chosen xs
  unfolding select
  select-Chosen [] xs bound h = let e : [] ≡ xs = ground arith in rw (sym e) tt
  select-Chosen ((k, votes) ∷ table) xs bound h =
      let later = λ (i : List ℕ).
        let t = entries-tail i k votes table in
        let b = bound i in let r : entries i table ≤ f i = omega (arith, t, b) in r in
      elim (Bool-cases (enough threshold votes)) [
        | inr few ↦ select-Chosen table xs later (ground arith)
        | inl many ↦ elim (Try-cases (decode k)) [
          | inl (text, d) ↦ absurd (ground arith)
          | inr (a, d) ↦ elim (Try-cases (select decode authorized threshold table)) [
            | inl (text, s) ↦ absurd (ground arith)
            | inr (ys, s) ↦ elim (Bool-cases (authorized a)) [
              | inl pinned ↦
                  let e : a ∷ ys ≡ xs = ground arith in
                  let chosen : Chosen a = record {
                    key = k;
                    decoded = d;
                    is_authorized = pinned;
                    supported = ground (arith, entries-head k votes table, bound k);
                  } in
                  rw (sym e) (chosen, select-Chosen table ys later s)
              | inr refused ↦
                  let e : ys ≡ xs = ground arith in rw (sym e) (select-Chosen table ys later s)
            ]
          ]
        ]
      ]

  pub select-In :
      (table : Table) (xs : List A) (k : List ℕ) (a : A)
      → Distinct table
      → 0 < threshold
      → select decode authorized threshold table ≡ done xs
      → decode k ≡ done a
      → authorized a ≡ true
      → threshold ≤ entries k table
      → In a xs
  unfolding select entries
  select-In [] xs k a d z h dk au s = absurd (omega (arith, z, s))
  select-In ((j, votes) ∷ table) xs k a (fresh, d) z h dk au s = elim (Bool-cases (same_text j k)) [
    | inl same ↦
        let e : j ≡ k = same_text_lem j k same in
        let none_left = has_key-entries j table fresh in
        let many : enough threshold votes ≡ true = ground arith in
        elim (Try-cases (select decode authorized threshold table)) [
          | inl (text, p) ↦ absurd (ground arith)
          | inr (ys, p) ↦ let q : a ∷ ys ≡ xs = ground arith in rw (sym q) here
        ]
    | inr differs ↦
        let supported : threshold ≤ entries k table = ground arith in
        elim (Bool-cases (enough threshold votes)) [
          | inr few ↦ select-In table xs k a d z (ground arith) dk au supported
          | inl many ↦ elim (Try-cases (decode j)) [
            | inl (text, p) ↦ absurd (ground arith)
            | inr (b, p) ↦ elim (Try-cases (select decode authorized threshold table)) [
              | inl (text, r) ↦ absurd (ground arith)
              | inr (ys, r) ↦
                  let m = select-In table ys k a d z r dk au supported in
                  elim (Bool-cases (authorized b)) [
                    | inl pinned ↦ let q : b ∷ ys ≡ xs = ground arith in rw (sym q) (there m)
                    | inr refused ↦ let q : ys ≡ xs = ground arith in rw (sym q) m
                  ]
            ]
          ]
        ]
  ]

-- The parameters selected have enough votes.
pub select_params_lem :
    (decode : List ℕ → Try Parameters) (threshold : ℕ) (f : List ℕ → ℕ) (table : Table)
    (params : Parameters)
    → ((k : List ℕ) → entries k table ≤ f k)
    → select_params decode threshold table ≡ some params
    → (k : List ℕ) × (decode k ≡ done params) × (threshold ≤ f k)
unfolding select_params
select_params_lem decode threshold f [] params bound h = cc
select_params_lem decode threshold f ((k, votes) ∷ table) params bound h =
    let later = λ (i : List ℕ).
      let t = entries-tail i k votes table in
      let b = bound i in let r : entries i table ≤ f i = omega (arith, t, b) in r in
    elim (Try-cases (decode k)) [
      | inl (text, d) ↦ select_params_lem decode threshold f table params later (ground arith)
      | inr (p, d) ↦ elim (Bool-cases (enough threshold votes)) [
        | inl many ↦ (k, ground arith, ground (arith, entries-head k votes table, bound k))
        | inr few ↦ select_params_lem decode threshold f table params later (ground arith)
      ]
    ]

-- Appending votes keeps the keys of a table distinct.
append_vote-has_key :
    (j k : List ℕ) (vote : Document) (table : Table)
    → has_key k (append_vote j vote table) ≡ (same_text j k || has_key k table)
unfolding has_key append_vote
append_vote-has_key j k vote [] = ground arith
append_vote-has_key j k vote ((i, votes) ∷ table) =
    ground (arith, append_vote-has_key j k vote table, same_text_lem i j)

pub append_vote-Distinct :
    (j : List ℕ) (vote : Document) (table : Table)
    → Distinct table
    → Distinct (append_vote j vote table)
unfolding append_vote has_key
append_vote-Distinct j vote [] d = (refl, tt)
append_vote-Distinct j vote ((i, votes) ∷ table) (fresh, d) = elim (Bool-cases (same_text i j)) [
  | inl same ↦ rw same (fresh, d)
  | inr differs ↦ rw differs (
    ground (arith, append_vote-has_key j i vote table, same_text_sym i j),
    append_vote-Distinct j vote table d,
  )
]
