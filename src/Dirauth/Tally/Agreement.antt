-- ===== src/Dirauth/Tally/Agreement.antt =====
-- Two authorities that have the same votes tally the same mixes.
use zknet_anon_rpc_demo.Common.{
  ℕ, ◌<◌, ◌≤◌, ◌≡◌, ◌≢◌, sym, some, inl, inr, List, [], ◌∷◌, Bool, ltb, arith, All, Bool-cases,
}
use zknet_anon_rpc_demo.Common.Dict.{Dict}
use zknet_anon_rpc_demo.Common.Sorted.{In, In-All, Sorted, same_members}
use zknet_anon_rpc_demo.Common.Try.{Try, done, Try-cases}
use zknet_anon_rpc_demo.Common.Step.{go_on}
use zknet_anon_rpc_demo.Dirauth.Pki.{MixDescriptor, Document}
use zknet_anon_rpc_demo.Dirauth.Authorization.{Pinned, is_descriptor_authorized}
use zknet_anon_rpc_demo.Dirauth.Tally.{
  Codec, Table, Tallied, enough, select, insert_by, sort_by, tally_votes,
}
use zknet_anon_rpc_demo.Dirauth.Tally.Support.{entries, support, mix_listed, tally_all-entries}
use zknet_anon_rpc_demo.Dirauth.Tally.Select.{
  insert_by-All, sort_by-All, Distinct, has_key-entries, entries-tail, entries-head, Chosen,
  select-Chosen,
}
use zknet_anon_rpc_demo.Dirauth.Tally.Threshold.{
  tally_all-Distinct, no_tallies, tally_votes-Selected, tally_votes_lem, tally_votes_complete,
}

module _ {ℓ} {A : Type ℓ} (key : A → ℕ) where
  -- The keys ascend.
  abbrev pub Ascending : List A → Type 0
  Ascending xs = Sorted (λ x y. key x < key y) xs

  -- No key stands twice.
  abbrev pub Apart : List A → Type ℓ
  Apart [] = Unit
  Apart (x ∷ xs) = All (λ y. key y ≢ key x) xs × Apart xs

  above : (n m : ℕ) (xs : List A) → n < m → All (λ y. m < key y) xs → All (λ y. n < key y) xs
  above n m [] h ps = tt
  above n m (x ∷ xs) h (p, ps) = (omega (arith, h, p), above n m xs h ps)

  insert_by-Ascending :
      (a : A) (xs : List A)
      → All (λ y. key y ≢ key a) xs
      → Ascending xs
      → Ascending (insert_by key a xs)
  unfolding insert_by
  insert_by-Ascending a [] d s = (tt, tt)
  insert_by-Ascending a (b ∷ bs) (d, ds) (p, s) = elim (Bool-cases (ltb (key b) (key a))) [
    | inl e ↦ rw e (
      insert_by-All key (λ y. key b < key y) a bs (ground (arith, e)) p,
      insert_by-Ascending a bs ds s,
    )
    | inr e ↦
        let less : key a < key b = ground (arith, e, d) in
        rw e ((less, above (key a) (key b) bs less p), (p, s))
  ]

  sort_by-Ascending : (xs : List A) → Apart xs → Ascending (sort_by key xs)
  unfolding sort_by
  sort_by-Ascending [] d = tt
  sort_by-Ascending (a ∷ rest) (d, ds) =
      insert_by-Ascending a (sort_by key rest) (sort_by-All key (λ y. key y ≢ key a) rest d)
        (sort_by-Ascending rest ds)

  -- Of the encodings with enough support, no two decode to values of one key.
  abbrev pub OneEach : (List ℕ → Try A) → ℕ → (List ℕ → ℕ) → Type ℓ
  OneEach decode threshold f =
      (j k : List ℕ) (a b : A)
      → decode j ≡ done a
      → decode k ≡ done b
      → threshold ≤ f j
      → threshold ≤ f k
      → key a ≡ key b
      → j ≡ k

  module _ (decode : List ℕ → Try A) (authorized : A → Bool) (threshold : ℕ) (f : List ℕ → ℕ)
      (positive : 0 < threshold) where
    differs-All :
        (k : List ℕ) (votes : List Document) (table : Table) (a : A) (ys : List A)
        → OneEach decode threshold f
        → ((j : List ℕ) → entries j table ≤ f j)
        → decode k ≡ done a
        → threshold ≤ f k
        → entries k table ≡ 0
        → All (Chosen decode authorized threshold (λ j. entries j table)) ys
        → All (λ y. key y ≢ key a) ys
    differs-All k votes table a [] one bound d n gone cs = tt
    differs-All k votes table a (y ∷ ys) one bound d n gone (c, cs) = (
      λ same.
          let b = bound c.key in
          let e = one c.key k y a c.decoded d (omega (arith, b, c.supported)) n same in
          let s : threshold ≤ entries k table = rw⁻¹ e c.supported in
          absurd (omega (arith, s, gone, positive)),
      differs-All k votes table a ys one bound d n gone cs,
    )

    select-Apart :
        (table : Table) (xs : List A)
        → OneEach decode threshold f
        → Distinct table
        → ((k : List ℕ) → entries k table ≤ f k)
        → select decode authorized threshold table ≡ done xs
        → Apart xs
    unfolding select
    select-Apart [] xs one d bound h = let e : [] ≡ xs = ground arith in rw (sym e) tt
    select-Apart ((k, votes) ∷ table) xs one (fresh, d) bound h =
        let later = λ (i : List ℕ).
          let t = entries-tail i k votes table in
          let b = bound i in let r : entries i table ≤ f i = omega (arith, t, b) in r in
        elim (Bool-cases (enough threshold votes)) [
          | inr few ↦ select-Apart table xs one d later (ground arith)
          | inl many ↦ elim (Try-cases (decode k)) [
            | inl (text, p) ↦ absurd (ground arith)
            | inr (a, p) ↦ elim (Try-cases (select decode authorized threshold table)) [
              | inl (text, s) ↦ absurd (ground arith)
              | inr (ys, s) ↦
                  let apart = select-Apart table ys one d later s in
                  let chosen =
                    select-Chosen decode authorized threshold (λ j. entries j table) table ys
                      (λ j. omega arith) s in
                  elim (Bool-cases (authorized a)) [
                    | inr refused ↦ let e : ys ≡ xs = ground arith in rw (sym e) apart
                    | inl pinned ↦
                        let e : a ∷ ys ≡ xs = ground arith in
                        let n : threshold ≤ f k =
                          ground (arith, entries-head k votes table, bound k, many) in
                        rw (sym e) (
                          differs-All k votes table a ys one later p n
                              (has_key-entries k table fresh) chosen,
                          apart,
                        )
                  ]
            ]
          ]
        ]

abbrev pub key_of : Pinned → MixDescriptor → ℕ
key_of p desc = p.sum256 desc.identity_key

module _ (c : Codec) (p : Pinned) (threshold : ℕ) (z : 0 < threshold) where
  tally_votes-Ascending :
      (votes : Dict Document) (r : Tallied)
      → OneEach (key_of p) c.unmarshal_mix threshold (λ k. support (mix_listed c k) votes)
      → tally_votes c p threshold (some votes) ≡ go_on r
      → Ascending (key_of p) r.nodes
  unfolding entries
  tally_votes-Ascending votes r one h =
      let s = tally_votes-Selected c p threshold votes r h in
      let e = s.is_tally in
      let apart =
        select-Apart (key_of p) c.unmarshal_mix (is_descriptor_authorized p) threshold
          (λ k. support (mix_listed c k) votes) z s.tallies.mix_tally s.nodes one
          (rw e (tally_all-Distinct c votes no_tallies tt))
          (λ k. ground (arith, tally_all-entries c k votes no_tallies, e)) s.nodes_selected in
      rw s.same_nodes (sort_by-Ascending (key_of p) s.nodes apart)

  tally_votes-members :
      (votes votes' : Dict Document) (r r' : Tallied)
      → ((k : List ℕ) → support (mix_listed c k) votes ≡ support (mix_listed c k) votes')
      → tally_votes c p threshold (some votes) ≡ go_on r
      → tally_votes c p threshold (some votes') ≡ go_on r'
      → (desc : MixDescriptor) → In desc r.nodes
      → In desc r'.nodes
  tally_votes-members votes votes' r r' same h h' desc m =
      let chosen = In-All _ desc r.nodes m (tally_votes_lem c p threshold votes r h).0 in
      let many = same chosen.key in
      tally_votes_complete c p threshold votes' r' chosen.key desc z h' chosen.decoded
        chosen.is_authorized (omega (arith, many, chosen.supported))

-- Two authorities with the same pinned nodes and the same threshold, whose votes list every mix as
-- often as each other's, in whatever order their maps are read: they tally the same mixes, in the same
-- order, if no two encodings with enough support are of mixes with one key.
pub tally_votes_agree :
    (c : Codec) (p : Pinned) (threshold : ℕ) (votes votes' : Dict Document) (r r' : Tallied)
    → 0 < threshold
    → OneEach (key_of p) c.unmarshal_mix threshold (λ k. support (mix_listed c k) votes)
    → ((k : List ℕ) → support (mix_listed c k) votes ≡ support (mix_listed c k) votes')
    → tally_votes c p threshold (some votes) ≡ go_on r
    → tally_votes c p threshold (some votes') ≡ go_on r'
    → r.nodes ≡ r'.nodes
tally_votes_agree c p threshold votes votes' r r' z one same h h' =
    let back = λ (k : List ℕ). sym (same k) in
    let one' : OneEach (key_of p) c.unmarshal_mix threshold (λ k. support (mix_listed c k) votes') =
      λ j k a b d e n m i.
        let x = same j in
        let y = same k in one j k a b d e (omega (arith, n, x)) (omega (arith, m, y)) i in
    same_members (λ x y. key_of p x < key_of p y) (λ x y h k. omega (arith, h, k)) r.nodes r'.nodes
      (tally_votes-Ascending c p threshold z votes r one h)
      (tally_votes-Ascending c p threshold z votes' r' one' h')
      (tally_votes-members c p threshold z votes votes' r r' same h h')
      (tally_votes-members c p threshold z votes' votes r' r back h' h)
