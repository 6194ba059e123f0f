-- ===== src/Dirauth/Random/Checked.antt =====
-- What the commits and the reveals of `verifyCommits` rest on.
use zknet_anon_rpc_demo.Common.{
  ℕ, suc, ◌≡◌, refl, sym, ap, ◌⊎◌, inl, inr, List, [], ◌∷◌, Bool, true, false, Option, none, some,
  ◌==◌, if◌then◌else◌, contains, length, arith, Bool-cases,
}
use zknet_anon_rpc_demo.Common.Dict.{Dict, lookup, delete, put, lookup-delete, lookup-put}
use zknet_anon_rpc_demo.Common.Try.{done}
use zknet_anon_rpc_demo.Common.Step.{
  go_on, orelse, first_step, orelse-done, Step-cases, require, found, require-true, found-some,
}
use zknet_anon_rpc_demo.Dirauth.Pki.{Document, Certs}
use zknet_anon_rpc_demo.Dirauth.Random.{
  SharedRandom, Blame, author, author_and_committer, Collected, check_entry, note, blame,
  collect_commits, collect_all, delete_all, verify_commits,
}

abbrev keys : Dict (List ℕ) → List ℕ
keys [] = []
keys ((k, v) ∷ m) = k ∷ keys m

module _ (c : Certs) (r : SharedRandom) (reverse_hash : Dict (List ℕ)) (epoch : ℕ) where
  -- A signed commit and a signed reveal of the node `pk`: the node's key is known and has signed
  -- both, the commit is of this epoch, and the reveal fits it.
  pub record Verified (pk : ℕ) (signed_commit signed_reveal : List ℕ) : Type 0 where
    pub key : List ℕ
    pub commit : List ℕ
    pub reveal : List ℕ
    pub known_key : lookup pk reverse_hash ≡ some key
    pub commit_signed : c.verify key signed_commit ≡ done commit
    pub reveal_signed : c.verify key signed_reveal ≡ done reveal
    pub of_epoch : r.get_epoch commit ≡ epoch
    pub fits : r.verify commit reveal ≡ true

  -- A commit and a reveal, or neither.
  pub data Both (pk : ℕ) : Option (List ℕ) → Option (List ℕ) → Type 0 where
    neither : Both pk none none
    both :
        {signed_commit signed_reveal : List ℕ}
        → Verified pk signed_commit signed_reveal
        → Both pk (some signed_commit) (some signed_reveal)

  abbrev pub AllBoth : Dict (List ℕ) → Dict (List ℕ) → Type 0
  AllBoth commits reveals = (pk : ℕ) → Both pk (lookup pk commits) (lookup pk reveals)

  check_entry-Verified :
      (certificate : Document) (pk2 : ℕ) (signed_commit signed_reveal : List ℕ)
      → check_entry c r reverse_hash epoch certificate pk2 signed_commit ≡ go_on signed_reveal
      → Verified pk2 signed_commit signed_reveal
  unfolding check_entry
  check_entry-Verified certificate pk2 sc sr h =
      let (v, p1, h1) = first_step (found (lookup pk2 reverse_hash) _) _ h in
      let (commit, p2, h2) = first_step (orelse (c.verify v sc) _) _ h1 in
      let (s, p3, h3) = first_step (found (lookup pk2 certificate.shared_random_reveal) _) _ h2 in
      let (reveal, p4, h4) = first_step (orelse (c.verify v s) _) _ h3 in
      let (u, p5, h5) = first_step (require (r.get_epoch commit == epoch) _) _ h4 in
      let (u, p6, h6) = first_step (require (r.verify commit reveal) _) _ h5 in
      let same : s ≡ sr = ground arith in
      record {
        key = v;
        commit = commit;
        reveal = reveal;
        known_key = found-some _ _ p1;
        commit_signed = orelse-done _ _ p2;
        reveal_signed = ground (arith, orelse-done _ _ p4);
        of_epoch = ground (arith, require-true _ _ p5);
        fits = require-true _ _ p6;
      }

  Both-cases :
      (pk : ℕ) {o p : Option (List ℕ)}
      → Both pk o p
      → ((o ≡ none) × (p ≡ none))
        ⊎ ((sc : List ℕ) × (sr : List ℕ) × (o ≡ some sc) × (p ≡ some sr) × Verified pk sc sr)
  Both-cases pk neither = inl (refl, refl)
  Both-cases pk (both {signed_commit = sc} {signed_reveal = sr} v) = inr (sc, sr, refl, refl, v)

  Both-eq : (pk : ℕ) {o p o' p' : Option (List ℕ)} → o' ≡ o → p' ≡ p → Both pk o p → Both pk o' p'
  Both-eq pk e f b = rw (e, f) b

  put-AllBoth :
      (commits reveals : Dict (List ℕ)) (pk2 : ℕ) (sc sr : List ℕ)
      → AllBoth commits reveals
      → Verified pk2 sc sr
      → AllBoth (put pk2 sc commits) (put pk2 sr reveals)
  put-AllBoth commits reveals pk2 sc sr h v pk =
      let e = lookup-put pk2 pk sc commits in
      let f = lookup-put pk2 pk sr reveals in
      elim (Bool-cases (pk2 == pk)) [
        | inl same ↦
            let q : pk2 ≡ pk = ground arith in
            Both-eq pk (ground arith) (ground arith)
              (both {signed_commit = sc} {signed_reveal = sr} (rw (sym q) v))
        | inr differs ↦ Both-eq pk (ground arith) (ground arith) (h pk)
      ]

  note-AllBoth :
      (t : Collected) (pk2 : ℕ) (sc sr : List ℕ)
      → AllBoth t.committed t.revealed
      → Verified pk2 sc sr
      → AllBoth (note pk2 sc sr t).committed (note pk2 sc sr t).revealed
  note-AllBoth t pk2 sc sr h v = elim (Both-cases pk2 (h pk2)) [
    | inl (e, f) ↦ rw (e, f) (put-AllBoth t.committed t.revealed pk2 sc sr h v)
    | inr (sc', sr', e, f, v') ↦ λ pk. Both-eq pk (ground arith) (ground arith) (h pk)
  ]

  delete_all-AllBoth :
      (bad : List ℕ) (commits reveals : Dict (List ℕ))
      → AllBoth commits reveals
      → AllBoth (delete_all bad commits) (delete_all bad reveals)
  unfolding delete_all
  delete_all-AllBoth [] commits reveals h = h
  delete_all-AllBoth (pk2 ∷ bad) commits reveals h =
      delete_all-AllBoth bad (delete pk2 commits) (delete pk2 reveals) (λ pk.
        let e = lookup-delete pk2 pk commits in
        let f = lookup-delete pk2 pk reveals in
        elim (Bool-cases (pk2 == pk)) [
          | inl same ↦ Both-eq pk (ground arith) (ground arith) neither
          | inr differs ↦ Both-eq pk (ground arith) (ground arith) (h pk)
        ])

  delete-keys :
      (k : ℕ) (m n : Dict (List ℕ)) → keys m ≡ keys n → keys (delete k m) ≡ keys (delete k n)
  unfolding delete
  delete-keys k [] [] e = refl
  delete-keys k [] ((j, v) ∷ n) e = cc
  delete-keys k ((i, u) ∷ m) [] e = cc
  delete-keys k ((i, u) ∷ m) ((j, v) ∷ n) e =
      let same : i ≡ j = ground arith in
      let rest : keys m ≡ keys n = ground arith in let ih = delete-keys k m n rest in ground arith

  delete_all-keys :
      (bad : List ℕ) (m n : Dict (List ℕ))
      → keys m ≡ keys n
      → keys (delete_all bad m) ≡ keys (delete_all bad n)
  unfolding delete_all
  delete_all-keys [] m n e = e
  delete_all-keys (k ∷ bad) m n e =
      delete_all-keys bad (delete k m) (delete k n) (delete-keys k m n e)

  -- Commits and reveals belong to the same nodes, are read in one order, and are verified.
  pub record InStep (commits reveals : Dict (List ℕ)) : Type 0 where
    pub verified : AllBoth commits reveals
    pub same_keys : keys commits ≡ keys reveals

  note-InStep :
      (t : Collected) (pk2 : ℕ) (sc sr : List ℕ)
      → InStep t.committed t.revealed
      → Verified pk2 sc sr
      → InStep (note pk2 sc sr t).committed (note pk2 sc sr t).revealed
  note-InStep t pk2 sc sr h v = record {
    verified = note-AllBoth t pk2 sc sr h.verified v;
    same_keys = elim (Both-cases pk2 (h.verified pk2)) [
      | inl (e, f) ↦
          let k = delete-keys pk2 t.committed t.revealed h.same_keys in
          rw (e, f) (ap (λ ks. pk2 ∷ ks) k)
      | inr (sc', sr', e, f, v') ↦ let k = h.same_keys in ground arith
    ];
  }

  blame-InStep :
      (pk pk2 : ℕ) (b : Blame) (t : Collected)
      → InStep t.committed t.revealed
      → InStep (blame pk pk2 b t).committed (blame pk pk2 b t).revealed
  blame-InStep pk pk2 author t h = h
  blame-InStep pk pk2 author_and_committer t h = h

  collect_commits-InStep :
      (pk : ℕ) (certificate : Document) (commits : Dict (List ℕ)) (t : Collected)
      → InStep t.committed t.revealed
      → let u = collect_commits c r reverse_hash epoch pk certificate commits t in
        InStep u.committed u.revealed
  unfolding collect_commits
  collect_commits-InStep pk certificate [] t h = h
  collect_commits-InStep pk certificate ((pk2, sc) ∷ commits) t h =
      elim (Bool-cases (contains t.bad_nodes pk2)) [
        | inl skipped ↦ rw skipped (collect_commits-InStep pk certificate commits t h)
        | inr fresh ↦ elim (Step-cases (check_entry c r reverse_hash epoch certificate pk2 sc)) [
          | inl (b, p) ↦ rw (fresh, p) (blame-InStep pk pk2 b t h)
          | inr (sr, p) ↦
              let v = check_entry-Verified certificate pk2 sc sr p in
              rw (fresh, p)
                (collect_commits-InStep pk certificate commits (note pk2 sc sr t)
                  (note-InStep t pk2 sc sr h v))
        ]
      ]

  if-InStep :
      (b : Bool) (t u : Collected)
      → InStep t.committed t.revealed
      → InStep u.committed u.revealed
      → InStep (if b then t else u).committed (if b then t else u).revealed
  if-InStep true t u h k = h
  if-InStep false t u h k = k

  collect_all-InStep :
      (certificates : Dict Document) (t : Collected)
      → InStep t.committed t.revealed
      → let u = collect_all c r reverse_hash epoch certificates t in InStep u.committed u.revealed
  unfolding collect_all
  collect_all-InStep [] t h = h
  collect_all-InStep ((pk, certificate) ∷ certificates) t h =
      let commits = certificate.shared_random_commit in
      let u = collect_commits c r reverse_hash epoch pk certificate commits t in
      collect_all-InStep certificates (if contains t.bad_nodes pk then t else u) (
        if-InStep (contains t.bad_nodes pk) t u h
          (collect_commits-InStep pk certificate commits t h))

  length-keys : (m n : Dict (List ℕ)) → keys m ≡ keys n → length m ≡ length n
  length-keys [] [] e = refl
  length-keys [] (x ∷ n) e = cc
  length-keys (x ∷ m) [] e = cc
  length-keys ((i, u) ∷ m) ((j, v) ∷ n) e = ap suc (length-keys m n (ground arith))

  -- Whatever certificates say, and in whatever order they are read: for each node, `verifyCommits`
  -- returns a commit and a reveal or neither, both signed by the node's key, the commit of the epoch
  -- and the reveal fitting it; and there are as many commits as reveals, so that the panic of
  -- `getMyConsensus` on other numbers cannot happen.
  pub verify_commits_lem :
      (certificates : Dict Document)
      → let (commits, reveals) = verify_commits c r reverse_hash epoch certificates in
        AllBoth commits reveals × (length commits ≡ length reveals)
  unfolding verify_commits lookup
  verify_commits_lem certificates =
      let t =
        collect_all c r reverse_hash epoch certificates
          (record { bad_nodes = []; committed = []; revealed = [] }) in
      let h =
        collect_all-InStep certificates (record { bad_nodes = []; committed = []; revealed = [] })
          (record { verified = λ pk. neither; same_keys = refl }) in
      (
        delete_all-AllBoth t.bad_nodes t.committed t.revealed h.verified,
        length-keys _ _ (delete_all-keys t.bad_nodes t.committed t.revealed h.same_keys),
      )
