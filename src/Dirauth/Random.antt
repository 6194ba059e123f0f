-- ===== src/Dirauth/Random.antt =====
-- The shared random value: `verifyCommits` and `computeSharedRandom` of
-- katzenpost/authority/voting/server/state.go. A `range` over a map goes in the order of its list.
pub mod Checked
pub mod Order
use zknet_anon_rpc_demo.Common.{
  ℕ, zero, suc, ◌+◌, ◌/◌, ◌%◌, List, [], ◌∷◌, ◌++◌, Bool, true, false, not, Option, none, some, ltb,
  ◌==◌, if◌then◌else◌, contains, length,
}
use zknet_anon_rpc_demo.Common.Text.{same_text}
use zknet_anon_rpc_demo.Common.Bytes.{codes}
use zknet_anon_rpc_demo.Common.Dict.{Dict, lookup, delete, put}
use zknet_anon_rpc_demo.Common.Try.{Try, done, failed}
use zknet_anon_rpc_demo.Common.Step.{Step, go_on, stop, ◌>>=◌, ◌>>◌, orelse, require, found}
use zknet_anon_rpc_demo.Dirauth.Pki.{Document, Certs}

-- `pki.SharedRandom`: the epoch in a commit, and whether a reveal fits it.
pub record SharedRandom : Type 0 where
  pub get_epoch : List ℕ → ℕ
  pub verify : List ℕ → List ℕ → Bool

-- Who is to blame for an entry of a certificate: its author, or the author and the committer.
pub data Blame : Type 0 where
  author author_and_committer : Blame

pub record Collected : Type 0 where
  pub bad_nodes : List ℕ
  pub committed : Dict (List ℕ)
  pub revealed : Dict (List ℕ)

-- The first value that is seen of a node is kept, and another one makes the node bad.
abbrev pub see : ℕ → List ℕ → Option (List ℕ) → Dict (List ℕ) → List ℕ → List ℕ × Dict (List ℕ)
see pk2 signed none seen bad = (bad, put pk2 signed seen)
see pk2 signed (some before) seen bad =
    if same_text signed before then (bad, seen) else (pk2 ∷ bad, seen)

abbrev pub note : ℕ → List ℕ → List ℕ → Collected → Collected
note pk2 signed_commit signed_reveal t =
    let (bad, committed) = see pk2 signed_commit (lookup pk2 t.committed) t.committed t.bad_nodes in
    let (bad', revealed) = see pk2 signed_reveal (lookup pk2 t.revealed) t.revealed bad in
    record { bad_nodes = bad'; committed = committed; revealed = revealed }

abbrev pub blame : ℕ → ℕ → Blame → Collected → Collected
blame pk pk2 author t = record t { bad_nodes = pk ∷ t.bad_nodes }
blame pk pk2 author_and_committer t = record t { bad_nodes = pk2 ∷ pk ∷ t.bad_nodes }

unfoldable pub delete_all : List ℕ → Dict (List ℕ) → Dict (List ℕ)
delete_all [] m = m
delete_all (pk ∷ pks) m = delete_all pks (delete pk m)

module _ (c : Certs) (r : SharedRandom) (reverse_hash : Dict (List ℕ)) (epoch : ℕ) where
  -- The signed reveal that goes with a signed commit of `pk2`.
  unfoldable pub check_entry : Document → ℕ → List ℕ → Step Blame (List ℕ)
  check_entry certificate pk2 signed_commit = do
    v ← found (lookup pk2 reverse_hash) author
    commit ← orelse (c.verify v signed_commit) (λ text. author)
    signed_reveal ← found (lookup pk2 certificate.shared_random_reveal) author
    reveal ← orelse (c.verify v signed_reveal) (λ text. author)
    require (r.get_epoch commit == epoch) author_and_committer
    require (r.verify commit reveal) author_and_committer
    go_on signed_reveal

  -- The loop over the commits of one certificate, which an error breaks.
  unfoldable pub collect_commits : ℕ → Document → Dict (List ℕ) → Collected → Collected
  collect_commits pk certificate [] t = t
  collect_commits pk certificate ((pk2, signed_commit) ∷ commits) t =
      if contains t.bad_nodes pk2
      then collect_commits pk certificate commits t
      else elim (check_entry certificate pk2 signed_commit) [
        | stop b ↦ blame pk pk2 b t
        | go_on signed_reveal ↦
            collect_commits pk certificate commits (note pk2 signed_commit signed_reveal t)
      ]

  unfoldable pub collect_all : Dict Document → Collected → Collected
  collect_all [] t = t
  collect_all ((pk, certificate) ∷ certificates) t = collect_all certificates (
      if contains t.bad_nodes pk
      then t
      else collect_commits pk certificate certificate.shared_random_commit t)

  -- The commits and the reveals.
  unfoldable pub verify_commits : Dict Document → Dict (List ℕ) × Dict (List ℕ)
  verify_commits certificates =
      let t = collect_all certificates (record { bad_nodes = []; committed = []; revealed = [] }) in
      (delete_all t.bad_nodes t.committed, delete_all t.bad_nodes t.revealed)

-- A reveal, whose digest has the fixed length that `SharedRandom.Verify` asks for and is therefore
-- taken for the number that it writes.
pub record Reveal : Type 0 where
  pub public_key : ℕ
  pub digest : ℕ

-- `n` as `k` bytes, the most significant first.
unfoldable pub bytes_of : ℕ → ℕ → List ℕ
bytes_of zero n = []
bytes_of (suc k) n = bytes_of k (n / 256) ++ (n % 256 ∷ [])

unfoldable pub get_all : (List ℕ → Try ℕ) → Dict (List ℕ) → Try (List Reveal)
get_all get_certified [] = done []
get_all get_certified ((pk, srr) ∷ reveals) =
    let rest = get_all get_certified reveals in
    elim (get_certified srr) [
      | failed text ↦ failed text
      | done digest ↦ elim rest [
        | failed text ↦ failed text
        | done all ↦ done (record { public_key = pk; digest = digest } ∷ all)
      ]
    ]

unfoldable pub written : List Reveal → List ℕ
written [] = []
written (a ∷ rest) = bytes_of 32 a.public_key ++ (bytes_of 40 a.digest ++ written rest)

-- What is hashed: `prior` is the shared random value of the document before, if there is one.
-- `sort_slice` is `sort.Slice` by `>` on the digests, which leaves reveals of one digest in any order.
unfoldable pub hashed : (List Reveal → List Reveal) → ℕ → Option (List ℕ) → List Reveal → List ℕ
hashed sort_slice epoch prior reveals =
    codes "shared-random"
    ++ (bytes_of 8 epoch
        ++ (written (sort_slice reveals) ++ elim prior [ none ↦ bytes_of 32 0 | some srv ↦ srv ]))

-- `none`: too few commits, or a reveal that holds no certified bytes. `sum256` is BLAKE2b.
unfoldable pub compute_shared_random :
    (List Reveal → List Reveal)
    → (List ℕ → List ℕ)
    → (List ℕ → Try ℕ)
    → ℕ
    → ℕ
    → Option (List ℕ)
    → Dict (List ℕ)
    → Dict (List ℕ)
    → Option (List ℕ)
compute_shared_random sort_slice sum256 get_certified threshold epoch prior commits reveals =
    if ltb (length commits) threshold then none else elim (get_all get_certified reveals) [
      | failed text ↦ none
      | done all ↦ some (sum256 (hashed sort_slice epoch prior all))
    ]
