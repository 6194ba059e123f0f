-- ===== src/Dirauth/Posts/Kept.antt =====
-- What the descriptors in memory and in the database are after any posts.
use zknet_anon_rpc_demo.Common.{ℕ, ◌≡◌, inl, inr, List, [], ◌∷◌, Option, arith}
use zknet_anon_rpc_demo.Common.Step.{Step-cases}
use zknet_anon_rpc_demo.Dirauth.Authorization.{AuthError}
use zknet_anon_rpc_demo.Dirauth.Descriptors.{Store, on_upload}
use zknet_anon_rpc_demo.Dirauth.Descriptors.Disk.{InStep, on_upload-InStep}
use zknet_anon_rpc_demo.Dirauth.Posts.{
  Library, Post, check_post, refused, posted, submit, on_post, after_posts,
}
use zknet_anon_rpc_demo.Dirauth.Posts.Checked.{IsAuthentic, check_post-IsPost}

module _ {A : Type 0} (l : Library A) (sum256 : List ℕ → ℕ) (identity_key : A → List ℕ)
    (authorization_error : A → Option AuthError) where
  -- For each epoch and node: a descriptor in memory, which is pinned and signed by its identity key,
  -- and the signed upload that carries it in the database, or neither.
  abbrev pub IsKept : Store A → Type 0
  IsKept = InStep (IsAuthentic l sum256 identity_key authorization_error)

  on_post-IsKept :
      (u : Post) (s : Store A)
      → IsKept s
      → IsKept (on_post l sum256 identity_key authorization_error u s).1
  unfolding on_post submit
  on_post-IsKept u s h =
      elim (Step-cases (check_post l sum256 identity_key authorization_error u)) [
        | inl (e, p) ↦
            let now : on_post l sum256 identity_key authorization_error u s ≡ (refused e, s) =
              ground arith in
            rw now h
        | inr (desc, p) ↦
            let x = posted l sum256 identity_key authorization_error u desc in
            let r = on_upload l.marshal u.documents u.disk_ok x s in
            let now : (on_post l sum256 identity_key authorization_error u s).1 ≡ r.1 =
              ground arith in
            rw now (
              on_upload-InStep l.marshal u.documents
                (IsAuthentic l sum256 identity_key authorization_error) u.disk_ok x s
                (check_post-IsPost l sum256 identity_key authorization_error u desc p).authentic h)
      ]

  -- After any posts, one after the other, of any peers, whether they are accepted or not: every
  -- descriptor in memory is pinned and signed by its identity key, and the database has the signed
  -- upload that carries it, and has nothing else, if that holds before.
  pub after_posts-IsKept :
      (posts : List Post) (s : Store A)
      → IsKept s
      → IsKept (after_posts l sum256 identity_key authorization_error posts s)
  unfolding after_posts
  after_posts-IsKept [] s h = h
  after_posts-IsKept (u ∷ posts) s h = after_posts-IsKept posts _ (on_post-IsKept u s h)
