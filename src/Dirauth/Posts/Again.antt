-- ===== src/Dirauth/Posts/Again.antt =====
-- A post that is sent again.
use zknet_anon_rpc_demo.Common.{
  ℕ, ◌≡◌, ◌≢◌, refl, inl, inr, List, Option, none, some, arith, Bool-cases,
}
use zknet_anon_rpc_demo.Common.Text.{same_text, same_text_lem}
use zknet_anon_rpc_demo.Common.Try.{done, Try-cases}
use zknet_anon_rpc_demo.Common.Dict.{lookup}
use zknet_anon_rpc_demo.Common.Step.{Step-cases}
use zknet_anon_rpc_demo.Dirauth.Pki.{at}
use zknet_anon_rpc_demo.Dirauth.Authorization.{AuthError}
use zknet_anon_rpc_demo.Dirauth.Descriptors.{Store, Posted, on_upload, check_upload}
use zknet_anon_rpc_demo.Dirauth.Descriptors.Disk.{install-lookup}
use zknet_anon_rpc_demo.Dirauth.Posts.{
  Library, Post, check_post, posted, submit, on_post, code_of, descriptor_ok, conflict,
}
use zknet_anon_rpc_demo.Dirauth.Posts.Checked.{check_post-IsPost}

module _ {A : Type 0} (l : Library A) (sum256 : List ℕ → ℕ) (identity_key : A → List ℕ)
    (authorization_error : A → Option AuthError) where
  upload_again :
      (u : Post) (x : Posted A) (s : Store A)
      → x.raw ≡ u.payload
      → ((desc : A) → l.marshal desc ≢ done u.payload)
      → lookup x.key (at x.epoch s.descriptors) ≡ some x.desc
      → let (reply, t) = on_upload l.marshal u.documents u.disk_ok x s in
        (code_of reply ≡ conflict) × (t ≡ s)
  unfolding on_upload check_upload
  upload_again u x s r differs stored = elim (Try-cases (l.marshal x.desc)) [
    | inl (text, f) ↦ (ground arith, ground arith)
    | inr (raw, f) ↦ elim (Bool-cases (same_text raw x.raw)) [
      | inl same ↦ absurd (differs x.desc (ground (arith, same_text_lem raw x.raw)))
      | inr other ↦ (ground arith, ground arith)
    ]
  ]

  upload_new :
      (u : Post) (x : Posted A) (s : Store A)
      → lookup x.key (at x.epoch s.descriptors) ≡ none
      → code_of (on_upload l.marshal u.documents u.disk_ok x s).0 ≡ descriptor_ok
      → lookup x.key (at x.epoch (on_upload l.marshal u.documents u.disk_ok x s).1.descriptors)
        ≡ some x.desc
  unfolding on_upload check_upload
  upload_new u x s free h = ground (arith, install-lookup x s x.epoch x.key)

  -- Where no descriptor is marshalled to the payload, which is a signed upload of one: a post that is
  -- accepted from a node that has no descriptor for the epoch is a conflict when it is sent again.
  pub on_post_again :
      (u : Post) (s : Store A)
      → ((desc : A) → l.marshal desc ≢ done u.payload)
      → lookup u.peer (at u.epoch s.descriptors) ≡ none
      → (on_post l sum256 identity_key authorization_error u s).0 ≡ descriptor_ok
      → let t = (on_post l sum256 identity_key authorization_error u s).1 in
        on_post l sum256 identity_key authorization_error u t ≡ (conflict, t)
  unfolding on_post submit
  on_post_again u s differs free h =
      elim (Step-cases (check_post l sum256 identity_key authorization_error u)) [
        | inl (e, p) ↦ absurd (ground arith)
        | inr (desc, p) ↦
            let x = posted l sum256 identity_key authorization_error u desc in
            let own = (check_post-IsPost l sum256 identity_key authorization_error u desc p).own in
            let first : on_post l sum256 identity_key authorization_error u s ≡ (
              code_of (on_upload l.marshal u.documents u.disk_ok x s).0,
              (on_upload l.marshal u.documents u.disk_ok x s).1,
            ) =
              ground arith in
            let stored = upload_new u x s (ground arith) (ground arith) in
            let t = (on_upload l.marshal u.documents u.disk_ok x s).1 in
            let (a, b) = upload_again u x t refl differs stored in rw first (ground arith)
      ]
