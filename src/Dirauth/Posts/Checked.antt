-- ===== src/Dirauth/Posts/Checked.antt =====
-- What a post that is accepted has passed, and that a post that is not changes nothing.
use zknet_anon_rpc_demo.Common.{
  ℕ, ◌≡◌, ◌≢◌, refl, sym, inl, inr, List, true, Option, none, some, ◌==◌, arith, Option-cases,
}
use zknet_anon_rpc_demo.Common.Try.{done}
use zknet_anon_rpc_demo.Common.Step.{
  go_on, orelse, first_step, orelse-done, Step-cases, require, found, require-true, found-some,
}
use zknet_anon_rpc_demo.Dirauth.Authorization.{AuthError, no_error}
use zknet_anon_rpc_demo.Dirauth.Descriptors.{Store, Posted, on_upload, check_upload}
use zknet_anon_rpc_demo.Dirauth.Posts.{
  Library, Post, is_sane, check_post, posted, submit, on_post, descriptor_ok, refused, code_of,
}

no_error-none : (o : Option AuthError) → no_error o ≡ true → o ≡ none
no_error-none none h = refl
no_error-none (some e) h = cc

module _ {A : Type 0} (l : Library A) (sum256 : List ℕ → ℕ) (identity_key : A → List ℕ)
    (authorization_error : A → Option AuthError) where
  -- A payload that carries the descriptor, signed by its identity key, of a pinned node.
  pub record IsAuthentic (desc : A) (payload : List ℕ) : Type 0 where
    pub carried : l.unmarshal payload ≡ done (some desc)
    pub signed : l.verify (identity_key desc) payload ≡ true
    pub pinned : authorization_error desc ≡ none

  -- A post for about the current epoch by the node whose descriptor it carries.
  pub record IsPost (u : Post) (desc : A) : Type 0 where
    pub authentic : IsAuthentic desc u.payload
    pub own : sum256 (identity_key desc) ≡ u.peer
    pub sane : is_sane u.now u.epoch ≡ true
    pub well_formed : l.is_well_formed desc u.epoch ≡ true

  pub check_post-IsPost :
      (u : Post) (desc : A)
      → check_post l sum256 identity_key authorization_error u ≡ go_on desc
      → IsPost u desc
  unfolding check_post
  check_post-IsPost u desc h =
      let (a, p1, h1) = first_step (require (is_sane u.now u.epoch) _) _ h in
      let (o, p2, h2) = first_step (orelse (l.unmarshal u.payload) _) _ h1 in
      let (d, p3, h3) = first_step (found o _) _ h2 in
      let (a, p4, h4) = first_step (require (sum256 (identity_key d) == u.peer) _) _ h3 in
      let (a, p5, h5) = first_step (require (l.is_public_key (identity_key d)) _) _ h4 in
      let (a, p6, h6) = first_step (require (l.is_signed u.payload) _) _ h5 in
      let (a, p7, h7) = first_step (require (l.verify (identity_key d) u.payload) _) _ h6 in
      let (a, p8, h8) = first_step (require (no_error (authorization_error d)) _) _ h7 in
      let (a, p9, h9) = first_step (require (l.is_well_formed d u.epoch) _) _ h8 in
      let same : d ≡ desc = ground arith in
      rw (sym same) (record {
        authentic = record {
          carried = ground (arith, orelse-done _ _ p2, found-some _ _ p3);
          signed = require-true _ _ p7;
          pinned = no_error-none _ (require-true _ _ p8);
        };
        own = ground (arith, require-true _ _ p4);
        sane = require-true _ _ p1;
        well_formed = require-true _ _ p9;
      })

  upload-refused :
      (u : Post) (x : Posted A) (s : Store A)
      → code_of (on_upload l.marshal u.documents u.disk_ok x s).0 ≢ descriptor_ok
      → (on_upload l.marshal u.documents u.disk_ok x s).1 ≡ s
  unfolding on_upload
  upload-refused u x s h = elim (Option-cases (check_upload l.marshal u.documents x s)) [
    | inr (reply, e) ↦ ground arith
    | inl e ↦ ground arith
  ]

  -- A post that is accepted carries a descriptor signed by its own identity key, which is the
  -- peer's, of a node that is pinned, well formed and for the current epoch or one next to it; and a
  -- post that is not accepted changes nothing.
  pub on_post_lem :
      (u : Post) (s : Store A)
      → let (code, t) = on_post l sum256 identity_key authorization_error u s in
        ((code ≡ descriptor_ok) → (desc : A) × IsPost u desc) × ((code ≢ descriptor_ok) → t ≡ s)
  unfolding on_post submit
  on_post_lem u s = elim (Step-cases (check_post l sum256 identity_key authorization_error u)) [
    | inl (e, p) ↦
        let now : on_post l sum256 identity_key authorization_error u s ≡ (refused e, s) =
          ground arith in
        rw now (λ h. cc, λ h. refl)
    | inr (desc, p) ↦
        let x = posted l sum256 identity_key authorization_error u desc in
        let r = on_upload l.marshal u.documents u.disk_ok x s in
        let now : on_post l sum256 identity_key authorization_error u s ≡ (code_of r.0, r.1) =
          ground arith in
        rw now (λ h. (desc, check_post-IsPost u desc p), λ h. upload-refused u x s h)
  ]
