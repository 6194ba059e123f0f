-- ===== src/Dirauth/Examples/Posts.antt =====
-- The posts of descriptors at concrete inputs.
use zknet_anon_rpc_demo.Common.{ℕ, ◌≡◌, ◌≢◌, refl, List, [], ◌∷◌, true, Option, none, some, arith}
use zknet_anon_rpc_demo.Common.Text.{same_text}
use zknet_anon_rpc_demo.Common.Dict.{lookup}
use zknet_anon_rpc_demo.Common.Try.{Try, done, failed}
use zknet_anon_rpc_demo.Dirauth.Pki.{MixDescriptor, at}
use zknet_anon_rpc_demo.Dirauth.Authorization.{AuthError, descriptor_authorization_error}
use zknet_anon_rpc_demo.Dirauth.Descriptors.{Store, on_upload, check_upload}
use zknet_anon_rpc_demo.Dirauth.Descriptors.Disk.{neither}
use zknet_anon_rpc_demo.Dirauth.Posts.{
  Library, Post, check_post, submit, on_post, after_posts, descriptor_ok, conflict, refused,
  forbidden, on_post_descriptor,
}
use zknet_anon_rpc_demo.Dirauth.Posts.Checked.{IsPost, on_post_lem}
use zknet_anon_rpc_demo.Dirauth.Posts.Kept.{IsKept, after_posts-IsKept}
use zknet_anon_rpc_demo.Dirauth.Posts.Again.{on_post_again}
use zknet_anon_rpc_demo.Dirauth.Examples.{mix, pinned, head_or_zero}

abbrev read_upload : List ℕ → Try (Option MixDescriptor)
read_upload [] = failed []
read_upload (x ∷ rest) = done (some (record mix { others = rest }))

-- A signed upload begins with 83 and a descriptor with 77.
abbrev pub library : Library MixDescriptor
library = record {
  unmarshal = read_upload;
  is_signed = λ payload. true;
  is_public_key = λ key. true;
  verify = λ key payload. true;
  is_well_formed = λ desc epoch. true;
  marshal = λ desc. done (77 ∷ desc.others);
}

abbrev empty : Store MixDescriptor
empty = record { descriptors = []; disk = [] }

abbrev first : Post
first = record {
  now = 6;
  peer = 9;
  epoch = 7;
  payload = 83 ∷ 5 ∷ [];
  documents = [];
  disk_ok = true;
}

abbrev identity : MixDescriptor → List ℕ
identity desc = desc.identity_key

abbrev pinned_error : MixDescriptor → Option AuthError
pinned_error = descriptor_authorization_error pinned

accepted_first : (on_post library head_or_zero identity pinned_error first empty).0 ≡ descriptor_ok
unfolding on_post submit check_post on_upload check_upload descriptor_authorization_error same_text
    lookup
accepted_first = refl

-- A peer that posts the descriptor of another node.
forbidden_post :
    (on_post_descriptor library pinned (record first { peer = 8 }) empty).0 ≡ refused forbidden
unfolding on_post check_post
forbidden_post = refl

on_post_lem_example :
    ((on_post library head_or_zero identity pinned_error first empty).0 ≡ descriptor_ok
      → (desc : MixDescriptor) × IsPost library head_or_zero identity pinned_error first desc)
    × ((on_post library head_or_zero identity pinned_error first empty).0 ≢ descriptor_ok
        → (on_post library head_or_zero identity pinned_error first empty).1 ≡ empty)
on_post_lem_example = on_post_lem library head_or_zero identity pinned_error first empty

empty-IsKept : IsKept library head_or_zero identity pinned_error empty
unfolding lookup
empty-IsKept epoch pk = neither

after_posts-IsKept_example : IsKept library head_or_zero identity pinned_error (
    after_posts library head_or_zero identity pinned_error
      (first ∷ (record first { payload = 83 ∷ 6 ∷ [] }) ∷ first ∷ [])
      empty)
after_posts-IsKept_example =
    after_posts-IsKept library head_or_zero identity pinned_error
      (first ∷ (record first { payload = 83 ∷ 6 ∷ [] }) ∷ first ∷ []) empty empty-IsKept

no_upload : (desc : MixDescriptor) → library.marshal desc ≢ done first.payload
no_upload desc h = absurd (ground arith)

no_descriptor : lookup 9 (at 7 empty.descriptors) ≡ none
unfolding lookup
no_descriptor = refl

on_post_again_example :
    on_post library head_or_zero identity pinned_error first
      (on_post library head_or_zero identity pinned_error first empty).1
    ≡ (conflict, (on_post library head_or_zero identity pinned_error first empty).1)
on_post_again_example =
    on_post_again library head_or_zero identity pinned_error first empty no_upload no_descriptor
      accepted_first
