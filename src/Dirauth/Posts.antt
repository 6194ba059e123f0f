-- ===== src/Dirauth/Posts.antt =====
-- Nodes that post their descriptors, and peers that ask for a document: `onPostDescriptor`,
-- `onPostReplicaDescriptor` and `onGetConsensus` of katzenpost/authority/voting/server/wire_handler.go.
-- The two posts are one function of the descriptor's type, since the source differs in nothing else.
pub mod Checked
pub mod Kept
pub mod Again
use zknet_anon_rpc_demo.Common.{
  ℕ, ◌+◌, List, [], ◌∷◌, Bool, true, false, ◌||◌, Option, none, some, ◌==◌, if◌then◌else◌,
}
use zknet_anon_rpc_demo.Common.Dict.{Dict}
use zknet_anon_rpc_demo.Common.Try.{Try, done, failed}
use zknet_anon_rpc_demo.Common.Step.{Step, go_on, stop, ◌>>=◌, ◌>>◌, orelse, require, found}
use zknet_anon_rpc_demo.Dirauth.Pki.{MixDescriptor, ReplicaDescriptor}
use zknet_anon_rpc_demo.Dirauth.Authorization.{
  Pinned, AuthError, no_error, descriptor_authorization_error, replica_authorization_error,
}
use zknet_anon_rpc_demo.Dirauth.Descriptors.{
  Store, Posted, Reply, accepted, not_marshalled, conflicting, late, not_persisted, on_upload,
  Document, document, gone, not_yet, invalid_epoch, document_for_epoch,
}

-- Why a post is not handed on: `invalid` and `forbidden` are DescriptorInvalid and
-- DescriptorForbidden, and `crashed` is a run-time error of the handler.
pub data Refusal : Type 0 where
  invalid forbidden crashed : Refusal

-- The error code of the two status commands.
pub data Code : Type 0 where
  descriptor_ok conflict : Code
  refused : Refusal → Code

-- What core/pki and the signature scheme do: the descriptor in a signed upload, which may be nil,
-- whether the upload has a signature, whether bytes are a public key, whether the signature is good,
-- whether a descriptor is well formed for an epoch, and `MarshalBinary`.
pub record Library (A : Type 0) : Type 0 where
  pub unmarshal : List ℕ → Try (Option A)
  pub is_signed : List ℕ → Bool
  pub is_public_key : List ℕ → Bool
  pub verify : List ℕ → List ℕ → Bool
  pub is_well_formed : A → ℕ → Bool
  pub marshal : A → Try (List ℕ)

-- A post: when it comes, from which peer, and for which epoch, with the documents at that time, and
-- whether the database can be updated.
pub record Post : Type 0 where
  pub now : ℕ
  pub peer : ℕ
  pub epoch : ℕ
  pub payload : List ℕ
  pub documents : Dict (Try (List ℕ))
  pub disk_ok : Bool

-- `now - 1`, `now` or `now + 1`, for epochs that do not wrap.
abbrev pub is_sane : ℕ → ℕ → Bool
is_sane now epoch = (epoch + 1 == now) || ((epoch == now) || (epoch == now + 1))

abbrev pub code_of : Reply → Code
code_of accepted = descriptor_ok
code_of not_marshalled = conflict
code_of conflicting = conflict
code_of late = conflict
code_of not_persisted = conflict

module _ {A : Type 0} (l : Library A) (sum256 : List ℕ → ℕ) (identity_key : A → List ℕ)
    (authorization_error : A → Option AuthError) where
  -- `signedUpload.Verify` reads the payload of a signature that may be nil.
  unfoldable pub check_post : Post → Step Refusal A
  check_post u = do
    require (is_sane u.now u.epoch) invalid
    upload ← orelse (l.unmarshal u.payload) (λ text. invalid)
    desc ← found upload invalid
    require (sum256 (identity_key desc) == u.peer) forbidden
    require (l.is_public_key (identity_key desc)) forbidden
    require (l.is_signed u.payload) crashed
    require (l.verify (identity_key desc) u.payload) forbidden
    require (no_error (authorization_error desc)) forbidden
    require (l.is_well_formed desc u.epoch) invalid
    go_on desc

  abbrev pub posted : Post → A → Posted A
  posted u desc = record {
    raw = u.payload;
    desc = desc;
    key = sum256 (identity_key desc);
    epoch = u.epoch;
  }

  unfoldable pub submit : Post → A → Store A → Code × Store A
  submit u desc s =
      let (reply, t) = on_upload l.marshal u.documents u.disk_ok (posted u desc) s in
      (code_of reply, t)

  unfoldable pub on_post : Post → Store A → Code × Store A
  on_post u s = elim (check_post u) [ stop e ↦ (refused e, s) | go_on desc ↦ submit u desc s ]

  unfoldable pub after_posts : List Post → Store A → Store A
  after_posts [] s = s
  after_posts (u ∷ posts) s = after_posts posts (on_post u s).1

abbrev pub on_post_descriptor :
    Library MixDescriptor → Pinned → Post → Store MixDescriptor → Code × Store MixDescriptor
on_post_descriptor l p =
    on_post l p.sum256 (λ desc. desc.identity_key) (descriptor_authorization_error p)

abbrev pub on_post_replica_descriptor :
    Library ReplicaDescriptor
    → Pinned
    → Post
    → Store ReplicaDescriptor
    → Code × Store ReplicaDescriptor
on_post_replica_descriptor l p =
    on_post l p.sum256 (λ desc. desc.identity_key) (replica_authorization_error p)

pub data Consensus : Type 0 where
  consensus_ok : List ℕ → Consensus
  consensus_gone consensus_not_found : Consensus

abbrev pub consensus_of : Document → Consensus
consensus_of (document (done doc)) = consensus_ok doc
consensus_of (document (failed text)) = consensus_not_found
consensus_of gone = consensus_gone
consensus_of not_yet = consensus_not_found
consensus_of invalid_epoch = consensus_not_found

-- By the period, the current epoch, the time since its start, and the documents.
unfoldable pub on_get_consensus : ℕ → ℕ → ℕ → Dict (Try (List ℕ)) → ℕ → Consensus
on_get_consensus period now elapsed documents epoch =
    consensus_of (document_for_epoch period now elapsed documents epoch)
