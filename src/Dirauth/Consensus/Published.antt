-- ===== src/Dirauth/Consensus/Published.antt =====
-- What is published, and what is not.
use zknet_anon_rpc_demo.Common.{
  ℕ, ◌≡◌, refl, inl, inr, List, Bool, true, false, none, some, arith, Bool-cases, Option-cases,
}
use zknet_anon_rpc_demo.Common.Dict.{lookup, put, lookup-put}
use zknet_anon_rpc_demo.Common.Try.{done, failed, Try-cases}
use zknet_anon_rpc_demo.Common.Step.{Step, go_on, stop}
use zknet_anon_rpc_demo.Dirauth.Pki.{Document, at}
use zknet_anon_rpc_demo.Dirauth.Authority.{
  Authority, Config, Library, Refused, no_view, not_marshalled, no_threshold,
}
use zknet_anon_rpc_demo.Dirauth.Consensus.{
  add_signatures, persist_document, get_threshold_consensus,
}

module _ (u : Config) (lib : Library) (disk_ok : Bool) (epoch : ℕ) where
  -- A document that is published: our consensus with the signatures that fit it, which a threshold has
  -- signed. It is served, and it is in the database if that was updated.
  pub record IsPublished (a : Authority) (doc : Document) (b : Authority) : Type 0 where
    pub ours : Document
    pub is_ours : lookup epoch a.my_consensus ≡ some ours
    pub with_signatures : doc ≡ add_signatures u lib (at epoch a.voted.signatures) ours
    pub bytes : List ℕ
    pub marshalled : lib.marshal_certificate doc ≡ done bytes
    pub by_threshold : lib.verify_threshold bytes ≡ true
    pub served : lookup epoch b.documents ≡ some doc
    pub on_disk : disk_ok ≡ true → lookup epoch b.disk_documents ≡ some bytes

  -- What a document that is not published lacks: a consensus of ours, an encoding, or enough signatures.
  pub data Lacks (a : Authority) : Refused → Type 0 where
    no_consensus : lookup epoch a.my_consensus ≡ none → Lacks a no_view
    no_encoding :
        (ours : Document) (text : List ℕ)
        → lookup epoch a.my_consensus ≡ some ours
        → lib.marshal_certificate (add_signatures u lib (at epoch a.voted.signatures) ours)
          ≡ failed text
        → Lacks a (not_marshalled text)
    too_few :
        (ours : Document) (bytes : List ℕ)
        → lookup epoch a.my_consensus ≡ some ours
        → lib.marshal_certificate (add_signatures u lib (at epoch a.voted.signatures) ours)
          ≡ done bytes
        → lib.verify_threshold bytes ≡ false
        → Lacks a no_threshold

  -- Nothing is published, and something is missing.
  pub record IsUnpublished (a : Authority) (e : Refused) (b : Authority) : Type 0 where
    pub missing : Lacks a e
    pub same_documents : b.documents ≡ a.documents
    pub same_disk : b.disk_documents ≡ a.disk_documents

  -- The state of publishing a document, for a result.
  abbrev pub Published : Authority → Step Refused Document × Authority → Type 0
  Published a (go_on doc, b) = IsPublished a doc b
  Published a (stop e, b) = IsUnpublished a e b

  persist-served :
      (bytes : List ℕ) (doc : Document) (a : Authority) (b : Bool)
      → let c = record (persist_document u lib b epoch bytes a) {
        documents = put epoch doc a.documents;
      } in
        (lookup epoch c.documents ≡ some doc)
        × (b ≡ true → lookup epoch c.disk_documents ≡ some bytes)
  persist-served bytes doc a true = (
    ground (arith, lookup-put epoch epoch doc a.documents),
    λ e. ground (arith, lookup-put epoch epoch bytes a.disk_documents),
  )
  persist-served bytes doc a false =
      (ground (arith, lookup-put epoch epoch doc a.documents), λ e. absurd (ground arith))

  pub get_threshold_consensus-Published :
      (a : Authority) → Published a (get_threshold_consensus u lib disk_ok epoch a)
  unfolding get_threshold_consensus
  get_threshold_consensus-Published a = elim (Option-cases (lookup epoch a.my_consensus)) [
    | inl missing ↦
        rw missing
          (record { missing = no_consensus missing; same_documents = refl; same_disk = refl })
    | inr (ours, e) ↦
        let doc = add_signatures u lib (at epoch a.voted.signatures) ours in
        let b = record a { my_consensus = put epoch doc a.my_consensus } in
        elim (Try-cases (lib.marshal_certificate doc)) [
          | inl (text, f) ↦
              rw (e, f)
                (record {
                  missing = no_encoding ours text e f;
                  same_documents = refl;
                  same_disk = refl;
                })
          | inr (bytes, f) ↦ elim (Bool-cases (lib.verify_threshold bytes)) [
            | inr few ↦
                rw (e, f, few)
                  (record {
                    missing = too_few ours bytes e f few;
                    same_documents = refl;
                    same_disk = refl;
                  })
            | inl enough ↦
                let (served, on_disk) = persist-served bytes doc b disk_ok in
                rw (e, f, enough)
                  (record {
                    ours = ours;
                    is_ours = e;
                    with_signatures = refl;
                    bytes = bytes;
                    marshalled = f;
                    by_threshold = enough;
                    served = served;
                    on_disk = on_disk;
                  })
          ]
        ]
  ]
