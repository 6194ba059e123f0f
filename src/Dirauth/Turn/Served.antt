-- ===== src/Dirauth/Turn/Served.antt =====
-- A round that ends with a consensus has published it.
use zknet_anon_rpc_demo.Common.{ℕ, ◌+◌, ◌≡◌, ◌≢◌, ap, inl, inr, List, Bool, true, some, arith}
use zknet_anon_rpc_demo.Common.Dict.{lookup}
use zknet_anon_rpc_demo.Common.Try.{done}
use zknet_anon_rpc_demo.Common.Step.{Step, go_on, stop, Step-cases}
use zknet_anon_rpc_demo.Dirauth.Pki.{Document}
use zknet_anon_rpc_demo.Dirauth.Phases.{accept_descriptor, accept_signature, Now, fsm}
use zknet_anon_rpc_demo.Dirauth.Authority.{Authority, Config, Library, Refused}
use zknet_anon_rpc_demo.Dirauth.Consensus.{get_threshold_consensus}
use zknet_anon_rpc_demo.Dirauth.Consensus.Published.{Published, get_threshold_consensus-Published}
use zknet_anon_rpc_demo.Dirauth.Turn.{Detached, turn}

module _ (u : Config) (lib : Library) (x : Detached) (disk_ok : Bool) (replica_epoch : ℕ)
    (period : ℕ) (now : Now) (now_elapsed : ℕ) (a : Authority) where
  of_result :
      (r : Step Refused Document × Authority)
      → get_threshold_consensus u lib disk_ok a.voted.voting_epoch a ≡ r
      → Published u lib disk_ok a.voted.voting_epoch a r
  of_result r e = rw⁻¹ e (get_threshold_consensus-Published u lib disk_ok a.voted.voting_epoch a)

  -- The last phase of a round, at whatever time: if the authority goes on to the descriptors of the
  -- next epoch, then a document for the epoch that was voted on is served, which a threshold has
  -- signed; and if it starts anew, then no document is served or stored that was not before.
  pub turn-served :
      let (o, b) = turn u lib x disk_ok replica_epoch period now now_elapsed accept_signature a in
      (o.machine.phase ≡ accept_descriptor
        → (o.machine.voting_epoch ≡ a.voted.voting_epoch + 1)
          × ((doc : Document) × (bytes : List ℕ) × (lookup a.voted.voting_epoch b.documents
                ≡ some doc)
              × (lib.marshal_certificate doc ≡ done bytes)
              × (lib.verify_threshold bytes ≡ true)))
      × (o.machine.phase ≢ accept_descriptor
          → (b.documents ≡ a.documents) × (b.disk_documents ≡ a.disk_documents))
  unfolding turn fsm
  turn-served =
      let r = get_threshold_consensus u lib disk_ok a.voted.voting_epoch a in
      elim (Step-cases r.0) [
        | inl (e, p) ↦
            let q = of_result (stop e, r.1) (ap (λ s. (s, r.1)) p) in
            (λ h. absurd (ground (arith, h, p)), λ h. (q.same_documents, q.same_disk))
        | inr (doc, p) ↦
            let q = of_result (go_on doc, r.1) (ap (λ s. (s, r.1)) p) in
            (
              λ h. (ground (arith, p), (doc, q.bytes, q.served, q.marshalled, q.by_threshold)),
              λ h. absurd (h (ground (arith, p))),
            )
      ]
