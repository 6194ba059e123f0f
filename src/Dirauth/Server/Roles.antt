-- ===== src/Dirauth/Server/Roles.antt =====
-- What a connection may change, by what its peer has proved of itself.
use zknet_anon_rpc_demo.Common.{
  ℕ, ◌≡◌, refl, ◌⊎◌, inl, inr, List, Bool, true, false, ◌||◌, Option, none, some, ◌==◌,
  if◌then◌else◌, length, arith,
}
use zknet_anon_rpc_demo.Common.Text.{same_text, same_text_lem}
use zknet_anon_rpc_demo.Common.Dict.{lookup, has}
use zknet_anon_rpc_demo.Dirauth.Pki.{State}
use zknet_anon_rpc_demo.Dirauth.Server.{
  Credentials, Role, client, mix, replica, authority, Request, get_consensus, post_descriptor,
  post_replica_descriptor, of_authority, Server, Env, hash_of, check_link_key, role_of,
  is_peer_valid, dispatch, on_conn,
}

module _ (e : Env) where
  -- The peer's additional data is the key hash of an authority that is configured, and its link key is
  -- that of the authority.
  pub record IsAuthority (s : State) (creds : Credentials) : Type 0 where
    pub authorized : has (hash_of creds.additional_data) s.authorized_authorities ≡ true
    pub link_key : List ℕ
    pub configured : lookup (hash_of creds.additional_data) e.authority_link_keys ≡ some link_key
    pub proved : creds.public_key ≡ some link_key

  -- The peer's additional data is the key hash of a mix, a gateway or a service node.
  abbrev pub IsMix : Credentials → Type 0
  IsMix creds =
      let pk = hash_of creds.additional_data in
      (has pk e.pinned.mixes || (has pk e.pinned.gateway_nodes || has pk e.pinned.service_nodes))
      ≡ true

  abbrev pub IsReplica : Credentials → Type 0
  IsReplica creds = has (hash_of creds.additional_data) e.pinned.replica_nodes ≡ true

  abbrev Granted : State → Credentials → Option Role → Type 0
  Granted s creds none = Unit
  Granted s creds (some client) = Unit
  Granted s creds (some mix) = IsMix creds
  Granted s creds (some replica) = IsReplica creds
  Granted s creds (some authority) = IsAuthority s creds

  if-Granted :
      (s : State) (creds : Credentials) (b : Bool) (o o' : Option Role)
      → (b ≡ true → Granted s creds o)
      → (b ≡ false → Granted s creds o')
      → Granted s creds (if b then o else o')
  if-Granted s creds true o o' f g = f refl
  if-Granted s creds false o o' f g = g refl

  check_link_key-Granted :
      (s : State) (creds : Credentials) (o key : Option (List ℕ))
      → has (hash_of creds.additional_data) s.authorized_authorities ≡ true
      → lookup (hash_of creds.additional_data) e.authority_link_keys ≡ o
      → creds.public_key ≡ key
      → Granted s creds (check_link_key o key)
  check_link_key-Granted s creds none key a c p = tt
  check_link_key-Granted s creds (some l) none a c p = tt
  check_link_key-Granted s creds (some l) (some k) a c p =
      if-Granted s creds (same_text l k) (some authority) none
        (λ h. record {
          authorized = a;
          link_key = l;
          configured = c;
          proved = let same : l ≡ k = same_text_lem l k h in ground arith;
        })
        (λ h. tt)

  is_peer_valid-Granted :
      (s : State) (creds : Credentials) → Granted s creds (is_peer_valid e s creds)
  unfolding is_peer_valid
  is_peer_valid-Granted s creds =
      let pk = hash_of creds.additional_data in
      if-Granted s creds (length creds.additional_data == 0) (some client) _ (λ h. tt)
        (λ h.
          if-Granted s creds (length creds.additional_data == 32) (role_of e s pk creds.public_key)
            none
            (λ h.
              if-Granted s creds _ (some mix) _ (λ m. m)
                (λ m.
                  if-Granted s creds (has pk s.authorized_authorities) _ _
                    (λ a. check_link_key-Granted s creds _ creds.public_key a refl refl)
                    (λ a.
                      if-Granted s creds (has pk e.pinned.replica_nodes) (some replica) none
                        (λ r. r) (λ r. tt))))
            (λ h. tt))

  -- What a connection may change.
  abbrev pub Allowed : Credentials → Server → Server → Type 0
  Allowed creds s t =
      (t ≡ s)
      ⊎ ((IsAuthority s.state creds × (t ≡ record s { state = t.state }))
          ⊎ ((IsMix creds × (t ≡ record s { mixes = t.mixes }))
              ⊎ (IsReplica creds × (t ≡ record s { replicas = t.replicas }))))

  dispatch-Allowed :
      (creds : Credentials) (peer : ℕ) (role : Option Role) (request : Request) (s : Server)
      → Granted s.state creds role
      → Allowed creds s (dispatch e peer role request s).1
  dispatch-Allowed creds peer none request s g = inl refl
  dispatch-Allowed creds peer (some client) (get_consensus epoch) s g = inl refl
  dispatch-Allowed creds peer (some client) (post_descriptor epoch payload) s g = inl refl
  dispatch-Allowed creds peer (some client) (post_replica_descriptor epoch payload) s g = inl refl
  dispatch-Allowed creds peer (some client) (of_authority command) s g = inl refl
  dispatch-Allowed creds peer (some mix) (get_consensus epoch) s g = inl refl
  dispatch-Allowed creds peer (some mix) (post_descriptor epoch payload) s g =
      inr (inr (inl (g, refl)))
  dispatch-Allowed creds peer (some mix) (post_replica_descriptor epoch payload) s g = inl refl
  dispatch-Allowed creds peer (some mix) (of_authority command) s g = inl refl
  dispatch-Allowed creds peer (some replica) (get_consensus epoch) s g = inl refl
  dispatch-Allowed creds peer (some replica) (post_descriptor epoch payload) s g = inl refl
  dispatch-Allowed creds peer (some replica) (post_replica_descriptor epoch payload) s g =
      inr (inr (inr (g, refl)))
  dispatch-Allowed creds peer (some replica) (of_authority command) s g = inl refl
  dispatch-Allowed creds peer (some authority) (get_consensus epoch) s g = inl refl
  dispatch-Allowed creds peer (some authority) (post_descriptor epoch payload) s g = inl refl
  dispatch-Allowed creds peer (some authority) (post_replica_descriptor epoch payload) s g =
      inl refl
  dispatch-Allowed creds peer (some authority) (of_authority command) s g = inr (inl (g, refl))

  -- A connection changes nothing; or its peer has proved to be a configured authority by its link
  -- key, and only the state of the vote may differ; or it has the
  -- key hash of a node of the mixnet, and only the descriptors of mixes may differ; or that of a
  -- storage replica, and only the descriptors of replicas may differ.
  pub on_conn-Allowed :
      (creds : Credentials) (request : Request) (s : Server)
      → Allowed creds s (on_conn e creds request s).1
  unfolding on_conn
  on_conn-Allowed creds request s =
      dispatch-Allowed creds (hash_of creds.additional_data) (is_peer_valid e s.state creds) request
        s (is_peer_valid-Granted s.state creds)
