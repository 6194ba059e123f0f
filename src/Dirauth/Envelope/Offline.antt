-- ===== src/Dirauth/Envelope/Offline.antt =====
-- Which envelope keys a document lists, and which stay in the cache.
use zknet_anon_rpc_demo.Common.{
  ℕ, ◌+◌, ◌-◌, ◌≡◌, refl, ◌⊎◌, inl, inr, List, [], ◌∷◌, Bool, true, false, ◌&&◌, ◌||◌, not, Option,
  none, some, ltb, ◌==◌, if◌then◌else◌, arith, Bool-cases, Option-cases,
}
use zknet_anon_rpc_demo.Common.Dict.{Dict, lookup, has, put}
use zknet_anon_rpc_demo.Common.Dict.Unique.{Unique, put-Unique}
use zknet_anon_rpc_demo.Dirauth.Pki.{ReplicaDescriptor, at, ensure, save}
use zknet_anon_rpc_demo.Dirauth.Pki.Maps.{at-ensure, lookup-save}
use zknet_anon_rpc_demo.Dirauth.Envelope.{
  Keys, save_keys, cache_envelope_keys, cache_all, prune_keys, prune_cache, add_key, add_keys,
  add_tallied, add_cached, build_replica_envelope_keys,
}

abbrev pub or_else {ℓ} : {A : Type ℓ} → Option A → Option A → Option A
or_else none o = o
or_else (some a) o = some a

abbrev pub when {ℓ} : {A : Type ℓ} → Bool → Option A → Option A
when true o = o
when false o = none

-- The key that the first descriptor with one gives a replica for an epoch.
unfoldable pub first_key : ℕ → ℕ → List ReplicaDescriptor → Option (List ℕ)
first_key id epoch [] = none
first_key id epoch (desc ∷ descs) =
    or_else (when (desc.replica_id == id) (lookup epoch desc.envelope_keys))
      (first_key id epoch descs)

-- The epoch before the current one, that one, and the next.
abbrev pub in_range : ℕ → ℕ → ℕ → Bool
in_range min_epoch max_epoch epoch = not (ltb epoch min_epoch || ltb max_epoch epoch)

module _ (min_epoch max_epoch : ℕ) where
  add_key-lookup :
      (i id e epoch : ℕ) (bytes : List ℕ) (result : Keys)
      → lookup epoch (at id (add_key min_epoch max_epoch i e bytes result))
        ≡ or_else
            (lookup epoch (at id result))
            (when (i == id && (e == epoch && in_range min_epoch max_epoch epoch)) (some bytes))
  add_key-lookup i id e epoch bytes result =
      elim (Bool-cases (ltb e min_epoch || ltb max_epoch e)) [
        | inl out ↦ rw out (elim (Option-cases (lookup epoch (at id result))) [
          | inl o ↦ ground (arith, o, out)
          | inr (f, o) ↦ ground (arith, o)
        ])
        | inr near ↦ elim (Bool-cases (has e (at i (ensure i result)))) [
          | inl there ↦
              rw (near, there)
                (elim (Option-cases (lookup epoch (at id result))) [
                  | inl o ↦ ground (arith, at-ensure i id result, at-ensure i i result)
                  | inr (f, o) ↦ ground (arith, at-ensure i id result)
                ])
          | inr missing ↦
              rw (near, missing)
                (elim (Option-cases (lookup epoch (at id result))) [
                  | inl o ↦ ground (
                    arith,
                    lookup-save i e id epoch bytes (ensure i result),
                    at-ensure i id result,
                  )
                  | inr (f, o) ↦ ground (
                    arith,
                    lookup-save i e id epoch bytes (ensure i result),
                    at-ensure i id result,
                    at-ensure i i result,
                  )
                ])
        ]
      ]

  add_keys-lookup :
      (i id epoch : ℕ) (keys : Dict (List ℕ)) (result : Keys)
      → lookup epoch (at id (add_keys min_epoch max_epoch i keys result))
        ≡ or_else
            (lookup epoch (at id result))
            (when (i == id && in_range min_epoch max_epoch epoch) (lookup epoch keys))
  unfolding add_keys lookup
  add_keys-lookup i id epoch [] result = elim (Option-cases (lookup epoch (at id result))) [
    | inl o ↦ ground (arith, o)
    | inr (f, o) ↦ ground (arith, o)
  ]
  add_keys-lookup i id epoch ((e, bytes) ∷ keys) result =
      let now = add_key-lookup i id e epoch bytes result in
      let later = add_keys-lookup i id epoch keys (add_key min_epoch max_epoch i e bytes result) in
      elim (Option-cases (lookup epoch (at id result))) [
        | inl o ↦ ground (arith, o, now, later)
        | inr (f, o) ↦ ground (arith, o, now, later)
      ]

  add_tallied-lookup :
      (id epoch : ℕ) (descs : List ReplicaDescriptor) (result : Keys)
      → lookup epoch (at id (add_tallied min_epoch max_epoch descs result))
        ≡ or_else
            (lookup epoch (at id result))
            (when (in_range min_epoch max_epoch epoch) (first_key id epoch descs))
  unfolding add_tallied first_key
  add_tallied-lookup id epoch [] result = elim (Option-cases (lookup epoch (at id result))) [
    | inl o ↦ ground (arith, o)
    | inr (f, o) ↦ ground (arith, o)
  ]
  add_tallied-lookup id epoch (desc ∷ descs) result =
      let keys = desc.envelope_keys in
      let now = add_keys-lookup desc.replica_id id epoch keys result in
      let later =
        add_tallied-lookup id epoch descs
          (add_keys min_epoch max_epoch desc.replica_id keys result) in
      elim (Option-cases (lookup epoch (at id result))) [
        | inl o ↦ ground (arith, o, now, later)
        | inr (f, o) ↦ ground (arith, o, now, later)
      ]

  add_cached-lookup :
      (id epoch : ℕ) (cache result : Keys)
      → Unique cache
      → lookup epoch (at id (add_cached min_epoch max_epoch cache result))
        ≡ or_else
            (lookup epoch (at id result))
            (when (in_range min_epoch max_epoch epoch) (lookup epoch (at id cache)))
  unfolding add_cached lookup
  add_cached-lookup id epoch [] result u = elim (Option-cases (lookup epoch (at id result))) [
    | inl o ↦ ground (arith, o)
    | inr (f, o) ↦ ground (arith, o)
  ]
  add_cached-lookup id epoch ((i, keys) ∷ cache) result (fresh, u) =
      let now = add_keys-lookup i id epoch keys result in
      let later = add_cached-lookup id epoch cache (add_keys min_epoch max_epoch i keys result) u in
      elim (Bool-cases (i == id)) [
        | inl same ↦
            let e : i ≡ id = ground arith in
            let none_left : lookup id cache ≡ none = ground (arith, fresh, e) in
            elim (Option-cases (lookup epoch (at id result))) [
              | inl o ↦ ground (arith, o, now, later)
              | inr (f, o) ↦ ground (arith, o, now, later)
            ]
        | inr differs ↦ elim (Option-cases (lookup epoch (at id result))) [
          | inl o ↦ ground (arith, o, now, later)
          | inr (f, o) ↦ ground (arith, o, now, later)
        ]
      ]

save_keys-lookup :
    (i id epoch : ℕ) (keys : Dict (List ℕ)) (cache : Keys)
    → (i == id) ≡ false ⊎ (lookup epoch keys ≡ none)
    → lookup epoch (at id (save_keys i keys cache)) ≡ lookup epoch (at id cache)
unfolding save_keys lookup
save_keys-lookup i id epoch [] cache h = refl
save_keys-lookup i id epoch ((e, bytes) ∷ keys) cache (inl differs) = ground (
  arith,
  lookup-save i e id epoch bytes cache,
  save_keys-lookup i id epoch keys (save i e bytes cache) (inl differs),
)
save_keys-lookup i id epoch ((e, bytes) ∷ keys) cache (inr missing) = ground (
  arith,
  lookup-save i e id epoch bytes cache,
  save_keys-lookup i id epoch keys (save i e bytes cache) (inr (ground arith)),
)

save_keys-Unique :
    (i : ℕ) (keys : Dict (List ℕ)) (cache : Keys) → Unique cache → Unique (save_keys i keys cache)
unfolding save_keys
save_keys-Unique i [] cache u = u
save_keys-Unique i ((e, bytes) ∷ keys) cache u =
    save_keys-Unique i keys (save i e bytes cache) (put-Unique i (put e bytes (at i cache)) cache u)

made-Unique :
    (o : Option (Dict (List ℕ))) (i : ℕ) (cache : Keys)
    → Unique cache
    → Unique (elim o as (λ x. Keys) [ none ↦ put i [] cache | some found ↦ cache ])
made-Unique none i cache u = put-Unique i [] cache u
made-Unique (some found) i cache u = u

ensure-Unique : (i : ℕ) (cache : Keys) → Unique cache → Unique (ensure i cache)
ensure-Unique i cache u = made-Unique (lookup i cache) i cache u

cache_all-Unique :
    (descs : List ReplicaDescriptor) (cache : Keys) → Unique cache → Unique (cache_all descs cache)
unfolding cache_all
cache_all-Unique [] cache u = u
cache_all-Unique (desc ∷ descs) cache u = cache_all-Unique descs (cache_envelope_keys desc cache) (
    save_keys-Unique desc.replica_id desc.envelope_keys (ensure desc.replica_id cache)
      (ensure-Unique desc.replica_id cache u))

cache_all-lookup :
    (id epoch : ℕ) (descs : List ReplicaDescriptor) (cache : Keys)
    → first_key id epoch descs ≡ none
    → lookup epoch (at id (cache_all descs cache)) ≡ lookup epoch (at id cache)
unfolding cache_all first_key
cache_all-lookup id epoch [] cache h = refl
cache_all-lookup id epoch (desc ∷ descs) cache h =
    let keys = desc.envelope_keys in
    let now : (desc.replica_id == id) ≡ false ⊎ (lookup epoch keys ≡ none) =
      elim (Bool-cases (desc.replica_id == id)) [
        | inr differs ↦ inl differs
        | inl same ↦ elim (Option-cases (lookup epoch keys)) [
          | inl o ↦ inr o
          | inr (f, o) ↦ absurd (ground arith)
        ]
      ] in
    let none_later : first_key id epoch descs ≡ none = elim (Bool-cases (desc.replica_id == id)) [
      | inr differs ↦ ground arith
      | inl same ↦ elim (Option-cases (lookup epoch keys)) [
        | inl o ↦ ground arith
        | inr (f, o) ↦ absurd (ground arith)
      ]
    ] in
    ground (
      arith,
      cache_all-lookup id epoch descs (cache_envelope_keys desc cache) none_later,
      save_keys-lookup desc.replica_id id epoch keys (ensure desc.replica_id cache) now,
      at-ensure desc.replica_id id cache,
    )

prune_keys-lookup :
    (min_epoch epoch : ℕ) (keys : Dict (List ℕ))
    → lookup epoch (prune_keys min_epoch keys)
      ≡ (if ltb epoch min_epoch then none else lookup epoch keys)
unfolding prune_keys lookup
prune_keys-lookup min_epoch epoch [] = ground arith
prune_keys-lookup min_epoch epoch ((e, bytes) ∷ keys) =
    ground (arith, prune_keys-lookup min_epoch epoch keys)

prune_cache-lookup :
    (min_epoch id epoch : ℕ) (cache : Keys)
    → lookup epoch (at id (prune_cache min_epoch cache))
      ≡ (if ltb epoch min_epoch then none else lookup epoch (at id cache))
unfolding prune_cache lookup
prune_cache-lookup min_epoch id epoch [] = ground arith
prune_cache-lookup min_epoch id epoch ((i, keys) ∷ cache) = elim (Bool-cases (i == id)) [
  | inl same ↦ ground (arith, prune_keys-lookup min_epoch epoch keys)
  | inr differs ↦ ground (arith, prune_cache-lookup min_epoch id epoch cache)
]

-- A document lists, for each replica, keys of the epoch before the current one, of that one and of
-- the next, and of no other: the key of the first tallied descriptor that has one, or else the cached
-- one. The cache drops the keys that are older, and keeps every other key of a replica and an epoch
-- that no tallied descriptor has a key for.
pub build_replica_envelope_keys_lem :
    (tallied : List ReplicaDescriptor) (current : ℕ) (cache : Keys) (id epoch : ℕ)
    → Unique cache
    → let (result, cached) = build_replica_envelope_keys tallied current cache in
      let old = ltb epoch (current - 1) in
      let first = first_key id epoch tallied in
      (lookup epoch (at id result)
        ≡ when
            (in_range (current - 1) (current + 1) epoch)
            (or_else first (lookup epoch (at id cache))))
      × (old ≡ true → lookup epoch (at id cached) ≡ none)
      × (old ≡ false → first ≡ none → lookup epoch (at id cached) ≡ lookup epoch (at id cache))
unfolding build_replica_envelope_keys lookup
build_replica_envelope_keys_lem tallied current cache id epoch u =
    let cached = cache_all tallied cache in
    let added = add_tallied (current - 1) (current + 1) tallied [] in
    let from_tallied = add_tallied-lookup (current - 1) (current + 1) id epoch tallied [] in
    let from_cache =
      add_cached-lookup (current - 1) (current + 1) id epoch cached added
        (cache_all-Unique tallied cache u) in
    let pruned = prune_cache-lookup (current - 1) id epoch cached in
    (
      elim (Option-cases (first_key id epoch tallied)) [
        | inl o ↦
            ground (arith, o, from_tallied, from_cache, cache_all-lookup id epoch tallied cache o)
        | inr (f, o) ↦ ground (arith, o, from_tallied, from_cache)
      ],
      λ old. ground (arith, old, pruned),
      λ young o. ground (arith, young, pruned, cache_all-lookup id epoch tallied cache o),
    )
