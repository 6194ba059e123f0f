-- ===== src/Dirauth/Envelope.antt =====
-- The envelope keys of a document: `cacheEnvelopeKeys` and `buildReplicaEnvelopeKeys` of
-- katzenpost/authority/voting/server/state.go. Keys are by replica and by replica epoch.
pub mod Offline
use zknet_anon_rpc_demo.Common.{
  ℕ, ◌+◌, ◌-◌, List, [], ◌∷◌, Bool, true, false, ◌||◌, ltb, if◌then◌else◌,
}
use zknet_anon_rpc_demo.Common.Dict.{Dict, has}
use zknet_anon_rpc_demo.Dirauth.Pki.{ReplicaDescriptor, at, ensure, save}

abbrev pub Keys : Type 0
Keys = Dict (Dict (List ℕ))

unfoldable pub save_keys : ℕ → Dict (List ℕ) → Keys → Keys
save_keys id [] cache = cache
save_keys id ((epoch, bytes) ∷ keys) cache = save_keys id keys (save id epoch bytes cache)

abbrev pub cache_envelope_keys : ReplicaDescriptor → Keys → Keys
cache_envelope_keys desc cache =
    save_keys desc.replica_id desc.envelope_keys (ensure desc.replica_id cache)

unfoldable pub cache_all : List ReplicaDescriptor → Keys → Keys
cache_all [] cache = cache
cache_all (desc ∷ descs) cache = cache_all descs (cache_envelope_keys desc cache)

-- The epochs before `min_epoch` are dropped from the cache.
unfoldable pub prune_keys : ℕ → Dict (List ℕ) → Dict (List ℕ)
prune_keys min_epoch [] = []
prune_keys min_epoch ((epoch, bytes) ∷ keys) =
    let rest = prune_keys min_epoch keys in
    if ltb epoch min_epoch then rest else (epoch, bytes) ∷ rest

unfoldable pub prune_cache : ℕ → Keys → Keys
prune_cache min_epoch [] = []
prune_cache min_epoch ((id, keys) ∷ cache) =
    (id, prune_keys min_epoch keys) ∷ prune_cache min_epoch cache

module _ (min_epoch max_epoch : ℕ) where
  -- A key that is there already is kept.
  abbrev pub add_key : ℕ → ℕ → List ℕ → Keys → Keys
  add_key id epoch bytes result =
      if ltb epoch min_epoch || ltb max_epoch epoch
      then result
      else (if has epoch (at id (ensure id result))
          then ensure id result
          else save id epoch bytes (ensure id result))

  unfoldable pub add_keys : ℕ → Dict (List ℕ) → Keys → Keys
  add_keys id [] result = result
  add_keys id ((epoch, bytes) ∷ keys) result = add_keys id keys (add_key id epoch bytes result)

  unfoldable pub add_tallied : List ReplicaDescriptor → Keys → Keys
  add_tallied [] result = result
  add_tallied (desc ∷ descs) result =
      add_tallied descs (add_keys desc.replica_id desc.envelope_keys result)

  unfoldable pub add_cached : Keys → Keys → Keys
  add_cached [] result = result
  add_cached ((id, keys) ∷ cache) result = add_cached cache (add_keys id keys result)

-- The keys of the document, and the cache after it. Only keys that are too old leave the cache, so
-- that the loop which fills the document reads each that it adds.
unfoldable pub build_replica_envelope_keys : List ReplicaDescriptor → ℕ → Keys → Keys × Keys
build_replica_envelope_keys tallied current cache =
    let cached = cache_all tallied cache in
    let added = add_tallied (current - 1) (current + 1) tallied [] in
    (add_cached (current - 1) (current + 1) cached added, prune_cache (current - 1) cached)
