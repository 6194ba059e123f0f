-- ===== src/Dirauth/Descriptors/Disk.antt =====
-- The descriptors in memory and those in the database.
use zknet_anon_rpc_demo.Common.{
  ℕ, ◌≡◌, inl, inr, List, Bool, Option, none, some, ◌==◌, ◌&&◌, if◌then◌else◌, arith, Bool-cases,
  Option-cases,
}
use zknet_anon_rpc_demo.Common.Text.{same_text}
use zknet_anon_rpc_demo.Common.Dict.{Dict, lookup}
use zknet_anon_rpc_demo.Common.Try.{Try, Try-cases}
use zknet_anon_rpc_demo.Dirauth.Pki.{at, ensure, save}
use zknet_anon_rpc_demo.Dirauth.Pki.Maps.{at-ensure, lookup-save}
use zknet_anon_rpc_demo.Dirauth.Descriptors.{
  Store, Posted, accepted, check_upload, persist, install, on_upload, race,
}

-- `IsIn d raw`: the bytes `raw` carry the descriptor `d`.
module _ {A : Type 0} (IsIn : A → List ℕ → Type 0) where
  -- A descriptor in memory and bytes in the database that carry it, or neither.
  pub data Matches : Option A → Option (List ℕ) → Type 0 where
    neither : Matches none none
    both : {d : A} {raw : List ℕ} → IsIn d raw → Matches (some d) (some raw)

  abbrev pub InStep : Store A → Type 0
  InStep s =
      (epoch pk : ℕ) → Matches (lookup pk (at epoch s.descriptors)) (lookup pk (at epoch s.disk))

  Matches-eq :
      {o o' : Option A} {p p' : Option (List ℕ)} → o' ≡ o → p' ≡ p → Matches o p → Matches o' p'
  Matches-eq e f m = rw (e, f) m

module _ {A : Type 0} where
  pub install-lookup :
      (u : Posted A) (s : Store A) (epoch pk : ℕ)
      → lookup u.key (at u.epoch s.descriptors) ≡ none
      → lookup pk (at epoch (install u (persist u s)).descriptors) ≡ (
          if u.epoch == epoch && u.key == pk
          then some u.desc
          else lookup pk (at epoch s.descriptors))
  unfolding install persist
  install-lookup u s epoch pk h = ground (
    arith,
    at-ensure u.epoch u.epoch s.descriptors,
    at-ensure u.epoch epoch s.descriptors,
    lookup-save u.epoch u.key epoch pk u.desc (ensure u.epoch s.descriptors),
  )

  install-disk :
      (u : Posted A) (s : Store A)
      → (install u (persist u s)).disk ≡ save u.epoch u.key u.raw s.disk
  unfolding install persist
  install-disk u s = ground arith

  installed-InStep :
      (IsIn : A → List ℕ → Type 0) (u : Posted A) (s : Store A)
      → IsIn u.desc u.raw
      → lookup u.key (at u.epoch s.descriptors) ≡ none
      → InStep IsIn s
      → InStep IsIn (install u (persist u s))
  installed-InStep IsIn u s m h v epoch pk =
      let e = install-lookup u s epoch pk h in
      let f = lookup-save u.epoch u.key epoch pk u.raw s.disk in
      let g = install-disk u s in
      elim (Bool-cases (u.epoch == epoch && u.key == pk)) [
        | inl same ↦
            Matches-eq IsIn (ground arith) (ground arith) (both {d = u.desc} {raw = u.raw} m)
        | inr differs ↦ Matches-eq IsIn (ground arith) (ground arith) (v epoch pk)
      ]

module _ {A : Type 0} (marshal : A → Try (List ℕ)) (documents : Dict (Try (List ℕ))) where
  pub unseen :
      (u : Posted A) (s : Store A)
      → check_upload marshal documents u s ≡ none
      → lookup u.key (at u.epoch s.descriptors) ≡ none
  unfolding check_upload
  unseen u s h = elim (Option-cases (lookup u.key (at u.epoch s.descriptors))) [
    | inl e ↦ e
    | inr (d, e) ↦ elim (Try-cases (marshal d)) [
      | inl (text, f) ↦ absurd (ground arith)
      | inr (raw, f) ↦ elim (Bool-cases (same_text raw u.raw)) [
        | inl t ↦ absurd (ground arith)
        | inr t ↦ absurd (ground arith)
      ]
    ]
  ]

  pub on_upload-InStep :
      (IsIn : A → List ℕ → Type 0) (disk_ok : Bool) (u : Posted A) (s : Store A)
      → IsIn u.desc u.raw
      → InStep IsIn s
      → InStep IsIn (on_upload marshal documents disk_ok u s).1
  unfolding on_upload
  on_upload-InStep IsIn disk_ok u s m v = elim (Option-cases (check_upload marshal documents u s)) [
    | inr (reply, e) ↦
        let now : (on_upload marshal documents disk_ok u s).1 ≡ s = ground arith in rw now v
    | inl e ↦ elim (Bool-cases disk_ok) [
      | inl persisted ↦
          let now : on_upload marshal documents disk_ok u s ≡ (accepted, install u (persist u s)) =
            ground arith in
          rw now (installed-InStep IsIn u s m (unseen u s e) v)
      | inr failing ↦
          let now : (on_upload marshal documents disk_ok u s).1 ≡ s = ground arith in rw now v
    ]
  ]

  -- Two uploads of one node for one epoch that race, both new: memory holds the first descriptor,
  -- and the database the second one's bytes.
  pub race_lem :
      (u v : Posted A) (s : Store A)
      → u.key ≡ v.key
      → u.epoch ≡ v.epoch
      → check_upload marshal documents u s ≡ none
      → check_upload marshal documents v s ≡ none
      → (lookup u.key (at u.epoch (race u v s).descriptors) ≡ some u.desc)
        × (lookup u.key (at u.epoch (race u v s).disk) ≡ some v.raw)
  unfolding race install persist
  race_lem u v s k e h h' =
      let free = unseen u s h in
      let t = save u.epoch u.key u.desc (ensure u.epoch s.descriptors) in
      ground (
        arith,
        at-ensure u.epoch u.epoch s.descriptors,
        at-ensure v.epoch u.epoch t,
        lookup-save u.epoch u.key u.epoch u.key u.desc (ensure u.epoch s.descriptors),
        lookup-save v.epoch v.key u.epoch u.key v.raw (save u.epoch u.key u.raw s.disk),
      )
