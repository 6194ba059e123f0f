-- ===== src/Dirauth/Examples/Descriptors.antt =====
-- The upload of descriptors at concrete inputs.
use zknet_anon_rpc_demo.Common.{ℕ, ◌≡◌, refl, List, [], true, none, some}
use zknet_anon_rpc_demo.Common.Text.{same_text}
use zknet_anon_rpc_demo.Common.Dict.{lookup}
use zknet_anon_rpc_demo.Common.Bytes.{codes}
use zknet_anon_rpc_demo.Common.Try.{Try, done}
use zknet_anon_rpc_demo.Dirauth.Pki.{MixDescriptor, at}
use zknet_anon_rpc_demo.Dirauth.Descriptors.{
  Store, Posted, conflicting, check_upload, on_upload, race, install, persist,
}
use zknet_anon_rpc_demo.Dirauth.Descriptors.Disk.{race_lem}
use zknet_anon_rpc_demo.Dirauth.Examples.{mix}

abbrev marshal : MixDescriptor → Try (List ℕ)
marshal desc = done desc.others

abbrev empty : Store MixDescriptor
empty = record { descriptors = []; disk = [] }

abbrev first : Posted MixDescriptor
first = record { raw = codes "x"; desc = record mix { others = codes "x" }; key = 9; epoch = 7 }

abbrev second : Posted MixDescriptor
second = record { raw = codes "y"; desc = record mix { others = codes "y" }; key = 9; epoch = 7 }

new_upload : (u : Posted MixDescriptor) → check_upload marshal [] u empty ≡ none
unfolding check_upload lookup
new_upload u = refl

race_lem_example :
    (lookup 9 (at 7 (race first second empty).descriptors) ≡ some first.desc)
    × (lookup 9 (at 7 (race first second empty).disk) ≡ some second.raw)
race_lem_example =
    race_lem marshal [] first second empty refl refl (new_upload first) (new_upload second)

-- One after the other, the second is refused.
second_refused :
    (on_upload marshal [] true second (on_upload marshal [] true first empty).1).0 ≡ conflicting
unfolding on_upload check_upload install persist lookup same_text
second_refused = refl
