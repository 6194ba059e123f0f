-- ===== src/Walletshield/Boot/Examples.antt =====
-- A test of the boot answer.
use zknet_anon_rpc_demo.Common.{◌≡◌, refl, []}
use zknet_anon_rpc_demo.Common.Bytes.{codes}
use zknet_anon_rpc_demo.Common.Try.{failed}
use zknet_anon_rpc_demo.Walletshield.Boot.{start_kps, boot}

not_listening : (boot [] [] (start_kps (codes "0.0.0.0:9201") (failed []))).kps_addr ≡ []
unfolding boot start_kps
not_listening = refl
