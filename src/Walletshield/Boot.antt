-- ===== src/Walletshield/Boot.antt =====
-- The KPS address of walletshield/main.go, and the answer of its /boot endpoint.
pub mod Address
mod Examples
use zknet_anon_rpc_demo.Common.{ℕ, List, [], ◌∷◌, ◌++◌}
use zknet_anon_rpc_demo.Common.Bytes.{codes}
use zknet_anon_rpc_demo.Common.Try.{Try, done, failed}

-- `fetchInit.address`, `fetchInit.preExisting.resolve` and `kpsAddr`
pub record BootAnswer : Type 0 where
  pub address : List ℕ
  pub resolve : List ℕ
  pub kps_addr : List ℕ

-- By the flag kps_listen, and what `kps.Listen` and `ln.Address` give for it.
unfoldable pub start_kps : List ℕ → Try (List ℕ) → List ℕ
start_kps [] listened = []
start_kps (x ∷ xs) (failed text) = []
start_kps (x ∷ xs) (done address) = address

unfoldable pub boot : List ℕ → List ℕ → List ℕ → BootAnswer
boot contract_addr listen_addr kps_addr = record {
  address = contract_addr;
  resolve = codes "http://" ++ (listen_addr ++ codes "/get-worker");
  kps_addr = kps_addr;
}
