-- ===== src/KpsRelay/Boot.antt =====
-- main of kps-relay/main.go: its start, its two HTTP endpoints, and the connections that it accepts.
pub mod Address
use zknet_anon_rpc_demo.Common.{ℕ, List, [], ◌∷◌, ◌++◌, Option, none, some}
use zknet_anon_rpc_demo.Common.Bytes.{codes}
use zknet_anon_rpc_demo.Common.Try.{Try, done, failed}
use zknet_anon_rpc_demo.Common.Step.{Step, go_on, stop}
use zknet_anon_rpc_demo.Walletshield.Boot.{BootAnswer}

pub record Relay : Type 0 where
  pub kps_addr : List ℕ
  pub worker_js : List ℕ

-- `os.ReadFile` of a missing file gives no bytes, which is a warning only.
abbrev pub bytes_or_none : Try (List ℕ) → List ℕ
bytes_or_none (failed text) = []
bytes_or_none (done bytes) = bytes

-- By the worker bundle, and what `kps.Listen` and `ln.Address` give; `stop` is a panic.
unfoldable pub start : Try (List ℕ) → Try (List ℕ) → Step (List ℕ) Relay
start worker (failed text) = stop text
start worker (done address) =
    go_on (record { kps_addr = address; worker_js = bytes_or_none worker })

-- `/boot`, by the Host of the request.
unfoldable pub boot : Relay → List ℕ → BootAnswer
boot r host = record {
  address = codes "0xZKNWalletShield";
  resolve = codes "http://" ++ (host ++ codes "/worker.js");
  kps_addr = r.kps_addr;
}

-- `/worker.js`: the header and the body.
unfoldable pub worker : Relay → (List ℕ × List ℕ) × List ℕ
worker r = ((codes "Content-Type", codes "application/javascript"), r.worker_js)

-- The loop over `ln.Accept`, which an error does not end: the connections that are handled.
unfoldable pub accept_all {ℓ} : {A : Type ℓ} → List (Try A) → List A
accept_all [] = []
accept_all (failed text ∷ conns) = accept_all conns
accept_all (done conn ∷ conns) = conn ∷ accept_all conns
