-- ===== src/Walletshield/Start.antt =====
-- How main of walletshield/main.go starts, and which of its handlers serves a path.
pub mod Requests
use zknet_anon_rpc_demo.Common.{
  ℕ, List, [], ◌∷◌, Bool, true, false, ◌&&◌, not, Option, none, some, ltb, ◌==◌, if◌then◌else◌,
  length,
}
use zknet_anon_rpc_demo.Common.Text.{same_text}
use zknet_anon_rpc_demo.Common.Bytes.{codes}
use zknet_anon_rpc_demo.Common.Decimal.{decimal}
use zknet_anon_rpc_demo.Common.Try.{Try, done, failed}
use zknet_anon_rpc_demo.Common.Step.{Step, go_on, stop, ◌>>=◌, ◌>>◌, orelse, require}
use zknet_anon_rpc_demo.Walletshield.Thin.{Env, Server}
use zknet_anon_rpc_demo.Walletshield.Handler.{Decoders, Written, http_error, response, handler}
use zknet_anon_rpc_demo.Walletshield.Boot.{BootAnswer, start_kps, boot}

-- The flags that main itself reads; a negative delay is 0.
pub record Flags : Type 0 where
  pub config : List ℕ
  pub delay_start : ℕ
  pub listen : List ℕ
  pub kps_listen : List ℕ
  pub probe : Bool
  pub contract : List ℕ

-- The arguments of `panic`.
pub data Panic : Type 0 where
  no_listen no_config : Panic
  bad_config bad_dial : List ℕ → Panic

-- What runs after the start: the probes, or the HTTP server. `slept` is the pause in seconds.
pub record Started : Type 0 where
  pub server : Server
  pub kps_addr : List ℕ
  pub slept : ℕ
  pub probing : Bool

abbrev pub is_empty : List ℕ → Bool
is_empty [] = true
is_empty (x ∷ xs) = false

-- The first thin client has the number 0.
abbrev pub new_server : Server
new_server = record { thin = 0; closed = []; next_client = 1; calls = 0; messages = [] }

-- `intn` is `rand.Intn`, and `listened` what `kps.Listen` and `ln.Address` give.
unfoldable pub start : Flags → Env → (ℕ → ℕ) → Try (List ℕ) → Step Panic Started
start f e intn listened = do
  require (not (is_empty f.listen && not f.probe)) no_listen
  require (not (is_empty f.config)) no_config
  orelse (e.load_file 0) bad_config
  orelse (e.dial 0) bad_dial
  go_on (record {
    server = new_server;
    kps_addr = start_kps f.kps_listen listened;
    slept = if ltb 0 f.delay_start then intn f.delay_start else 0;
    probing = f.probe;
  })

-- An HTTP request: its path, which `http.ServeMux` has cleaned, what `httputil.DumpRequest` gives,
-- and what reading worker.js gives at that time.
pub record Request : Type 0 where
  pub path : List ℕ
  pub dumped : Try (List ℕ)
  pub worker : Try (List ℕ)

pub data Served : Type 0 where
  booted : BootAnswer → Served
  written : Written → Served

abbrev pub get_worker : Try (List ℕ) → Written
get_worker (failed text) = http_error 404 (codes "worker bundle not found")
get_worker (done worker) =
    response 200
      ((codes "Content-Type", codes "application/javascript")
        ∷ (codes "Content-Length", decimal (length worker))
        ∷ [])
      worker

module _ (f : Flags) (e : Env) (d : Decoders) (kps_addr : List ℕ) where
  -- The patterns `/boot` and `/get-worker` are exact, and `/` takes every other path.
  unfoldable pub serve : Request → Server → Served × Server
  serve r s =
      let (w, t) = handler e d r.dumped s in
      if same_text r.path (codes "/boot")
      then (booted (boot f.contract f.listen kps_addr), s)
      else (if same_text r.path (codes "/get-worker")
          then (written (get_worker r.worker), s)
          else (written w, t))

  -- The server after requests, one after the other.
  unfoldable pub after_requests : List Request → Server → Server
  after_requests [] s = s
  after_requests (r ∷ requests) s = after_requests requests (serve r s).1
