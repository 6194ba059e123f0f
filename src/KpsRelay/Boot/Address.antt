-- ===== src/KpsRelay/Boot/Address.antt =====
-- What kps-client and kps-monitor learn from the relay's /boot.
use zknet_anon_rpc_demo.Common.{ℕ, ◌≡◌, ◌≢◌, ◌↔◌, List, [], ◌++◌, arith}
use zknet_anon_rpc_demo.Common.Bytes.{codes}
use zknet_anon_rpc_demo.Common.Try.{Try, done, failed}
use zknet_anon_rpc_demo.Common.Step.{go_on}
use zknet_anon_rpc_demo.KpsClient.{World, kps_address}
use zknet_anon_rpc_demo.KpsClient.Outcome.{kps_address-Booted, kps_address_of_Booted}
use zknet_anon_rpc_demo.Walletshield.Boot.{BootAnswer}
use zknet_anon_rpc_demo.KpsRelay.Boot.{Relay, start, boot}

start-done :
    (worker listened : Try (List ℕ)) (r : Relay)
    → start worker listened ≡ go_on r
    → listened ≡ done r.kps_addr
unfolding start
start-done worker (failed text) r h = cc
start-done worker (done address) r h = ground arith

-- Where the relay has started, and the boot URL reaches its /boot, whose JSON is decoded to the
-- address that was encoded: kps-client goes on with an address exactly when it is the one that the
-- listener started with, and is not empty.
pub kps_address-relay :
    (w : World) (encode : BootAnswer → List ℕ) (boot_url host address : List ℕ)
    (worker listened : Try (List ℕ)) (r : Relay)
    → start worker listened ≡ go_on r
    → w.get (boot_url ++ codes "/boot") ≡ done (encode (boot r host))
    → ((answer : BootAnswer) → w.decode_boot (encode answer) ≡ done answer.kps_addr)
    → (kps_address w boot_url ≡ go_on address) ↔ ((listened ≡ done address) × (address ≢ []))
unfolding boot
kps_address-relay w encode boot_url host address worker listened r h get decode =
    let started = start-done worker listened r h in
    let answer = boot r host in
    (
      λ k.
          let b = kps_address-Booted w boot_url address k in
          let same : r.kps_addr ≡ address =
            ground (arith, get, b.fetched, b.decoded, decode answer) in
          (ground arith, b.not_empty),
      λ (l, n). kps_address_of_Booted w boot_url address (record {
        boot_resp = encode answer;
        fetched = get;
        decoded = ground (arith, decode answer, started, l);
        not_empty = n;
      }),
    )
