-- ===== src/Walletshield/Boot/Address.antt =====
-- What kps-client learns from walletshield's /boot.
use zknet_anon_rpc_demo.Common.{ℕ, ◌≡◌, ◌≢◌, ◌↔◌, List, [], ◌∷◌, ◌++◌, arith}
use zknet_anon_rpc_demo.Common.Bytes.{codes}
use zknet_anon_rpc_demo.Common.Try.{Try, done, failed}
use zknet_anon_rpc_demo.Common.Step.{go_on}
use zknet_anon_rpc_demo.KpsClient.{World, kps_address}
use zknet_anon_rpc_demo.KpsClient.Outcome.{kps_address-Booted, kps_address_of_Booted}
use zknet_anon_rpc_demo.Walletshield.Boot.{BootAnswer, start_kps, boot}

start_kps_lem :
    (flag : List ℕ) (listened : Try (List ℕ)) (address : List ℕ)
    → (start_kps flag listened ≡ address)
    → address ≢ []
    → (flag ≢ []) × (listened ≡ done address)
unfolding start_kps
start_kps_lem [] listened address h n = absurd (ground arith)
start_kps_lem (x ∷ xs) (failed text) address h n = absurd (ground arith)
start_kps_lem (x ∷ xs) (done a) address h n = (λ e. cc, ground arith)

start_kps_of :
    (flag : List ℕ) (listened : Try (List ℕ)) (address : List ℕ)
    → flag ≢ []
    → listened ≡ done address
    → start_kps flag listened ≡ address
unfolding start_kps
start_kps_of flag listened address f l = ground arith

-- Where the boot URL reaches walletshield's /boot, whose JSON is decoded to the address that was
-- encoded: kps-client goes on with an address exactly when walletshield was told to listen for KPS,
-- the listener started with that address, and the address is not empty.
pub kps_address-boot :
    (w : World) (encode : BootAnswer → List ℕ)
    (boot_url contract_addr listen_addr kps_listen address : List ℕ) (listened : Try (List ℕ))
    → w.get (boot_url ++ codes "/boot")
      ≡ done (encode (boot contract_addr listen_addr (start_kps kps_listen listened)))
    → ((answer : BootAnswer) → w.decode_boot (encode answer) ≡ done answer.kps_addr)
    → (kps_address w boot_url ≡ go_on address)
      ↔ ((kps_listen ≢ []) × (listened ≡ done address) × (address ≢ []))
unfolding boot
kps_address-boot w encode boot_url contract listen flag address listened get decode =
    let answer = boot contract listen (start_kps flag listened) in
    (
      λ h.
          let b = kps_address-Booted w boot_url address h in
          let same : start_kps flag listened ≡ address =
            ground (arith, get, b.fetched, b.decoded, decode answer) in
          let (f, l) = start_kps_lem flag listened address same b.not_empty in (f, l, b.not_empty),
      λ (f, l, n). kps_address_of_Booted w boot_url address (record {
        boot_resp = encode answer;
        fetched = get;
        decoded = ground (arith, decode answer, start_kps_of flag listened address f l);
        not_empty = n;
      }),
    )
