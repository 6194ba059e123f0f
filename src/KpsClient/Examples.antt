-- ===== src/KpsClient/Examples.antt =====
-- Tests of the model of kps-client, and the theorems at concrete inputs.
use zknet_anon_rpc_demo.Common.{◌≡◌, ◌↔◌, refl, [], none, some}
use zknet_anon_rpc_demo.Common.Int.{pos}
use zknet_anon_rpc_demo.Common.Bytes.{codes}
use zknet_anon_rpc_demo.Common.Try.{done}
use zknet_anon_rpc_demo.KpsMonitor.Http.{build_http_request}
use zknet_anon_rpc_demo.KpsClient.{
  Flags, World, result, rpc_error, printed, exit_1, no_address, kps_address, exchange, main,
}
use zknet_anon_rpc_demo.KpsClient.Outcome.{Answered, main_result}

abbrev flags : Flags
flags = record {
  boot_url = codes "http://127.0.0.1:9200";
  rpc_method = codes "eth_blockNumber";
  rpc_host = codes "rpc.example";
}

-- A world in which all goes well.
abbrev good : World
good = record {
  get = λ url. done (codes "{}");
  decode_boot = λ body. done (codes "kps://a");
  dial = λ address. done tt;
  stream = done tt;
  marshal = λ method. method;
  send = λ request. done tt;
  read_all = done (codes "0x1");
  unmarshal_cbor = λ bytes. done bytes;
  read_response = λ payload. done (record { status_code = 200; body = payload });
  unmarshal_json = λ body. done (record { result = body; error = none });
}

abbrev refusing : World
refusing = record good {
  unmarshal_json = λ body. done (record { result = []; error = some (pos 3, codes "no") });
}

-- An answer without kpsAddr ends with status 1, an error of the node with status 0.
no_address_test : main (record good { decode_boot = λ body. done [] }) flags ≡ exit_1 no_address
unfolding main kps_address
no_address_test = refl

refused_test : main refusing flags ≡ printed 200 (rpc_error (pos 3) (codes "no"))
unfolding main kps_address exchange build_http_request
refused_test = refl

good_test : main good flags ≡ printed 200 (result (codes "0x1"))
unfolding main kps_address exchange build_http_request
good_test = refl

main_result_example :
    (main good flags ≡ printed 200 (result (codes "0x1"))) ↔ Answered good flags 200 (codes "0x1")
main_result_example = main_result good flags 200 (codes "0x1")
