-- ===== src/KpsMonitor/Http.antt =====
-- `buildHTTPRequest` of kps-monitor/main.go, whose text kps-client/main.go writes too.
pub mod Parser
pub mod Decimal
pub mod RoundTrip
use zknet_anon_rpc_demo.Common.{
  ℕ, zero, suc, ◌+◌, ◌/◌, ◌%◌, ◌<◌, List, [], ◌∷◌, ◌++◌, length, if◌then◌else◌, ltb, arith,
}
use zknet_anon_rpc_demo.Common.Bytes.{codes}
use zknet_anon_rpc_demo.Common.Decimal.{decimal}

abbrev pub crlf : List ℕ
crlf = 13 ∷ 10 ∷ []

unfoldable pub build_http_request : List ℕ → List ℕ → List ℕ
build_http_request host body =
    codes "POST / HTTP/1.1\r\n"
    ++ (codes "Host: "
        ++ (host
            ++ (crlf
                ++ (codes "Content-Type: application/json\r\n"
                    ++ (codes "Content-Length: "
                        ++ (decimal (length body) ++ (crlf ++ (crlf ++ body))))))))
