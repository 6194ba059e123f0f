-- ===== src/KpsMonitor/Http/RoundTrip.antt =====
-- The request that `buildHTTPRequest` writes, read by an HTTP parser.
use zknet_anon_rpc_demo.Common.{
  ℕ, suc, ◌≡◌, ◌≢◌, List, [], ◌∷◌, ◌++◌, some, arith, All, All-append, sym, refl, ◌∙◌, length, ap,
  take-length, drop-length, le→ltb,
}
use zknet_anon_rpc_demo.Common.Bytes.{codes}
use zknet_anon_rpc_demo.Common.Decimal.{decimal}
use zknet_anon_rpc_demo.KpsMonitor.Http.{crlf, build_http_request}
use zknet_anon_rpc_demo.KpsMonitor.Http.Parser.{
  split_line, split_header, parse_headers, header, parse_request,
}
use zknet_anon_rpc_demo.KpsMonitor.Http.Decimal.{parse_decimal-decimal, decimal-IsDigit, IsDigit}
use mathlib.Core.List.{append_assoc}

abbrev pub IsLineByte : ℕ → Type 0
IsLineByte c = (c ≢ 13) × (c ≢ 10)

split_line-append :
    (line rest : List ℕ)
    → All IsLineByte line
    → split_line (line ++ (13 ∷ 10 ∷ rest)) ≡ some (line, rest)
unfolding split_line
split_line-append [] rest h = refl
split_line-append (c ∷ line) rest (p, h) = ground (arith, split_line-append line rest h)

split_header-append :
    (name value : List ℕ)
    → All (λ c. c ≢ b':') name
    → split_header (name ++ (58 ∷ 32 ∷ value)) ≡ some (name, value)
unfolding split_header
split_header-append [] value h = refl
split_header-append (c ∷ name) value (p, h) = ground (arith, split_header-append name value h)

digits-IsLineByte : (s : List ℕ) → All IsDigit s → All IsLineByte s
digits-IsLineByte [] h = tt
digits-IsLineByte (c ∷ s) (p, h) = ((omega arith, omega arith), digits-IsLineByte s h)

line_of :
    (name value rest : List ℕ) (x : ℕ)
    → All IsLineByte (x ∷ name)
    → All IsLineByte value
    → split_line (x ∷ (name ++ (58 ∷ 32 ∷ (value ++ (13 ∷ 10 ∷ rest)))))
      ≡ some ((x ∷ name) ++ (58 ∷ 32 ∷ value), rest)
line_of name value rest x hn hv =
    ap split_line
      (ap (λ (l : List ℕ). x ∷ l) (sym (append_assoc name (58 ∷ 32 ∷ value) (13 ∷ 10 ∷ rest))))
    ∙ split_line-append ((x ∷ name) ++ (58 ∷ 32 ∷ value)) rest
        (All-append IsLineByte (x ∷ name) (58 ∷ 32 ∷ value) hn (omega arith, (omega arith, hv)))

-- One header line, whose name is not empty.
parse_headers-line :
    (fuel x : ℕ) (name value rest : List ℕ) {headers : List (List ℕ × List ℕ)} {last : List ℕ}
    → All IsLineByte (x ∷ name)
    → All (λ c. c ≢ b':') (x ∷ name)
    → All IsLineByte value
    → parse_headers fuel rest ≡ some (headers, last)
    → parse_headers (suc fuel) ((x ∷ name) ++ (58 ∷ 32 ∷ value ++ (13 ∷ 10 ∷ rest)))
      ≡ some ((x ∷ name, value) ∷ headers, last)
unfolding parse_headers
parse_headers-line fuel x name value rest hn hc hv e =
    rw (line_of name value rest x hn hv, split_header-append (x ∷ name) value hc, e)

parse_headers_end :
    (fuel : ℕ) (rest : List ℕ) → parse_headers (suc fuel) (13 ∷ 10 ∷ rest) ≡ some ([], rest)
unfolding parse_headers split_line
parse_headers_end fuel rest = refl

abbrev pub headers_of : List ℕ → List ℕ → List (List ℕ × List ℕ)
headers_of host body =
    (codes "Host", host)
    ∷ (codes "Content-Type", codes "application/json")
    ∷ (codes "Content-Length", decimal (length body))
    ∷ []

parse_headers-request :
    (fuel : ℕ) (host body : List ℕ)
    → All IsLineByte host
    → parse_headers (suc (suc (suc (suc fuel)))) (
        codes "Host: "
        ++ (host
            ++ (crlf
                ++ (codes "Content-Type: application/json\r\n"
                    ++ (codes "Content-Length: "
                        ++ (decimal (length body) ++ (crlf ++ (crlf ++ body))))))))
      ≡ some (headers_of host body, body)
parse_headers-request fuel host body h =
    parse_headers-line _ _ (codes "ost") host _ (omega arith) (omega arith) h (
      parse_headers-line _ _ (codes "ontent-Type") (codes "application/json") _ (omega arith)
        (omega arith) (omega arith)
        (parse_headers-line _ _ (codes "ontent-Length") (decimal (length body)) _ (omega arith)
          (omega arith) (digits-IsLineByte _ (decimal-IsDigit (length body)))
          (parse_headers_end fuel body)))

-- For a host name with no CR or LF, an HTTP parser reads the bytes of `buildHTTPRequest` as one
-- POST of "/" with three headers, the host name first and the length of the body last, takes the
-- whole body, and finds nothing behind it.
pub parse_request-build_http_request :
    (host body : List ℕ)
    → All IsLineByte host
    → parse_request (build_http_request host body)
      ≡ some (record {
        request_line = codes "POST / HTTP/1.1";
        headers = headers_of host body;
        body = body;
        rest = [];
      })
unfolding parse_request build_http_request split_line header
parse_request-build_http_request host body h = rw (
  parse_headers-request _ host body h,
  parse_decimal-decimal (length body),
  le→ltb (length body) (length body) (omega arith),
  take-length body,
  drop-length body,
)
