-- ===== src/KpsMonitor/Http/Parser.antt =====
-- An HTTP/1.1 request as RFC 9112 reads it, as far as requests with a Content-Length go: a request
-- line, header lines up to an empty line, and as many bytes of body as the header says. It is
-- written from that document, not from `buildHTTPRequest`.
use zknet_anon_rpc_demo.Common.{
  ℕ, zero, suc, ◌+◌, ◌-◌, ◌*◌, ◌&&◌, List, [], ◌∷◌, Option, none, some, Bool, true, false, length,
  take, drop, if◌then◌else◌, ltb, leb, ◌==◌,
}
use zknet_anon_rpc_demo.Common.Maybe.{◌>>=◌}
use zknet_anon_rpc_demo.Common.Bytes.{codes}

abbrev prepend : ℕ → Option (List ℕ × List ℕ) → Option (List ℕ × List ℕ)
prepend c none = none
prepend c (some (l, r)) = some (c ∷ l, r)

-- What stands behind the byte `expected`, which must come next.
abbrev skip : ℕ → List ℕ → Option (List ℕ × List ℕ)
skip expected [] = none
skip expected (c ∷ r) = if c == expected then some ([], r) else none

-- A line and what follows its CRLF; a CR that no LF follows is refused.
unfoldable pub split_line : List ℕ → Option (List ℕ × List ℕ)
split_line [] = none
split_line (c ∷ r) = if c == 13 then skip 10 r else prepend c (split_line r)

-- A header's name and value, around the first ": ".
unfoldable pub split_header : List ℕ → Option (List ℕ × List ℕ)
split_header [] = none
split_header (c ∷ r) = if c == b':' then skip 32 r else prepend c (split_header r)

-- The header lines and what follows the empty line behind them; `fuel` bounds their number.
unfoldable pub parse_headers : ℕ → List ℕ → Option (List (List ℕ × List ℕ) × List ℕ)
parse_headers zero bytes = none
parse_headers (suc fuel) bytes = do
  (line, rest) ← split_line bytes
  elim line [
    | [] ↦ some ([], rest)
    | c ∷ l ↦ split_header (c ∷ l) >>= λ header.
        parse_headers fuel rest >>= λ parsed. some (header ∷ parsed.0, parsed.1)
  ]

unfoldable pub parse_decimal : ℕ → List ℕ → Option ℕ
parse_decimal acc [] = some acc
parse_decimal acc (c ∷ r) =
    let more = parse_decimal (acc * 10 + (c - 48)) r in
    if leb b'0' c && leb c b'9' then more else none

unfoldable pub same_bytes : List ℕ → List ℕ → Bool
same_bytes [] [] = true
same_bytes (x ∷ xs) (y ∷ ys) = x == y && same_bytes xs ys
same_bytes _ _ = false

unfoldable pub header : List ℕ → List (List ℕ × List ℕ) → Option (List ℕ)
unfolding same_bytes
header name [] = none
header name ((n, v) ∷ headers) = if same_bytes n name then some v else header name headers

pub record HttpRequest : Type 0 where
  pub request_line : List ℕ
  pub headers : List (List ℕ × List ℕ)
  pub body : List ℕ
  pub rest : List ℕ

abbrev with_body : List ℕ → List (List ℕ × List ℕ) → List ℕ → ℕ → Option HttpRequest
with_body line headers bytes n =
    if ltb (length bytes) n
    then none
    else some (record {
      request_line = line;
      headers = headers;
      body = take n bytes;
      rest = drop n bytes;
    })

unfoldable pub parse_request : List ℕ → Option HttpRequest
parse_request bytes = do
  (line, bytes) ← split_line bytes
  (headers, bytes) ← parse_headers (length bytes) bytes
  value ← header (codes "Content-Length") headers
  n ← parse_decimal 0 value
  with_body line headers bytes n
