-- ===== src/Capture/Tests.antt =====
-- Bodies and headers of concrete requests.
use hooklens.Base.{
  ◌≡◌, refl, not, none, [], ◌∷◌, ◌++◌, Distinct, bytes_eq, bytes_key, lookup, true, false, some,
  codes, ◌&&◌, leb, ltb, take, length, if◌then◌else◌,
}
use hooklens.Capture.{HttpRequest, Stream, headers_of, values, read_limited, read_body}
use hooklens.Capture.Headers.{contents, contents-headers_of}
use hooklens.Capture.Body.{read_body_outcome}

abbrev hung_up : Stream
hung_up = record { bytes = codes "abcdef"; fails = true }

read_body-hung_up : read_body (some hung_up) 4 ≡ (codes "abcd", true, false)
unfolding read_body read_limited
read_body-hung_up = refl

read_body_outcome_example : read_body (some hung_up) 4 ≡ (
    if hung_up.fails && leb (length hung_up.bytes) 4
    then (hung_up.bytes, false, true)
    else (take 4 hung_up.bytes, ltb 4 (length hung_up.bytes), false))
read_body_outcome_example = read_body_outcome hung_up 4

abbrev hook : HttpRequest
hook = record {
  method = codes "POST";
  escaped_path = codes "/";
  raw_query = [];
  header = (codes "X-B", codes "2" ∷ codes "1" ∷ []) ∷ (codes "Accept", codes "*" ∷ []) ∷ [];
  host = codes "shop.dev";
  transfer_encoding = codes "chunked" ∷ [];
  body = none;
  content_length = none;
  remote_addr = [];
}

hook-Distinct : Distinct hook.header
unfolding lookup bytes_eq
hook-Distinct = (refl, (refl, tt))

contents-headers_of_example :
    contents (codes "X-B") (headers_of hook)
    ≡ values hook.header (codes "X-B")
      ++ (if bytes_eq (codes "Host") (codes "X-B") && not (bytes_eq hook.host [])
          then hook.host ∷ []
          else [])
      ++ (if bytes_eq (codes "Transfer-Encoding") (codes "X-B") then hook.transfer_encoding else [])
contents-headers_of_example = contents-headers_of hook (codes "X-B") hook-Distinct
