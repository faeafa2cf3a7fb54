-- ===== src/Tunnel/Local/Tests.antt =====
-- One exchange with an app, with toy parameters.
use hooklens.Base.{
  ◌≡◌, refl, true, false, some, [], ◌∷◌, ◌++◌, Bytes, codes, bytes_eq, bytes_key, lookup, insert,
  to_lower, trim_suffix_byte,
}
use hooklens.Capture.{read_limited}
use hooklens.Tunnel.Protocol.{Header, Request}
use hooklens.Tunnel.Local.{
  Net, Answer, is_hop_by_hop_header, values_at, add, set, carried, carry, outgoing, one_header,
  relayed_headers, relayed_answer, read_answer, call_decoded, call_local,
}
use hooklens.Tunnel.Local.Faithful.{passed}

program : Unit {0}
unfolding bytes_eq lookup insert to_lower trim_suffix_byte read_limited is_hop_by_hop_header
    values_at add set carried carry outgoing one_header relayed_headers relayed_answer read_answer
    call_decoded call_local passed
program = tt

abbrev net : Net
net = record {
  wide = λ s. s;
  canonical = λ s. s;
  encode = λ s. s;
  decode = λ s. some s;
  target_path = codes "/api/";
  url = λ path query. path ++ (codes "?" ++ query);
  accepts = λ method url. true;
}

abbrev header : Bytes → Bytes → Header
header name content = record { name = name; content = content }

abbrev frame : Request
frame = record {
  req_id = codes "1";
  method = codes "POST";
  path = codes "/hook";
  query = codes "a=1";
  headers =
      header (codes "Host") (codes "a7f3.hooklens.dev")
      ∷ header (codes "Connection") (codes "close")
      ∷ header (codes "X-A") (codes "1")
      ∷ header (codes "X-A") (codes "2")
      ∷ [];
  body_b64 = codes "body";
}

abbrev answer : Answer
answer = record {
  status = 201;
  headers = (codes "Te", codes "x" ∷ []) ∷ (codes "Set-Cookie", codes "a" ∷ codes "b" ∷ []) ∷ [];
  body = record { bytes = codes "done"; fails = false };
}

sent : (outgoing net frame (codes "body")).url ≡ codes "/api/hook?a=1"
unfolding program
sent = refl

host_forwarded :
    values_at (codes "X-Forwarded-Host") (outgoing net frame (codes "body")).header
    ≡ codes "a7f3.hooklens.dev" ∷ []
unfolding program
host_forwarded = refl

cookies :
    relayed_headers net answer.headers
    ≡ header (codes "Set-Cookie") (codes "a") ∷ header (codes "Set-Cookie") (codes "b") ∷ []
unfolding program
cookies = refl
