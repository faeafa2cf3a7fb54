-- ===== src/Tunnel/Local.antt =====
-- internal/tunnel/client.go (`callLocal`): a request of the tunnel put to the developer's app, and
-- the app's answer. The texts of errors are without their parts that vary. net/http's sending, the
-- text of a URL and base64 are parameters.
pub mod Faithful
pub mod Relayed
mod Tests
use hooklens.Base.{
  ℕ, ◌+◌, Bool, true, false, ◌||◌, Option, none, some, List, [], ◌∷◌, ◌++◌, Bytes, codes, bytes_eq,
  bytes_key, Map, lookup, insert, to_lower, trim_suffix_byte, any_of, length, ltb, if◌then◌else◌,
}
use hooklens.Capture.{Stream, read_limited}
use hooklens.Tunnel.Protocol.{Header, Request, Response}

-- `url` is URL.String of the target with a path and a query put in place of its own, `accepts`
-- whether NewRequest takes a method and a URL, and `sentence` the text of an error that has no other.
pub record Net : Type 0 where
  pub wide : Bytes → Bytes
  pub canonical : Bytes → Bytes
  pub encode : Bytes → Bytes
  pub decode : Bytes → Option Bytes
  pub target_path : Bytes
  pub url : Bytes → Bytes → Bytes
  pub accepts : Bytes → Bytes → Bool

-- What is sent to the app.
pub record Call : Type 0 where
  pub method : Bytes
  pub url : Bytes
  pub header : Map Bytes (List Bytes)
  pub body : Bytes

-- The app's answer; its headers are in the order in which the map is ranged over.
pub record Answer : Type 0 where
  pub status : ℕ
  pub headers : List (Bytes × List Bytes)
  pub body : Stream

-- An error has the text that `ShortError` makes of it.
pub data Reply : Type 0 where
  unreached : Bytes → Reply
  answered : Answer → Reply

abbrev pub max_body_bytes : ℕ
max_body_bytes = 1048576

unfoldable pub is_hop_by_hop_header : (Bytes → Bytes) → Bytes → Bool
is_hop_by_hop_header wide name = any_of (bytes_eq (to_lower wide name)) (
    codes "connection"
    ∷ codes "keep-alive"
    ∷ codes "proxy-authenticate"
    ∷ codes "proxy-authorization"
    ∷ codes "te"
    ∷ codes "trailer"
    ∷ codes "transfer-encoding"
    ∷ codes "upgrade"
    ∷ [])

-- The values of a key that is canonical.
unfoldable pub values_at : Bytes → Map Bytes (List Bytes) → List Bytes
values_at key m = elim (lookup key m) [ none ↦ [] | some values ↦ values ]

unfoldable pub add : Net → Bytes → Bytes → Map Bytes (List Bytes) → Map Bytes (List Bytes)
add net name content m =
    let key = net.canonical name in insert key (values_at key m ++ (content ∷ [])) m

unfoldable pub set : Net → Bytes → Bytes → Map Bytes (List Bytes) → Map Bytes (List Bytes)
set net name content m = insert (net.canonical name) (content ∷ []) m

-- The switch on the name of one header.
unfoldable pub carried : Net → Header → Map Bytes (List Bytes) → Map Bytes (List Bytes)
carried net h m =
    let lower = to_lower net.wide h.name in
    if bytes_eq lower (codes "host")
    then set net (codes "X-Forwarded-Host") h.content m
    else if bytes_eq lower (codes "content-length")
    then m
    else if is_hop_by_hop_header net.wide h.name
    then m
    else add net h.name h.content m

unfoldable pub carry : Net → List Header → Map Bytes (List Bytes) → Map Bytes (List Bytes)
carry net [] m = m
carry net (h ∷ rest) m = carry net rest (carried net h m)

unfoldable pub outgoing : Net → Request → Bytes → Call
outgoing net req body = record {
  method = req.method;
  url = net.url (trim_suffix_byte net.target_path b'/' ++ req.path) req.query;
  header = set net (codes "X-Forwarded-By") (codes "hooklens") (carry net req.headers []);
  body = body;
}

abbrev pub problem : Bytes → Response
problem text = record { req_id = []; status = 0; headers = []; body_b64 = []; error = text }

unfoldable pub one_header : Bytes → List Bytes → List Header
one_header name [] = []
one_header name (v ∷ values) = (record { name = name; content = v }) ∷ one_header name values

unfoldable pub relayed_headers : Net → List (Bytes × List Bytes) → List Header
relayed_headers net [] = []
relayed_headers net (h ∷ rest) =
    let later = relayed_headers net rest in
    if is_hop_by_hop_header net.wide h.0 then later else one_header h.0 h.1 ++ later

-- The response from what was read of the body, one byte above the limit at most.
unfoldable pub relayed_answer : Net → Answer → Bytes × Bool → Response
relayed_answer net a (body, true) = problem (codes "reading local response")
relayed_answer net a (body, false) =
    if ltb max_body_bytes (length body)
    then problem (codes "local response is larger than the relay limit")
    else record {
      req_id = [];
      status = a.status;
      headers = relayed_headers net a.headers;
      body_b64 = net.encode body;
      error = [];
    }

unfoldable pub read_answer : Net → Reply → Response
read_answer net (unreached text) = problem text
read_answer net (answered a) = relayed_answer net a (read_limited (max_body_bytes + 1) a.body)

-- The call, when there is one, and the response.
unfoldable pub call_decoded : Net → Request → Option Bytes → Reply → Option Call × Response
call_decoded net req none reply = (none, problem (codes "server sent an undecodable body"))
call_decoded net req (some body) reply =
    let call = outgoing net req body in
    if net.accepts call.method call.url
    then (some call, read_answer net reply)
    else (none, problem (codes "could not build local request"))

unfoldable pub call_local : Net → Request → Reply → Option Call × Response
call_local net req reply = call_decoded net req (net.decode req.body_b64) reply

-- `callLocalBounded`, with whether a slot of the semaphore was got before the context ended.
unfoldable pub call_local_bounded : Net → Bool → Request → Reply → Option Call × Response
call_local_bounded net acquired req reply =
    if acquired
    then call_local net req reply
    else (none, problem (codes "hooklens client is at its concurrency limit"))
