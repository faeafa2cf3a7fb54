-- ===== src/Replay.antt =====
-- internal/replay: a capture sent again, and the destinations that are refused. The texts of errors
-- are kept as a type. Parsing of URLs and addresses, the resolver and the sockets are parameters.
pub mod Addresses
pub mod Ranges
pub mod Reserved
pub mod Aimed
pub mod Guarded
use hooklens.Base.{
  ℕ, ◌+◌, Bool, true, false, ◌||◌, Option, none, some, List, [], ◌∷◌, ◌++◌, Bytes, codes, bytes_eq,
  bytes_key, Map, lookup, insert, to_lower, trim_space, trim_suffix_byte, any_of, if◌then◌else◌,
}
use hooklens.Capture.{Header, Stream, read_limited}
use hooklens.Server.Net.{split_host_port}
use hooklens.Replay.Addresses.{Addr, Reason, blocked}

-- The parts of a net/url.URL that are read; `host` is Hostname.
pub record Url : Type 0 where
  pub scheme : Bytes
  pub host : Bytes
  pub path : Bytes
  pub query : Bytes

-- `parse_url` is url.Parse, `parse_addr` netip.ParseAddr, `accepts` whether NewRequest takes a method
-- and a URL, and `wide` strings.ToLower outside ASCII.
pub record Library : Type 0 where
  pub parse_url : Bytes → Option Url
  pub parse_addr : Bytes → Option Addr
  pub accepts : Bytes → Url → Bool
  pub canonical : Bytes → Bytes
  pub wide : Bytes → Bytes

pub data Error : Type 0 where
  no_target bad_target bad_scheme no_host : Error
  blocked_destination : Reason → Error
  unparseable not_an_ip : Error
  no_address refused bad_request unread_response : Error

pub data Result {ℓ} (A : Type ℓ) : Type ℓ where
  ok : A → Result A
  err : Error → Result A

pub record Request : Type 0 where
  pub method : Bytes
  pub path : Bytes
  pub query : Bytes
  pub headers : List Header
  pub body : Bytes

-- What the client sends; the header's keys are canonical.
pub record Call : Type 0 where
  pub method : Bytes
  pub url : Url
  pub header : Map Bytes (List Bytes)
  pub body : Bytes

pub record Response : Type 0 where
  pub status : ℕ
  pub headers : List Header
  pub body : Bytes

-- What the destination answers; its header in the order in which the map is ranged over.
pub record Answer : Type 0 where
  pub status : ℕ
  pub header : List (Bytes × List Bytes)
  pub body : Stream

-- What a call to a URL does: connections, and the request that is sent on one.
pub data Effect : Type 0 where
  connect : Bytes → Effect
  send : Bytes → Call → Effect

-- The network: the addresses that the dialer tries for a host, each with whether it connects, and the
-- answer to what is sent, or none.
pub record Network : Type 0 where
  pub tries : List (Bytes × Bool)
  pub answer : Option Answer

abbrev pub replay_header : Bytes
replay_header = codes "X-Hooklens-Replay"

abbrev pub max_response_bytes : ℕ
max_response_bytes = 1048576

module _ (lib : Library) where
  unfoldable pub hop_by_hop : Bytes → Bool
  hop_by_hop name = any_of (bytes_eq (to_lower lib.wide name)) (
      codes "connection"
      ∷ codes "keep-alive"
      ∷ codes "proxy-authenticate"
      ∷ codes "proxy-authorization"
      ∷ codes "te"
      ∷ codes "trailer"
      ∷ codes "transfer-encoding"
      ∷ codes "upgrade"
      ∷ codes "content-length"
      ∷ codes "host"
      ∷ [])

  unfoldable pub parsed_url : Option Url → Result Url
  parsed_url none = err bad_target
  parsed_url (some u) =
      if bytes_eq u.scheme (codes "http") || bytes_eq u.scheme (codes "https")
      then (if bytes_eq u.host [] then err no_host else ok u)
      else err bad_scheme

  unfoldable pub parse_http_url : Bytes → Result Url
  parse_http_url raw =
      let text = trim_space raw in
      if bytes_eq text [] then err no_target else parsed_url (lib.parse_url text)

  unfoldable pub check_addr : Option Addr → Option Error
  check_addr none = none
  check_addr (some a) = elim (blocked a) [
    | none ↦ none
    | some reason ↦ some (blocked_destination reason)
  ]

  unfoldable pub check_url : Bytes → Option Error
  check_url raw = elim (parse_http_url raw) [
    | err e ↦ some e
    | ok u ↦ check_addr (lib.parse_addr u.host)
  ]

  -- The dialer's Control, with the address that is about to be connected to.
  unfoldable pub control_addr : Option Addr → Option Error
  control_addr none = some not_an_ip
  control_addr (some a) = check_addr (some a)

  unfoldable pub control : Bytes → Option Error
  control address = elim (split_host_port address) [
    | none ↦ some unparseable
    | some (host, port) ↦ control_addr (lib.parse_addr host)
  ]

  -- The error of an address, if the later ones fail too.
  unfoldable pub or_error : Error → Result Bytes → Result Bytes
  or_error e (ok address) = ok address
  or_error e (err later) = err e

  -- One address, with what Control says of it and what comes of the later ones.
  unfoldable pub tried :
      Option Error → Bytes × Bool → List Effect × Result Bytes → List Effect × Result Bytes
  tried (some e) t later = (later.0, or_error e later.1)
  tried none (address, true) later = (connect address ∷ [], ok address)
  tried none (address, false) later = (connect address ∷ later.0, or_error refused later.1)

  -- net.Dialer: each address in turn, Control before the connection; the first error is kept.
  unfoldable pub dial : List (Bytes × Bool) → List Effect × Result Bytes
  dial [] = ([], err no_address)
  dial (t ∷ rest) = tried (control t.0) t (dial rest)

  -- A header that is sent on.
  unfoldable pub values_at : Bytes → Map Bytes (List Bytes) → List Bytes
  values_at key header = elim (lookup key header) [ none ↦ [] | some values ↦ values ]

  unfoldable pub carry : List Header → Map Bytes (List Bytes) → Map Bytes (List Bytes)
  carry [] header = header
  carry (h ∷ rest) header =
      let key = lib.canonical h.name in
      if hop_by_hop h.name
      then carry rest header
      else carry rest (insert key (values_at key header ++ (h.content ∷ [])) header)

  unfoldable pub outgoing : Url → Request → Call
  outgoing u req = record {
    method = req.method;
    url = record {
      scheme = u.scheme;
      host = u.host;
      path = trim_suffix_byte u.path b'/' ++ req.path;
      query = if bytes_eq req.query [] then u.query else req.query;
    };
    header = insert (lib.canonical replay_header) (codes "1" ∷ []) (carry req.headers []);
    body = req.body;
  }

  unfoldable pub one_header : Bytes → List Bytes → List Header
  one_header name [] = []
  one_header name (v ∷ values) = (record { name = name; content = v }) ∷ one_header name values

  unfoldable pub all_headers : List (Bytes × List Bytes) → List Header
  all_headers [] = []
  all_headers (h ∷ rest) = one_header h.0 h.1 ++ all_headers rest

  unfoldable pub read_answer : Option Answer → Result Response
  read_answer none = err refused
  read_answer (some a) =
      let (body, fails) = read_limited max_response_bytes a.body in
      if fails
      then err unread_response
      else ok (record { status = a.status; headers = all_headers a.header; body = body })

  -- `client.Do`, which follows no redirect, from what the dialer came to.
  unfoldable pub sent_on :
      Option Answer → Call → List Effect × Result Bytes → List Effect × Result Response
  sent_on answer call (effects, err e) = (effects, err e)
  sent_on answer call (effects, ok address) =
      (effects ++ (send address call ∷ []), read_answer answer)

  abbrev pub do_call : Network → Call → List Effect × Result Response
  do_call net call = sent_on net.answer call (dial net.tries)

  unfoldable pub send_to : Network → Request → Result Url → List Effect × Result Response
  send_to net req (err e) = ([], err e)
  send_to net req (ok u) =
      let call = outgoing u req in
      if lib.accepts call.method call.url then do_call net call else ([], err bad_request)

  unfoldable pub to_url : Network → Bytes → Request → List Effect × Result Response
  to_url net target req = send_to net req (parse_http_url target)
