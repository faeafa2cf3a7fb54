-- ===== src/Capture.antt =====
-- internal/capture/request.go: the record kept of one HTTP request, and how it is read.
pub mod Body
pub mod Headers
mod Tests
use hooklens.Base.{
  ℕ, ◌+◌, ◌≤◌, Bool, true, false, not, Option, none, some, List, [], ◌∷◌, ◌++◌, map, Bytes, codes,
  bytes_eq, bytes_key, Map, lookup, take, length, ltb, leb, ◌==◌, if◌then◌else◌,
}
use hooklens.Server.Net.{split_host_port}

abbrev pub default_max_body : ℕ
default_max_body = 1048576

pub record Header : Type 0 where
  pub name : Bytes
  pub content : Bytes

-- What the reader of a body delivers: its bytes and then the end, or an error.
pub record Stream : Type 0 where
  pub bytes : Bytes
  pub fails : Bool

-- The parts of http.Request that are read. A length that is not declared is none; the URL is as
-- its EscapedPath and its RawQuery give it.
pub record HttpRequest : Type 0 where
  pub method : Bytes
  pub escaped_path : Bytes
  pub raw_query : Bytes
  pub header : Map Bytes (List Bytes)
  pub host : Bytes
  pub transfer_encoding : List Bytes
  pub body : Option Stream
  pub content_length : Option ℕ
  pub remote_addr : Bytes

pub record Request : Type 0 where
  pub method : Bytes
  pub path : Bytes
  pub query : Bytes
  pub headers : List Header
  pub body : Bytes
  pub truncated : Bool
  pub declared_size : Option ℕ
  pub source_ip : Option Bytes
  pub received_at : ℕ

-- `Request.ContentType`.
unfoldable pub content_type : List Header → Bytes
content_type [] = []
content_type (h ∷ rest) =
    if bytes_eq h.name (codes "Content-Type") then h.content else content_type rest

-- io.ReadAll of an io.LimitReader: it stops at the limit and does not see what comes after.
unfoldable pub read_limited : ℕ → Stream → Bytes × Bool
read_limited limit s =
    if leb limit (length s.bytes) then (take limit s.bytes, false) else (s.bytes, s.fails)

-- The body, whether there was more of it, and whether there was an error.
unfoldable pub read_body : Option Stream → ℕ → Bytes × Bool × Bool
read_body none max_body = ([], false, false)
read_body (some s) max_body =
    let (body, err) = read_limited (max_body + 1) s in
    if err
    then (body, ltb max_body (length body), true)
    else if ltb max_body (length body)
    then (take max_body body, true, false)
    else (body, false, false)

-- Go's `<` on strings.
unfoldable pub bytes_less : Bytes → Bytes → Bool
bytes_less s [] = false
bytes_less [] (b ∷ t) = true
bytes_less (a ∷ s) (b ∷ t) = let rest = bytes_less s t in if a == b then rest else ltb a b

-- slices.Sorted of the names.
unfoldable pub insert_name : Bytes → List Bytes → List Bytes
insert_name n [] = n ∷ []
insert_name n (m ∷ rest) = if bytes_less m n then m ∷ insert_name n rest else n ∷ m ∷ rest

unfoldable pub sorted_names : Map Bytes (List Bytes) → List Bytes
sorted_names [] = []
sorted_names (entry ∷ rest) = insert_name entry.0 (sorted_names rest)

abbrev pub lines : Bytes → List Bytes → List Header
lines name contents = map (λ c. record { name = name; content = c }) contents

unfoldable pub values : Map Bytes (List Bytes) → Bytes → List Bytes
values header name = elim (lookup name header) [ none ↦ [] | some vs ↦ vs ]

unfoldable pub all_lines : Map Bytes (List Bytes) → List Bytes → List Header
all_lines header [] = []
all_lines header (name ∷ rest) = lines name (values header name) ++ all_lines header rest

-- slices.SortStableFunc by name.
unfoldable pub insert_header : Header → List Header → List Header
insert_header h [] = h ∷ []
insert_header h (g ∷ rest) =
    if bytes_less g.name h.name then g ∷ insert_header h rest else h ∷ g ∷ rest

unfoldable pub sort_headers : List Header → List Header
sort_headers [] = []
sort_headers (h ∷ rest) = insert_header h (sort_headers rest)

unfoldable pub host_lines : Bytes → List Header
host_lines [] = []
host_lines (c ∷ s) = lines (codes "Host") ((c ∷ s) ∷ [])

unfoldable pub headers_of : HttpRequest → List Header
headers_of r = sort_headers (
    all_lines r.header (sorted_names r.header)
    ++ host_lines r.host
    ++ lines (codes "Transfer-Encoding") r.transfer_encoding)

-- `parse_addr` is netip.ParseAddr and then Unmap.
module _ (parse_addr : Bytes → Option Bytes) where
  unfoldable pub source_ip : Bytes → Option Bytes
  source_ip remote_addr = elim (split_host_port remote_addr) [
    | none ↦ parse_addr remote_addr
    | some (host, port) ↦ parse_addr host
  ]

  -- `none` is an error. The clock is an argument.
  unfoldable pub from_http : HttpRequest → ℕ → ℕ → Option Request
  from_http r max_body now =
      let (body, truncated, err) =
        read_body r.body (if max_body == 0 then default_max_body else max_body) in
      if err
      then none
      else some (record {
        method = r.method;
        path = r.escaped_path;
        query = r.raw_query;
        headers = headers_of r;
        body = body;
        truncated = truncated;
        declared_size = r.content_length;
        source_ip = source_ip r.remote_addr;
        received_at = now;
      })
