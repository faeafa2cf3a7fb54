-- ===== src/Tunnel/Protocol.antt =====
-- internal/tunnel/protocol.go: the frames' payloads, and which close codes end a client for good.
use hooklens.Base.{ℕ, Bool, List, [], ◌++◌, Bytes, codes, bytes_eq, ◌||◌, if◌then◌else◌}

pub record Header : Type 0 where
  pub name : Bytes
  pub content : Bytes

pub record Request : Type 0 where
  pub req_id : Bytes
  pub method : Bytes
  pub path : Bytes
  pub query : Bytes
  pub headers : List Header
  pub body_b64 : Bytes

pub record Response : Type 0 where
  pub req_id : Bytes
  pub status : ℕ
  pub headers : List Header
  pub body_b64 : Bytes
  pub error : Bytes

abbrev pub code_unauthorized : Bytes
code_unauthorized = codes "unauthorized"

abbrev pub code_version : Bytes
code_version = codes "unsupported_version"

abbrev pub code_malformed : Bytes
code_malformed = codes "malformed_frame"

abbrev pub code_handshake : Bytes
code_handshake = codes "handshake_timeout"

abbrev pub code_replaced : Bytes
code_replaced = codes "replaced"

abbrev pub code_server_shutdown : Bytes
code_server_shutdown = codes "server_shutdown"

pub record CloseError : Type 0 where
  pub code : Bytes
  pub reason : Bytes

-- `Error`: the server's own sentence, or one made from the code.
unfoldable pub error_text : CloseError → Bytes
unfolding bytes_eq
error_text e = if bytes_eq e.reason [] then codes "connection closed: " ++ e.code else e.reason

unfoldable pub permanent : CloseError → Bool
permanent e =
    bytes_eq e.code code_unauthorized
    || bytes_eq e.code code_version
    || bytes_eq e.code code_replaced
