-- ===== src/Ingest/Types.antt =====
-- internal/ingest/ingest.go: what the capture handler keeps, what happens outside while it serves one
-- request, and what it does and replies.
use hooklens.Base.{
  ℕ, ◌*◌, Bool, ◌&&◌, Option, List, [], Bytes, codes, bytes_eq, bytes_key, Map, ◌==◌,
}
use hooklens.Store.{ForwardOutcome, Answer}
use hooklens.Capture.{HttpRequest, from_http}
use hooklens.Capture
use hooklens.Ingest.Cache.{EndpointCache, second}
use hooklens.Ratelimit.{Limiter}
use hooklens.Tunnel.Protocol
use hooklens.Tunnel.Protocol.{Response}
use hooklens.Tunnel.Sends.{SendError}

abbrev pub reserved_prefix : Bytes
reserved_prefix = codes "/_hooklens/"

abbrev pub touch_interval : ℕ
touch_interval = 60 * second

-- Which of the optional dependencies are there.
pub record Handler : Type 0 where
  pub broker : Bool
  pub fwd : Bool
  pub rec : Bool
  pub max_body : ℕ

-- What the handler remembers between requests.
pub record State : Type 0 where
  pub endpoints : EndpointCache
  pub limiter : Option Limiter
  pub touched : Map Bytes ℕ

-- What the tunnel makes of a forward.
pub data Attempt : Type 0 where
  refused : SendError → Attempt
  responded : Response → Attempt

-- The fields of the two events.
pub data Notice : Type 0 where
  capture_notice : Bytes → Capture.Request → Notice
  delivery_notice : Bytes → ForwardOutcome → Notice

pub data Effect : Type 0 where
  stored : Bytes → Capture.Request → Effect
  touched_at : Bytes → ℕ → Effect
  published : Bytes → Notice → Effect
  forwarded : Bytes → Protocol.Request → Effect
  recorded : Bytes → ForwardOutcome → Effect
  counted_stored : ℕ → Effect
  counted_rejected : Bytes → Effect
  counted_forward : Bytes → ℕ → Effect

pub data ReplyBody : Type 0 where
  error_json : Bytes → ReplyBody
  no_inbox_json : Bytes → Bytes → ReplyBody
  limited_json : Bytes → Bytes → ReplyBody
  health_json : Bytes → ReplyBody
  captured_json : Bytes → Bytes → ℕ → Bool → ReplyBody
  app_body : Bytes → ReplyBody

-- The response to the provider. Header names are in their canonical form.
pub record Reply : Type 0 where
  pub status : ℕ
  pub headers : List (Bytes × Bytes)
  pub body : ReplyBody

-- What happens outside while one request is served. `insert` is the id that the insertion returns.
pub record Arrival : Type 0 where
  pub slug : Bytes
  pub http : HttpRequest
  pub asked_at : ℕ
  pub answered_at : ℕ
  pub answer : Answer
  pub allowed_at : ℕ
  pub received_at : ℕ
  pub insertion : Option Bytes
  pub watched : Bool
  pub attempt : Attempt
  pub elapsed : ℕ
  pub record_ok : Bool
  pub still_watched : Bool

-- `forwardOutcome`: the response, if there is one to relay or to report, and what is recorded.
abbrev pub Decision : Type 0
Decision = Option Response × ForwardOutcome

abbrev pub no_outcome : ForwardOutcome
no_outcome = record { status = 0; error = []; elapsed = 0 }

unfoldable pub is_zero : ForwardOutcome → Bool
is_zero out = out.status == 0 && bytes_eq out.error [] && out.elapsed == 0

abbrev pub Result : Type 0
Result = List Effect × Reply × State

-- Functions of Go's library that are not modelled: strings.ToLower outside ASCII,
-- http.CanonicalHeaderKey, base64 in its two directions, and netip.ParseAddr with Unmap.
pub record Library : Type 0 where
  pub wide : Bytes → Bytes
  pub canonical : Bytes → Bytes
  pub encode : Bytes → Bytes
  pub decode : Bytes → Option Bytes
  pub parse_addr : Bytes → Option Bytes
