-- ===== src/Ingest/Handler.antt =====
-- internal/ingest/ingest.go: the capture handler. What the database, the tunnel and the clock
-- answer during one request is its `Arrival`; the calls that it makes on them, in their order, are
-- its effects.
pub mod Durability
pub mod Forwarding
pub mod Outcomes
pub mod Relayed
pub mod Touches
mod Tests
use hooklens.Base.{
  ℕ, ◌+◌, ◌-◌, ◌*◌, ◌/◌, ◌≤◌, max, Bool, true, false, not, ◌&&◌, ◌||◌, Option, none, some, List, [],
  ◌∷◌, ◌++◌, map, Bytes, codes, bytes_eq, bytes_key, Map, lookup, insert, retain, count_failing,
  length, ltb, leb, ◌==◌, if◌then◌else◌, format_uint, to_lower, any_of, keep, cut_prefix,
}
use hooklens.Store.{Endpoint, ForwardOutcome, Answer, found, not_found, failure}
use hooklens.Capture.{HttpRequest, from_http}
use hooklens.Capture
use hooklens.Ingest.Cache.{EndpointCache, resolve, second}
use hooklens.Ratelimit.{Limiter, allow}
use hooklens.Tunnel.Protocol
use hooklens.Tunnel.Protocol.{Response}
use hooklens.Tunnel.Sends.{
  SendError, no_tunnel, timeout, disconnected, overloaded, encode_failed, write_failed,
}
pub use hooklens.Ingest.Types.{
  reserved_prefix, touch_interval, Handler, State, Attempt, Notice, Effect, ReplyBody, Reply,
  Arrival, Decision, no_outcome, Result, Library, refused, responded, capture_notice,
  delivery_notice, stored, touched_at, published, forwarded, recorded, counted_stored,
  counted_rejected, counted_forward, error_json, no_inbox_json, limited_json, health_json,
  captured_json, app_body,
}
unfoldable pub use hooklens.Ingest.Types.{is_zero}
pub use hooklens.Ingest.Replies.{header_set, hop_by_hop, retry_seconds}
unfoldable pub use hooklens.Ingest.Replies.{
  write_json, relayed_status, captured_reply, unavailable, limited_reply, is_hop_by_hop, relayed,
  relayed_body, write_forwarded, reply_of,
}

unfoldable pub forward_error_code : SendError → Bytes
forward_error_code no_tunnel = codes "no_tunnel"
forward_error_code timeout = codes "timeout"
forward_error_code disconnected = codes "disconnected"
forward_error_code overloaded = codes "overloaded"
forward_error_code encode_failed = codes "protocol"
forward_error_code write_failed = codes "protocol"

abbrev pub to_tunnel_headers : List Capture.Header → List Protocol.Header
to_tunnel_headers hs = map (λ h. record { name = h.name; content = h.content }) hs

unfoldable pub should_touch : Bytes → ℕ → Map Bytes ℕ → Bool × Map Bytes ℕ
should_touch id now touched = elim (lookup id touched) [
  | none ↦ (true, insert id now touched)
  | some at ↦
      if ltb now (at + touch_interval) then (false, touched) else (true, insert id now touched)
]

unfoldable pub evict_touched : ℕ → ℕ → Map Bytes ℕ → ℕ × Map Bytes ℕ
evict_touched idle now touched =
    (count_failing (λ at. leb now (at + idle)) touched, retain (λ at. leb now (at + idle)) touched)

unfoldable pub decided : Attempt → ℕ → Decision
decided (refused err) elapsed =
    (none, record { status = 0; error = forward_error_code err; elapsed = elapsed })
decided (responded resp) elapsed = (
  some resp,
  if bytes_eq resp.error []
      then (record { status = resp.status; error = []; elapsed = elapsed })
      else (record { status = 0; error = codes "unreachable"; elapsed = elapsed }),
)

-- Nothing is published when nobody watches.
abbrev pub publish : Handler → Bool → Bytes → Notice → List Effect
publish h watched endpoint notice =
    if h.broker && watched then published endpoint notice ∷ [] else []

abbrev pub count : Handler → Effect → List Effect
count h e = if h.rec then e ∷ [] else []

-- The outcome is counted, recorded, and announced once the record is there.
unfoldable pub settle_outcome : Handler → Arrival → Bytes → Bytes → ForwardOutcome → List Effect
settle_outcome h a endpoint id out =
    if is_zero out
    then []
    else count h (
        counted_forward (if bytes_eq out.error [] then codes "delivered" else out.error)
          out.elapsed)
      ++ (if a.record_ok
          then recorded id out ∷ publish h a.still_watched endpoint (delivery_notice id out)
          else [])

unfoldable pub serve_reserved : State → Bytes → Bytes → Result
serve_reserved s slug rest =
    if bytes_eq rest (codes "health")
    then ([], write_json 200 [] (health_json slug), s)
    else ([], write_json 404 [] (error_json (codes "unknown reserved path")), s)

module _ (lib : Library) where
  abbrev pub tunnel_request : Capture.Request → Protocol.Request
  tunnel_request req = record {
    req_id = [];
    method = req.method;
    path = req.path;
    query = req.query;
    headers = to_tunnel_headers req.headers;
    body_b64 = lib.encode req.body;
  }

  unfoldable pub forward : Handler → Bytes → Capture.Request → Attempt → ℕ → List Effect × Decision
  forward h endpoint req attempt elapsed =
      if not h.fwd
      then ([], (none, no_outcome))
      else if req.truncated
      then ([], (none, record { status = 0; error = codes "too_large"; elapsed = 0 }))
      else (forwarded endpoint (tunnel_request req) ∷ [], decided attempt elapsed)

  -- Everything below the durability line.
  unfoldable pub after_insert : Handler → State → Arrival → Bytes → Bytes → Capture.Request → Result
  after_insert h s a endpoint id req =
      let (due, touched) = should_touch endpoint req.received_at s.touched in
      let (sent, decision) = forward h endpoint req a.attempt a.elapsed in
      (
        stored endpoint req ∷ count h (counted_stored (length req.body))
            ++ (if due then touched_at endpoint req.received_at ∷ [] else [])
            ++ publish h a.watched endpoint (capture_notice id req)
            ++ sent
            ++ settle_outcome h a endpoint id decision.1,
        reply_of lib a.slug id req decision,
        record s { touched = touched },
      )

  -- By what the insertion returned.
  unfoldable pub inserted :
      Handler → State → Arrival → Bytes → Capture.Request → Option Bytes → Result
  inserted h s a endpoint req none = ([], unavailable (codes "temporarily unavailable"), s)
  inserted h s a endpoint req (some id) = after_insert h s a endpoint id req

  unfoldable pub insert_request :
      Handler → State → Arrival → Bytes → Option Capture.Request → Result
  insert_request h s a endpoint none = ([], unavailable (codes "could not read request"), s)
  insert_request h s a endpoint (some req) = inserted h s a endpoint req a.insertion

  unfoldable pub admitted :
      Handler → State → Arrival → Bytes → Option Capture.Request → Option Limiter → Result
  admitted h s a endpoint req none = insert_request h s a endpoint req
  admitted h s a endpoint req (some l) =
      let ((ok, retry), l') = allow endpoint a.allowed_at l in
      let s' = record s { limiter = some l' } in
      if ok
      then insert_request h s' a endpoint req
      else (count h (counted_rejected (codes "rate_limited")), limited_reply retry, s')

  unfoldable pub resolved : Handler → State → Arrival → Answer → Result
  resolved h s a not_found =
      ([], write_json 404 [] (no_inbox_json (codes "no such inbox") a.slug), s)
  resolved h s a failure = ([], unavailable (codes "temporarily unavailable"), s)
  resolved h s a (found ep) =
      admitted h s a ep.id (from_http lib.parse_addr a.http h.max_body a.received_at) s.limiter

  unfoldable pub capture : Handler → State → Arrival → Result
  capture h s a =
      let (answer, endpoints) = resolve a.slug a.asked_at a.answered_at a.answer s.endpoints in
      resolved h (record s { endpoints = endpoints }) a answer

  -- `path` is r.URL.Path, the decoded one.
  unfoldable pub serve_http : Handler → State → Arrival → Bytes → Result
  serve_http h s a path = elim (cut_prefix path reserved_prefix) [
    | none ↦ capture h s a
    | some rest ↦ serve_reserved s a.slug rest
  ]
