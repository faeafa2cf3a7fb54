-- ===== src/Ingest/Replies.antt =====
-- internal/ingest/ingest.go: the replies to the provider.
use hooklens.Base.{
  ℕ, ◌+◌, ◌/◌, max, Bool, not, ◌||◌, none, some, List, [], ◌∷◌, ◌++◌, Bytes, codes, bytes_eq,
  bytes_key, length, ltb, if◌then◌else◌, format_uint, to_lower, any_of, keep,
}
use hooklens.Store.{ForwardOutcome}
use hooklens.Capture.{HttpRequest, from_http}
use hooklens.Capture
use hooklens.Ingest.Cache.{second}
use hooklens.Tunnel.Protocol
use hooklens.Tunnel.Protocol.{Response}
use hooklens.Ingest.Types.{
  ReplyBody, Reply, Decision, Library, error_json, limited_json, captured_json, app_body,
}

abbrev pub header_set : Bytes → Bytes → List (Bytes × Bytes) → List (Bytes × Bytes)
header_set name v hs = keep (λ h. not (bytes_eq h.0 name)) hs ++ ((name, v) ∷ [])

unfoldable pub write_json : ℕ → List (Bytes × Bytes) → ReplyBody → Reply
write_json status hs body = record {
  status = status;
  headers = header_set (codes "Content-Type") (codes "application/json; charset=utf-8") hs;
  body = body;
}

abbrev pub hop_by_hop : List Bytes
hop_by_hop =
    codes "connection"
    ∷ codes "keep-alive"
    ∷ codes "proxy-authenticate"
    ∷ codes "proxy-authorization"
    ∷ codes "te"
    ∷ codes "trailer"
    ∷ codes "transfer-encoding"
    ∷ codes "upgrade"
    ∷ codes "content-length"
    ∷ []

unfoldable pub relayed_status : ℕ → ℕ
relayed_status status = if ltb status 100 || ltb 599 status then 502 else status

unfoldable pub captured_reply : Bytes → Bytes → Capture.Request → ForwardOutcome → Reply
captured_reply slug id req out =
    write_json 200
      (header_set (codes "X-Hooklens-Forward")
        (if bytes_eq out.error [] then codes "captured" else out.error)
        (header_set (codes "X-Hooklens-Id") id []))
      (captured_json id slug (length req.body) req.truncated)

unfoldable pub unavailable : Bytes → Reply
unavailable message = write_json 503 [] (error_json message)

-- Whole seconds, rounded up, and one at least.
abbrev pub retry_seconds : ℕ → ℕ
retry_seconds retry = max 1 ((retry + 999000000) / second)

unfoldable pub limited_reply : ℕ → Reply
limited_reply retry =
    write_json 429 (header_set (codes "Retry-After") (format_uint (retry_seconds retry)) []) (
      limited_json (codes "rate limit exceeded for this inbox")
        (codes "Raise HOOKLENS_RATE_CAPTURE if this is legitimate traffic."))

module _ (lib : Library) where
  unfoldable pub is_hop_by_hop : Bytes → Bool
  is_hop_by_hop name = any_of (λ h. bytes_eq h (to_lower lib.wide name)) hop_by_hop

  unfoldable pub relayed : List Protocol.Header → List (Bytes × Bytes)
  relayed [] = []
  relayed (h ∷ rest) =
      if is_hop_by_hop h.name
      then relayed rest
      else (lib.canonical h.name, h.content) ∷ relayed rest

  unfoldable pub relayed_body : Bytes → Bytes
  relayed_body body_b64 = elim (lib.decode body_b64) [ none ↦ [] | some b ↦ b ]

  unfoldable pub write_forwarded : Response → Bytes → Reply
  write_forwarded resp id = record {
    status = relayed_status resp.status;
    headers =
        header_set (codes "X-Hooklens-Id") id
          (header_set (codes "X-Hooklens-Forward") (codes "delivered") (relayed resp.headers));
    body = app_body (relayed_body resp.body_b64);
  }

  unfoldable pub reply_of : Bytes → Bytes → Capture.Request → Decision → Reply
  reply_of slug id req (none, out) = captured_reply slug id req out
  reply_of slug id req (some resp, out) =
      if bytes_eq resp.error [] then write_forwarded resp id else captured_reply slug id req out
