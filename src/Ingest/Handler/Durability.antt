-- ===== src/Ingest/Handler/Durability.antt =====
-- internal/ingest/ingest.go: what a provider is told, against what was stored.
use hooklens.Base.{
  ℕ, ◌≡◌, ◌⊎◌, inl, inr, refl, Bool, true, false, not, Option, none, some, List, [], ◌∷◌, Bytes,
  bytes_eq, bytes_eq_iff, all_of, codes, if◌then◌else◌, ◌==◌, ◌||◌, length, arith,
}
use hooklens.Store.{ForwardOutcome, Answer, found, not_found, failure}
use hooklens.Capture
use hooklens.Capture.{from_http}
use hooklens.Ingest.Cache.{resolve}
use hooklens.Ratelimit.{Limiter, allow}
use hooklens.Tunnel.Protocol.{Response}
use hooklens.Ingest.Handler.{
  Library, Handler, State, Arrival, Attempt, refused, responded, Effect, stored, counted_rejected,
  Reply, Decision, Result, count, unavailable, limited_reply, write_json, decided, forward,
  captured_reply, captured_json, reply_of, after_insert, inserted, insert_request, admitted,
  resolved, capture,
}
use hooklens.Ingest.Handler.Relayed.{Answered, write_forwarded-Answered}

module _ (lib : Library) (h : Handler) (a : Arrival) where
  -- The reply says success: a 200 with what was captured, or what the developer's app answered without an error.
  abbrev pub Success : Bytes → Capture.Request → Reply → Type 0
  Success id req reply =
      ((reply.status ≡ 200)
        × (reply.body ≡ captured_json id a.slug (length req.body) req.truncated))
      ⊎ ((resp : Response) × (a.attempt ≡ responded resp)
          × (resp.error ≡ [])
          × Answered lib resp id reply)

  -- The first effect is the insertion, and the reply says success.
  abbrev pub Stored : Result → Type 0
  Stored r =
      (id : Bytes) × (endpoint : Bytes) × (req : Capture.Request) × (rest : List Effect)
      × (a.insertion ≡ some id)
      × (r.0 ≡ stored endpoint req ∷ rest)
      × Success id req r.1

  abbrev pub refusal : ℕ → Bool
  refusal status = status == 404 || status == 429 || status == 503

  abbrev pub metric : Effect → Bool
  metric (counted_rejected reason) = true
  metric _ = false

  -- Nothing is done but counting, and the reply asks to come back or says there is no inbox.
  abbrev pub Refused : Result → Type 0
  Refused r = (all_of metric r.0 ≡ true) × (refusal r.1.status ≡ true)

  abbrev pub Settled : Result → Type 0
  Settled r = Stored r ⊎ Refused r

  Settled-if :
      (test : Bool) (x y : Result) → Settled x → Settled y → Settled (if test then x else y)
  Settled-if true x y p q = p
  Settled-if false x y p q = q

  count-metric : (reason : Bytes) → all_of metric (count h (counted_rejected reason)) ≡ true
  count-metric reason = ground arith

  captured_reply-Success :
      (id : Bytes) (req : Capture.Request) (out : ForwardOutcome)
      → Success id req (captured_reply a.slug id req out)
  unfolding captured_reply write_json
  captured_reply-Success id req out = inl (refl, refl)

  -- Where the decision holds a response, it is the one that the tunnel gave.
  abbrev Given : Decision → Type 0
  Given (none, out) = Unit
  Given (some resp, out) = a.attempt ≡ responded resp

  decided-Given : (attempt : Attempt) → a.attempt ≡ attempt → Given (decided attempt a.elapsed)
  unfolding decided
  decided-Given (refused err) h = tt
  decided-Given (responded resp) h = h

  Given-if :
      (test : Bool) (x y : List Effect × Decision)
      → Given x.1
      → Given y.1
      → Given (if test then x else y).1
  Given-if true x y p q = p
  Given-if false x y p q = q

  forward-Given :
      (endpoint : Bytes) (req : Capture.Request)
      → Given (forward lib h endpoint req a.attempt a.elapsed).1
  unfolding forward
  forward-Given endpoint req =
      Given-if (not h.fwd) _ _ tt (Given-if req.truncated _ _ tt (decided-Given a.attempt refl))

  Success-if :
      (id : Bytes) (req : Capture.Request) (test : Bool) (x y : Reply)
      → (test ≡ true → Success id req x)
      → Success id req y
      → Success id req (if test then x else y)
  Success-if id req true x y p q = p refl
  Success-if id req false x y p q = q

  reply_of-Success :
      (id : Bytes) (req : Capture.Request) (decision : Decision)
      → Given decision
      → Success id req (reply_of lib a.slug id req decision)
  unfolding reply_of
  reply_of-Success id req (none, out) given = captured_reply-Success id req out
  reply_of-Success id req (some resp, out) given =
      Success-if id req (bytes_eq resp.error []) _ _
        (λ e.
          inr (resp, given, (bytes_eq_iff resp.error []).0 e, write_forwarded-Answered lib resp id))
        (captured_reply-Success id req out)

  after_insert-Stored :
      (s : State) (endpoint id : Bytes) (req : Capture.Request)
      → a.insertion ≡ some id
      → Stored (after_insert lib h s a endpoint id req)
  unfolding after_insert
  after_insert-Stored s endpoint id req kept = (
    id,
    endpoint,
    req,
    _,
    kept,
    refl,
    reply_of-Success id req (forward lib h endpoint req a.attempt a.elapsed).1
        (forward-Given endpoint req),
  )

  inserted-Settled :
      (s : State) (endpoint : Bytes) (req : Capture.Request) (o : Option Bytes)
      → a.insertion ≡ o
      → Settled (inserted lib h s a endpoint req o)
  unfolding inserted unavailable write_json
  inserted-Settled s endpoint req none e = inr (refl, refl)
  inserted-Settled s endpoint req (some id) e = inl (after_insert-Stored s endpoint id req e)

  insert_request-Settled :
      (s : State) (endpoint : Bytes) (req : Option Capture.Request)
      → Settled (insert_request lib h s a endpoint req)
  unfolding insert_request unavailable write_json
  insert_request-Settled s endpoint none = inr (refl, refl)
  insert_request-Settled s endpoint (some req) = inserted-Settled s endpoint req a.insertion refl

  admitted-Settled :
      (s : State) (endpoint : Bytes) (req : Option Capture.Request) (l : Option Limiter)
      → Settled (admitted lib h s a endpoint req l)
  unfolding admitted limited_reply write_json
  admitted-Settled s endpoint req none = insert_request-Settled s endpoint req
  admitted-Settled s endpoint req (some l) =
      let s' = record s { limiter = some (allow endpoint a.allowed_at l).1 } in
      Settled-if (allow endpoint a.allowed_at l).0.0 _ _ (insert_request-Settled s' endpoint req)
        (inr (count-metric (codes "rate_limited"), refl))

  resolved-Settled : (s : State) (answer : Answer) → Settled (resolved lib h s a answer)
  unfolding resolved unavailable write_json
  resolved-Settled s not_found = inr (refl, refl)
  resolved-Settled s failure = inr (refl, refl)
  resolved-Settled s (found ep) =
      admitted-Settled s ep.id (from_http lib.parse_addr a.http h.max_body a.received_at) s.limiter

  -- Either the request is stored before anything else happens, and then the provider gets a 200
  -- that describes the capture, or what the developer's app answered, whatever fails afterwards: the app's status, but a 502 for one
  -- outside 100 to 599, its decoded body, and under each name its headers less those of one hop, but
  -- that the capture's id and the mark of the delivery replace the app's. Or nothing is stored,
  -- published or forwarded, and the provider gets a 404, a 429 or a 503.
  pub durability : (s : State) → Settled (capture lib h s a)
  unfolding capture
  durability s =
      let asked = resolve a.slug a.asked_at a.answered_at a.answer s.endpoints in
      resolved-Settled (record s { endpoints = asked.1 }) asked.0
