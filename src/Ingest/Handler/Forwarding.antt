-- ===== src/Ingest/Handler/Forwarding.antt =====
-- internal/ingest/ingest.go: what is forwarded, and what is recorded of it.
use hooklens.Base.{
  ℕ, ◌≡◌, refl, Bool, true, false, not, ◌&&◌, Option, none, some, List, [], ◌∷◌, Bytes, codes, All,
  All-append, ◌==◌, if◌then◌else◌, length, take_of_length-le, arith, ap,
}
use hooklens.Store.{ForwardOutcome, Answer, found, not_found, failure}
use hooklens.Capture
use hooklens.Capture.{Stream, HttpRequest, read_body, from_http, default_max_body}
use hooklens.Capture.Body.{read_body_outcome}
use hooklens.Ingest.Cache.{resolve}
use hooklens.Ratelimit.{Limiter, allow}
use hooklens.Ingest.Handler.{
  Library, Handler, State, Arrival, Effect, stored, touched_at, published, forwarded, recorded,
  counted_stored, counted_rejected, counted_forward, Decision, Result, is_zero, Notice, forward,
  settle_outcome, after_insert, inserted, insert_request, admitted, resolved, capture, publish,
  should_touch, delivery_notice, capture_notice,
}

-- Neither a forward nor a record of one.
abbrev pub plain : Effect → Bool
plain (forwarded endpoint t) = false
plain (recorded id out) = false
plain _ = true

module _ (P : Effect → Type 0) (lib : Library) (h : Handler) (a : Arrival) where
  All-if :
      (test : Bool) (x y : List Effect)
      → (test ≡ true → All P x)
      → (test ≡ false → All P y)
      → All P (if test then x else y)
  All-if true x y p q = p refl
  All-if false x y p q = q refl

  Result_if : (test : Bool) (x y : Result) → All P x.0 → All P y.0 → All P (if test then x else y).0
  Result_if true x y p q = p
  Result_if false x y p q = q

  pub Forward_if :
      (test : Bool) (x y : List Effect × Decision)
      → (test ≡ true → All P x.0)
      → (test ≡ false → All P y.0)
      → All P (if test then x else y).0
  Forward_if true x y p q = p refl
  Forward_if false x y p q = q refl

  module _ (easy : (e : Effect) → plain e ≡ true → P e) where
    publish-All :
        (watched : Bool) (endpoint : Bytes) (notice : Notice)
        → All P (publish h watched endpoint notice)
    publish-All watched endpoint notice =
        All-if (h.broker && watched) _ _ (λ _. (easy (published endpoint notice) refl, tt))
          (λ _. tt)

    settle_outcome-All :
        (endpoint id : Bytes) (out : ForwardOutcome)
        → P (recorded id out)
        → All P (settle_outcome h a endpoint id out)
    unfolding settle_outcome
    settle_outcome-All endpoint id out here =
        All-if (is_zero out) _ _ (λ _. tt)
          (λ _. All-append P _ _ (All-if h.rec _ _ (λ _. (easy _ refl, tt)) (λ _. tt)) (
            All-if a.record_ok _ _
              (λ _. (here, publish-All a.still_watched endpoint (delivery_notice id out)))
              (λ _. tt)))

    pub after_insert-All :
        (s : State) (endpoint id : Bytes) (req : Capture.Request)
        → All P (forward lib h endpoint req a.attempt a.elapsed).0
        → P (recorded id (forward lib h endpoint req a.attempt a.elapsed).1.1)
        → All P (after_insert lib h s a endpoint id req).0
    unfolding after_insert
    after_insert-All s endpoint id req sent here =
        let touches =
          All-if (should_touch endpoint req.received_at s.touched).0
            (touched_at endpoint req.received_at ∷ []) [] (λ _. (easy _ refl, tt)) (λ _. tt) in
        let counts =
          All-if h.rec (counted_stored (length req.body) ∷ []) [] (λ _. (easy _ refl, tt))
            (λ _. tt) in
        let notices = publish-All a.watched endpoint (capture_notice id req) in
        let before = All-append P _ _ (All-append P _ _ counts touches) notices in
        (
          easy _ refl,
          All-append P _ _ (All-append P _ _ before sent) (settle_outcome-All endpoint id _ here),
        )

  -- What holds of the effects below the durability line holds of all.
  module _ (counted : (reason : Bytes) → P (counted_rejected reason))
      (below : (s : State) (endpoint id : Bytes) (req : Capture.Request)
        → from_http lib.parse_addr a.http h.max_body a.received_at ≡ some req
        → All P (after_insert lib h s a endpoint id req).0) where
    inserted-All :
        (s : State) (endpoint : Bytes) (req : Capture.Request) (o : Option Bytes)
        → from_http lib.parse_addr a.http h.max_body a.received_at ≡ some req
        → All P (inserted lib h s a endpoint req o).0
    unfolding inserted
    inserted-All s endpoint req none e = tt
    inserted-All s endpoint req (some id) e = below s endpoint id req e

    insert_request-All :
        (s : State) (endpoint : Bytes) (o : Option Capture.Request)
        → from_http lib.parse_addr a.http h.max_body a.received_at ≡ o
        → All P (insert_request lib h s a endpoint o).0
    unfolding insert_request
    insert_request-All s endpoint none e = tt
    insert_request-All s endpoint (some req) e = inserted-All s endpoint req a.insertion e

    admitted-All :
        (s : State) (endpoint : Bytes) (o : Option Capture.Request) (l : Option Limiter)
        → from_http lib.parse_addr a.http h.max_body a.received_at ≡ o
        → All P (admitted lib h s a endpoint o l).0
    unfolding admitted
    admitted-All s endpoint o none e = insert_request-All s endpoint o e
    admitted-All s endpoint o (some l) e =
        let s' = record s { limiter = some (allow endpoint a.allowed_at l).1 } in
        Result_if (allow endpoint a.allowed_at l).0.0 _ _ (insert_request-All s' endpoint o e)
          (All-if h.rec _ _ (λ _. (counted (codes "rate_limited"), tt)) (λ _. tt))

    resolved-All : (s : State) (answer : Answer) → All P (resolved lib h s a answer).0
    unfolding resolved
    resolved-All s not_found = tt
    resolved-All s failure = tt
    resolved-All s (found ep) =
        admitted-All s ep.id (from_http lib.parse_addr a.http h.max_body a.received_at) s.limiter
          refl

    pub capture-All : (s : State) → All P (capture lib h s a).0
    unfolding capture
    capture-All s =
        let asked = resolve a.slug a.asked_at a.answered_at a.answer s.endpoints in
        resolved-All (record s { endpoints = asked.1 }) asked.0

-- All that the reader of a body delivers.
pub sent_body : Option Stream → Bytes
sent_body none = []
sent_body (some s) = s.bytes

read_body-whole :
    (b : Option Stream) (max_body : ℕ)
    → (read_body b max_body).1 ≡ false
    → (read_body b max_body).0 ≡ sent_body b
unfolding sent_body read_body
read_body-whole none max_body h = refl
read_body-whole (some s) max_body h =
    ground (arith, read_body_outcome s max_body, take_of_length-le max_body s.bytes)

from_http-body :
    (parse_addr : Bytes → Option Bytes) (r : HttpRequest) (max_body now : ℕ) (req : Capture.Request)
    → from_http parse_addr r max_body now ≡ some req
    → req.truncated ≡ false
    → (req.body ≡ sent_body r.body)
      × (req.method ≡ r.method)
      × (req.path ≡ r.escaped_path)
      × (req.query ≡ r.raw_query)
unfolding from_http
from_http-body parse_addr r max_body now req e whole =
    let limit : ℕ = if max_body == 0 then default_max_body else max_body in
    ground (arith, read_body-whole r.body limit)

-- The forwarded request is the captured one, with the whole body that the provider sent.
pub Whole : Library → HttpRequest → Effect → Type 0
Whole lib r (forwarded endpoint t) =
    (t.body_b64 ≡ lib.encode (sent_body r.body))
    × (t.method ≡ r.method)
    × (t.path ≡ r.escaped_path)
    × (t.query ≡ r.raw_query)
Whole lib r (stored endpoint req) = Unit
Whole lib r (touched_at endpoint at) = Unit
Whole lib r (published endpoint notice) = Unit
Whole lib r (recorded id out) = Unit
Whole lib r (counted_stored n) = Unit
Whole lib r (counted_rejected reason) = Unit
Whole lib r (counted_forward outcome ms) = Unit

Whole-easy : (lib : Library) (r : HttpRequest) (e : Effect) → plain e ≡ true → Whole lib r e
unfolding Whole
Whole-easy lib r (stored endpoint req) h = tt
Whole-easy lib r (touched_at endpoint at) h = tt
Whole-easy lib r (published endpoint notice) h = tt
Whole-easy lib r (forwarded endpoint t) h = absurd (cc h)
Whole-easy lib r (recorded id out) h = tt
Whole-easy lib r (counted_stored n) h = tt
Whole-easy lib r (counted_rejected reason) h = tt
Whole-easy lib r (counted_forward outcome ms) h = tt

module _ (lib : Library) (h : Handler) (a : Arrival) where
  forward-Whole :
      (endpoint : Bytes) (req : Capture.Request)
      → from_http lib.parse_addr a.http h.max_body a.received_at ≡ some req
      → All (Whole lib a.http) (forward lib h endpoint req a.attempt a.elapsed).0
  unfolding forward Whole
  forward-Whole endpoint req e =
      let P = Whole lib a.http in
      Forward_if P lib h a (not h.fwd) _ _ (λ _. tt)
        (λ _.
          Forward_if P lib h a req.truncated _ _ (λ _. tt)
            (λ whole.
              let same =
                from_http-body lib.parse_addr a.http h.max_body a.received_at req e whole in
              ((ap lib.encode same.0, same.1, same.2, same.3), tt)))

  -- Whatever is forwarded to the developer's app carries the method, the path, the query and every
  -- byte of the body that the provider sent: a body that was cut off at the limit is never forwarded.
  pub body_forwarded : (s : State) → All (Whole lib a.http) (capture lib h s a).0
  unfolding Whole
  body_forwarded s =
      let P = Whole lib a.http in
      capture-All P lib h a (λ reason. tt)
        (λ s endpoint id req e.
          after_insert-All P lib h a (Whole-easy lib a.http) s endpoint id req
            (forward-Whole endpoint req e) tt)
        s
