-- ===== src/Ingest/Handler/Outcomes.antt =====
-- internal/ingest/ingest.go: the outcome that is recorded.
use hooklens.Base.{
  ℕ, ◌≡◌, ◌⊎◌, inl, inr, refl, leb, ◌==◌, ◌&&◌, ◌||◌, bytes_eq_iff, Bool, true, false, not, List,
  [], Bytes, codes, bytes_eq, All, if◌then◌else◌, arith,
}
use hooklens.Store.{ForwardOutcome, record_forward}
use hooklens.Capture
use hooklens.Tunnel.Protocol.{Response}
use hooklens.Tunnel.Sends.{
  SendError, no_tunnel, timeout, disconnected, overloaded, encode_failed, write_failed,
}
use hooklens.Ingest.Handler.{
  Library, Handler, State, Arrival, Attempt, refused, responded, Effect, stored, touched_at,
  published, forwarded, recorded, counted_stored, counted_rejected, counted_forward, Decision,
  decided, forward, forward_error_code, capture,
}
use hooklens.Ingest.Handler.Forwarding.{plain, Forward_if, after_insert-All, capture-All}

-- No status, or one that HTTP knows.
abbrev pub known : ℕ → Bool
known status = status == 0 || (leb 100 status && leb status 599)

-- The checks of the table pass exactly when the status is known, and where there is one it is that
-- of the app's response, whose error is empty.
abbrev pub Judged : Attempt → ForwardOutcome → Type 0
Judged attempt out =
    (record_forward out ≡ known out.status)
    × ((out.status ≡ 0)
        ⊎ ((resp : Response) × (attempt ≡ responded resp)
            × (resp.error ≡ [])
            × (out.status ≡ resp.status)))

-- What is recorded is judged so.
pub Accepted : Attempt → Effect → Type 0
Accepted attempt (recorded id out) = Judged attempt out
Accepted attempt (stored endpoint req) = Unit
Accepted attempt (touched_at endpoint at) = Unit
Accepted attempt (published endpoint notice) = Unit
Accepted attempt (forwarded endpoint t) = Unit
Accepted attempt (counted_stored n) = Unit
Accepted attempt (counted_rejected reason) = Unit
Accepted attempt (counted_forward outcome ms) = Unit

Accepted-easy : (attempt : Attempt) (e : Effect) → plain e ≡ true → Accepted attempt e
unfolding Accepted
Accepted-easy attempt (stored endpoint req) h = tt
Accepted-easy attempt (touched_at endpoint at) h = tt
Accepted-easy attempt (published endpoint notice) h = tt
Accepted-easy attempt (forwarded endpoint t) h = tt
Accepted-easy attempt (recorded id out) h = absurd (cc h)
Accepted-easy attempt (counted_stored n) h = tt
Accepted-easy attempt (counted_rejected reason) h = tt
Accepted-easy attempt (counted_forward outcome ms) h = tt

code-accepted :
    (err : SendError) (elapsed : ℕ)
    → record_forward (record { status = 0; error = forward_error_code err; elapsed = elapsed })
      ≡ true
unfolding record_forward forward_error_code bytes_eq
code-accepted no_tunnel elapsed = refl
code-accepted timeout elapsed = refl
code-accepted disconnected elapsed = refl
code-accepted overloaded elapsed = refl
code-accepted encode_failed elapsed = refl
code-accepted write_failed elapsed = refl

status-accepted :
    (status elapsed : ℕ)
    → record_forward (record { status = status; error = []; elapsed = elapsed }) ≡ known status
unfolding record_forward bytes_eq
status-accepted status elapsed = ground arith

unreachable-accepted :
    (elapsed : ℕ)
    → record_forward (record { status = 0; error = codes "unreachable"; elapsed = elapsed }) ≡ true
unfolding record_forward bytes_eq
unreachable-accepted elapsed = refl

row_if :
    (attempt : Attempt) (test : Bool) (x y : ForwardOutcome)
    → (test ≡ true → Judged attempt x)
    → Judged attempt y
    → Judged attempt (if test then x else y)
row_if attempt true x y p q = p refl
row_if attempt false x y p q = q

decided-Judged : (attempt : Attempt) (elapsed : ℕ) → Judged attempt (decided attempt elapsed).1
unfolding decided
decided-Judged (refused err) elapsed = (code-accepted err elapsed, inl refl)
decided-Judged (responded resp) elapsed =
    row_if (responded resp) (bytes_eq resp.error []) _ _
      (λ e. (
        status-accepted resp.status elapsed,
        inr (resp, refl, (bytes_eq_iff resp.error []).0 e, refl),
      ))
      (unreachable-accepted elapsed, inl refl)

outcome_if :
    (attempt : Attempt) (test : Bool) (x y : List Effect × Decision)
    → Judged attempt x.1.1
    → Judged attempt y.1.1
    → Judged attempt (if test then x else y).1.1
outcome_if attempt true x y p q = p
outcome_if attempt false x y p q = q

module _ (lib : Library) (h : Handler) (a : Arrival) where
  forward-Judged :
      (endpoint : Bytes) (req : Capture.Request)
      → Judged a.attempt (forward lib h endpoint req a.attempt a.elapsed).1.1
  unfolding forward record_forward bytes_eq
  forward-Judged endpoint req =
      outcome_if a.attempt (not h.fwd) _ _ (refl, inl refl)
        (outcome_if a.attempt req.truncated _ _ (refl, inl refl)
          (decided-Judged a.attempt a.elapsed))

  forward-Accepted :
      (endpoint : Bytes) (req : Capture.Request)
      → All (Accepted a.attempt) (forward lib h endpoint req a.attempt a.elapsed).0
  unfolding forward Accepted
  forward-Accepted endpoint req =
      Forward_if (Accepted a.attempt) lib h a (not h.fwd) _ _ (λ _. tt)
        (λ _. Forward_if (Accepted a.attempt) lib h a req.truncated _ _ (λ _. tt) (λ _. (tt, tt)))

  -- Every outcome that is recorded passes the checks of the database exactly when it has no status or
  -- one from 100 to 599, and the status, if any, is the one that the app's error-free response has. So
  -- each error maps to a code that the table permits, and none stands beside a status of that range.
  pub checks_pass : (s : State) → All (Accepted a.attempt) (capture lib h s a).0
  unfolding Accepted
  checks_pass s =
      capture-All (Accepted a.attempt) lib h a (λ reason. tt)
        (λ s endpoint id req e.
          after_insert-All (Accepted a.attempt) lib h a (Accepted-easy a.attempt) s endpoint id req
            (forward-Accepted endpoint req) (forward-Judged endpoint req))
        s
