-- ===== src/Store.antt =====
-- internal/store: the records that the handlers pass to the database and get from it. Postgres
-- itself is not modelled; what it answers is an argument where it is called.
pub mod Cursors
pub mod Requests
pub mod Access
pub mod Retention
use hooklens.Base.{
  ℕ, Bool, ◌&&◌, ◌||◌, Option, List, [], ◌∷◌, Bytes, codes, bytes_eq, any_of, leb, ◌==◌,
}

-- `Endpoint`; an instant is in nanoseconds.
pub record Endpoint : Type 0 where
  pub id : Bytes
  pub slug : Bytes
  pub name : Bytes
  pub created_at : ℕ
  pub last_seen_at : Option ℕ

-- What `EndpointBySlug` returns: a row, `ErrNotFound`, or another error.
pub data Answer : Type 0 where
  found : Endpoint → Answer
  not_found failure : Answer

-- What is recorded of a forward; the time is in milliseconds.
pub record ForwardOutcome : Type 0 where
  pub status : ℕ
  pub error : Bytes
  pub elapsed : ℕ

abbrev pub outcome_codes : List Bytes
outcome_codes =
    codes "no_tunnel"
    ∷ codes "timeout"
    ∷ codes "disconnected"
    ∷ codes "unreachable"
    ∷ codes "protocol"
    ∷ codes "overloaded"
    ∷ codes "too_large"
    ∷ []

-- Whether the row that `RecordForward` writes passes the table's checks, which migrations 00006 to
-- 00008 state. A status of 0 and an empty error are written as null.
unfoldable pub record_forward : ForwardOutcome → Bool
record_forward out =
    (out.status == 0 || (leb 100 out.status && leb out.status 599))
    && (bytes_eq out.error [] || any_of (λ c. bytes_eq c out.error) outcome_codes)
    && (out.status == 0 || bytes_eq out.error [])
