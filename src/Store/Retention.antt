-- ===== src/Store/Retention.antt =====
-- internal/store/requests.go, internal/store/endpoints.go: the statements that write to the two
-- tables, and when a capture expires. An operation that fails leaves the tables as they were.
mod Lookups
pub mod Expiry
pub mod Batches
pub mod Deletions
use hooklens.Base.{
  ℕ, ◌+◌, ◌*◌, Bool, true, false, not, ◌&&◌, ◌||◌, Option, none, some, List, [], ◌∷◌, ◌++◌, map,
  Bytes, bytes_eq, length, take, keep, any_of, leb, ltb, ◌==◌, if◌then◌else◌,
}
use hooklens.Capture.{Request}
use hooklens.Store.{Endpoint, ForwardOutcome, record_forward}
use hooklens.Store.Requests.{StoredRequest}
use hooklens.Store.Access.{Inbox, Query, row, no_rows, failed, find_inbox}

-- A row of the table of requests, with the column that `StoredRequest` does not show.
pub record Row : Type 0 where
  pub request : StoredRequest
  pub expires_at : ℕ

pub record Tables : Type 0 where
  pub inboxes : List Inbox
  pub rows : List Row

abbrev pub hour : ℕ
hour = 3600 * 1000000000

-- `$11 + make_interval(hours => (select retention_hours ...))`, null for an unknown inbox.
unfoldable pub expiry_of : ℕ → Query Inbox → Option ℕ
expiry_of at (row i) = some (at + i.retention_hours * hour)
expiry_of at no_rows = none
expiry_of at failed = none

abbrev pub stored_of : Bytes → Bytes → Request → StoredRequest
stored_of id endpoint_id req = record {
  id = id;
  endpoint_id = endpoint_id;
  method = req.method;
  path = req.path;
  query = req.query;
  headers = req.headers;
  body = req.body;
  body_size = length req.body;
  body_truncated = req.truncated;
  declared_size = req.declared_size;
  source_ip = req.source_ip;
  received_at = req.received_at;
  forward_status = none;
  forward_error = none;
  forward_ms = none;
}

-- A null expiry violates the table's constraint, and so does an id that is there.
unfoldable pub inserted : StoredRequest → Tables → Option ℕ → Option Tables
inserted new t none = none
inserted new t (some at) =
    if any_of (λ r. bytes_eq r.request.id new.id) t.rows
    then none
    else some (record t { rows = t.rows ++ ((record { request = new; expires_at = at }) ∷ []) })

-- `InsertRequest` with the id that Postgres draws.
unfoldable pub insert_request : Bytes → Bytes → Request → Tables → Option Tables
insert_request id endpoint_id req t =
    inserted (stored_of id endpoint_id req) t
      (expiry_of req.received_at (find_inbox endpoint_id t.inboxes))

-- `update endpoints set retention_hours = $2 where id = $1`.
unfoldable pub with_hours : Bytes → ℕ → Inbox → Inbox
with_hours id hours i =
    if bytes_eq i.endpoint.id id then record i { retention_hours = hours } else i

-- `update requests set expires_at = received_at + make_interval(hours => $2) where endpoint_id = $1`.
unfoldable pub reprojected : Bytes → ℕ → Row → Row
reprojected id hours r =
    if bytes_eq r.request.endpoint_id id
    then record r { expires_at = r.request.received_at + hours * hour }
    else r

-- Whether each of the two statements and the commit succeed. What the transaction has done is
-- dropped unless it commits. The table checks that the hours of a row are between 1 and 8760. The
-- two statements are one step: what another session writes between them, which READ COMMITTED lets
-- through, is not modelled.
unfoldable pub set_retention : Bool → Bool → Bool → Bytes → ℕ → Tables → Option Tables
set_retention first second commit id hours t =
    let unknown = not (any_of (λ i. bytes_eq i.endpoint.id id) t.inboxes) in
    if first && (unknown || (leb 1 hours && leb hours 8760)) && second && commit
    then some (record {
      inboxes = map (with_hours id hours) t.inboxes;
      rows = map (reprojected id hours) t.rows;
    })
    else none

-- `RecordForward`: a zero status and an empty error are stored as null.
unfoldable pub outcome_row : ForwardOutcome → Row → Row
outcome_row out r = record r {
  request = record r.request {
    forward_status = if out.status == 0 then none else some out.status;
    forward_error = if bytes_eq out.error [] then none else some out.error;
    forward_ms = some out.elapsed;
  };
}

unfoldable pub with_outcome : Bytes → ForwardOutcome → Row → Row
with_outcome id out r = if bytes_eq r.request.id id then outcome_row out r else r

unfoldable pub update_forward : Bytes → ForwardOutcome → Tables → Option Tables
update_forward id out t =
    if record_forward out then some (record t { rows = map (with_outcome id out) t.rows }) else none

-- `TouchEndpoint`.
unfoldable pub touched : Bytes → ℕ → Inbox → Inbox
touched id at i =
    if bytes_eq i.endpoint.id id
    then record i { endpoint = record i.endpoint { last_seen_at = some at } }
    else i

unfoldable pub touch_endpoint : Bytes → ℕ → Tables → Tables
touch_endpoint id at t = record t { inboxes = map (touched id at) t.inboxes }

-- `DeleteEndpoint`, with the cascade to the inbox's captures.
unfoldable pub delete_endpoint : Bytes → Tables → Option Tables
delete_endpoint id t =
    if any_of (λ i. bytes_eq i.endpoint.id id) t.inboxes
    then some (record {
      inboxes = keep (λ i. not (bytes_eq i.endpoint.id id)) t.inboxes;
      rows = keep (λ r. not (bytes_eq r.request.endpoint_id id)) t.rows;
    })
    else none

-- The insertion of `CreateEndpoint`, whose ids and slugs are unique; 168 hours are the default.
unfoldable pub insert_endpoint : Endpoint → Bytes → Tables → Option Tables
insert_endpoint ep hash t =
    let new : Inbox = record { endpoint = ep; owner_token_hash = hash; retention_hours = 168 } in
    if any_of (λ i. bytes_eq i.endpoint.id ep.id || bytes_eq i.endpoint.slug ep.slug) t.inboxes
    then none
    else some (record t { inboxes = t.inboxes ++ (new ∷ []) })

-- `expires_at < now()`.
abbrev pub expired : ℕ → Row → Bool
expired now r = ltb r.expires_at now

-- `order by expires_at`.
unfoldable pub insert_expiry : Row → List Row → List Row
insert_expiry r [] = r ∷ []
insert_expiry r (s ∷ rest) =
    let later = insert_expiry r rest in
    if ltb s.expires_at r.expires_at then s ∷ later else r ∷ s ∷ rest

unfoldable pub by_expiry : List Row → List Row
by_expiry [] = []
by_expiry (r ∷ rest) = insert_expiry r (by_expiry rest)

-- The subquery of `DeleteExpiredRequests`.
unfoldable pub picked : ℕ → ℕ → List Row → List Row
picked now batch rows = take batch (by_expiry (keep (expired now) rows))

-- `id in (...)`.
abbrev pub among : List Row → Row → Bool
among chosen r = any_of (λ p. bytes_eq p.request.id r.request.id) chosen

unfoldable pub delete_picked : List Row → List Row → List Row
delete_picked chosen rows = keep (λ r. not (among chosen r)) rows

-- A batch of 0 stands for one that is not positive. The number is that of the deleted rows.
unfoldable pub delete_expired : ℕ → ℕ → Tables → ℕ × Tables
delete_expired now batch t =
    let chosen = picked now (if batch == 0 then 1000 else batch) t.rows in
    (length (keep (among chosen) t.rows), record t { rows = delete_picked chosen t.rows })
