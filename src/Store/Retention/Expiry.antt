-- ===== src/Store/Retention/Expiry.antt =====
-- internal/store: every capture expires when its inbox's retention says.
use hooklens.Base.{
  ℕ, ◌+◌, ◌*◌, ◌≡◌, refl, Bool, true, false, not, Option, none, some, List, [], ◌∷◌, ◌++◌, map,
  Bytes, bytes_eq, keep, any_of, All, All-append, All-keep, if◌then◌else◌, arith, Bool-cases, inl,
  inr,
}
use hooklens.Capture.{Request}
use hooklens.Store.{Endpoint, ForwardOutcome, record_forward}
use hooklens.Store.Requests.{StoredRequest}
use hooklens.Store.Access.{Inbox, Query, row, no_rows, failed, find_inbox}
use hooklens.Store.Retention.{
  Row, Tables, hour, expiry_of, stored_of, inserted, insert_request, with_hours, reprojected,
  set_retention, outcome_row, with_outcome, update_forward, touched, touch_endpoint,
  delete_endpoint, insert_endpoint, delete_picked, delete_expired,
}
use hooklens.Store.Retention.Lookups.{
  found_id, find-append, find-map, find-keep, with_hours-id, touched-id, touched-hours,
  reprojected-request, reprojected-expiry,
}

-- The row's inbox is there, and the row expires so many hours after it came as the inbox keeps it.
abbrev pub Timed : List Inbox → Row → Type 0
Timed inboxes r =
    (i : Inbox) × (find_inbox r.request.endpoint_id inboxes ≡ row i)
    × (r.expires_at ≡ r.request.received_at + i.retention_hours * hour)

-- All rows of the tables.
abbrev pub Projected : Tables → Type 0
Projected t = All (Timed t.inboxes) t.rows

-- The writes of the program, with what the tests in them depend on.
pub data Write : Type 0 where
  insert : Bytes → Bytes → Request → Write
  retain : Bool → Bool → Bool → Bytes → ℕ → Write
  record_outcome : Bytes → ForwardOutcome → Write
  seen : Bytes → ℕ → Write
  drop_endpoint : Bytes → Write
  create : Endpoint → Bytes → Write
  sweep : ℕ → ℕ → Write

unfoldable pub attempt : Write → Tables → Option Tables
attempt (insert id endpoint_id req) t = insert_request id endpoint_id req t
attempt (retain first second commit id hours) t = set_retention first second commit id hours t
attempt (record_outcome id out) t = update_forward id out t
attempt (seen id at) t = some (touch_endpoint id at t)
attempt (drop_endpoint id) t = delete_endpoint id t
attempt (create ep hash) t = insert_endpoint ep hash t
attempt (sweep now batch) t = some (delete_expired now batch t).1

-- An error leaves the tables alone.
unfoldable pub settled : Tables → Option Tables → Tables
settled t none = t
settled t (some u) = u

-- The latest write first.
unfoldable pub run_writes : List Write → Tables
run_writes [] = record { inboxes = []; rows = [] }
run_writes (w ∷ earlier) = let t = run_writes earlier in settled t (attempt w t)

All-map :
    (P Q : Row → Type 0) (f : Row → Row) (rows : List Row)
    → ((r : Row) → P r → Q (f r))
    → All P rows
    → All Q (map f rows)
All-map P Q f [] h a = tt
All-map P Q f (r ∷ rest) h a = (h r a.0, All-map P Q f rest h a.1)

All-imply :
    (P Q : Row → Type 0) (rows : List Row) → ((r : Row) → P r → Q r) → All P rows → All Q rows
All-imply P Q [] h a = tt
All-imply P Q (r ∷ rest) h a = (h r a.0, All-imply P Q rest h a.1)

settle_none : (t : Tables) → Projected t → Projected (settled t none)
unfolding settled
settle_none t h = h

if-Projected :
    (b : Bool) (t u : Tables)
    → Projected t
    → Projected u
    → Projected (settled t (if b then some u else none))
unfolding settled
if-Projected true t u h k = k
if-Projected false t u h k = h

unless-Projected :
    (b : Bool) (t u : Tables)
    → Projected t
    → Projected u
    → Projected (settled t (if b then none else some u))
unfolding settled
unless-Projected true t u h k = h
unless-Projected false t u h k = k

expiry-Timed :
    (r : StoredRequest) (inboxes : List Inbox) (at : ℕ) (q : Query Inbox)
    → find_inbox r.endpoint_id inboxes ≡ q
    → expiry_of r.received_at q ≡ some at
    → Timed inboxes (record { request = r; expires_at = at })
unfolding expiry_of
expiry-Timed r inboxes at no_rows e h = absurd (cc h)
expiry-Timed r inboxes at failed e h = absurd (cc h)
expiry-Timed r inboxes at (row i) e h = (i, e, cc h)

inserted-Projected :
    (new : StoredRequest) (t : Tables) (o : Option ℕ)
    → Projected t
    → ((at : ℕ) → o ≡ some at → Timed t.inboxes (record { request = new; expires_at = at }))
    → Projected (settled t (inserted new t o))
unfolding inserted
inserted-Projected new t none h k = settle_none t h
inserted-Projected new t (some at) h k =
    let added : Row = record { request = new; expires_at = at } in
    unless-Projected (any_of (λ r. bytes_eq r.request.id new.id) t.rows) t
      (record t { rows = t.rows ++ (added ∷ []) }) h
      (All-append (Timed t.inboxes) t.rows (added ∷ []) h (k at refl, tt))

with_hours-Timed :
    (id : Bytes) (hours : ℕ) (inboxes : List Inbox) (r : Row)
    → Timed inboxes r
    → Timed (map (with_hours id hours) inboxes) (reprojected id hours r)
with_hours-Timed id hours inboxes r (i, e, at) =
    let owner = r.request.endpoint_id in
    let kept = reprojected-request id hours r in
    let found = find-map owner (with_hours id hours) inboxes i (with_hours-id id hours) e in
    let due = reprojected-expiry id hours r i (found_id owner inboxes i e) at in
    (with_hours id hours i, cc (kept, found), cc (kept, due))

touched-Timed :
    (id : Bytes) (at : ℕ) (inboxes : List Inbox) (r : Row)
    → Timed inboxes r
    → Timed (map (touched id at) inboxes) r
touched-Timed id at inboxes r (i, e, due) = (
  touched id at i,
  find-map r.request.endpoint_id (touched id at) inboxes i (touched-id id at) e,
  cc (touched-hours id at i, due),
)

append-Timed : (more inboxes : List Inbox) (r : Row) → Timed inboxes r → Timed (inboxes ++ more) r
append-Timed more inboxes r (i, e, due) =
    (i, find-append r.request.endpoint_id inboxes more i e, due)

outcome-Timed :
    (id : Bytes) (out : ForwardOutcome) (inboxes : List Inbox) (r : Row)
    → Timed inboxes r
    → Timed inboxes (with_outcome id out r)
unfolding with_outcome outcome_row
outcome-Timed id out inboxes r t = outcome_at (bytes_eq r.request.id id)
  where
    outcome_at : (b : Bool) → Timed inboxes (if b then outcome_row out r else r)
    outcome_at true = t
    outcome_at false = t

module _ (id : Bytes) where
  keep_one :
      (P : Row → Type 0) (r : Row) (rest : List Row)
      → bytes_eq r.request.endpoint_id id ≡ false
      → P r × All P (keep (λ s. not (bytes_eq s.request.endpoint_id id)) rest)
      → All P (keep (λ s. not (bytes_eq s.request.endpoint_id id)) (r ∷ rest))
  keep_one P r rest e h = kept_by (bytes_eq r.request.endpoint_id id) e
    where
      kept_by :
          (b : Bool)
          → b ≡ false
          → All P (
              if not b
              then r ∷ keep (λ s. not (bytes_eq s.request.endpoint_id id)) rest
              else keep (λ s. not (bytes_eq s.request.endpoint_id id)) rest)
      kept_by true wrong = absurd (cc wrong)
      kept_by false right = h

  dropped-Timed :
      (inboxes : List Inbox) (rows : List Row)
      → All (Timed inboxes) rows
      → All
          (Timed (keep (λ i. not (bytes_eq i.endpoint.id id)) inboxes))
          (keep (λ r. not (bytes_eq r.request.endpoint_id id)) rows)
  dropped-Timed inboxes [] h = tt
  dropped-Timed inboxes (r ∷ rest) ((i, e, due), h) =
      elim (Bool-cases (bytes_eq r.request.endpoint_id id)) [
        | inl own ↦ ground (arith, own, dropped-Timed inboxes rest h)
        | inr other ↦
            let kept : Timed (keep (λ j. not (bytes_eq j.endpoint.id id)) inboxes) r =
              (i, find-keep r.request.endpoint_id id inboxes i other e, due) in
            keep_one (Timed (keep (λ j. not (bytes_eq j.endpoint.id id)) inboxes)) r rest other
              (kept, dropped-Timed inboxes rest h)
      ]

attempt-Projected : (w : Write) (t : Tables) → Projected t → Projected (settled t (attempt w t))
unfolding attempt insert_request set_retention update_forward touch_endpoint delete_endpoint
    insert_endpoint delete_expired settled delete_picked
attempt-Projected (insert id endpoint_id req) t h =
    let new = stored_of id endpoint_id req in
    let found = find_inbox endpoint_id t.inboxes in
    inserted-Projected new t (expiry_of req.received_at found) h
      (λ at e. expiry-Timed new t.inboxes at found refl e)
attempt-Projected (retain first second commit id hours) t h =
    let inboxes = map (with_hours id hours) t.inboxes in
    if-Projected _ t (record { inboxes = inboxes; rows = map (reprojected id hours) t.rows }) h
      (All-map (Timed t.inboxes) (Timed inboxes) (reprojected id hours) t.rows
        (with_hours-Timed id hours t.inboxes) h)
attempt-Projected (record_outcome id out) t h =
    if-Projected (record_forward out) t (record t { rows = map (with_outcome id out) t.rows }) h
      (All-map (Timed t.inboxes) (Timed t.inboxes) (with_outcome id out) t.rows
        (outcome-Timed id out t.inboxes) h)
attempt-Projected (seen id at) t h =
    All-imply (Timed t.inboxes) (Timed (map (touched id at) t.inboxes)) t.rows
      (touched-Timed id at t.inboxes) h
attempt-Projected (drop_endpoint id) t h =
    if-Projected (any_of (λ i. bytes_eq i.endpoint.id id) t.inboxes) t
      (record {
        inboxes = keep (λ i. not (bytes_eq i.endpoint.id id)) t.inboxes;
        rows = keep (λ r. not (bytes_eq r.request.endpoint_id id)) t.rows;
      })
      h (dropped-Timed id t.inboxes t.rows h)
attempt-Projected (create ep hash) t h =
    let more : List Inbox =
      (record { endpoint = ep; owner_token_hash = hash; retention_hours = 168 }) ∷ [] in
    unless-Projected _ t (record t { inboxes = t.inboxes ++ more }) h
      (All-imply (Timed t.inboxes) (Timed (t.inboxes ++ more)) t.rows (append-Timed more t.inboxes)
        h)
attempt-Projected (sweep now batch) t h = All-keep (Timed t.inboxes) _ t.rows h

-- After any writes, failed ones too, every capture's inbox is there, and the capture expires so many
-- hours after it came as its inbox keeps captures now.
pub run_writes-Projected : (ws : List Write) → Projected (run_writes ws)
unfolding run_writes
run_writes-Projected [] = tt
run_writes-Projected (w ∷ earlier) =
    attempt-Projected w (run_writes earlier) (run_writes-Projected earlier)
