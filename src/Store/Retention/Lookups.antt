-- ===== src/Store/Retention/Lookups.antt =====
-- internal/store: what an update of the inboxes leaves of a look at them.
use hooklens.Base.{
  ℕ, ◌+◌, ◌*◌, ◌≡◌, ap, true, false, not, List, [], ◌∷◌, ◌++◌, map, Bytes, bytes_eq, bytes_eq-to,
  keep, arith, Bool-cases, inl, inr,
}
use hooklens.Store.Access.{Inbox, row, find_inbox}
use hooklens.Store.Retention.{Row, hour, with_hours, reprojected, touched}

row_same : {i j : Inbox} → row i ≡ row j → i ≡ j
row_same e = cc e

module _ (x : Bytes) where
  pub found_id :
      (inboxes : List Inbox) (i : Inbox)
      → find_inbox x inboxes ≡ row i
      → bytes_eq i.endpoint.id x ≡ true
  unfolding find_inbox
  found_id [] i e = absurd (cc e)
  found_id (j ∷ rest) i e = ground (arith, found_id rest i)

  pub find-append :
      (inboxes more : List Inbox) (i : Inbox)
      → find_inbox x inboxes ≡ row i
      → find_inbox x (inboxes ++ more) ≡ row i
  unfolding find_inbox
  find-append [] more i e = absurd (cc e)
  find-append (j ∷ rest) more i e = ground (arith, find-append rest more i)

  pub find-map :
      (f : Inbox → Inbox) (inboxes : List Inbox) (i : Inbox)
      → ((j : Inbox) → (f j).endpoint.id ≡ j.endpoint.id)
      → find_inbox x inboxes ≡ row i
      → find_inbox x (map f inboxes) ≡ row (f i)
  unfolding find_inbox
  find-map f [] i same e = absurd (cc e)
  find-map f (j ∷ rest) i same e = elim (Bool-cases (bytes_eq j.endpoint.id x)) [
    | inl here ↦
        let own : j ≡ i = row_same (ground (arith, here, e)) in ground (arith, here, same j, own)
    | inr there ↦
        let later : find_inbox x rest ≡ row i = ground (arith, there, e) in
        ground (arith, there, same j, find-map f rest i same later)
  ]

  pub find-keep :
      (id : Bytes) (inboxes : List Inbox) (i : Inbox)
      → bytes_eq x id ≡ false
      → find_inbox x inboxes ≡ row i
      → find_inbox x (keep (λ j. not (bytes_eq j.endpoint.id id)) inboxes) ≡ row i
  unfolding find_inbox
  find-keep id [] i other e = absurd (cc e)
  find-keep id (j ∷ rest) i other e =
      ground (arith, find-keep id rest i, bytes_eq-to j.endpoint.id x, other)

pub with_hours-id :
    (id : Bytes) (hours : ℕ) (i : Inbox) → (with_hours id hours i).endpoint.id ≡ i.endpoint.id
unfolding with_hours
with_hours-id id hours i = ground arith

pub touched-id : (id : Bytes) (at : ℕ) (i : Inbox) → (touched id at i).endpoint.id ≡ i.endpoint.id
unfolding touched
touched-id id at i = ground arith

pub touched-hours :
    (id : Bytes) (at : ℕ) (i : Inbox) → (touched id at i).retention_hours ≡ i.retention_hours
unfolding touched
touched-hours id at i = ground arith

pub reprojected-request :
    (id : Bytes) (hours : ℕ) (r : Row) → (reprojected id hours r).request ≡ r.request
unfolding reprojected
reprojected-request id hours r = elim (Bool-cases (bytes_eq r.request.endpoint_id id)) [
  | inl e ↦ ground (arith, e)
  | inr e ↦ ground (arith, e)
]

pub reprojected-expiry :
    (id : Bytes) (hours : ℕ) (r : Row) (i : Inbox)
    → bytes_eq i.endpoint.id r.request.endpoint_id ≡ true
    → r.expires_at ≡ r.request.received_at + i.retention_hours * hour
    → (reprojected id hours r).expires_at
      ≡ r.request.received_at + (with_hours id hours i).retention_hours * hour
unfolding reprojected with_hours
reprojected-expiry id hours r i own at =
    let same = bytes_eq-to i.endpoint.id r.request.endpoint_id own in
    let test : bytes_eq i.endpoint.id id ≡ bytes_eq r.request.endpoint_id id =
      ap (λ s. bytes_eq s id) same in
    elim (Bool-cases (bytes_eq r.request.endpoint_id id)) [
      | inl e ↦ ground (arith, e, test)
      | inr e ↦ ground (arith, e, test, at)
    ]
