-- ===== src/Server/Listing/Owners.antt =====
-- internal/server/server.go, internal/store/endpoints.go: only the owner of an inbox reads it.
use hooklens.Base.{
  ℕ, zero, suc, ◌+◌, ◌≡◌, refl, Bool, true, ◌&&◌, Option, none, some, List, [], ◌∷◌, Bytes,
  bytes_eq, bytes_eq_refl, bytes_eq-to, take, keep, all_of, any_of, ℤ, arith, Bool-cases, inl, inr,
}
use hooklens.Store.Access.{
  Inbox, Query, granted, row, no_rows, failed, equal, find_slug, find_inbox, joined, find_row,
  find_request, authenticate_endpoint, authenticate_request,
}
use hooklens.Store.Cursors.{TextFormat, Cursor}
use hooklens.Store.Requests.{
  StoredRequest, page_limit, newest_first, owned, after_clause, select_rows, page_of, list_requests,
}
use hooklens.Store.Requests.Order.{all_of-newest_first, all_of-keep, all_of-weaken}
use hooklens.Server.Listing.{
  Reply, listed, shown, asked_limit, asked_after, reply_page, list_granted, handle_list_requests,
  handle_get_request, bearer_token, list_api, get_api,
}

-- The captures that a reply shows.
unfoldable pub served : Reply → List StoredRequest
served (listed slug rows next) = rows
served (shown r) = r ∷ []
served reply = []

-- Some inbox has the request, and its stored hash is that of the token.
abbrev pub held : (Bytes → Bytes) → List Inbox → Bytes → StoredRequest → Bool
held hash inboxes token r =
    any_of (λ i. bytes_eq i.endpoint.id r.endpoint_id && equal i.owner_token_hash (hash token))
      inboxes

module _ (p : StoredRequest → Bool) where
  all_of-take :
      (n : ℕ) (rows : List StoredRequest) → all_of p rows ≡ true → all_of p (take n rows) ≡ true
  all_of-take zero rows h = refl
  all_of-take (suc n) [] h = refl
  all_of-take (suc n) (r ∷ rest) h = ground (arith, all_of-take n rest)

  all_of-page_of :
      (format : TextFormat) (limit : ℕ) (rows : List StoredRequest)
      → all_of p rows ≡ true
      → all_of p (page_of format limit rows).requests ≡ true
  unfolding page_of
  all_of-page_of format limit rows h = ground (arith, all_of-take limit rows h)

keep-all : (p : StoredRequest → Bool) (rows : List StoredRequest) → all_of p (keep p rows) ≡ true
keep-all p [] = refl
keep-all p (r ∷ rest) = ground (arith, keep-all p rest)

list_requests-owned :
    (format : TextFormat) (id : Bytes) (asked : ℤ) (after : Option Cursor)
    (table : List StoredRequest)
    → all_of (owned id) (list_requests format id asked after table).requests ≡ true
unfolding list_requests select_rows
list_requests-owned format id asked after table =
    let limit = page_limit asked in
    let own = keep (owned id) table in
    let found = keep (after_clause after) own in
    let kept = all_of-keep (owned id) (after_clause after) own (keep-all (owned id) table) in
    let ordered = all_of-newest_first (owned id) found kept in
    all_of-page_of (owned id) format limit (take (limit + 1) (newest_first found))
      (all_of-take (owned id) (limit + 1) (newest_first found) ordered)

module _ (hash : Bytes → Bytes) (inboxes : List Inbox) (token : Bytes) where
  find_slug-held :
      (slug : Bytes) (i : Inbox) (within : List Inbox) (r : StoredRequest)
      → find_slug slug within ≡ row i
      → equal i.owner_token_hash (hash token) ≡ true
      → owned i.endpoint.id r ≡ true
      → held hash within token r ≡ true
  unfolding find_slug
  find_slug-held slug i [] r e h k = absurd (cc e)
  find_slug-held slug i (j ∷ rest) r e h k = ground (
    arith,
    find_slug-held slug i rest r,
    bytes_eq-to r.endpoint_id i.endpoint.id,
    bytes_eq_refl i.endpoint.id,
  )

  page-held :
      (format : TextFormat) (i : Inbox) (limit : Bytes) (after : Option (Option Cursor))
      (table : Option (List StoredRequest))
      → ((r : StoredRequest) → owned i.endpoint.id r ≡ true → held hash inboxes token r ≡ true)
      → all_of (held hash inboxes token) (served (list_granted format i.endpoint limit after table))
        ≡ true
  unfolding list_granted served reply_page
  page-held format i limit none table h = refl
  page-held format i limit (some after) none h = refl
  page-held format i limit (some after) (some table) h =
      let page = list_requests format i.endpoint.id (asked_limit limit) after table in
      all_of-weaken (owned i.endpoint.id) (held hash inboxes token) page.requests h
        (list_requests-owned format i.endpoint.id (asked_limit limit) after table)

  listed-held :
      (format : TextFormat) (slug limit : Bytes) (after : Bytes)
      (table : Option (List StoredRequest)) (q : Query Inbox)
      → find_slug slug inboxes ≡ q
      → all_of (held hash inboxes token) (
          served
            (handle_list_requests format (authenticate_endpoint hash token q) limit after table))
        ≡ true
  unfolding handle_list_requests authenticate_endpoint served
  listed-held format slug limit raw table no_rows e = refl
  listed-held format slug limit raw table failed e = refl
  listed-held format slug limit raw table (row i) e =
      elim (Bool-cases (equal i.owner_token_hash (hash token))) [
        | inl same ↦
            let shown_held =
              page-held format i limit (asked_after format raw) table
                (λ r own. find_slug-held slug i inboxes r e same own) in
            ground (arith, same, shown_held)
        | inr other ↦ ground (arith, other)
      ]

  find_inbox-held :
      (i : Inbox) (within : List Inbox) (r : StoredRequest)
      → find_inbox r.endpoint_id within ≡ row i
      → equal i.owner_token_hash (hash token) ≡ true
      → held hash within token r ≡ true
  unfolding find_inbox
  find_inbox-held i [] r e h = absurd (cc e)
  find_inbox-held i (j ∷ rest) r e h = ground (arith, find_inbox-held i rest r)

  joined-row :
      (s r : StoredRequest) (i : Inbox) (q : Query Inbox)
      → find_inbox s.endpoint_id inboxes ≡ q
      → joined s q ≡ row (r, i)
      → find_inbox r.endpoint_id inboxes ≡ row i
  unfolding joined
  joined-row s r i (row j) f k = cc (f, k)
  joined-row s r i no_rows f k = absurd (cc k)
  joined-row s r i failed f k = absurd (cc k)

  find_row-joined :
      (id : Bytes) (table : List StoredRequest) (r : StoredRequest) (i : Inbox)
      → find_row id table inboxes ≡ row (r, i)
      → find_inbox r.endpoint_id inboxes ≡ row i
  unfolding find_row
  find_row-joined id [] r i e = absurd (cc e)
  find_row-joined id (s ∷ rest) r i e = elim (Bool-cases (bytes_eq s.id id)) [
    | inl same ↦ joined-row s r i (find_inbox s.endpoint_id inboxes) refl (ground (arith, same, e))
    | inr other ↦ find_row-joined id rest r i (ground (arith, other, e))
  ]

  find_request-row :
      (is_id : Bytes → Bool) (id : Bytes) (table : List StoredRequest) (r : StoredRequest)
      (i : Inbox)
      → find_request is_id id table inboxes ≡ row (r, i)
      → find_row id table inboxes ≡ row (r, i)
  unfolding find_request
  find_request-row is_id id table r i e = elim (Bool-cases (is_id id)) [
    | inl well ↦ ground (arith, well, e)
    | inr ill ↦ absurd (ground (arith, ill, e))
  ]

  got-held :
      (is_id : Bytes → Bool) (id : Bytes) (table : List StoredRequest)
      (q : Query (StoredRequest × Inbox))
      → find_request is_id id table inboxes ≡ q
      → all_of
          (held hash inboxes token)
          (served (handle_get_request (authenticate_request hash token q)))
        ≡ true
  unfolding handle_get_request authenticate_request served
  got-held is_id id table no_rows e = refl
  got-held is_id id table failed e = refl
  got-held is_id id table (row (r, i)) e =
      elim (Bool-cases (equal i.owner_token_hash (hash token))) [
        | inl same ↦
            let owner =
              find_inbox-held i inboxes r
                (find_row-joined id table r i (find_request-row is_id id table r i e)) same in
            ground (arith, same, owner)
        | inr other ↦ ground (arith, other)
      ]

  -- A request that is granted.
  pub granted-held :
      (is_id : Bytes → Bool) (id : Bytes) (table : List StoredRequest) (r : StoredRequest)
      → authenticate_request hash token (find_request is_id id table inboxes) ≡ granted r
      → held hash inboxes token r ≡ true
  unfolding handle_get_request served
  granted-held is_id id table r e =
      let shows = got-held is_id id table (find_request is_id id table inboxes) refl in
      let shows_r : all_of (held hash inboxes token) (served (handle_get_request (granted r)))
          ≡ true =
        rw e at shows in
      ground (arith, shows_r)

module _ (hash : Bytes → Bytes) (wide : Bytes → Bytes → Bool) (inboxes : List Inbox)
    (authorization : Bytes) where
  -- Every capture that the list of an inbox or the page of one capture shows belongs to an inbox
  -- whose stored hash is the hash of the token in the Authorization header.
  pub served-held :
      (format : TextFormat) (slug limit after id : Bytes) (found : Option (List StoredRequest))
      (table : List StoredRequest) (is_id : Bytes → Bool)
      → let token = bearer_token wide authorization in
        (all_of
            (held hash inboxes token)
            (served (list_api hash wide inboxes authorization format slug limit after found))
          ≡ true)
        × (all_of
              (held hash inboxes token)
              (served (get_api hash wide inboxes authorization is_id id table))
            ≡ true)
  unfolding list_api get_api
  served-held format slug limit after id found table is_id =
      let token = bearer_token wide authorization in
      (
        listed-held hash inboxes token format slug limit after found (find_slug slug inboxes) refl,
        got-held hash inboxes token is_id id table (find_request is_id id table inboxes) refl,
      )
