-- ===== src/Store/Access.antt =====
-- internal/store/endpoints.go, internal/secret/secret.go: who may read an inbox. SHA-256 is a
-- parameter, and so is whether Postgres takes a text as an id.
use hooklens.Base.{
  ℕ, Bool, false, ◌||◌, List, [], ◌∷◌, Bytes, bytes_eq, length, ◌==◌, if◌then◌else◌,
}
use hooklens.Store.{Endpoint}
use hooklens.Store.Requests.{StoredRequest}

-- A row of the table of endpoints, with the columns that `Endpoint` does not show.
pub record Inbox : Type 0 where
  pub endpoint : Endpoint
  pub owner_token_hash : Bytes
  pub retention_hours : ℕ

-- `secret.Equal`: nothing equals an empty hash.
unfoldable pub equal : Bytes → Bytes → Bool
equal a b = if length a == 0 || length b == 0 then false else bytes_eq a b

-- What a query for one row comes to.
pub data Query {ℓ} (A : Type ℓ) : Type ℓ where
  row : A → Query A
  no_rows failed : Query A

-- `failure` is any other error than ErrUnauthorized.
pub data Access {ℓ} (A : Type ℓ) : Type ℓ where
  granted : A → Access A
  unauthorized failure : Access A

unfoldable pub find_slug : Bytes → List Inbox → Query Inbox
find_slug slug [] = no_rows
find_slug slug (i ∷ rest) = if bytes_eq i.endpoint.slug slug then row i else find_slug slug rest

unfoldable pub find_inbox : Bytes → List Inbox → Query Inbox
find_inbox id [] = no_rows
find_inbox id (i ∷ rest) = if bytes_eq i.endpoint.id id then row i else find_inbox id rest

-- A request with the inbox that it is joined with.
unfoldable pub joined : StoredRequest → Query Inbox → Query (StoredRequest × Inbox)
joined r (row i) = row (r, i)
joined r no_rows = no_rows
joined r failed = failed

unfoldable pub find_row : Bytes → List StoredRequest → List Inbox → Query (StoredRequest × Inbox)
find_row id [] inboxes = no_rows
find_row id (r ∷ rest) inboxes =
    if bytes_eq r.id id
    then joined r (find_inbox r.endpoint_id inboxes)
    else find_row id rest inboxes

-- A text that is no id makes the query fail.
unfoldable pub find_request :
    (Bytes → Bool) → Bytes → List StoredRequest → List Inbox → Query (StoredRequest × Inbox)
find_request is_id id table inboxes = if is_id id then find_row id table inboxes else failed

module _ (hash : Bytes → Bytes) where
  unfoldable pub authenticate_endpoint : Bytes → Query Inbox → Access Endpoint
  authenticate_endpoint token (row i) =
      if equal i.owner_token_hash (hash token) then granted i.endpoint else unauthorized
  authenticate_endpoint token no_rows = unauthorized
  authenticate_endpoint token failed = failure

  unfoldable pub authenticate_request : Bytes → Query (StoredRequest × Inbox) → Access StoredRequest
  authenticate_request token (row (r, i)) =
      if equal i.owner_token_hash (hash token) then granted r else unauthorized
  authenticate_request token no_rows = unauthorized
  authenticate_request token failed = failure
