-- ===== src/Server/Listing.antt =====
-- internal/server/server.go: the two handlers that show captures to the owner of an inbox.
pub mod Steps
pub mod Walk
pub mod Owners
mod Tests
use hooklens.Base.{
  ℕ, ◌+◌, Bool, true, false, not, ◌||◌, Option, none, some, List, [], ◌∷◌, Bytes, codes, bytes_eq,
  equal_fold, trim_space, take, drop, length, leb, if◌then◌else◌, ℤ, pos, parse_int,
}
use hooklens.Store.{Endpoint}
use hooklens.Store.Access.{
  Inbox, Query, failed, Access, granted, unauthorized, failure, find_slug, find_request,
  authenticate_endpoint, authenticate_request,
}
use hooklens.Store.Cursors.{TextFormat, Cursor, parse_cursor}
use hooklens.Store.Requests.{StoredRequest, Page, list_requests}

-- `bearerToken` of the Authorization header; `wide` is strings.EqualFold outside ASCII.
unfoldable pub bearer_token : (Bytes → Bytes → Bool) → Bytes → Bytes
bearer_token wide h =
    if leb (length h) 7 || not (equal_fold wide (take 7 h) (codes "Bearer "))
    then []
    else trim_space (drop 7 h)

-- A reply with what it shows of the captures.
pub data Reply : Type 0 where
  denied : Reply
  lookup_failed list_failed : Reply
  malformed_cursor bad_id : Reply
  listed : Bytes → List StoredRequest → Option Bytes → Reply
  shown : StoredRequest → Reply

-- strconv.Atoi with its error ignored. Out of range it gives the nearest number, which
-- `ListRequests` replaces by its default like the zero here.
unfoldable pub asked_limit : Bytes → ℤ
asked_limit raw = elim (parse_int raw) [ none ↦ pos 0 | some n ↦ n ]

-- An empty text is the first page; none is a cursor that cannot be read.
unfoldable pub asked_after : TextFormat → Bytes → Option (Option Cursor)
asked_after format raw =
    if bytes_eq raw []
    then some none
    else elim (parse_cursor format raw) [ none ↦ none | some c ↦ some (some c) ]

unfoldable pub reply_page : Endpoint → Page → Reply
reply_page ep page =
    listed ep.slug page.requests
      (if bytes_eq page.next_cursor [] then none else some page.next_cursor)

-- The table as the query finds it, or none when the query fails.
unfoldable pub list_granted :
    TextFormat → Endpoint → Bytes → Option (Option Cursor) → Option (List StoredRequest) → Reply
list_granted format ep limit none table = malformed_cursor
list_granted format ep limit (some after) none = list_failed
list_granted format ep limit (some after) (some table) =
    reply_page ep (list_requests format ep.id (asked_limit limit) after table)

unfoldable pub handle_list_requests :
    TextFormat → Access Endpoint → Bytes → Bytes → Option (List StoredRequest) → Reply
handle_list_requests format (granted ep) limit raw table =
    list_granted format ep limit (asked_after format raw) table
handle_list_requests format unauthorized limit raw table = denied
handle_list_requests format failure limit raw table = lookup_failed

-- Every error but ErrUnauthorized is reported as a bad id.
unfoldable pub handle_get_request : Access StoredRequest → Reply
handle_get_request (granted r) = shown r
handle_get_request unauthorized = denied
handle_get_request failure = bad_id

-- The two handlers from the request's parts and the tables that the queries find.
module _ (hash : Bytes → Bytes) (wide : Bytes → Bytes → Bool) (inboxes : List Inbox)
    (authorization : Bytes) where
  unfoldable pub list_api : TextFormat → Bytes → Bytes → Bytes → Option (List StoredRequest) → Reply
  list_api format slug limit raw table =
      handle_list_requests format
        (authenticate_endpoint hash (bearer_token wide authorization) (find_slug slug inboxes))
        limit raw table

  unfoldable pub get_api : (Bytes → Bool) → Bytes → List StoredRequest → Reply
  get_api is_id id table = handle_get_request (
      authenticate_request hash (bearer_token wide authorization)
        (find_request is_id id table inboxes))
