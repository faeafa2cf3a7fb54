-- ===== src/Store/Requests.antt =====
-- internal/store/requests.go: ListRequests. A table of requests is a list of rows in any order, on
-- which the query does what its clauses say.
pub mod Order
pub mod Cuts
use hooklens.Base.{
  ℕ, ◌+◌, ◌-◌, Bool, true, false, ◌&&◌, Option, none, some, List, [], ◌∷◌, Bytes, bytes_eq, take,
  keep, length, get_elem?, ltb, leb, ◌==◌, if◌then◌else◌, ℤ, pos, negsuc,
}
use hooklens.Capture.{Header}
use hooklens.Store.Cursors.{TextFormat, Cursor, to_string, precedes}

-- An absent value is none.
pub record StoredRequest : Type 0 where
  pub id : Bytes
  pub endpoint_id : Bytes
  pub method : Bytes
  pub path : Bytes
  pub query : Bytes
  pub headers : List Header
  pub body : Bytes
  pub body_size : ℕ
  pub body_truncated : Bool
  pub declared_size : Option ℕ
  pub source_ip : Option Bytes
  pub received_at : ℕ
  pub forward_status : Option ℕ
  pub forward_error : Option Bytes
  pub forward_ms : Option ℕ

-- A next cursor without bytes says that this is the last page.
pub record Page : Type 0 where
  pub requests : List StoredRequest
  pub next_cursor : Bytes

abbrev pub default_limit : ℕ
default_limit = 50

abbrev pub max_limit : ℕ
max_limit = 200

-- The limit after the test at the start of `ListRequests`.
unfoldable pub page_limit : ℤ → ℕ
page_limit (negsuc n) = default_limit
page_limit (pos n) = if n == 0 then default_limit else if leb n max_limit then n else default_limit

abbrev pub cursor_of : StoredRequest → Cursor
cursor_of r = record { received_at = r.received_at; id = r.id }

-- `order by received_at desc, id desc`.
unfoldable pub insert_row : StoredRequest → List StoredRequest → List StoredRequest
insert_row r [] = r ∷ []
insert_row r (s ∷ rest) =
    let later = insert_row r rest in
    if precedes (cursor_of r) (cursor_of s) then s ∷ later else r ∷ s ∷ rest

unfoldable pub newest_first : List StoredRequest → List StoredRequest
newest_first [] = []
newest_first (r ∷ rest) = insert_row r (newest_first rest)

-- `where endpoint_id = $1`.
abbrev pub owned : Bytes → StoredRequest → Bool
owned endpoint_id r = bytes_eq r.endpoint_id endpoint_id

-- `(received_at, id) < ($3, $4)`, or no such clause.
unfoldable pub after_clause : Option Cursor → StoredRequest → Bool
after_clause none r = true
after_clause (some c) r = precedes (cursor_of r) c

unfoldable pub select_rows : Bytes → ℕ → Option Cursor → List StoredRequest → List StoredRequest
select_rows endpoint_id probe after table =
    take probe (newest_first (keep (after_clause after) (keep (owned endpoint_id) table)))

-- The text of the cursor at a row; there is always one where this is called.
unfoldable pub next_from : TextFormat → Option StoredRequest → Bytes
next_from format none = []
next_from format (some last) = to_string format (cursor_of last)

unfoldable pub page_of : TextFormat → ℕ → List StoredRequest → Page
page_of format limit out =
    let shown = take limit out in
    if ltb limit (length out)
    then record { requests = shown; next_cursor = next_from format (get_elem? shown (limit - 1)) }
    else record { requests = out; next_cursor = [] }

unfoldable pub list_requests : TextFormat → Bytes → ℤ → Option Cursor → List StoredRequest → Page
list_requests format endpoint_id asked after table =
    let limit = page_limit asked in
    page_of format limit (select_rows endpoint_id (limit + 1) after table)
