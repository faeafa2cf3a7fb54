-- ===== src/Server/Comparing.antt =====
-- internal/server/diff.go: two captures compared for the holder of one token. The texts of errors and
-- the names of the volatile headers, which the reply repeats, are left out.
pub mod Identical
mod Tests
mod Owners
use hooklens.Base.{
  Bool, true, false, not, ◌&&◌, Option, none, some, List, [], ◌∷◌, ◌++◌, Bytes, codes, bytes_eq,
  if◌then◌else◌,
}
use hooklens.Diff.{Library, Change, changed}
use hooklens.Diff.Walk.{bodies}
use hooklens.Diff.Headers.{headers, without_volatile}
use hooklens.Store.Access.{
  Inbox, Access, granted, unauthorized, failure, find_request, authenticate_request,
}
use hooklens.Store.Requests.{StoredRequest}
use hooklens.Server.Listing.{bearer_token}

pub record Comparison : Type 0 where
  pub left : Bytes
  pub right : Bytes
  pub request : List Change
  pub headers : List Change
  pub body : List Change
  pub body_note : Bytes
  pub identical : Bool
  pub volatile_hidden : Bool

pub data DiffReply : Type 0 where
  denied bad_id missing_with bad_with : DiffReply
  compared : Comparison → DiffReply

-- `appendIfDifferent`.
unfoldable pub append_if_different : List Change → Bytes → Bytes → Bytes → List Change
append_if_different out name l r =
    if bytes_eq l r
    then out
    else out ++ ((record { path = name; op = changed; old = l; new = r }) ∷ [])

unfoldable pub is_empty : List Change → Bool
is_empty [] = true
is_empty (c ∷ rest) = false

-- The parts of a request's line.
unfoldable pub meta : StoredRequest → StoredRequest → List Change
meta l r =
    let of_method = append_if_different [] (codes "method") l.method r.method in
    let of_path = append_if_different of_method (codes "path") l.path r.path in
    append_if_different of_path (codes "query") l.query r.query

module _ (lib : Library) (wide : Bytes → Bytes) where
  unfoldable pub shown_headers : StoredRequest → StoredRequest → Bytes → List Change
  shown_headers l r volatile =
      let all = headers wide l.headers r.headers in
      if bytes_eq volatile (codes "1") then all else without_volatile all

  unfoldable pub compare : StoredRequest → StoredRequest → Bytes → Comparison
  compare l r volatile =
      let of_body = bodies lib l.body r.body in
      let of_headers = shown_headers l r volatile in
      let of_line = meta l r in
      record {
        left = l.id;
        right = r.id;
        request = of_line;
        headers = of_headers;
        body = of_body.changes;
        body_note = of_body.note;
        identical = is_empty of_line && is_empty of_headers && of_body.identical;
        volatile_hidden = not (bytes_eq volatile (codes "1"));
      }

  -- The other capture is looked up when the first was granted and its id is there.
  unfoldable pub compare_with : StoredRequest → Access StoredRequest → Bytes → DiffReply
  compare_with l (granted r) volatile = compared (compare l r volatile)
  compare_with l unauthorized volatile = denied
  compare_with l failure volatile = bad_with

  unfoldable pub handle_diff :
      Access StoredRequest → Bytes → Access StoredRequest → Bytes → DiffReply
  handle_diff (granted l) other_id right volatile =
      if bytes_eq other_id [] then missing_with else compare_with l right volatile
  handle_diff unauthorized other_id right volatile = denied
  handle_diff failure other_id right volatile = bad_id

  -- The handler from the request's parts and the tables that the queries find; one token for both.
  unfoldable pub diff_api :
      (Bytes → Bytes)
      → (Bytes → Bytes → Bool)
      → (Bytes → Bool)
      → List Inbox
      → List StoredRequest
      → Bytes
      → Bytes
      → Bytes
      → Bytes
      → DiffReply
  diff_api hash wide_fold is_id inboxes table authorization id other_id volatile =
      let token = bearer_token wide_fold authorization in
      handle_diff (authenticate_request hash token (find_request is_id id table inboxes)) other_id
        (authenticate_request hash token (find_request is_id other_id table inboxes)) volatile
