-- ===== src/Server/Comparing/Tests.antt =====
-- Two captures compared, with a toy JSON library, hash and case folding.
use hooklens.Base.{
  Bool, true, false, ◌≡◌, ◌↔◌, refl, Option, none, some, List, [], ◌∷◌, ◌++◌, Bytes, codes,
  bytes_eq, bytes_key, lookup, insert, trim_space, strip_one, strip_all, equal_fold, to_lower,
  format_uint, if◌then◌else◌,
}
use hooklens.Capture.{Header, bytes_less}
use hooklens.Diff.{
  Json, null, boolean, number, text, array, object, Items, nil, item, end, field, Library, added,
  removed, changed, items_of, fields_of, insert_string, sort_strings, all_keys, over, join,
  scalar_string, scalar_at, first_id, id_of, collect_ids, element_ids, pair_up,
}
use hooklens.Diff.Alike.{SameBody}
use hooklens.Diff.Walk.{
  key_changes, walk_objects, walk_by_index, matched_changes, walk_by_id, walk_arrays_by,
  walk_arrays, walk_scalar, beside_object, beside_array, walk, insert_change, sort_changes, decode,
  compared, bodies,
}
use hooklens.Diff.Identical.{bodies-SameBody}
use hooklens.Diff.Headers.{
  joined, grown, header_path, header_change, without, without_volatile, group_onto, headers,
}
use hooklens.Store.Access.{Inbox, find_inbox, find_row, find_request, authenticate_request}
use hooklens.Store.Access as Access
use hooklens.Store.Requests.{StoredRequest}
use hooklens.Server.Listing.{bearer_token}
use hooklens.Server.Comparing.{
  denied, missing_with, append_if_different, is_empty, meta, shown_headers, compare, compare_with,
  handle_diff, diff_api,
}
use hooklens.Server.Comparing as Comparing
use hooklens.Server.Comparing.Identical.{SameLine, SameHeaders, left_out, compare-Same}

program : Unit {0}
unfolding bytes_eq lookup insert trim_space strip_one strip_all equal_fold to_lower format_uint
    bytes_less items_of fields_of insert_string sort_strings all_keys over join scalar_string
    scalar_at first_id id_of collect_ids element_ids pair_up key_changes walk_objects walk_by_index
    matched_changes walk_by_id walk_arrays_by walk_arrays walk_scalar beside_object beside_array
    walk insert_change sort_changes decode compared bodies joined grown header_path header_change
    without without_volatile group_onto headers find_inbox find_row find_request Access.joined
    Access.equal authenticate_request bearer_token append_if_different is_empty meta shown_headers
    compare compare_with handle_diff diff_api
program = tt

-- `id` and one more field; two such, in either order.
abbrev element : Bytes → Json → Json
element id v = object (field (codes "n") v (field (codes "id") (text id) end))

abbrev here : Items
here = item (element (codes "a") (number (codes "1"))) (item (element (codes "b") null) nil)

abbrev there : Items
there = item (element (codes "b") null) (item (element (codes "a") (number (codes "1"))) nil)

abbrev other : Items
other =
    item (element (codes "b") (boolean true)) (item (element (codes "c") (number (codes "1"))) nil)

unfoldable tag : Json → Bytes
tag null = codes "0"
tag (boolean b) = if b then codes "t" else codes "f"
tag (number s) = codes "#" ++ s
tag (text s) = codes "'" ++ s
tag (array items) = codes "[]"
tag (object fields) = codes "{}"

unfoldable documents : Bytes → Option (Json × Bool)
documents s =
    if bytes_eq s (codes "here")
    then some (array here, false)
    else if bytes_eq s (codes "there")
    then some (array there, false)
    else if bytes_eq s (codes "other")
    then some (array other, false)
    else if bytes_eq s (codes "more")
    then some (array here, true)
    else none

abbrev toy : Library
toy = record { parse = documents; encode = tag }

-- The order of elements with ids does not matter.
reordered : (bodies toy (codes "here") (codes "there")).identical ≡ true
unfolding program tag documents
reordered = refl

-- A value changed, an element gone and one come, by path.
differing :
    (bodies toy (codes "here") (codes "other")).changes
    ≡ (record { path = codes "[id=a]"; op = removed; old = codes "{}"; new = [] })
      ∷ (record { path = codes "[id=b].n"; op = changed; old = codes "0"; new = codes "t" })
      ∷ (record { path = codes "[id=c]"; op = added; old = []; new = codes "{}" })
      ∷ []
unfolding program tag documents
differing = refl

-- More behind the document: compared as bytes.
trailing : (bodies toy (codes "more") (codes "here")).identical ≡ false
unfolding program tag documents
trailing = refl

bodies-SameBody_example :
    ((bodies toy (codes "here") (codes "there")).identical ≡ true)
    ↔ SameBody toy
        (codes "here")
        (codes "there")
        (decode toy (codes "here"))
        (decode toy (codes "there"))
bodies-SameBody_example = bodies-SameBody toy (codes "here") (codes "there")

no_case : Bytes → Bytes
no_case s = s

no_fold : Bytes → Bytes → Bool
no_fold s t = false

abbrev capture : Bytes → Bytes → Bytes → List Header → StoredRequest
capture id endpoint_id body hs = record {
  id = id;
  endpoint_id = endpoint_id;
  method = codes "POST";
  path = codes "/";
  query = [];
  headers = hs;
  body = body;
  body_size = 0;
  body_truncated = false;
  declared_size = none;
  source_ip = none;
  received_at = 0;
  forward_status = none;
  forward_error = none;
  forward_ms = none;
}

abbrev header : Bytes → Bytes → Header
header name content = record { name = name; content = content }

abbrev first : StoredRequest
first = capture (codes "1") (codes "e") (codes "here") (
    header (codes "X-A") (codes "p")
    ∷ header (codes "Date") (codes "mon")
    ∷ header (codes "x-a") (codes "q")
    ∷ [])

abbrev second : StoredRequest
second =
    capture (codes "2") (codes "e") (codes "there")
      (header (codes "Date") (codes "tue") ∷ header (codes "X-A") (codes "p, q") ∷ [])

-- Two headers of one name are taken for one with both values.
taken_for_one :
    headers no_case first.headers second.headers
    ≡ (record { path = codes "header:date"; op = changed; old = codes "mon"; new = codes "tue" })
      ∷ []
unfolding program
taken_for_one = refl

-- The date is hidden, and shown when asked for.
date_hidden : (compare toy no_case first second []).identical ≡ true
unfolding program tag documents
date_hidden = refl

date_shown : (compare toy no_case first second (codes "1")).identical ≡ false
unfolding program tag documents
date_shown = refl

compare-Same_example : ((compare toy no_case first second []).identical ≡ true) ↔ (
    SameLine first second
    × SameHeaders no_case first second (left_out [])
    × SameBody toy
        (codes "here")
        (codes "there")
        (decode toy (codes "here"))
        (decode toy (codes "there")))
compare-Same_example = compare-Same toy no_case first second []

abbrev inbox : Bytes → Bytes → Inbox
inbox id hash = record {
  endpoint = record { id = id; slug = id; name = []; created_at = 0; last_seen_at = none };
  owner_token_hash = hash;
  retention_hours = 168;
}

abbrev inboxes : List Inbox
inboxes = inbox (codes "e") (codes "k") ∷ inbox (codes "f") (codes "h") ∷ []

abbrev table : List StoredRequest
table = first ∷ second ∷ capture (codes "3") (codes "f") [] [] ∷ []

abbrev hash : Bytes → Bytes
hash s = s

-- Every text is an id.
abbrev any_id : Bytes → Bool
any_id id = true

ask : Bytes → Bytes → Comparing.DiffReply
ask id other_id =
    diff_api toy no_case hash no_fold any_id inboxes table (codes "Bearer k") id other_id []

-- One capture of one's own does not show another's.
foreign_denied : ask (codes "1") (codes "3") ≡ denied
unfolding program ask
foreign_denied = refl

without_other : ask (codes "1") [] ≡ missing_with
unfolding program ask
without_other = refl
