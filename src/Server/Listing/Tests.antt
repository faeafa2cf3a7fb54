-- ===== src/Server/Listing/Tests.antt =====
-- The listing of a small inbox, with toy formats and a toy hash.
use hooklens.Base.{
  ℕ, zero, suc, ◌*◌, ◌≤◌, ◌≡◌, refl, Bool, true, false, none, some, List, [], ◌∷◌, Bytes, codes,
  bytes_eq, ◌==◌, cut, cut_prefix, length, replicate, all_of, get_elem?, equal_fold, to_lower,
  trim_space, strip_one, strip_all, parse_digits, parse_uint, positive, negative, parse_int, Lacks,
  arith,
}
use hooklens.Capture.{bytes_less}
use hooklens.Store.{Endpoint}
use hooklens.Store.Access.{
  Inbox, find_slug, find_inbox, joined, find_row, find_request, authenticate_endpoint,
  authenticate_request,
}
use hooklens.Store.Access as Access
use hooklens.Store.Cursors.{TextFormat, to_string, parse_parts, parse_cursor, precedes}
use hooklens.Store.Cursors.Roundtrip.{TextLaws}
use hooklens.Store.Requests.{
  StoredRequest, page_limit, insert_row, newest_first, after_clause, select_rows, next_from,
  page_of, list_requests,
}
use hooklens.Store.Requests.Order.{distinct_ids}
use hooklens.Server.Listing.{
  denied, shown, bad_id, bearer_token, asked_limit, asked_after, reply_page, list_granted,
  handle_list_requests, handle_get_request, list_api, get_api,
}
use hooklens.Server.Listing.Steps.{collected, follow}
use hooklens.Server.Listing.Owners.{served, held, served-held}
use hooklens.Server.Listing.Walk.{newer, named, size, rows_of, follow_complete}

program : Unit {0}
unfolding bytes_eq cut cut_prefix replicate get_elem? equal_fold to_lower trim_space strip_one
    strip_all parse_digits parse_uint positive negative parse_int bytes_less find_slug find_inbox
    joined find_row find_request authenticate_endpoint authenticate_request Access.equal to_string
    parse_parts parse_cursor precedes page_limit insert_row newest_first after_clause select_rows
    next_from page_of list_requests distinct_ids bearer_token asked_limit asked_after reply_page
    list_granted handle_list_requests handle_get_request list_api get_api collected follow
program = tt

-- Times in unary, and no encoding.
abbrev unary : TextFormat
unary = record {
  format_time = λ at. replicate at b'1';
  parse_time = λ s. some (length s);
  encode = λ s. s;
  decode = λ s. some s;
}

length-unary : (n : ℕ) → length {A = ℕ} (replicate n b'1') ≡ n
unfolding replicate
length-unary zero = refl
length-unary (suc n) = omega (arith, length-unary n)

unary-Lacks : (n : ℕ) → Lacks b'|' (replicate n b'1')
unfolding replicate
unary-Lacks zero = tt
unary-Lacks (suc n) = (ground arith, unary-Lacks n)

unary-laws : TextLaws unary
unary-laws = record {
  read_time = λ at. ground (arith, length-unary at);
  time_Lacks = unary-Lacks;
  decode-encode = λ s. refl;
  decode_empty = refl;
}

abbrev stored : Bytes → Bytes → ℕ → StoredRequest
stored id endpoint_id at = record {
  id = id;
  endpoint_id = endpoint_id;
  method = codes "POST";
  path = codes "/";
  query = [];
  headers = [];
  body = [];
  body_size = 0;
  body_truncated = false;
  declared_size = none;
  source_ip = none;
  received_at = at;
  forward_status = none;
  forward_error = none;
  forward_ms = none;
}

abbrev endpoint : Endpoint
endpoint = record {
  id = codes "e";
  slug = codes "a7f3";
  name = [];
  created_at = 0;
  last_seen_at = none;
}

abbrev inboxes : List Inbox
inboxes = (record { endpoint = endpoint; owner_token_hash = codes "k"; retention_hours = 168 }) ∷ []

-- Two rows of one instant, and one of another inbox.
abbrev table : List StoredRequest
table =
    stored (codes "a") (codes "e") 3
    ∷ stored (codes "b") (codes "f") 4
    ∷ stored (codes "c") (codes "e") 3
    ∷ []

abbrev arrivals : List (List StoredRequest)
arrivals = (stored (codes "d") (codes "e") 9 ∷ []) ∷ []

table-ids : distinct_ids table ≡ true
unfolding program
table-ids = refl

table-names : all_of named table ≡ true
unfolding program
table-names = refl

arrivals-newer : all_of (all_of (newer table)) arrivals ≡ true
unfolding program
arrivals-newer = refl

arrivals-enough : length (rows_of endpoint table) ≤ size (codes "1") * suc (length arrivals)
unfolding program
arrivals-enough = ground arith

follow-complete_example :
    follow unary endpoint (codes "1") table [] ([] ∷ arrivals) ≡ (rows_of endpoint table, true)
follow-complete_example =
    follow_complete unary unary-laws endpoint (codes "1") table table-ids table-names arrivals
      arrivals-newer arrivals-enough

walk_ids :
    follow unary endpoint (codes "1") table [] ([] ∷ arrivals)
    ≡ (stored (codes "c") (codes "e") 3 ∷ stored (codes "a") (codes "e") 3 ∷ [], true)
unfolding program
walk_ids = refl

no_fold : Bytes → Bytes → Bool
no_fold s t = false

abbrev plain_hash : Bytes → Bytes
plain_hash s = s

-- Ids of one letter.
abbrev short : Bytes → Bool
short id = length id == 1

served-held_example :
    (all_of (held plain_hash inboxes (bearer_token no_fold (codes "bearer k"))) (
        served (
          list_api plain_hash no_fold inboxes
            (codes "bearer k")
            unary
            (codes "a7f3")
            []
            []
            (some table)))
      ≡ true)
    × (all_of
          (held plain_hash inboxes (bearer_token no_fold (codes "bearer k")))
          (served (get_api plain_hash no_fold inboxes (codes "bearer k") short (codes "c") table))
        ≡ true)
served-held_example =
    served-held plain_hash no_fold inboxes (codes "bearer k") unary (codes "a7f3") [] [] (codes "c")
      (some table) table short

owner-shown :
    get_api plain_hash no_fold inboxes (codes "bearer k") short (codes "c") table
    ≡ shown (stored (codes "c") (codes "e") 3)
unfolding program
owner-shown = refl

-- Another inbox's capture, and one that does not exist.
other-denied :
    get_api plain_hash no_fold inboxes (codes "Bearer k") short (codes "b") table ≡ denied
unfolding program
other-denied = refl

missing-denied :
    get_api plain_hash no_fold inboxes (codes "Bearer k") short (codes "z") table ≡ denied
unfolding program
missing-denied = refl

-- A text that is no id is reported as such, whoever asks.
malformed_id :
    get_api plain_hash no_fold inboxes (codes "Bearer k") short (codes "cc") table ≡ bad_id
unfolding program
malformed_id = refl
