-- ===== src/Server/Listing/Walk.antt =====
-- internal/server/server.go, internal/store: a client that follows the cursors sees every row once.
use hooklens.Base.{
  ℕ, zero, suc, ◌+◌, ◌*◌, ◌≤◌, ◌<◌, ◌≡◌, ◌∙◌, refl, sym, ap, Bool, true, false, not, none, some,
  List, [], ◌∷◌, ◌++◌, append_assoc, Bytes, bytes_eq, length, take, keep, all_of, ltb, arith,
  Bool-cases, inl, inr,
}
use hooklens.Store.{Endpoint}
use hooklens.Store.Access.{granted}
use hooklens.Store.Cursors.{TextFormat, to_string}
use hooklens.Store.Cursors.Roundtrip.{TextLaws, parse_cursor-to_string, to_string-nonempty}
use hooklens.Store.Requests.{
  StoredRequest, page_limit, cursor_of, newest_first, owned, after_clause, select_rows, page_of,
  list_requests,
}
use hooklens.Store.Requests.Order.{
  before, descending, distinct_ids, newest_first-descending, all_of-newest_first, all_of-keep,
  all_of-weaken, precedes-asym,
}
use hooklens.Store.Requests.Cuts.{
  keep-newest_first, keep_none, keep-append, keep-distinct_ids, keep-cut, all_of-middle,
}
use hooklens.Server.Listing.{
  asked_limit, asked_after, reply_page, list_granted, handle_list_requests,
}
use hooklens.Server.Listing.Steps.{
  follow, collected, page_limit-positive, cut_at, step_last, step_next, unread,
}

-- Later than every row of a table.
abbrev pub newer : List StoredRequest → StoredRequest → Bool
newer table r = all_of (before r) table

abbrev pub named : StoredRequest → Bool
named r = not (bytes_eq r.id [])

no_clause : (rows : List StoredRequest) → keep (after_clause none) rows ≡ rows
unfolding after_clause
no_clause [] = refl
no_clause (r ∷ rest) = ap (◌∷◌ r) (no_clause rest)

-- The rows of an inbox, newest first.
abbrev pub rows_of : Endpoint → List StoredRequest → List StoredRequest
rows_of ep t = newest_first (keep (owned ep.id) t)

-- The number of rows of a page.
abbrev pub size : Bytes → ℕ
size limit = page_limit (asked_limit limit)

module _ (format : TextFormat) (laws : TextLaws format) (ep : Endpoint) (limit : Bytes)
    (table : List StoredRequest) (ids : distinct_ids table ≡ true)
    (names : all_of named table ≡ true) where
  from_table :
      (p : StoredRequest → Bool) (front : List StoredRequest) (last : StoredRequest)
      (rest : List StoredRequest)
      → rows_of ep table ≡ front ++ (last ∷ rest)
      → all_of p table ≡ true
      → p last ≡ true
  from_table p front last rest e h =
      let kept =
        all_of-newest_first p (keep (owned ep.id) table) (all_of-keep p (owned ep.id) table h) in
      all_of-middle p front last rest (sym (ap (all_of p) e) ∙ kept)

  arrived_after :
      (arrived front : List StoredRequest) (last : StoredRequest) (rest : List StoredRequest)
      → rows_of ep table ≡ front ++ (last ∷ rest)
      → all_of (newer table) arrived ≡ true
      → keep (after_clause (some (cursor_of last))) (keep (owned ep.id) arrived) ≡ []
  unfolding after_clause
  arrived_after arrived front last rest e h =
      let own = all_of-keep (newer table) (owned ep.id) arrived h in
      keep_none (after_clause (some (cursor_of last))) (keep (owned ep.id) arrived) (
        all_of-weaken (newer table) (λ r. not (before last r)) (keep (owned ep.id) arrived)
          (λ r n. ap not (
            precedes-asym (cursor_of last) (cursor_of r)
              (from_table (before r) front last rest e n)))
          own)

  select-after :
      (arrived front : List StoredRequest) (last : StoredRequest) (rest : List StoredRequest)
      (probe : ℕ)
      → rows_of ep table ≡ front ++ (last ∷ rest)
      → all_of (newer table) arrived ≡ true
      → select_rows ep.id probe (some (cursor_of last)) (arrived ++ table) ≡ take probe rest
  unfolding select_rows after_clause
  select-after arrived front last rest probe e h =
      let own = keep (owned ep.id) table in
      let after = after_clause (some (cursor_of last)) in
      let distinct = keep-distinct_ids (owned ep.id) table ids in
      let old : keep after (rows_of ep table) ≡ rest =
        ap (keep after) e
        ∙ keep-cut front last rest (sym (ap descending e) ∙ newest_first-descending own distinct) in
      cc (
        keep-append (owned ep.id) arrived table,
        keep-append after (keep (owned ep.id) arrived) own,
        arrived_after arrived front last rest e h,
        keep-newest_first after own distinct,
        old,
      )

  fetch_lem :
      (last : StoredRequest) (t : List StoredRequest)
      → bytes_eq last.id [] ≡ false
      → handle_list_requests format (granted ep) limit (to_string format (cursor_of last)) (some t)
        ≡ reply_page ep (list_requests format ep.id (asked_limit limit) (some (cursor_of last)) t)
  unfolding handle_list_requests list_granted asked_after
  fetch_lem last t h =
      let c = cursor_of last in
      ground (
        arith,
        unread format laws ep (to_string format c) (to_string-nonempty format laws c),
        parse_cursor-to_string format laws c h,
      )

  -- One more page, of the rows that are left, and then the rest of the walk.
  turn :
      (rows : List StoredRequest) (later : Bytes → List StoredRequest × Bool)
      → ((front : List StoredRequest) (last : StoredRequest) (rest : List StoredRequest)
          → rows ≡ front ++ (last ∷ rest)
          → length rest + size limit ≡ length rows
          → 1 ≤ length rest
          → later (to_string format (cursor_of last)) ≡ (rest, true))
      → collected (reply_page ep (page_of format (size limit) (take (size limit + 1) rows))) later
        ≡ (rows, true)
  turn rows later h = turn_at (size limit) refl (page_limit-positive (asked_limit limit))
    where
      turn_at :
          (n : ℕ)
          → size limit ≡ n
          → 1 ≤ n
          → collected (reply_page ep (page_of format n (take (n + 1) rows))) later ≡ (rows, true)
      turn_at zero e one = absurd (omega (arith, one))
      turn_at (suc k) e one = elim (Bool-cases (ltb (suc k) (length rows))) [
        | inl long ↦
            let more : suc k < length rows = ground (arith, long) in
            let c = cut_at k rows more in
            step_next format laws ep k rows later more (
              h c.front c.last c.rest c.whole (omega (arith, e, c.left))
                (omega (arith, more, c.left)))
        | inr short ↦ step_last format laws ep (suc k) rows later (ground (arith, short))
      ]

  follow-rest :
      (extras : List (List StoredRequest)) (front : List StoredRequest) (last : StoredRequest)
      (rest : List StoredRequest)
      → rows_of ep table ≡ front ++ (last ∷ rest)
      → all_of (all_of (newer table)) extras ≡ true
      → length rest ≤ size limit * length extras
      → 1 ≤ length rest
      → follow format ep limit table (to_string format (cursor_of last)) extras ≡ (rest, true)
  unfolding follow list_requests
  follow-rest [] front last rest e h bound one = absurd (omega (arith, bound, one))
  follow-rest (arrived ∷ extras) front last rest e h bound one =
      let id_kept : bytes_eq last.id [] ≡ false =
        ground (arith, from_table named front last rest e names) in
      let later : Bytes → List StoredRequest × Bool =
        (λ cursor. follow format ep limit table cursor extras) in
      ap (λ r. collected r later) (fetch_lem last (arrived ++ table) id_kept)
      ∙ (ap (λ out. collected (reply_page ep (page_of format (size limit) out)) later)
            (select-after arrived front last rest (size limit + 1) e (ground (arith, h)))
          ∙ turn rest later (λ front' last' rest' e' left' one'.
            follow-rest extras (front ++ (last ∷ front')) last' rest'
              (e
                ∙ (ap (λ r. front ++ (last ∷ r)) e'
                    ∙ sym (append_assoc front (last ∷ front') (last' ∷ rest'))))
              (ground (arith, h)) (omega (arith, left', bound)) one'))

  -- A client that starts without a cursor and follows the cursors it is given, with at least one
  -- request and as many as pages of the clamped limit need, comes to a last page and has then, once
  -- and newest first, every row of the inbox that was there when it started, whatever newer rows
  -- came in between. The ids are distinct and not empty, and times and base64 can be read back.
  pub follow_complete :
      (extras : List (List StoredRequest))
      → all_of (all_of (newer table)) extras ≡ true
      → length (rows_of ep table) ≤ size limit * suc (length extras)
      → follow format ep limit table [] ([] ∷ extras) ≡ (rows_of ep table, true)
  unfolding follow list_requests select_rows after_clause handle_list_requests list_granted
      asked_after bytes_eq
  follow_complete extras h bound =
      let later : Bytes → List StoredRequest × Bool =
        (λ cursor. follow format ep limit table cursor extras) in
      ap
        (λ own.
          collected
            (reply_page ep (page_of format (size limit) (take (size limit + 1) (newest_first own))))
            later)
        (no_clause (keep (owned ep.id) table))
      ∙ turn (rows_of ep table) later (λ front last rest e left one.
        follow-rest extras front last rest e h (omega (arith, left, bound)) one)
