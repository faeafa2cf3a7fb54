-- ===== src/Server/Listing/Steps.antt =====
-- internal/server/server.go, internal/store: the walk of a client through the pages of an inbox.
use hooklens.Base.{
  ℕ, zero, suc, ◌+◌, ◌≤◌, ◌<◌, ◌≡◌, ◌≢◌, ◌∙◌, refl, sym, ap, Bool, true, false, none, some, List,
  [], ◌∷◌, ◌++◌, append_assoc, Bytes, bytes_eq, bytes_eq-to, length, take, get_elem?, ℤ, pos,
  negsuc, arith, Bool-cases, inl, inr, take_of_length-le, length-take,
}
use hooklens.Store.{Endpoint}
use hooklens.Store.Access.{granted}
use hooklens.Store.Cursors.{TextFormat, to_string}
use hooklens.Store.Cursors.Roundtrip.{TextLaws, to_string-nonempty}
use hooklens.Store.Requests.{StoredRequest, page_limit, cursor_of, next_from, page_of}
use hooklens.Server.Listing.{Reply, listed, reply_page, handle_list_requests}

-- The rows that a client collects which follows the cursors, and whether it came to the last page.
-- Before each of its requests the table has got the rows of the next list in front.
unfoldable pub collected : Reply → (Bytes → List StoredRequest × Bool) → List StoredRequest × Bool
collected (listed slug rows none) later = (rows, true)
collected (listed slug rows (some cursor)) later = (rows ++ (later cursor).0, (later cursor).1)
collected reply later = ([], false)

unfoldable pub follow :
    TextFormat
    → Endpoint
    → Bytes
    → List StoredRequest
    → Bytes
    → List (List StoredRequest)
    → List StoredRequest × Bool
follow format ep limit table raw [] = ([], false)
follow format ep limit table raw (arrived ∷ rest) =
    collected (handle_list_requests format (granted ep) limit raw (some (arrived ++ table)))
      (λ cursor. follow format ep limit table cursor rest)

pub page_limit-positive : (asked : ℤ) → 1 ≤ page_limit asked
unfolding page_limit
page_limit-positive (negsuc n) = omega arith
page_limit-positive (pos n) = ground arith

-- A list that is longer than `suc k` is cut behind its row number `k`.
pub record Cut (k : ℕ) (rows : List StoredRequest) : Type 0 where
  pub front : List StoredRequest
  pub last : StoredRequest
  pub rest : List StoredRequest
  pub whole : rows ≡ front ++ (last ∷ rest)
  pub shown : take (suc k) (take (suc (suc k)) rows) ≡ front ++ (last ∷ [])
  pub at_end : get_elem? (front ++ (last ∷ [])) k ≡ some last
  pub left : length rest + suc k ≡ length rows

pub cut_at : (k : ℕ) (rows : List StoredRequest) → suc k < length rows → Cut k rows
unfolding get_elem?
cut_at k [] h = absurd (omega (arith, h))
cut_at zero (r ∷ rows) h = record {
  front = [];
  last = r;
  rest = rows;
  whole = refl;
  shown = refl;
  at_end = refl;
  left = omega arith;
}
cut_at (suc k) (r ∷ rows) h =
    let c = cut_at k rows (omega (arith, h)) in
    record {
      front = r ∷ c.front;
      last = c.last;
      rest = c.rest;
      whole = ap (◌∷◌ r) c.whole;
      shown = ap (◌∷◌ r) c.shown;
      at_end = c.at_end;
      left = omega (arith, c.left);
    }

module _ (format : TextFormat) (laws : TextLaws format) (ep : Endpoint) where
  page_last :
      (limit : ℕ) (rows : List StoredRequest)
      → length rows ≤ limit
      → page_of format limit (take (limit + 1) rows) ≡ record { requests = rows; next_cursor = [] }
  unfolding page_of
  page_last limit rows h =
      let all = take_of_length-le (limit + 1) rows (omega (arith, h)) in ground (arith, all)

  page_next :
      (k : ℕ) (rows : List StoredRequest) (long : suc k < length rows)
      → let c = cut_at k rows long in
        page_of format (suc k) (take (suc k + 1) rows) ≡ record {
          requests = c.front ++ (c.last ∷ []);
          next_cursor = to_string format (cursor_of c.last);
        }
  unfolding page_of next_from
  page_next k rows long =
      let c = cut_at k rows long in
      let size = length-take (suc (suc k)) rows in ground (arith, c.shown, c.at_end, size)

  pub unread : (cursor : Bytes) → cursor ≢ [] → bytes_eq cursor [] ≡ false
  unread cursor ne = elim (Bool-cases (bytes_eq cursor [])) [
    | inl e ↦ absurd (ne (bytes_eq-to cursor [] e))
    | inr e ↦ e
  ]

  pub step_last :
      (limit : ℕ) (rows : List StoredRequest) (later : Bytes → List StoredRequest × Bool)
      → length rows ≤ limit
      → collected (reply_page ep (page_of format limit (take (limit + 1) rows))) later
        ≡ (rows, true)
  unfolding collected reply_page bytes_eq
  step_last limit rows later h =
      ap (λ p. collected (reply_page ep p) later) (page_last limit rows h)

  collected-next :
      (shown : List StoredRequest) (cursor : Bytes) (later : Bytes → List StoredRequest × Bool)
      → bytes_eq cursor [] ≡ false
      → collected (reply_page ep (record { requests = shown; next_cursor = cursor })) later
        ≡ (shown ++ (later cursor).0, (later cursor).1)
  unfolding collected reply_page
  collected-next shown cursor later h = ground arith

  pub step_next :
      (k : ℕ) (rows : List StoredRequest) (later : Bytes → List StoredRequest × Bool)
      (long : suc k < length rows)
      → (let c = cut_at k rows long in later (to_string format (cursor_of c.last)) ≡ (c.rest, true))
      → collected (reply_page ep (page_of format (suc k) (take (suc k + 1) rows))) later
        ≡ (rows, true)
  step_next k rows later long h =
      let c = cut_at k rows long in
      let cursor = to_string format (cursor_of c.last) in
      let joined : (c.front ++ (c.last ∷ [])) ++ c.rest ≡ rows =
        append_assoc c.front (c.last ∷ []) c.rest ∙ sym c.whole in
      ap (λ p. collected (reply_page ep p) later) (page_next k rows long)
      ∙ (collected-next (c.front ++ (c.last ∷ [])) cursor later
            (unread cursor (to_string-nonempty format laws (cursor_of c.last)))
          ∙ cc (h, joined))
