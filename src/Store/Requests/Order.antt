-- ===== src/Store/Requests/Order.antt =====
-- internal/store/requests.go: the order of the rows, and cuts of it by a cursor.
use hooklens.Base.{
  ◌≡◌, refl, bytes_eq, bytes_eq_refl, Bool, true, false, not, ◌&&◌, List, [], ◌∷◌, Bytes, keep,
  all_of, arith, Bool-cases, inl, inr,
}
use hooklens.Capture.{bytes_less}
use hooklens.Store.Cursors.{Cursor, precedes}
use hooklens.Store.Requests.{StoredRequest, cursor_of, insert_row, newest_first}

less_trans : (s t u : Bytes) → bytes_less s t ≡ true → bytes_less t u ≡ true → bytes_less s u ≡ true
unfolding bytes_less
less_trans s t [] h k = absurd (cc k)
less_trans s [] (c ∷ u) h k = absurd (cc h)
less_trans [] (b ∷ t) (c ∷ u) h k = refl
less_trans (a ∷ s) (b ∷ t) (c ∷ u) h k = ground (arith, less_trans s t u)

less_irrefl : (s : Bytes) → bytes_less s s ≡ false
unfolding bytes_less
less_irrefl [] = refl
less_irrefl (a ∷ s) = ground (arith, less_irrefl s)

pub precedes_trans :
    (a b c : Cursor) → precedes a b ≡ true → precedes b c ≡ true → precedes a c ≡ true
unfolding precedes
precedes_trans a b c h k = ground (arith, less_trans a.id b.id c.id)

pub precedes_irrefl : (c : Cursor) → precedes c c ≡ false
unfolding precedes
precedes_irrefl c = ground (arith, less_irrefl c.id)

pub precedes-asym : (a b : Cursor) → precedes a b ≡ true → precedes b a ≡ false
precedes-asym a b h = ground (arith, precedes_trans a b a h, precedes_irrefl a)

less-total : (s t : Bytes) → bytes_less s t ≡ false → bytes_less t s ≡ false → s ≡ t
unfolding bytes_less
less-total [] [] h k = refl
less-total [] (b ∷ t) h k = absurd (cc h)
less-total (a ∷ s) [] h k = absurd (cc k)
less-total (a ∷ s) (b ∷ t) h k = ground (arith, less-total s t)

-- Two rows of different ids.
abbrev pub apart : StoredRequest → StoredRequest → Bool
apart r s = not (bytes_eq s.id r.id)

pub apart-precedes :
    (r s : StoredRequest)
    → apart r s ≡ true
    → precedes (cursor_of r) (cursor_of s) ≡ false
    → precedes (cursor_of s) (cursor_of r) ≡ true
unfolding precedes
apart-precedes r s h k = ground (arith, less-total r.id s.id, bytes_eq_refl r.id)

abbrev pub before : StoredRequest → StoredRequest → Bool
before r s = precedes (cursor_of s) (cursor_of r)

module _ (p : StoredRequest → Bool) where
  all_of-insert :
      (r : StoredRequest) (rows : List StoredRequest)
      → p r ≡ true
      → all_of p rows ≡ true
      → all_of p (insert_row r rows) ≡ true
  unfolding insert_row
  all_of-insert r [] h k = ground arith
  all_of-insert r (s ∷ rest) h k = ground (arith, all_of-insert r rest)

  pub all_of-newest_first :
      (rows : List StoredRequest) → all_of p rows ≡ true → all_of p (newest_first rows) ≡ true
  unfolding newest_first
  all_of-newest_first [] h = refl
  all_of-newest_first (r ∷ rest) h =
      all_of-insert r (newest_first rest) (ground arith) (all_of-newest_first rest (ground arith))

  pub all_of-keep :
      (q : StoredRequest → Bool) (rows : List StoredRequest)
      → all_of p rows ≡ true
      → all_of p (keep q rows) ≡ true
  all_of-keep q [] h = refl
  all_of-keep q (r ∷ rest) h = ground (arith, all_of-keep q rest)

  pub all_of-weaken :
      (q : StoredRequest → Bool) (rows : List StoredRequest)
      → ((r : StoredRequest) → p r ≡ true → q r ≡ true)
      → all_of p rows ≡ true
      → all_of q rows ≡ true
  all_of-weaken q [] f h = refl
  all_of-weaken q (r ∷ rest) f h = ground (arith, f r, all_of-weaken q rest f)

-- Every row precedes those in front of it, strictly.
unfoldable pub descending : List StoredRequest → Bool
descending [] = true
descending (r ∷ rest) = all_of (before r) rest && descending rest

-- No two rows have one id.
unfoldable pub distinct_ids : List StoredRequest → Bool
distinct_ids [] = true
distinct_ids (r ∷ rest) = all_of (apart r) rest && distinct_ids rest

pub all_of-before :
    (r s : StoredRequest) (rest : List StoredRequest)
    → precedes (cursor_of s) (cursor_of r) ≡ true
    → all_of (before s) rest ≡ true
    → all_of (before r) rest ≡ true
all_of-before r s rest first h =
    all_of-weaken (before s) (before r) rest
      (λ t b. precedes_trans (cursor_of t) (cursor_of s) (cursor_of r) b first) h

insert-descending :
    (r : StoredRequest) (rows : List StoredRequest)
    → all_of (apart r) rows ≡ true
    → descending rows ≡ true
    → descending (insert_row r rows) ≡ true
unfolding descending insert_row
insert-descending r [] h k = refl
insert-descending r (s ∷ rest) h k = elim (Bool-cases (precedes (cursor_of r) (cursor_of s))) [
  | inl e ↦ ground (arith, e, all_of-insert (before s) r rest, insert-descending r rest)
  | inr e ↦
      let s_first = apart-precedes r s (ground arith) e in
      let all_first = all_of-before r s rest s_first (ground arith) in
      ground (arith, e, s_first, all_first)
]

pub newest_first-descending :
    (rows : List StoredRequest) → distinct_ids rows ≡ true → descending (newest_first rows) ≡ true
unfolding newest_first distinct_ids descending
newest_first-descending [] h = refl
newest_first-descending (r ∷ rest) h =
    insert-descending r (newest_first rest) (all_of-newest_first (apart r) rest (ground arith))
      (newest_first-descending rest (ground arith))

pub insert-front :
    (r : StoredRequest) (rows : List StoredRequest)
    → all_of (before r) rows ≡ true
    → insert_row r rows ≡ r ∷ rows
unfolding insert_row
insert-front r [] h = refl
insert-front r (s ∷ rest) h = ground (arith, precedes-asym (cursor_of s) (cursor_of r))
