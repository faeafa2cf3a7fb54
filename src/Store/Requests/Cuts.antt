-- ===== src/Store/Requests/Cuts.antt =====
-- internal/store/requests.go: what a `where` clause leaves of the ordered rows.
use hooklens.Base.{
  ◌≡◌, refl, Bool, true, not, List, [], ◌∷◌, ◌++◌, keep, all_of, arith, Bool-cases, inl, inr,
  if◌then◌else◌,
}
use hooklens.Store.Cursors.{precedes}
use hooklens.Store.Requests.{StoredRequest, cursor_of, insert_row, newest_first}
use hooklens.Store.Requests.Order.{
  apart, before, descending, distinct_ids, insert-front, newest_first-descending, all_of-keep,
  all_of-before, all_of-newest_first, apart-precedes, precedes-asym, precedes_irrefl,
}

keep-insert :
    (p : StoredRequest → Bool) (r : StoredRequest) (rows : List StoredRequest)
    → all_of (apart r) rows ≡ true
    → descending rows ≡ true
    → keep p (insert_row r rows) ≡ (if p r then insert_row r (keep p rows) else keep p rows)
unfolding insert_row descending
keep-insert p r [] h k = ground arith
keep-insert p r (s ∷ rest) h k = elim (Bool-cases (precedes (cursor_of r) (cursor_of s))) [
  | inl e ↦ ground (arith, e, keep-insert p r rest)
  | inr e ↦
      let s_first = apart-precedes r s (ground arith) e in
      let all_first = all_of-before r s rest s_first (ground arith) in
      let kept_first = all_of-keep (before r) p rest all_first in
      ground (arith, e, insert-front r (keep p rest) kept_first)
]

-- To filter the table and then to order it is to order it and then to filter.
pub keep-newest_first :
    (p : StoredRequest → Bool) (rows : List StoredRequest)
    → distinct_ids rows ≡ true
    → newest_first (keep p rows) ≡ keep p (newest_first rows)
unfolding newest_first distinct_ids
keep-newest_first p [] h = refl
keep-newest_first p (r ∷ rest) h =
    let ordered = newest_first rest in
    let inserted =
      keep-insert p r ordered (all_of-newest_first (apart r) rest (ground arith))
        (newest_first-descending rest (ground arith)) in
    ground (arith, inserted, keep-newest_first p rest)

pub keep_all :
    (p : StoredRequest → Bool) (rows : List StoredRequest)
    → all_of p rows ≡ true
    → keep p rows ≡ rows
keep_all p [] h = refl
keep_all p (r ∷ rest) h = ground (arith, keep_all p rest)

pub all_of-middle :
    (p : StoredRequest → Bool) (xs : List StoredRequest) (x : StoredRequest)
    (ys : List StoredRequest)
    → all_of p (xs ++ (x ∷ ys)) ≡ true
    → p x ≡ true
all_of-middle p [] x ys k = ground arith
all_of-middle p (w ∷ xs) x ys k = ground (arith, all_of-middle p xs x ys)

pub keep-append :
    (p : StoredRequest → Bool) (xs ys : List StoredRequest)
    → keep p (xs ++ ys) ≡ keep p xs ++ keep p ys
keep-append p [] ys = refl
keep-append p (x ∷ xs) ys = ground (arith, keep-append p xs ys)

pub keep_none :
    (p : StoredRequest → Bool) (rows : List StoredRequest)
    → all_of (λ r. not (p r)) rows ≡ true
    → keep p rows ≡ []
keep_none p [] h = refl
keep_none p (r ∷ rest) h = ground (arith, keep_none p rest)

pub keep-distinct_ids :
    (p : StoredRequest → Bool) (rows : List StoredRequest)
    → distinct_ids rows ≡ true
    → distinct_ids (keep p rows) ≡ true
unfolding distinct_ids
keep-distinct_ids p [] h = refl
keep-distinct_ids p (r ∷ rest) h =
    ground (arith, all_of-keep (apart r) p rest, keep-distinct_ids p rest)

-- What comes before a row in a list that is ordered is what follows it there.
pub keep-cut :
    (front : List StoredRequest) (r : StoredRequest) (rest : List StoredRequest)
    → descending (front ++ (r ∷ rest)) ≡ true
    → keep (before r) (front ++ (r ∷ rest)) ≡ rest
unfolding descending
keep-cut [] r rest h = ground (arith, precedes_irrefl (cursor_of r), keep_all (before r) rest)
keep-cut (s ∷ front) r rest h =
    let own = all_of-middle (before s) front r rest (ground arith) in
    let asym = precedes-asym (cursor_of r) (cursor_of s) own in
    ground (arith, asym, keep-cut front r rest)
