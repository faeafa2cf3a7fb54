-- ===== src/Store/Retention/Batches.antt =====
-- internal/store/requests.go (`DeleteExpiredRequests`): rows by their ids, and in the order of expiry.
use hooklens.Base.{
  ℕ, zero, suc, ◌≡◌, refl, Bool, true, not, ◌&&◌, List, [], ◌∷◌, bytes_eq, bytes_eq-to,
  bytes_eq_refl, length, take, keep, all_of, arith, Bool-cases, inl, inr,
}
use hooklens.Store.Retention.{Row, insert_expiry, by_expiry}

abbrev pub same_id : Row → Row → Bool
same_id r s = bytes_eq r.request.id s.request.id

abbrev pub apart : Row → Row → Bool
apart r s = not (same_id s r)

-- No two rows have one id.
unfoldable pub distinct_rows : List Row → Bool
distinct_rows [] = true
distinct_rows (r ∷ rest) = all_of (apart r) rest && distinct_rows rest

module _ (p : Row → Bool) where
  pub all_of-keep :
      (q : Row → Bool) (rows : List Row) → all_of p rows ≡ true → all_of p (keep q rows) ≡ true
  all_of-keep q [] h = refl
  all_of-keep q (r ∷ rest) h = ground (arith, all_of-keep q rest)

  pub all_of-take : (n : ℕ) (rows : List Row) → all_of p rows ≡ true → all_of p (take n rows) ≡ true
  all_of-take zero rows h = refl
  all_of-take (suc n) [] h = refl
  all_of-take (suc n) (r ∷ rest) h = ground (arith, all_of-take n rest)

  all_of-insert :
      (r : Row) (rows : List Row)
      → p r ≡ true
      → all_of p rows ≡ true
      → all_of p (insert_expiry r rows) ≡ true
  unfolding insert_expiry
  all_of-insert r [] h k = ground arith
  all_of-insert r (s ∷ rest) h k = ground (arith, all_of-insert r rest)

  pub all_of-by_expiry : (rows : List Row) → all_of p rows ≡ true → all_of p (by_expiry rows) ≡ true
  unfolding by_expiry
  all_of-by_expiry [] h = refl
  all_of-by_expiry (r ∷ rest) h =
      all_of-insert r (by_expiry rest) (ground arith) (all_of-by_expiry rest (ground arith))

  pub all_of-weaken :
      (q : Row → Bool) (rows : List Row)
      → ((r : Row) → p r ≡ true → q r ≡ true)
      → all_of p rows ≡ true
      → all_of q rows ≡ true
  all_of-weaken q [] f h = refl
  all_of-weaken q (r ∷ rest) f h = ground (arith, f r, all_of-weaken q rest f)

  pub all_of-and :
      (q : Row → Bool) (rows : List Row)
      → all_of p rows ≡ true
      → all_of q rows ≡ true
      → all_of (λ r. p r && q r) rows ≡ true
  all_of-and q [] h k = refl
  all_of-and q (r ∷ rest) h k = ground (arith, all_of-and q rest)

pub same_id-sym : (r s : Row) → same_id r s ≡ same_id s r
same_id-sym r s = elim (Bool-cases (same_id r s)) [
  | inl e ↦ ground (arith, e, bytes_eq-to r.request.id s.request.id, bytes_eq_refl r.request.id)
  | inr e ↦ elim (Bool-cases (same_id s r)) [
    | inl f ↦
        ground (arith, e, f, bytes_eq-to s.request.id r.request.id, bytes_eq_refl r.request.id)
    | inr f ↦ cc (e, f)
  ]
]

pub keep-distinct_rows :
    (p : Row → Bool) (rows : List Row)
    → distinct_rows rows ≡ true
    → distinct_rows (keep p rows) ≡ true
unfolding distinct_rows
keep-distinct_rows p [] h = refl
keep-distinct_rows p (r ∷ rest) h =
    ground (arith, all_of-keep (apart r) p rest, keep-distinct_rows p rest)

pub take-distinct_rows :
    (n : ℕ) (rows : List Row) → distinct_rows rows ≡ true → distinct_rows (take n rows) ≡ true
unfolding distinct_rows
take-distinct_rows zero rows h = refl
take-distinct_rows (suc n) [] h = refl
take-distinct_rows (suc n) (r ∷ rest) h =
    ground (arith, all_of-take (apart r) n rest, take-distinct_rows n rest)

insert-distinct_rows :
    (r : Row) (rows : List Row)
    → all_of (apart r) rows ≡ true
    → distinct_rows rows ≡ true
    → distinct_rows (insert_expiry r rows) ≡ true
unfolding distinct_rows insert_expiry
insert-distinct_rows r [] h k = refl
insert-distinct_rows r (s ∷ rest) h k =
    ground (arith, same_id-sym r s, all_of-insert (apart s) r rest, insert-distinct_rows r rest)

pub by_expiry-distinct_rows :
    (rows : List Row) → distinct_rows rows ≡ true → distinct_rows (by_expiry rows) ≡ true
unfolding distinct_rows by_expiry
by_expiry-distinct_rows [] h = refl
by_expiry-distinct_rows (r ∷ rest) h =
    insert-distinct_rows r (by_expiry rest) (all_of-by_expiry (apart r) rest (ground arith))
      (by_expiry-distinct_rows rest (ground arith))

length-insert_expiry :
    (r : Row) (rows : List Row) → length (insert_expiry r rows) ≡ suc (length rows)
unfolding insert_expiry
length-insert_expiry r [] = refl
length-insert_expiry r (s ∷ rest) = ground (arith, length-insert_expiry r rest)

pub length-by_expiry : (rows : List Row) → length (by_expiry rows) ≡ length rows
unfolding by_expiry
length-by_expiry [] = refl
length-by_expiry (r ∷ rest) =
    omega (arith, length-insert_expiry r (by_expiry rest), length-by_expiry rest)
