-- ===== src/Store/Retention/Deletions.antt =====
-- internal/store/requests.go (`DeleteExpiredRequests`): a batch deletes the expired and no other.
use hooklens.Base.{
  ℕ, ◌+◌, ◌≡◌, refl, ap, Bool, true, false, not, ◌&&◌, ◌||◌, List, [], ◌∷◌, bytes_eq-to,
  bytes_eq_refl, length, length-take, keep, any_of, all_of, min, ◌==◌, if◌then◌else◌, arith,
  Bool-cases, inl, inr,
}
use hooklens.Store.Retention.{
  Row, Tables, expired, by_expiry, picked, among, delete_picked, delete_expired,
}
use hooklens.Store.Retention.Batches.{
  same_id, apart, distinct_rows, all_of-keep, all_of-take, all_of-by_expiry, all_of-and,
  all_of-weaken, same_id-sym, keep-distinct_rows, take-distinct_rows, by_expiry-distinct_rows,
  length-by_expiry,
}

-- A row with the id of an expired one is expired.
abbrev tied : ℕ → Row → Row → Bool
tied now c r = not (same_id c r) || expired now r

abbrev present : List Row → Row → Bool
present rows c = any_of (same_id c) rows

tied-apart :
    (now : ℕ) (r : Row) (rest : List Row)
    → all_of (apart r) rest ≡ true
    → all_of (tied now r) rest ≡ true
tied-apart now r rest h =
    all_of-weaken (apart r) (tied now r) rest (λ s a. ground (arith, a, same_id-sym r s)) h

tied-keep :
    (now : ℕ) (rows : List Row)
    → distinct_rows rows ≡ true
    → all_of (λ c. all_of (tied now c) rows) (keep (expired now) rows) ≡ true
unfolding distinct_rows
tied-keep now [] h = refl
tied-keep now (r ∷ rest) h =
    let chosen = keep (expired now) rest in
    let later = tied-keep now rest (ground (arith, h)) in
    let off = all_of-keep (apart r) (expired now) rest (ground (arith, h)) in
    let first = all_of-weaken (apart r) (λ c. tied now c r) chosen (λ c a. ground (arith, a)) off in
    let both = all_of-and (λ c. tied now c r) (λ c. all_of (tied now c) rest) chosen first later in
    ground (arith, both, tied-apart now r rest)

untouched :
    (now : ℕ) (r : Row) (chosen : List Row)
    → expired now r ≡ false
    → all_of (λ c. tied now c r) chosen ≡ true
    → among chosen r ≡ false
untouched now r [] h k = refl
untouched now r (c ∷ chosen) h k = ground (arith, untouched now r chosen)

present-keep : (q : Row → Bool) (rows : List Row) → all_of (present rows) (keep q rows) ≡ true
present-keep q [] = refl
present-keep q (r ∷ rest) =
    let later =
      all_of-weaken (present rest) (present (r ∷ rest)) (keep q rest) (λ c p. ground (arith, p))
        (present-keep q rest) in
    ground (arith, later, bytes_eq_refl r.request.id)

module _ (c : Row) where
  keep-apart :
      (r : Row) (rest : List Row)
      → same_id c r ≡ true
      → all_of (apart r) rest ≡ true
      → keep (λ s. not (same_id c s)) rest ≡ rest
  keep-apart r [] e h = refl
  keep-apart r (s ∷ rest) e h =
      ground (arith, keep-apart r rest, same_id-sym r s, bytes_eq-to c.request.id r.request.id)

  length-without :
      (rows : List Row)
      → distinct_rows rows ≡ true
      → present rows c ≡ true
      → length (keep (λ s. not (same_id c s)) rows) + 1 ≡ length rows
  unfolding distinct_rows
  length-without [] h k = absurd (cc k)
  length-without (r ∷ rest) h k = ground (arith, length-without rest, keep-apart r rest)

  present-without :
      (d : Row) (rows : List Row)
      → apart c d ≡ true
      → present rows d ≡ true
      → present (keep (λ s. not (same_id c s)) rows) d ≡ true
  present-without d [] h k = absurd (cc k)
  present-without d (r ∷ rest) h k =
      ground (arith, present-without d rest, bytes_eq-to c.request.id r.request.id)

among-keep :
    (c : Row) (chosen rows : List Row)
    → delete_picked (c ∷ chosen) rows ≡ delete_picked chosen (keep (λ s. not (same_id c s)) rows)
unfolding delete_picked
among-keep c chosen [] = refl
among-keep c chosen (r ∷ rest) = ground (arith, among-keep c chosen rest)

delete_none : (rows : List Row) → delete_picked [] rows ≡ rows
unfolding delete_picked
delete_none [] = refl
delete_none (r ∷ rest) = ap (◌∷◌ r) (delete_none rest)

length-delete_picked :
    (chosen rows : List Row)
    → distinct_rows rows ≡ true
    → distinct_rows chosen ≡ true
    → all_of (present rows) chosen ≡ true
    → length (delete_picked chosen rows) + length chosen ≡ length rows
unfolding distinct_rows
length-delete_picked [] rows h k p = omega (arith, ap length (delete_none rows))
length-delete_picked (c ∷ chosen) rows h k p =
    let without = keep (λ s. not (same_id c s)) rows in
    let still =
      all_of-weaken (λ d. apart c d && present rows d) (present without) chosen
        (λ d both. present-without c d rows (ground (arith, both)) (ground (arith, both)))
        (all_of-and (apart c) (present rows) chosen (ground (arith, k)) (ground (arith, p))) in
    let later =
      length-delete_picked chosen without (keep-distinct_rows _ rows h) (ground (arith, k)) still in
    let one = length-without c rows h (ground (arith, p)) in
    omega (arith, later, one, ap length (among-keep c chosen rows))

length-keep-not :
    (p : Row → Bool) (rows : List Row)
    → length (keep p rows) + length (keep (λ r. not (p r)) rows) ≡ length rows
length-keep-not p [] = refl
length-keep-not p (r ∷ rest) = ground (arith, length-keep-not p rest)

kept_expired :
    (now : ℕ) (b : Bool) (r : Row) (rest left : List Row)
    → expired now r ≡ true
    → keep (λ s. not (expired now s)) left ≡ keep (λ s. not (expired now s)) rest
    → keep (λ s. not (expired now s)) (if not b then r ∷ left else left)
      ≡ keep (λ s. not (expired now s)) (r ∷ rest)
kept_expired now true r rest left e h = ground (arith, e, h)
kept_expired now false r rest left e h = ground (arith, e, h)

kept_and_gone :
    (chosen rows : List Row)
    → length (keep (among chosen) rows) + length (delete_picked chosen rows) ≡ length rows
unfolding delete_picked
kept_and_gone chosen rows = length-keep-not (among chosen) rows

keep-delete_picked :
    (now : ℕ) (chosen rows : List Row)
    → all_of (λ c. all_of (tied now c) rows) chosen ≡ true
    → keep (λ r. not (expired now r)) (delete_picked chosen rows)
      ≡ keep (λ r. not (expired now r)) rows
unfolding delete_picked
keep-delete_picked now chosen [] h = refl
keep-delete_picked now chosen (r ∷ rest) h =
    let own =
      all_of-weaken (λ c. tied now c r && all_of (tied now c) rest) (λ c. tied now c r) chosen
        (λ c both. ground (arith, both)) h in
    let later = keep-delete_picked now chosen rest (
      all_of-weaken (λ c. tied now c r && all_of (tied now c) rest) (λ c. all_of (tied now c) rest)
        chosen (λ c both. ground (arith, both)) h) in
    elim (Bool-cases (expired now r)) [
      | inl e ↦ kept_expired now (among chosen r) r rest (delete_picked chosen rest) e later
      | inr e ↦ ground (arith, e, later, untouched now r chosen e own)
    ]

-- The size of a batch.
abbrev pub batch_size : ℕ → ℕ
batch_size batch = if batch == 0 then 1000 else batch

module _ (now batch : ℕ) (t : Tables) (ids : distinct_rows t.rows ≡ true) where
  abbrev chosen_rows : List Row
  chosen_rows = picked now (batch_size batch) t.rows

  picked-distinct : distinct_rows chosen_rows ≡ true
  unfolding picked
  picked-distinct = take-distinct_rows (batch_size batch) (by_expiry (keep (expired now) t.rows)) (
      by_expiry-distinct_rows (keep (expired now) t.rows)
        (keep-distinct_rows (expired now) t.rows ids))

  picked-all :
      (p : Row → Bool) → all_of p (keep (expired now) t.rows) ≡ true → all_of p chosen_rows ≡ true
  unfolding picked
  picked-all p h =
      all_of-take p (batch_size batch) (by_expiry (keep (expired now) t.rows))
        (all_of-by_expiry p (keep (expired now) t.rows) h)

  length-picked : length chosen_rows ≡ min (batch_size batch) (length (keep (expired now) t.rows))
  unfolding picked
  length-picked =
      let found = keep (expired now) t.rows in
      omega (arith, length-take (batch_size batch) (by_expiry found), length-by_expiry found)

  pub delete_expired-kept :
      keep (λ r. not (expired now r)) (delete_expired now batch t).1.rows
      ≡ keep (λ r. not (expired now r)) t.rows
  unfolding delete_expired
  delete_expired-kept =
      keep-delete_picked now chosen_rows t.rows
        (picked-all (λ c. all_of (tied now c) t.rows) (tied-keep now t.rows ids))

  pub delete_expired-distinct : distinct_rows (delete_expired now batch t).1.rows ≡ true
  unfolding delete_expired delete_picked
  delete_expired-distinct = keep-distinct_rows _ t.rows ids

  -- As many are deleted as are expired, or the batch if they are more.
  pub delete_expired-count :
      (delete_expired now batch t).0 ≡ min (batch_size batch) (length (keep (expired now) t.rows))
  unfolding delete_expired
  delete_expired-count =
      let left =
        length-delete_picked chosen_rows t.rows ids picked-distinct
          (picked-all (present t.rows) (present-keep (expired now) t.rows)) in
      omega (arith, left, length-picked, kept_and_gone chosen_rows t.rows)

  deleted_and_left :
      (delete_expired now batch t).0 + length (delete_expired now batch t).1.rows ≡ length t.rows
  unfolding delete_expired
  deleted_and_left = kept_and_gone chosen_rows t.rows

  pub delete_expired-split :
      length (keep (expired now) (delete_expired now batch t).1.rows)
        + (delete_expired now batch t).0
      ≡ length (keep (expired now) t.rows)
  delete_expired-split =
      let after = (delete_expired now batch t).1.rows in
      omega (
        arith,
        length-keep-not (expired now) after,
        length-keep-not (expired now) t.rows,
        ap length delete_expired-kept,
        deleted_and_left,
      )
