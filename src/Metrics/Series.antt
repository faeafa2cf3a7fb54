-- ===== src/Metrics/Series.antt =====
-- internal/metrics/metrics.go: what a scrape shows of a histogram after any observations.
use hooklens.Base.{
  ℕ, suc, ◌+◌, ◌≡◌, ◌∙◌, refl, ap, true, Option, List, [], ◌∷◌, Bytes, bytes_eq, bytes_eq_iff,
  bytes_key, lookup, lookup-insert, length, leb, ltb, all_of, if◌then◌else◌, replicate, arith,
  Bool-cases, inl, inr,
}
use hooklens.Metrics.{
  Histogram, HistogramVec, wrap, insert_bound, sort_floats, new_histogram, fresh, slot, observed,
  observe, bucket_lines, written,
}
use hooklens.Metrics.Buckets.{ascending, lines_of, step, leb_all}

-- How many values are at most a bound.
unfoldable pub fitting : List ℕ → ℕ → ℕ
fitting [] b = 0
fitting (v ∷ vs) b = if leb v b then fitting vs b + 1 else fitting vs b

unfoldable pub sum_of : List ℕ → ℕ
sum_of [] = 0
sum_of (v ∷ vs) = sum_of vs + v

-- What the lines say if each counts the values at most its bound.
abbrev pub counted : List ℕ → List ℕ → List (Option ℕ × ℕ) × ℕ × ℕ
counted buckets vs = (lines_of (fitting vs) (length vs) buckets, sum_of vs, wrap (length vs))

-- The observations, the latest first, with the text of their labels.
unfoldable pub observe_all : List (Bytes × ℕ) → HistogramVec → HistogramVec
observe_all [] h = h
observe_all (o ∷ earlier) h = observe o.0 o.1 (observe_all earlier h)

unfoldable pub values_of : Bytes → List (Bytes × ℕ) → List ℕ
values_of key [] = []
values_of key (o ∷ earlier) =
    if bytes_eq o.0 key then o.1 ∷ values_of key earlier else values_of key earlier

insert-ascending :
    (b : ℕ) (bounds : List ℕ) → ascending bounds ≡ true → ascending (insert_bound b bounds) ≡ true
unfolding ascending insert_bound
insert-ascending b [] h = refl
insert-ascending b (c ∷ rest) h = elim (Bool-cases (ltb c b)) [
  | inl lower ↦ ground (arith, lower, all_of-insert_bound c b rest, insert-ascending b rest)
  | inr upper ↦ ground (arith, upper, leb_all b c rest)
]
  where
    all_of-insert_bound :
        (low v : ℕ) (bs : List ℕ)
        → leb low v ≡ true
        → all_of (leb low) bs ≡ true
        → all_of (leb low) (insert_bound v bs) ≡ true
    all_of-insert_bound low v [] k l = ground arith
    all_of-insert_bound low v (d ∷ bs) k l = ground (arith, all_of-insert_bound low v bs)

sort-ascending : (bounds : List ℕ) → ascending (sort_floats bounds) ≡ true
unfolding sort_floats ascending
sort-ascending [] = refl
sort-ascending (b ∷ rest) = insert-ascending b (sort_floats rest) (sort-ascending rest)

new_histogram-ascending : (given : List ℕ) → ascending (new_histogram given).buckets ≡ true
unfolding new_histogram
new_histogram-ascending [] = sort-ascending _
new_histogram-ascending (b ∷ rest) = sort-ascending (b ∷ rest)

lines-fresh :
    (bounds : List ℕ)
    → bucket_lines 0 bounds (replicate (length bounds + 1) 0) ≡ lines_of (fitting []) 0 bounds
unfolding bucket_lines lines_of replicate fitting
lines-fresh [] = refl
lines-fresh (b ∷ rest) = ground (arith, lines-fresh rest)

written-fresh : (bounds : List ℕ) → written bounds (fresh bounds) ≡ counted bounds []
unfolding written sum_of
written-fresh bounds = ground (arith, lines-fresh bounds)

all_equal :
    {a b : List (Option ℕ × ℕ)} {c d e f : ℕ}
    → a ≡ b
    → c ≡ d
    → e ≡ f
    → ◌≡◌ {A = List (Option ℕ × ℕ) × ℕ × ℕ} (a, c, e) (b, d, f)
all_equal p q r = cc (p, q, r)

written-observed :
    (bounds : List ℕ) (v : ℕ) (vs : List ℕ) (s : Histogram)
    → ascending bounds ≡ true
    → written bounds s ≡ counted bounds vs
    → written bounds (observed bounds v s) ≡ counted bounds (v ∷ vs)
unfolding written observed sum_of fitting
written-observed bounds v vs s h e =
    let lines = step 0 (length vs) (fitting vs) v bounds s.counts h (ap (λ w. w.0) e) in
    let longer : length vs + 1 ≡ suc (length vs) = omega arith in
    let sum : s.sum ≡ sum_of vs = ap (λ w. w.1) e in
    let total : s.total ≡ wrap (length vs) = ap (λ w. w.2) e in
    let more : wrap (s.total + 1) ≡ wrap (suc (length vs)) = omega (arith, total) in
    all_equal (lines ∙ ap (λ n. lines_of (fitting (v ∷ vs)) n bounds) longer) (ap (λ n. n + v) sum)
      more

buckets-observe_all :
    (os : List (Bytes × ℕ)) (h : HistogramVec) → (observe_all os h).buckets ≡ h.buckets
unfolding observe_all observe
buckets-observe_all [] h = refl
buckets-observe_all (o ∷ earlier) h = buckets-observe_all earlier h

slot-observe :
    (k key : Bytes) (v : ℕ) (h : HistogramVec)
    → slot (observe k v h).buckets (lookup key (observe k v h).series) ≡ (
        if bytes_eq k key
        then observed h.buckets v (slot h.buckets (lookup key h.series))
        else slot h.buckets (lookup key h.series))
unfolding observe slot
slot-observe k key v h = ground (
  arith,
  bytes_eq_iff k key,
  lookup-insert k key (observed h.buckets v (slot h.buckets (lookup k h.series))) h.series,
)

no_series :
    (given : List ℕ) (key : Bytes)
    → let h = new_histogram given in
      written h.buckets (slot h.buckets (lookup key h.series)) ≡ counted h.buckets []
unfolding new_histogram slot lookup
no_series [] key = written-fresh _
no_series (b ∷ rest) key = written-fresh _

module _ (given : List ℕ) (key : Bytes) where
  -- After any observations under any labels the lines of one series show, under each bound, how
  -- many of its values are at most that bound, under +Inf and as the count how many there are, all
  -- modulo 2^64, and as the sum their sum, whatever list of bounds the histogram was made with.
  pub observed_so_far :
      (os : List (Bytes × ℕ))
      → let buckets = (new_histogram given).buckets in
        let h = observe_all os (new_histogram given) in
        written buckets (slot h.buckets (lookup key h.series)) ≡ counted buckets (values_of key os)
  unfolding observe_all values_of
  observed_so_far [] = no_series given key
  observed_so_far (o ∷ earlier) =
      let buckets = (new_histogram given).buckets in
      let before = observe_all earlier (new_histogram given) in
      let same = buckets-observe_all earlier (new_histogram given) in
      let kept = slot-observe o.0 key o.1 before in
      let so_far = observed_so_far earlier in
      elim (Bool-cases (bytes_eq o.0 key)) [
        | inl own ↦
            let next =
              written-observed buckets o.1 (values_of key earlier)
                (slot before.buckets (lookup key before.series)) (new_histogram-ascending given)
                so_far in
            ground (arith, own, kept, same, next)
        | inr other ↦ ground (arith, other, kept, so_far)
      ]
