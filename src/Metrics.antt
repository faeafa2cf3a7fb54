-- ===== src/Metrics.antt =====
-- internal/metrics/metrics.go: the histograms. Seconds are exact numbers of a unit that makes every
-- bound and every observation whole, where the source has floats; an int64 is its 64 bits. A map of
-- series has as key the text of the labels.
pub mod Buckets
pub mod Series
pub mod Labels
pub mod Counters
mod Tests
use hooklens.Base.{
  ℕ, zero, suc, ◌+◌, ◌*◌, ◌%◌, Bool, true, false, Option, none, some, List, [], ◌∷◌, Bytes,
  bytes_key, Map, lookup, insert, length, leb, ltb, ◌==◌, if◌then◌else◌, replicate,
}

-- An int64 after an addition.
abbrev pub wrap : ℕ → ℕ
wrap n = n % 18446744073709551616

pub record Histogram : Type 0 where
  pub counts : List ℕ
  pub sum : ℕ
  pub total : ℕ

pub record HistogramVec : Type 0 where
  pub buckets : List ℕ
  pub series : Map Bytes Histogram

-- In units of a millisecond.
abbrev pub default_buckets : List ℕ
default_buckets = 1 ∷ 5 ∷ 10 ∷ 25 ∷ 50 ∷ 100 ∷ 250 ∷ 500 ∷ 1000 ∷ 2500 ∷ 5000 ∷ 10000 ∷ 30000 ∷ []

-- sort.Float64s.
unfoldable pub insert_bound : ℕ → List ℕ → List ℕ
insert_bound b [] = b ∷ []
insert_bound b (c ∷ rest) =
    let later = insert_bound b rest in if ltb c b then c ∷ later else b ∷ c ∷ rest

unfoldable pub sort_floats : List ℕ → List ℕ
sort_floats [] = []
sort_floats (b ∷ rest) = insert_bound b (sort_floats rest)

unfoldable pub new_histogram : List ℕ → HistogramVec
new_histogram [] = record { buckets = sort_floats default_buckets; series = [] }
new_histogram (b ∷ rest) = record { buckets = sort_floats (b ∷ rest); series = [] }

-- The first bucket that the value fits, or the one behind the last.
unfoldable pub slot_index : List ℕ → ℕ → ℕ
slot_index [] v = 0
slot_index (b ∷ rest) v = let later = slot_index rest v in if leb v b then 0 else suc later

-- `counts[slot].Add(1)`; there is one slot more than buckets, so the index is never outside.
unfoldable pub add_one : List ℕ → ℕ → List ℕ
add_one [] i = []
add_one (c ∷ rest) zero = wrap (c + 1) ∷ rest
add_one (c ∷ rest) (suc i) = c ∷ add_one rest i

abbrev pub fresh : List ℕ → Histogram
fresh buckets = record { counts = replicate (length buckets + 1) 0; sum = 0; total = 0 }

unfoldable pub slot : List ℕ → Option Histogram → Histogram
slot buckets none = fresh buckets
slot buckets (some s) = s

unfoldable pub observed : List ℕ → ℕ → Histogram → Histogram
observed buckets v s = record {
  counts = add_one s.counts (slot_index buckets v);
  sum = s.sum + v;
  total = wrap (s.total + 1);
}

unfoldable pub observe : Bytes → ℕ → HistogramVec → HistogramVec
observe key v h =
    let s = slot h.buckets (lookup key h.series) in
    record h { series = insert key (observed h.buckets v s) h.series }

-- The numbers of the bucket lines, under their bounds; the bound +Inf is none.
unfoldable pub bucket_lines : ℕ → List ℕ → List ℕ → List (Option ℕ × ℕ)
bucket_lines cumulative bounds [] = []
bucket_lines cumulative [] (c ∷ counts) = (none, wrap (cumulative + c)) ∷ []
bucket_lines cumulative (b ∷ bounds) (c ∷ counts) =
    let sum = wrap (cumulative + c) in (some b, sum) ∷ bucket_lines sum bounds counts

-- `write` for one series: the bucket lines, the sum and the count.
unfoldable pub written : List ℕ → Histogram → List (Option ℕ × ℕ) × ℕ × ℕ
written buckets s = (bucket_lines 0 buckets s.counts, s.sum, s.total)

-- The quantile `num / den`; none is the -1 for a value above the largest bucket.
unfoldable pub quantile_from : ℕ → ℕ → ℕ → ℕ → List ℕ → List ℕ → Option ℕ
quantile_from num den total cumulative [] counts = none
quantile_from num den total cumulative (b ∷ bounds) [] = none
quantile_from num den total cumulative (b ∷ bounds) (c ∷ counts) =
    let sum = wrap (cumulative + c) in
    let later = quantile_from num den total sum bounds counts in
    if leb (total * num) (sum * den) then some b else later

unfoldable pub quantile : ℕ → ℕ → List ℕ → Histogram → Option ℕ
quantile num den buckets s =
    if s.total == 0 then some 0 else quantile_from num den s.total 0 buckets s.counts
