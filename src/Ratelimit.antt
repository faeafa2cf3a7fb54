-- ===== src/Ratelimit.antt =====
-- internal/ratelimit/ratelimit.go: the token buckets. The clock is an argument. Where the source
-- has floats, the model has exact numbers: a token is `whole` units, and a nanosecond adds `rate`.
pub mod Balance
pub mod Eviction
pub mod Retry
pub mod Window
mod Tests
use hooklens.Base.{
  ℕ, ◌+◌, ◌-◌, ◌*◌, ◌/◌, min, Bool, true, false, not, Option, none, some, List, [], ◌∷◌, Bytes,
  bytes_eq, bytes_key, ◌&&◌, Map, lookup, insert, retain, count_failing, length, ltb, leb, ◌==◌,
  if◌then◌else◌,
}

-- `last` is in nanoseconds.
pub record Bucket : Type 0 where
  pub tokens : ℕ
  pub last : ℕ

pub record Limiter : Type 0 where
  pub rate : ℕ
  pub whole : ℕ
  pub burst : ℕ
  pub buckets : Map Bytes Bucket

abbrev pub second : ℕ
second = 1000000000

-- `New` of a rate of `num / den` tokens a second and a burst of `burst / den` tokens. A unit is the
-- `den * second`-th part of a token.
unfoldable pub new : ℕ → ℕ → ℕ → Limiter
new num den burst = record {
  rate = if num == 0 then den else num;
  whole = den * second;
  burst = (if ltb burst den then den else burst) * second;
  buckets = [];
}

-- The lazy refill.
unfoldable pub refilled : Limiter → ℕ → Bucket → Bucket
refilled l now b =
    if ltb b.last now
    then (record { tokens = min (b.tokens + (now - b.last) * l.rate) l.burst; last = now })
    else b

-- A new key starts full.
unfoldable pub current : Limiter → ℕ → Option Bucket → Bucket
current l now none = record { tokens = l.burst; last = now }
current l now (some b) = refilled l now b

-- The result is `ok` and `retryAfter`, in nanoseconds.
unfoldable pub taken : Limiter → Bucket → (Bool × ℕ) × Bucket
taken l b =
    if leb l.whole b.tokens
    then ((true, 0), record b { tokens = b.tokens - l.whole })
    else ((false, (l.whole - b.tokens) / l.rate), b)

unfoldable pub allow : Bytes → ℕ → Limiter → (Bool × ℕ) × Limiter
allow key now l =
    let (result, b) = taken l (current l now (lookup key l.buckets)) in
    (result, record l { buckets = insert key b l.buckets })

-- `!b.last.Before(cutoff)`.
unfoldable pub recent : ℕ → ℕ → Bucket → Bool
recent idle now b = leb now (b.last + idle)

unfoldable pub evict : ℕ → ℕ → Limiter → ℕ × Limiter
evict idle now l = (
  count_failing (recent idle now) l.buckets,
  record l { buckets = retain (recent idle now) l.buckets },
)

unfoldable pub len : Limiter → ℕ
len l = length l.buckets

-- The calls that reach the limiter, in their order, each with its instant; the sweeper's `Evict`
-- has one idle time, which `answers` takes.
pub data Call : Type 0 where
  allows : Bytes → ℕ → Call
  evicts : ℕ → Call

abbrev pub instant : Call → ℕ
instant (allows key now) = now
instant (evicts now) = now

-- What the calls of `Allow` return.
unfoldable pub answers : ℕ → List Call → Limiter → List (Bool × ℕ)
answers idle [] l = []
answers idle (allows key now ∷ rest) l = (allow key now l).0 ∷ answers idle rest (allow key now l).1
answers idle (evicts now ∷ rest) l = answers idle rest (evict idle now l).1

-- How often a key was allowed in a run of calls.
unfoldable pub allowed : ℕ → Bytes → List Call → Limiter → ℕ
allowed idle key [] l = 0
allowed idle key (allows other now ∷ rest) l =
    (if bytes_eq other key && (allow other now l).0.0 then 1 else 0)
    + allowed idle key rest (allow other now l).1
allowed idle key (evicts now ∷ rest) l = allowed idle key rest (evict idle now l).1

-- The same calls without the sweeper's.
unfoldable pub only_allows : List Call → List Call
only_allows [] = []
only_allows (allows key now ∷ rest) = allows key now ∷ only_allows rest
only_allows (evicts now ∷ rest) = only_allows rest
