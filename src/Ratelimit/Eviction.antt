-- ===== src/Ratelimit/Eviction.antt =====
-- internal/ratelimit/ratelimit.go: `Evict` cannot be told from the answers of `Allow`, when a
-- bucket that is idle for long enough is full.
use mathlib.Core.Path.{subst⁻¹}
use native.Mathlib.Nat.{mul-le-mul_right}
use hooklens.Base.{
  ℕ, ◌+◌, ◌-◌, ◌*◌, ◌≤◌, ◌≡◌, ◌∙◌, refl, ap, min, Bool, true, false, Option, none, some, List, [],
  ◌∷◌, Bytes, bytes_eq, bytes_key, lookup, retain, passing, Map, if◌then◌else◌, lookup-insert,
  lookup-retain, insert-Distinct, retain-Distinct, Distinct, arith,
}
use hooklens.Ratelimit.{
  Bucket, Limiter, Call, allows, evicts, refilled, current, taken, allow, recent, evict, answers,
  only_allows, instant,
}
use hooklens.Ratelimit.Balance.{balance, balance_lem, earned, balance-allow, current-buckets}

-- No bucket holds more than the burst or was refilled in the future.
abbrev pub Filled : ℕ → ℕ → Option Bucket → Type 0
Filled burst now none = Unit
Filled burst now (some b) = (b.last ≤ now) × (b.tokens ≤ burst)

abbrev pub Inv : Limiter → ℕ → Type 0
Inv l now = Distinct l.buckets × ((key : Bytes) → Filled l.burst now (lookup key l.buckets))

pub current-Filled :
    (l : Limiter) (now : ℕ) (o : Option Bucket)
    → Filled l.burst now o
    → ((current l now o).last ≡ now) × ((current l now o).tokens ≤ l.burst)
unfolding current refilled
current-Filled l now none h = (refl, omega arith)
current-Filled l now (some b) h = ground arith

pub taken-le :
    (l : Limiter) (b : Bucket) → ((taken l b).1.last ≡ b.last) × ((taken l b).1.tokens ≤ b.tokens)
unfolding taken
taken-le l b = ground arith

taken-tokens :
    (l : Limiter) (b b' : Bucket)
    → b.tokens ≡ b'.tokens
    → ((taken l b).0 ≡ (taken l b').0) × ((taken l b).1.tokens ≡ (taken l b').1.tokens)
unfolding taken
taken-tokens l b b' h = ground arith

Filled-later :
    (burst start now : ℕ) (o : Option Bucket)
    → start ≤ now
    → Filled burst start o
    → Filled burst now o
Filled-later burst start now none later h = tt
Filled-later burst start now (some b) later h = (omega (arith, later, h.0), h.1)

pub Filled-if :
    (test : Bool) (burst now : ℕ) (o o' : Option Bucket)
    → Filled burst now o
    → Filled burst now o'
    → Filled burst now (if test then o else o')
Filled-if true burst now o o' h h' = h
Filled-if false burst now o o' h h' = h'

pub allow-Inv :
    (l : Limiter) (key : Bytes) (start now : ℕ)
    → start ≤ now
    → Inv l start
    → Inv (allow key now l).1 now
unfolding allow
allow-Inv l key start now later inv =
    let o = lookup key l.buckets in
    let b = (taken l (current l now o)).1 in
    let fits = current-Filled l now o (Filled-later l.burst start now o later (inv.1 key)) in
    let spent = taken-le l (current l now o) in
    (
      insert-Distinct key b l.buckets inv.0,
      λ other. subst⁻¹ (Filled l.burst now) (lookup-insert key other b l.buckets) (
          Filled-if (bytes_eq key other) l.burst now (some b) (lookup other l.buckets)
            (omega (arith, fits.0, spent.0), omega (arith, fits.1, spent.1))
            (Filled-later l.burst start now (lookup other l.buckets) later (inv.1 other))),
    )

passing-Filled :
    (p : Bucket → Bool) (burst now : ℕ) (o : Option Bucket)
    → Filled burst now o
    → Filled burst now (passing p o)
unfolding passing
passing-Filled p burst now none h = tt
passing-Filled p burst now (some b) h = Filled-if (p b) burst now (some b) none h tt

pub evict-Inv :
    (idle : ℕ) (l : Limiter) (start now : ℕ)
    → start ≤ now
    → Inv l start
    → Inv (evict idle now l).1 now
unfolding evict
evict-Inv idle l start now later inv = (
  retain-Distinct (recent idle now) l.buckets inv.0,
  λ key. subst⁻¹ (Filled l.burst now) (lookup-retain (recent idle now) key l.buckets inv.0) (
      passing-Filled (recent idle now) l.burst now (lookup key l.buckets)
        (Filled-later l.burst start now (lookup key l.buckets) later (inv.1 key))),
)

-- What `current` finds later, from what it finds now.
current-later :
    (l : Limiter) (o : Option Bucket) (now t : ℕ)
    → Filled l.burst now o
    → now ≤ t
    → (current l t o).tokens ≡ min ((current l now o).tokens + (t - now) * l.rate) l.burst
unfolding current refilled
current-later l none now t h later = omega arith
current-later l (some b) now t h later = ground (arith, earned l.rate b.last now t)

passing-full :
    (l : Limiter) (o : Option Bucket) (idle now t : ℕ)
    → l.burst ≤ idle * l.rate
    → Filled l.burst now o
    → now ≤ t
    → (current l t (passing (recent idle now) o)).tokens ≡ (current l t o).tokens
unfolding current refilled passing recent
passing-full l none idle now t full h later = refl
passing-full l (some b) idle now t full h later =
    ground (arith, mul-le-mul_right {m = idle} {n = t - b.last} l.rate)

current-same :
    (l : Limiter) (b : Bucket) (now : ℕ) → b.last ≡ now → (current l now (some b)).tokens ≡ b.tokens
unfolding current refilled
current-same l b now h = ground arith

-- The limiter with other buckets.
abbrev pub with_buckets : Limiter → Map Bytes Bucket → Limiter
with_buckets l m = record l { buckets = m }

-- From this instant on, no key can tell the two limiters apart.
abbrev pub Alike : Limiter → Map Bytes Bucket → ℕ → Type 0
Alike l m now = (key : Bytes) (t : ℕ) → now ≤ t → balance l key t ≡ balance (with_buckets l m) key t

pub evict-balance :
    (idle : ℕ) (l : Limiter) (now t : ℕ) (key : Bytes)
    → l.burst ≤ idle * l.rate
    → Inv l now
    → now ≤ t
    → balance (evict idle now l).1 key t ≡ balance l key t
unfolding evict balance
evict-balance idle l now t key full inv after =
    let o = lookup key l.buckets in
    let kept = retain (recent idle now) l.buckets in
    ap (λ c. c.tokens) (current-buckets l kept t (lookup key kept))
    ∙ (ap (λ o. (current l t o).tokens) (lookup-retain (recent idle now) key l.buckets inv.0)
        ∙ passing-full l o idle now t full (inv.1 key) after)

-- What a key has later, from what the call leaves it.
pub balance-after :
    (l : Limiter) (key other : Bytes) (now t : ℕ)
    → Inv l now
    → now ≤ t
    → balance (allow key now l).1 other t ≡ (
        if bytes_eq key other
        then min
            ((taken l (current l now (lookup key l.buckets))).1.tokens + (t - now) * l.rate)
            l.burst
        else balance l other t)
balance-after l key other now t inv after =
    let o = lookup key l.buckets in
    let b = (taken l (current l now o)).1 in
    let fits = current-Filled l now o (inv.1 key) in
    let spent = taken-le l (current l now o) in
    let left : Filled l.burst now (some b) =
      (omega (arith, fits.0, spent.0), omega (arith, fits.1, spent.1)) in
    let same : b.last ≡ now = omega (arith, fits.0, spent.0) in
    ground (
      arith,
      balance-allow key other now t l,
      balance_lem l other t,
      current-later l (some b) now t left after,
      current-same l b now same,
    )

pub Inv-later : (l : Limiter) (start now : ℕ) → start ≤ now → Inv l start → Inv l now
Inv-later l start now later inv =
    (inv.0, λ key. Filled-later l.burst start now (lookup key l.buckets) later (inv.1 key))

-- The two limiters give one answer, and stay alike.
allow-result :
    (l : Limiter) (m : Map Bytes Bucket) (key : Bytes) (now : ℕ)
    → balance l key now ≡ balance (with_buckets l m) key now
    → ((allow key now l).0 ≡ (allow key now (with_buckets l m)).0)
      × ((taken l (current l now (lookup key l.buckets))).1.tokens
          ≡ (taken (with_buckets l m) (current (with_buckets l m) now (lookup key m))).1.tokens)
unfolding allow balance taken
allow-result l m key now same =
    taken-tokens l (current l now (lookup key l.buckets))
      (current (with_buckets l m) now (lookup key m)) same

allow-with_buckets :
    (l : Limiter) (m : Map Bytes Bucket) (key : Bytes) (now : ℕ)
    → with_buckets (allow key now l).1 (allow key now (with_buckets l m)).1.buckets
      ≡ (allow key now (with_buckets l m)).1
unfolding allow
allow-with_buckets l m key now = refl

allow-Alike :
    (l : Limiter) (m : Map Bytes Bucket) (key : Bytes) (start now : ℕ)
    → start ≤ now
    → Inv l start
    → Inv (with_buckets l m) start
    → Alike l m start
    → ((allow key now l).0 ≡ (allow key now (with_buckets l m)).0)
      × Alike (allow key now l).1 (allow key now (with_buckets l m)).1.buckets now
allow-Alike l m key start now later inv inv' alike =
    let here = Inv-later l start now later inv in
    let there = Inv-later (with_buckets l m) start now later inv' in
    let one = allow-result l m key now (alike key now later) in
    (
      one.0,
      λ other t after. ground (
        arith,
        balance-after l key other now t here after,
        balance-after (with_buckets l m) key other now t there after,
        one.1,
        ap (λ x. balance x other t) (allow-with_buckets l m key now),
        alike other t (omega (arith, later, after)),
      ),
    )

-- The instants do not go back.
unfoldable pub Ordered : ℕ → List Call → Type 0
Ordered start [] = Unit
Ordered start (call ∷ rest) = (start ≤ instant call) × Ordered (instant call) rest

same_answers :
    (idle : ℕ) (calls : List Call) (l : Limiter) (m : Map Bytes Bucket) (start : ℕ)
    → l.burst ≤ idle * l.rate
    → Inv l start
    → Inv (with_buckets l m) start
    → Alike l m start
    → Ordered start calls
    → answers idle calls l ≡ answers idle (only_allows calls) (with_buckets l m)
unfolding answers only_allows Ordered allow evict
same_answers idle [] l m start full inv inv' alike h = refl
same_answers idle (allows key now ∷ rest) l m start full inv inv' alike h =
    let one = allow-Alike l m key start now h.0 inv inv' alike in
    cc (
      one.0,
      same_answers idle rest (allow key now l).1 (allow key now (with_buckets l m)).1.buckets now
          full (allow-Inv l key start now h.0 inv)
          (allow-Inv (with_buckets l m) key start now h.0 inv') one.1 h.1,
    )
same_answers idle (evicts now ∷ rest) l m start full inv inv' alike h =
    let here = Inv-later l start now h.0 inv in
    same_answers idle rest (evict idle now l).1 m now full (evict-Inv idle l start now h.0 inv)
      (Inv-later (with_buckets l m) start now h.0 inv')
      (λ key t after.
        evict-balance idle l now t key full here after ∙ alike key t (omega (arith, h.0, after)))
      h.1

-- Where an idle time earns a full burst, the evictions among the calls change no answer and no
-- retry time of any key: forgetting a bucket cannot be told from keeping it.
pub evictions_invisible :
    (idle : ℕ) (calls : List Call) (l : Limiter) (start : ℕ)
    → l.burst ≤ idle * l.rate
    → Inv l start
    → Ordered start calls
    → answers idle calls l ≡ answers idle (only_allows calls) l
evictions_invisible idle calls l start full inv h =
    same_answers idle calls l l.buckets start full inv inv (λ key t after. refl) h
