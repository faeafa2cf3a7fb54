-- ===== src/Ratelimit/Balance.antt =====
-- internal/ratelimit/ratelimit.go: how many tokens a key has.
use native.Mathlib.Nat.{add-mul}
use mathlib.Core.Path.{subst}
use hooklens.Base.{
  ℕ, ◌+◌, ◌-◌, ◌*◌, ◌≤◌, ◌≡◌, ◌∙◌, inl, inr, refl, ap, Option, none, some, Bytes, bytes_eq,
  bytes_key, bytes_eq_iff, lookup, insert, Map, if◌then◌else◌, lookup-insert, beq_refl, Bool-cases,
  arith, ◌&&◌,
}
use hooklens.Ratelimit.{Bucket, Limiter, refilled, current, taken, allow}

-- The tokens that a call of `Allow` at an instant finds.
unfoldable pub balance : Limiter → Bytes → ℕ → ℕ
balance l key now = (current l now (lookup key l.buckets)).tokens

-- What an interval earns, cut in two.
pub earned : (r a b c : ℕ) → a ≤ b → b ≤ c → (c - a) * r ≡ (b - a) * r + (c - b) * r
earned r a b c below above =
    let pieces : c - a ≡ (b - a) + (c - b) = omega (arith, below, above) in
    ap (λ n. n * r) pieces ∙ add-mul (b - a) (c - b) r

pub balance_lem :
    (l : Limiter) (key : Bytes) (now : ℕ)
    → balance l key now ≡ (current l now (lookup key l.buckets)).tokens
unfolding balance
balance_lem l key now = refl

current-grows :
    (l : Limiter) (o : Option Bucket) (start now : ℕ)
    → start ≤ now
    → (current l now o).tokens ≤ (current l start o).tokens + (now - start) * l.rate
unfolding current refilled
current-grows l none start now later = omega arith
current-grows l (some b) start now later =
    ground (arith, earned l.rate b.last start now, earned l.rate start b.last now)

pub balance-grows :
    (l : Limiter) (key : Bytes) (start now : ℕ)
    → start ≤ now
    → balance l key now ≤ balance l key start + (now - start) * l.rate
unfolding balance
balance-grows l key start now = current-grows l (lookup key l.buckets) start now

pub allow-whole :
    (key : Bytes) (now : ℕ) (l : Limiter)
    → ((allow key now l).1.whole ≡ l.whole)
      × ((allow key now l).1.rate ≡ l.rate)
      × ((allow key now l).1.burst ≡ l.burst)
unfolding allow
allow-whole key now l = (refl, refl, refl)

-- One call, at its own instant: what it takes is a whole token if it is allowed, else nothing.
pub current-some : (l : Limiter) (t : ℕ) (b : Bucket) → current l t (some b) ≡ refilled l t b
unfolding current
current-some l t b = refl

current-taken :
    (l : Limiter) (b : Bucket) (o : Option Bucket) (now : ℕ)
    → b ≡ current l now o
    → (refilled l now (taken l b).1).tokens + (if (taken l b).0.0 then l.whole else 0) ≡ b.tokens
unfolding current refilled taken
current-taken l b none now h = ground arith
current-taken l b (some old) now h = ground arith

pub current-buckets :
    (l : Limiter) (m : Map Bytes Bucket) (t : ℕ) (o : Option Bucket)
    → current (record l { buckets = m }) t o ≡ current l t o
unfolding current refilled
current-buckets l m t none = refl
current-buckets l m t (some b) = refl

-- The tokens after a call, of the key that called and of the others.
pub balance-allow :
    (key other : Bytes) (now t : ℕ) (l : Limiter)
    → balance (allow key now l).1 other t
      ≡ (current l t (
          if bytes_eq key other
          then some (taken l (current l now (lookup key l.buckets))).1
          else lookup other l.buckets)).tokens
unfolding balance allow
balance-allow key other now t l =
    let b = (taken l (current l now (lookup key l.buckets))).1 in
    ap (λ c. c.tokens)
      (current-buckets l (insert key b l.buckets) t (lookup other (insert key b l.buckets)))
    ∙ ap (λ o. (current l t o).tokens) (lookup-insert key other b l.buckets)

spent-same :
    (key : Bytes) (now : ℕ) (l : Limiter)
    → balance (allow key now l).1 key now + (if (allow key now l).0.0 then l.whole else 0)
      ≡ balance l key now
unfolding balance allow
spent-same key now l =
    let b = current l now (lookup key l.buckets) in
    ground (
      arith,
      balance-allow key key now now l,
      current-taken l b (lookup key l.buckets) now refl,
      current-some l now (taken l b).1,
      beq_refl key,
    )

pub spent-le :
    (key other : Bytes) (now : ℕ) (l : Limiter)
    → balance (allow other now l).1 key now
        + (if bytes_eq other key && (allow other now l).0.0 then l.whole else 0)
      ≤ balance l key now
spent-le key other now l = elim (Bool-cases (bytes_eq other key)) [
  | inl same ↦
      let equal : other ≡ key = (bytes_eq_iff other key).0 same in
      subst
        (λ k.
          balance (allow other now l).1 k now
            + (if bytes_eq other k && (allow other now l).0.0 then l.whole else 0)
          ≤ balance l k now)
        equal (ground (arith, spent-same other now l, beq_refl other))
  | inr differs ↦
      let unchanged = balance-allow other key now now l in
      let there : balance l key now ≡ (current l now (lookup key l.buckets)).tokens =
        balance_lem l key now in
      ground (arith, unchanged, there)
]
