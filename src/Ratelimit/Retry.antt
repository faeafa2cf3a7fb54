-- ===== src/Ratelimit/Retry.antt =====
-- internal/ratelimit/ratelimit.go: `retryAfter`.
use native.Mathlib.Nat.{mul-le-mul_right, lt-div-mul-add}
use hooklens.Base.{
  ℕ, ◌+◌, ◌-◌, ◌*◌, ◌/◌, ◌≤◌, ◌<◌, ◌≡◌, refl, true, false, Bytes, bytes_key, lookup, beq_refl,
  arith,
}
use hooklens.Ratelimit.{Bucket, Limiter, current, taken, allow}
use hooklens.Ratelimit.Balance.{balance}
use hooklens.Ratelimit.Eviction.{Inv, balance-after}

allow_lem :
    (key : Bytes) (now : ℕ) (l : Limiter)
    → ((allow key now l).0 ≡ (taken l (current l now (lookup key l.buckets))).0)
      × ((allow key now l).1.rate ≡ l.rate)
      × ((allow key now l).1.whole ≡ l.whole)
unfolding allow
allow_lem key now l = (refl, refl, refl)

allowed_with :
    (key : Bytes) (now : ℕ) (l : Limiter)
    → l.whole ≤ balance l key now
    → (allow key now l).0.0 ≡ true
unfolding allow taken balance
allowed_with key now l enough = ground arith

refused_with :
    (l : Limiter) (b : Bucket) (d : ℕ)
    → (taken l b).0 ≡ (false, d)
    → ((taken l b).1.tokens ≡ b.tokens) × (d ≡ (l.whole - b.tokens) / l.rate)
unfolding taken
refused_with l b d h = ground arith

-- A refused key that waits longer than `retryAfter` says is allowed, if nobody else spends its
-- tokens meanwhile: the wait is too short by less than a nanosecond, which the division rounds off.
pub retry_suffices :
    (key : Bytes) (now t d : ℕ) (l : Limiter)
    → Inv l now
    → 0 < l.rate
    → l.whole ≤ l.burst
    → (allow key now l).0 ≡ (false, d)
    → now + d < t
    → (allow key t (allow key now l).1).0.0 ≡ true
retry_suffices key now t d l inv pace size refused later =
    let b = current l now (lookup key l.buckets) in
    let facts = allow_lem key now l in
    let kept = refused_with l b d (cc (facts.0, refused)) in
    let need = l.whole - b.tokens in
    let earns : need ≤ (t - now) * l.rate = omega (
      arith,
      lt-div-mul-add {a = need} pace,
      mul-le-mul_right {m = need / l.rate + 1} {n = t - now} l.rate (omega (arith, kept.1, later)),
    ) in
    allowed_with key t (allow key now l).1 (
      ground (
        arith,
        balance-after l key key now t inv (omega (arith, later)),
        beq_refl key,
        kept,
        facts,
        earns,
      ))
