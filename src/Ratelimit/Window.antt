-- ===== src/Ratelimit/Window.antt =====
-- internal/ratelimit/ratelimit.go: how often a key is allowed in an interval, with the sweeper's
-- evictions in it.
use native.Mathlib.Nat.{add-mul}
use hooklens.Base.{
  ℕ, ◌+◌, ◌-◌, ◌*◌, ◌≤◌, ◌≡◌, refl, List, [], ◌∷◌, Bytes, bytes_eq, bytes_key, if◌then◌else◌, arith,
  ◌&&◌,
}
use hooklens.Ratelimit.{Limiter, Call, allows, evicts, allow, evict, allowed, instant}
use hooklens.Ratelimit.Balance.{balance, spent-le, balance-grows, allow-whole, earned}
use hooklens.Ratelimit.Eviction.{Inv, Inv-later, allow-Inv, evict-Inv, evict-balance}

-- The instants do not go back, and none is outside the interval.
unfoldable pub Within : ℕ → List Call → ℕ → Type 0
Within start [] finish = start ≤ finish
Within start (call ∷ rest) finish = (start ≤ instant call) × Within (instant call) rest finish

within : (start : ℕ) (calls : List Call) (finish : ℕ) → Within start calls finish → start ≤ finish
unfolding Within
within start [] finish h = h
within start (call ∷ rest) finish h = omega (arith, h.0, within (instant call) rest finish h.1)

evict-whole :
    (idle now : ℕ) (l : Limiter)
    → ((evict idle now l).1.whole ≡ l.whole)
      × ((evict idle now l).1.rate ≡ l.rate)
      × ((evict idle now l).1.burst ≡ l.burst)
unfolding evict
evict-whole idle now l = (refl, refl, refl)

-- In every interval, whatever the other keys do and the sweeper evicts, a key is allowed no more
-- often than the tokens it has at the start and those that the interval earns pay for: where the
-- instants of the calls do not go back, an idle time earns a full burst, each key has one bucket, and
-- no bucket holds more than the burst or was refilled after the start.
pub window_bound :
    (idle : ℕ) (key : Bytes) (start finish : ℕ) (calls : List Call) (l : Limiter)
    → l.burst ≤ idle * l.rate
    → Inv l start
    → Within start calls finish
    → allowed idle key calls l * l.whole ≤ balance l key start + (finish - start) * l.rate
unfolding allowed Within allow evict
window_bound idle key start finish [] l full inv h = omega arith
window_bound idle key start finish (allows other now ∷ rest) l full inv h =
    let l' = (allow other now l).1 in
    let once : ℕ = if bytes_eq other key && (allow other now l).0.0 then 1 else 0 in
    let same = allow-whole other now l in
    ground (
      arith,
      window_bound idle key now finish rest l' (omega (arith, full, same.1, same.2))
          (allow-Inv l other start now h.0 inv) h.1,
      spent-le key other now l,
      balance-grows l key start now h.0,
      earned l.rate start now finish h.0 (within now rest finish h.1),
      add-mul once (allowed idle key rest l') l.whole,
      same,
    )
window_bound idle key start finish (evicts now ∷ rest) l full inv h =
    let l' = (evict idle now l).1 in
    let same = evict-whole idle now l in
    ground (
      arith,
      window_bound idle key now finish rest l' full (evict-Inv idle l start now h.0 inv) h.1,
      evict-balance idle l now now key full (Inv-later l start now h.0 inv) (omega arith),
      balance-grows l key start now h.0,
      earned l.rate start now finish h.0 (within now rest finish h.1),
      same,
    )
