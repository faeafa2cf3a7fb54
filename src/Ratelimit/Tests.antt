-- ===== src/Ratelimit/Tests.antt =====
-- Runs of the limiters of internal/server/server.go with their default rates.
use hooklens.Base.{
  ℕ, ◌+◌, ◌-◌, ◌*◌, ◌≤◌, ◌<◌, ◌≡◌, refl, true, some, none, false, List, [], ◌∷◌, codes, bytes_key,
  bytes_eq, lookup, insert, retain, count_failing, arith, passing,
}
use hooklens.Ratelimit.{
  Limiter, Call, allows, evicts, second, new, refilled, current, taken, allow, recent, evict,
  answers, only_allows, allowed,
}
use hooklens.Ratelimit.Balance.{balance}
use hooklens.Ratelimit.Eviction.{Inv, Filled-if, evictions_invisible}
use hooklens.Ratelimit.Eviction
use hooklens.Ratelimit.Window.{Within, window_bound}
use hooklens.Ratelimit.Retry.{retry_suffices}

program : Unit {0}
unfolding lookup insert bytes_eq retain count_failing new refilled current taken allow recent evict
    answers only_allows allowed balance passing
program = tt

-- Ten a minute with a burst of five, and fifty a second with a burst of a hundred.
abbrev create_limiter : Limiter
create_limiter = new 1 6 30

abbrev capture_limiter : Limiter
capture_limiter = new 50 1 100

abbrev minutes : ℕ → ℕ
minutes n = n * 60 * second

abbrev calls : List Call
calls =
    allows (codes "a") 10
    ∷ allows (codes "b") 20
    ∷ evicts (minutes 20)
    ∷ allows (codes "a") (minutes 20)
    ∷ []

new-Inv : Inv create_limiter 0
unfolding program
new-Inv = (tt, λ key. tt)

calls-Ordered : hooklens.Ratelimit.Eviction.Ordered 0 calls
unfolding hooklens.Ratelimit.Eviction.Ordered
calls-Ordered = (omega arith, (omega arith, (omega arith, (omega arith, tt))))

full : create_limiter.burst ≤ minutes 15 * create_limiter.rate
unfolding program
full = omega arith

evictions_invisible_example :
    answers (minutes 15) calls create_limiter
    ≡ answers (minutes 15) (only_allows calls) create_limiter
evictions_invisible_example =
    evictions_invisible (minutes 15) calls create_limiter 0 full new-Inv calls-Ordered

abbrev burst_calls : List Call
burst_calls =
    allows (codes "a") 1
    ∷ allows (codes "a") 1
    ∷ allows (codes "b") 1
    ∷ evicts 2
    ∷ allows (codes "a") 2
    ∷ allows (codes "a") 3
    ∷ allows (codes "a") 3
    ∷ allows (codes "a") 4
    ∷ []

burst_calls-allowed : allowed (minutes 15) (codes "a") burst_calls create_limiter ≡ 5
unfolding program
burst_calls-allowed = refl

new-Inv_later : Inv create_limiter 1
unfolding program
new-Inv_later = (tt, λ key. tt)

burst_calls-Within : Within 1 burst_calls 4
unfolding Within
burst_calls-Within = ground arith

window_bound_example :
    allowed (minutes 15) (codes "a") burst_calls create_limiter * create_limiter.whole
    ≤ balance create_limiter (codes "a") 1 + (4 - 1) * create_limiter.rate
window_bound_example =
    window_bound (minutes 15) (codes "a") 1 4 burst_calls create_limiter full new-Inv_later
      burst_calls-Within

-- One token, spent.
abbrev spent : Limiter
spent = record create_limiter { buckets = (codes "a", record { tokens = 0; last = 5 }) ∷ [] }

spent-Inv : Inv spent 5
unfolding lookup bytes_eq new
spent-Inv = (
  (refl, tt),
  λ key.
      Filled-if (bytes_eq (codes "a") key) spent.burst 5 (some (record { tokens = 0; last = 5 }))
        none (omega arith, omega arith) tt,
)

spent_refused : (allow (codes "a") 5 spent).0 ≡ (false, 6 * second)
unfolding program
spent_refused = refl

sizes : (0 < spent.rate) × (spent.whole ≤ spent.burst)
unfolding program
sizes = (omega arith, omega arith)

retry_suffices_example :
    (allow (codes "a") (6 * second + 6) (allow (codes "a") 5 spent).1).0.0 ≡ true
retry_suffices_example =
    retry_suffices (codes "a") 5 (6 * second + 6) (6 * second) spent spent-Inv sizes.0 sizes.1
      spent_refused (omega arith)
