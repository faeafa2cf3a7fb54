-- ===== src/Tunnel/Tests.antt =====
-- The registry and the reconnection loop at concrete histories.
use hooklens.Base.{
  ℕ, ◌-◌, ◌<◌, ◌≡◌, refl, true, false, none, some, List, [], ◌∷◌, codes, bytes_eq, bytes_key, arith,
}
use hooklens.Tunnel.Protocol.{permanent, code_replaced}
use hooklens.Tunnel.Hub.{Event, connects, exits, replay, target, newest, target-newest}
use hooklens.Tunnel.Backoff.{Attempt, ceiling, rejection, after_session, next, run}
use hooklens.Tunnel.Backoff.Delays.{at_attempt, doubled, ceiling-doubled, ramp, run-ramp}

program : Unit {0}
unfolding bytes_eq permanent ceiling rejection after_session next run
program = tt

-- A laptop sleeps, connects again, and only then does its first connection leave.
abbrev flapping : List Event
flapping = exits (codes "in") 1 ∷ connects (codes "in") 2 ∷ connects (codes "in") 1 ∷ []

target-newest_example : target (replay flapping) (codes "in") ≡ newest (codes "in") [] flapping
target-newest_example = target-newest (codes "in") flapping

newest-flapping : newest (codes "in") [] flapping ≡ some 2
unfolding newest bytes_eq
newest-flapping = refl

ceiling-doubled_example : ceiling (at_attempt 40) ≡ doubled 40
ceiling-doubled_example = ceiling-doubled 40

abbrev dropped : Attempt
dropped = record { ending = none; session = 5; interrupted = false; woken = true }

abbrev replaced : Attempt
replaced = record dropped { ending = some (record { code = code_replaced; reason = [] }) }

abbrev half : ℕ → ℕ
half n = n - 1

half-lt : (n : ℕ) → 0 < n → half n < n
half-lt n h = omega arith

run-ramp_example :
    (run half (at_attempt 3) (dropped ∷ dropped ∷ [])).1 ≡ ramp half 3 (dropped ∷ dropped ∷ [])
unfolding program
run-ramp_example = run-ramp half 3 (dropped ∷ dropped ∷ []) refl
