-- ===== src/Tunnel/Backoff/Delays.antt =====
-- The delays of internal/tunnel/backoff.go: no overflow, bounded, doubling until the limit; and when
-- the loop of internal/tunnel/client.go ends.
use hooklens.Base.{
  ℕ, zero, suc, ◌+◌, ◌*◌, ◌^◌, ◌≤◌, ◌<◌, min, ◌≡◌, refl, Bool, true, false, not, ◌&&◌, none, some,
  List, [], ◌∷◌, ltb, arith, All, all_of,
}
use mathlib.Core.Path.{subst}
use native.Mathlib.Nat.{pow-le-pow_right}
use hooklens.Tunnel.Protocol.{CloseError, permanent}
use hooklens.Tunnel.Backoff.{
  Backoff, Attempt, gave_up, backoff_base, backoff_max, stable_session, ceiling, rejection, reset,
  after_session, next, run,
}

-- The program's constants, at any count of attempts.
abbrev pub at_attempt : ℕ → Backoff
at_attempt k = record { base = backoff_base; limit = backoff_max; attempt = k }

-- The ceiling without machine integers.
abbrev pub doubled : ℕ → ℕ
doubled k = min (backoff_base * 2 ^ k) backoff_max

power_bounds : (m : ℕ) → 6 ≤ m → m ≤ 32 → (64 ≤ 2 ^ m) × (2 ^ m ≤ 2 ^ 32)
power_bounds m h k = (pow-le-pow_right (omega arith) h, pow-le-pow_right (omega arith) k)

large_attempt : (k : ℕ) → 6 ≤ k → ceiling (at_attempt k) ≡ doubled k
unfolding ceiling
large_attempt k h =
    let (low, high) = power_bounds (min k 32) (omega arith) (omega arith) in
    let far : 64 ≤ 2 ^ k = pow-le-pow_right (omega arith) h in ground arith

-- For every count of attempts the ceiling is 500 ms doubled that many times, but at most 30 s: the
-- shift never overflows into a negative or zero duration.
pub ceiling-doubled : (k : ℕ) → ceiling (at_attempt k) ≡ doubled k
unfolding ceiling
ceiling-doubled zero = refl
ceiling-doubled (suc zero) = refl
ceiling-doubled (suc (suc zero)) = refl
ceiling-doubled (suc (suc (suc zero))) = refl
ceiling-doubled (suc (suc (suc (suc zero)))) = refl
ceiling-doubled (suc (suc (suc (suc (suc zero))))) = refl
ceiling-doubled (suc (suc (suc (suc (suc (suc k)))))) =
    large_attempt (suc (suc (suc (suc (suc (suc k)))))) (omega arith)

ceiling_bounds : (b : Backoff) → 0 < b.limit → (0 < ceiling b) × (ceiling b ≤ b.limit)
unfolding ceiling
ceiling_bounds b h = ground arith

after_session-limit : (a : Attempt) (b : Backoff) → (after_session a b).limit ≡ b.limit
unfolding after_session reset
after_session-limit a b = ground arith

-- With a `draw` that stays below its positive argument, every delay that the loop waits is below the
-- limit, whatever the attempts come to and whatever the base and the count are.
run-below :
    (draw : ℕ → ℕ) (b : Backoff) (script : List Attempt)
    → ((n : ℕ) → 0 < n → draw n < n)
    → 0 < b.limit
    → All (λ d. d < b.limit) (run draw b script).1
unfolding run
run-below draw b [] uniform h = tt
run-below draw b (a ∷ rest) uniform h =
    let b' = after_session a b in
    let kept : b'.limit ≡ b.limit = after_session-limit a b in
    let h' : 0 < b'.limit = omega (arith, kept) in
    ground (
      arith,
      kept,
      ceiling_bounds b' h',
      uniform (ceiling b'),
      subst (λ (l : ℕ). All (λ d. d < l) (run draw (next draw b').0 rest).1) kept
          (run-below draw (next draw b').0 rest uniform h'),
    )

-- The loop gives up only on a close frame that is permanent.
gave_up-permanent :
    (draw : ℕ → ℕ) (b : Backoff) (script : List Attempt) {e : CloseError}
    → (run draw b script).0 ≡ gave_up e
    → permanent e ≡ true
unfolding run
gave_up-permanent draw b [] h = cc
gave_up-permanent draw b (a ∷ rest) {e} h =
    ground (arith, gave_up-permanent draw (next draw (after_session a b)).0 rest {e = e})

-- An attempt that is retried, after a session too short to count as stable.
abbrev pub is_flap : Attempt → Bool
is_flap a =
    not a.interrupted
    && a.woken
    && ltb a.session stable_session
    && (elim (rejection a.ending) [ none ↦ true | some e ↦ false ])

-- The delays from a count of attempts on.
abbrev pub ramp : (ℕ → ℕ) → ℕ → List Attempt → List ℕ
ramp draw k [] = []
ramp draw k (a ∷ rest) = draw (doubled k) ∷ ramp draw (k + 1) rest

-- While every session is short and every failure transient, the loop goes on, and its ceilings double
-- from one delay to the next, up to 30 s: connecting alone never resets them.
pub run-ramp :
    (draw : ℕ → ℕ) (k : ℕ) (script : List Attempt)
    → all_of is_flap script ≡ true
    → (run draw (at_attempt k) script).1 ≡ ramp draw k script
unfolding run after_session
run-ramp draw k [] h = refl
run-ramp draw k (a ∷ rest) h = ground (arith, ceiling-doubled k, run-ramp draw (k + 1) rest)

-- After a session of at least 30 s that did not end in a permanent rejection, the next delay is drawn
-- below the first ceiling again, whatever the count was.
run_stable :
    (draw : ℕ → ℕ) (k : ℕ) (a : Attempt) (rest : List Attempt)
    → stable_session ≤ a.session
    → a.interrupted ≡ false
    → a.woken ≡ true
    → rejection a.ending ≡ none
    → (run draw (at_attempt k) (a ∷ rest)).1 ≡ draw backoff_base ∷ (run draw (at_attempt 1) rest).1
unfolding run after_session
run_stable draw k a rest h i w r = ground (arith, ceiling-doubled 0)
