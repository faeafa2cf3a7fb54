-- ===== src/Metrics/Counters/Tests.antt =====
-- Two goroutines that both find a series missing.
use hooklens.Base.{
  zero, suc, ◌<◌, ◌≤◌, length, arith, ℕ, ◌≡◌, refl, List, [], ◌∷◌, Bytes, codes, bytes_eq,
  bytes_key, lookup, insert, get_elem?, set,
}
use hooklens.Metrics.{wrap}
use hooklens.Metrics.Counters.{
  cell_at, value_of, value, installed, looked, created, added, advance, stepped, step, run, start,
}
use hooklens.Metrics.Counters.Finished.{turns}
use hooklens.Metrics.Counters.Counted.{sum_for, run-sum_for}

program : Unit {0}
unfolding bytes_eq lookup insert get_elem? set cell_at value_of value installed looked created added
    advance stepped step run start
program = tt

abbrev adds : List (Bytes × ℕ)
adds = (codes "a", 3) ∷ (codes "a", 4) ∷ (codes "b", 5) ∷ []

-- Both look, both come to the lock, and both add.
abbrev schedule : List ℕ
schedule = 0 ∷ 1 ∷ 1 ∷ 0 ∷ 2 ∷ 1 ∷ 0 ∷ 2 ∷ 2 ∷ []

three_turns : (m : ℕ) → m < length adds → 3 ≤ turns m schedule
three_turns zero h = ground arith
three_turns (suc zero) h = ground arith
three_turns (suc (suc zero)) h = ground arith
three_turns (suc (suc (suc m))) h = absurd (omega (arith, h))

run-sum_for_example :
    value (codes "a") (run schedule (start adds)).counter ≡ wrap (sum_for (codes "a") adds)
run-sum_for_example = run-sum_for adds schedule (codes "a") three_turns

seven : value (codes "a") (run schedule (start adds)).counter ≡ 7
unfolding program
seven = refl
