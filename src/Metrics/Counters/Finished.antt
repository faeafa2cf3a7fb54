-- ===== src/Metrics/Counters/Finished.antt =====
-- internal/metrics/metrics.go: a call of Add returns after three of its steps, whatever the others do.
use hooklens.Base.{
  ℕ, zero, suc, ◌+◌, ◌-◌, ◌≤◌, ◌<◌, ◌≡◌, refl, ap, Bool, true, false, Option, none, some, List, [],
  ◌∷◌, map, Bytes, bytes_key, lookup, length, get_elem?, get_elem?-set, all_of, leb, ◌==◌, arith,
  Bool-cases, inl, inr, if◌then◌else◌,
}
use hooklens.Metrics.Counters.{
  Phase, waiting, missed, done, holding, Call, CounterVec, State, looked, created, advance, stepped,
  step, run, call_of, start,
}

unfoldable pub is_done : Phase → Bool
is_done done = true
is_done _ = false

unfoldable pub finished : State → Bool
finished s = all_of (λ c. is_done c.phase) s.calls

-- How often a schedule names a call.
abbrev pub turns : ℕ → List ℕ → ℕ
turns m [] = 0
turns m (n ∷ schedule) = (if n == m then 1 else 0) + turns m schedule

-- The steps that are left to a call.
unfoldable rank : Phase → ℕ
rank waiting = 3
rank missed = 2
rank (holding i) = 1
rank done = 0

unfoldable left_of : Option Call → ℕ
left_of none = 0
left_of (some c) = rank c.phase

rank-looked : (o : Option ℕ) → rank (looked o) ≤ 2
unfolding looked rank
rank-looked none = omega arith
rank-looked (some i) = omega arith

rank-created : (key : Bytes) (o : Option ℕ) (c : CounterVec) → rank (created key o c).1 ≤ 1
unfolding created rank
rank-created key none c = omega arith
rank-created key (some i) c = omega arith

advance-rank : (call : Call) (p : Phase) (c : CounterVec) → rank (advance call p c).1 ≤ rank p - 1
unfolding advance rank
advance-rank call waiting c = rank-looked (lookup call.key c.values)
advance-rank call missed c = rank-created call.key (lookup call.key c.values) c
advance-rank call (holding i) c = omega arith
advance-rank call done c = omega arith

stepped-left_of :
    (n m : ℕ) (o : Option Call) (s : State)
    → get_elem? s.calls n ≡ o
    → left_of (get_elem? (stepped n o s).calls m)
      ≤ left_of (get_elem? s.calls m) - (if n == m then 1 else 0)
unfolding stepped left_of
stepped-left_of n m none s e = ground (arith, ap (λ k. left_of (get_elem? s.calls k)), e)
stepped-left_of n m (some call) s e =
    let next = advance call call.phase s.counter in
    ground (
      arith,
      get_elem?-set s.calls n m (record call { phase = next.1 }) call e,
      advance-rank call call.phase s.counter,
    )

run-left_of :
    (m : ℕ) (schedule : List ℕ) (s : State)
    → left_of (get_elem? (run schedule s).calls m)
      ≤ left_of (get_elem? s.calls m) - turns m schedule
unfolding run step
run-left_of m [] s = omega arith
run-left_of m (n ∷ schedule) s =
    omega
      (arith, run-left_of m schedule (step n s), stepped-left_of n m (get_elem? s.calls n) s refl)

start-left_of : (adds : List (Bytes × ℕ)) (m : ℕ) → left_of (get_elem? (map call_of adds) m) ≤ 3
unfolding left_of rank get_elem?
start-left_of [] m = omega arith
start-left_of (a ∷ adds) zero = omega arith
start-left_of (a ∷ adds) (suc m) = start-left_of adds m

beyond-left_of :
    (adds : List (Bytes × ℕ)) (m : ℕ)
    → length adds ≤ m
    → left_of (get_elem? (map call_of adds) m) ≡ 0
unfolding left_of get_elem?
beyond-left_of [] m h = refl
beyond-left_of (a ∷ adds) zero h = absurd (omega (arith, h))
beyond-left_of (a ∷ adds) (suc m) h = beyond-left_of adds m (omega (arith, h))

rank_zero : (p : Phase) → rank p ≡ 0 → is_done p ≡ true
unfolding rank is_done
rank_zero waiting e = absurd (omega (arith, e))
rank_zero missed e = absurd (omega (arith, e))
rank_zero (holding i) e = absurd (omega (arith, e))
rank_zero done e = refl

all_done :
    (calls : List Call)
    → ((m : ℕ) → left_of (get_elem? calls m) ≡ 0)
    → all_of (λ c. is_done c.phase) calls ≡ true
unfolding get_elem? left_of
all_done [] h = refl
all_done (c ∷ calls) h = ground (arith, rank_zero c.phase (h 0), all_done calls (λ m. h (suc m)))

pub run-finished :
    (adds : List (Bytes × ℕ)) (schedule : List ℕ)
    → ((m : ℕ) → m < length adds → 3 ≤ turns m schedule)
    → finished (run schedule (start adds)) ≡ true
unfolding finished start
run-finished adds schedule fair = all_done (run schedule (start adds)).calls λ m.
    let left = run-left_of m schedule (start adds) in
    elim (Bool-cases (leb (length adds) m)) [
      | inl beyond ↦ ground (arith, left, beyond-left_of adds m (ground arith))
      | inr inside ↦ ground (arith, left, start-left_of adds m, fair m (ground arith))
    ]
