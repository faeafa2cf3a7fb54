-- ===== src/Metrics/Counters/Counted.antt =====
-- internal/metrics/metrics.go: no increment is lost, however the calls of Add interleave.
use hooklens.Base.{
  ℕ, zero, suc, ◌+◌, ◌<◌, ◌≤◌, ◌≡◌, ◌∙◌, refl, sym, ap, true, false, Option, none, some, List, [],
  ◌∷◌, map, Bytes, bytes_eq, bytes_eq_iff, bytes_key, lookup, lookup-insert, length, get_elem?,
  weigh, weigh-set, all_of, arith, if◌then◌else◌,
}
use hooklens.Metrics.{wrap}
use hooklens.Metrics.Counters.Finished.{is_done, finished, turns, run-finished}
use hooklens.Metrics.Counters.{
  Phase, waiting, missed, done, holding, Call, CounterVec, State, value_of, value, installed,
  looked, created, added, advance, stepped, step, run, call_of, start,
}
use hooklens.Metrics.Counters.Links.{
  given, Linked, Counts, moved, moved-Linked, installed-Linked, added-Linked, moved-Counts,
  installed-Counts, added-Counts,
}

-- What it is to add.
unfoldable pub asked : Bytes → Call → ℕ
asked key c = if bytes_eq c.key key then c.amount else 0

-- The two invariants, kept by every step.
abbrev Inv : State → Type 0
Inv s = Linked s.counter s.calls × Counts s.counter s.calls

looked_holding : (o : Option ℕ) (i : ℕ) → looked o ≡ holding i → o ≡ some i
unfolding looked
looked_holding none i e = cc e
looked_holding (some j) i e = ground arith

holding-injective : (i j : ℕ) → holding i ≡ holding j → i ≡ j
holding-injective i j e = cc e

installed-lookup :
    (key : Bytes) (c : CounterVec) → lookup key (installed key c).values ≡ some (length c.cells)
unfolding installed
installed-lookup key c =
    ground (arith, lookup-insert key key (length c.cells) c.values, bytes_eq_iff key key)

looked-is_done : (o : Option ℕ) → false ≡ is_done (looked o)
unfolding looked is_done
looked-is_done none = refl
looked-is_done (some i) = refl

created-Inv :
    (n : ℕ) (call : Call) (c : CounterVec) (calls : List Call) (o : Option ℕ)
    → get_elem? calls n ≡ some call
    → call.phase ≡ missed
    → lookup call.key c.values ≡ o
    → Inv (record { counter = c; calls = calls })
    → Inv (record {
      counter = (created call.key o c).0;
      calls = moved calls n call (created call.key o c).1;
    })
unfolding created is_done
created-Inv n call c calls (some i) here is found (linked, counts) = (
  moved-Linked c calls n call (holding i) here (λ j e. found ∙ ap some (holding-injective i j e))
      linked,
  moved-Counts c calls n call (holding i) here (ap is_done is) counts,
)
created-Inv n call c calls none here is new (linked, counts) =
    let grown = installed call.key c in
    let cell = length c.cells in
    (
      moved-Linked grown calls n call (holding cell) here
          (λ j e. installed-lookup call.key c ∙ ap some (holding-injective cell j e))
          (installed-Linked c calls call.key new linked),
      moved-Counts grown calls n call (holding cell) here (ap is_done is)
          (installed-Counts c calls call.key new linked counts),
    )

advance-Inv :
    (n : ℕ) (call : Call) (c : CounterVec) (calls : List Call) (p : Phase)
    → get_elem? calls n ≡ some call
    → call.phase ≡ p
    → Inv (record { counter = c; calls = calls })
    → Inv
        (record { counter = (advance call p c).0; calls = moved calls n call (advance call p c).1 })
unfolding advance is_done
advance-Inv n call c calls waiting here is (linked, counts) =
    let o = lookup call.key c.values in
    (
      moved-Linked c calls n call (looked o) here (looked_holding o) linked,
      moved-Counts c calls n call (looked o) here (ap is_done is ∙ looked-is_done o) counts,
    )
advance-Inv n call c calls missed here is inv =
    created-Inv n call c calls (lookup call.key c.values) here is refl inv
advance-Inv n call c calls (holding i) here is (linked, counts) = (
  moved-Linked (added i call.amount c) calls n call done here (λ j e. absurd (cc e))
      (added-Linked c calls i call.amount linked),
  added-Counts c calls n i call here is linked counts,
)
advance-Inv n call c calls done here is (linked, counts) = (
  moved-Linked c calls n call done here (λ j e. absurd (cc e)) linked,
  moved-Counts c calls n call done here (ap is_done is) counts,
)

stepped-Inv :
    (n : ℕ) (o : Option Call) (s : State) → get_elem? s.calls n ≡ o → Inv s → Inv (stepped n o s)
unfolding stepped
stepped-Inv n none s e inv = inv
stepped-Inv n (some call) s e inv = advance-Inv n call s.counter s.calls call.phase e refl inv

run-Inv : (schedule : List ℕ) (s : State) → Inv s → Inv (run schedule s)
unfolding run step
run-Inv [] s inv = inv
run-Inv (n ∷ schedule) s inv =
    run-Inv schedule (step n s) (stepped-Inv n (get_elem? s.calls n) s refl inv)

start-given : (key : Bytes) (adds : List (Bytes × ℕ)) → weigh (given key) (map call_of adds) ≡ 0
unfolding weigh given is_done
start-given key [] = refl
start-given key (a ∷ adds) = omega (arith, start-given key adds)

start-waiting :
    (adds : List (Bytes × ℕ)) (n : ℕ) (call : Call)
    → get_elem? (map call_of adds) n ≡ some call
    → call.phase ≡ waiting
unfolding get_elem?
start-waiting [] n call e = cc e
start-waiting (a ∷ adds) zero call e =
    let first : call_of a ≡ call = ground arith in sym (ap Call.phase first)
start-waiting (a ∷ adds) (suc n) call e = start-waiting adds n call e

start-Inv : (adds : List (Bytes × ℕ)) → Inv (start adds)
unfolding start lookup value value_of
start-Inv adds = (
  ((λ k i e. cc e), (λ k j i e. cc e), λ n i call e is. cc (start-waiting adds n call e, is)),
  λ k. ground (arith, start-given k adds),
)

-- What each call is to add does not change, and when it is done, it has.
stepped-asked :
    (key : Bytes) (n : ℕ) (o : Option Call) (s : State)
    → get_elem? s.calls n ≡ o
    → weigh (asked key) (stepped n o s).calls ≡ weigh (asked key) s.calls
unfolding stepped asked
stepped-asked key n none s e = refl
stepped-asked key n (some call) s e =
    let next = advance call call.phase s.counter in
    ground (arith, weigh-set (asked key) s.calls n (record call { phase = next.1 }) call e)

run-asked :
    (key : Bytes) (schedule : List ℕ) (s : State)
    → weigh (asked key) (run schedule s).calls ≡ weigh (asked key) s.calls
unfolding run step
run-asked key [] s = refl
run-asked key (n ∷ schedule) s =
    run-asked key schedule (step n s) ∙ stepped-asked key n (get_elem? s.calls n) s refl

given-asked :
    (key : Bytes) (calls : List Call)
    → all_of (λ c. is_done c.phase) calls ≡ true
    → weigh (given key) calls ≡ weigh (asked key) calls
unfolding weigh given asked
given-asked key [] h = refl
given-asked key (c ∷ calls) h = ground (arith, given-asked key calls)

-- The sum of what is to be added under a key.
abbrev pub sum_for : Bytes → List (Bytes × ℕ) → ℕ
sum_for key [] = 0
sum_for key (a ∷ adds) = (if bytes_eq a.0 key then a.1 else 0) + sum_for key adds

start-asked :
    (key : Bytes) (adds : List (Bytes × ℕ))
    → weigh (asked key) (map call_of adds) ≡ sum_for key adds
unfolding weigh asked
start-asked key [] = refl
start-asked key (a ∷ adds) = ground (arith, start-asked key adds)

-- However any calls of Add interleave, when each has had three turns, every series has the sum of what
-- was added to it, modulo 2^64: two calls that both find a series missing do not both create it.
pub run-sum_for :
    (adds : List (Bytes × ℕ)) (schedule : List ℕ) (key : Bytes)
    → ((m : ℕ) → m < length adds → 3 ≤ turns m schedule)
    → value key (run schedule (start adds)).counter ≡ wrap (sum_for key adds)
unfolding finished start
run-sum_for adds schedule key fair =
    let end = run schedule (start adds) in
    let counts = (run-Inv schedule (start adds) (start-Inv adds)).1 key in
    let given_all = given-asked key end.calls (run-finished adds schedule fair) in
    let asked_all = run-asked key schedule (start adds) in
    cc (counts, given_all, asked_all, start-asked key adds)
