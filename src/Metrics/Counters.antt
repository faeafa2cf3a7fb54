-- ===== src/Metrics/Counters.antt =====
-- internal/metrics/metrics.go: counters under concurrent calls of Add. Each call is a goroutine with a
-- phase; what it does under a lock, or in one atomic operation, is one step. A series is a pointer to
-- its number: a cell. The key is the text of the labels, and an int64 is its 64 bits.
pub mod Counted
mod Finished
mod Links
mod Tests
use hooklens.Base.{
  ℕ, ◌+◌, Bool, true, false, ◌&&◌, Option, none, some, List, [], ◌∷◌, ◌++◌, map, Bytes, bytes_key,
  Map, lookup, insert, length, get_elem?, set, if◌then◌else◌,
}
use hooklens.Metrics.{wrap}

-- Where a call of Add is: before its look under the read lock, after one that found nothing, with the
-- cell of the series, and returned.
pub data Phase : Type 0 where
  waiting missed done : Phase
  holding : ℕ → Phase

pub record Call : Type 0 where
  pub key : Bytes
  pub amount : ℕ
  pub phase : Phase

pub record CounterVec : Type 0 where
  pub values : Map Bytes ℕ
  pub cells : List ℕ

-- The counter, and the calls of the goroutines.
pub record State : Type 0 where
  pub counter : CounterVec
  pub calls : List Call

unfoldable pub cell_at : List ℕ → ℕ → ℕ
cell_at cells i = elim (get_elem? cells i) [ none ↦ 0 | some v ↦ v ]

unfoldable pub value_of : List ℕ → Option ℕ → ℕ
value_of cells none = 0
value_of cells (some i) = cell_at cells i

unfoldable pub value : Bytes → CounterVec → ℕ
value key c = value_of c.cells (lookup key c.values)

-- `new(atomic.Int64)` in the map.
unfoldable pub installed : Bytes → CounterVec → CounterVec
installed key c = record {
  values = insert key (length c.cells) c.values;
  cells = c.cells ++ (0 ∷ []);
}

-- The look under the read lock.
unfoldable pub looked : Option ℕ → Phase
looked none = missed
looked (some i) = holding i

-- The second look and the write, under the write lock.
unfoldable pub created : Bytes → Option ℕ → CounterVec → CounterVec × Phase
created key (some i) c = (c, holding i)
created key none c = (installed key c, holding (length c.cells))

-- `v.Add(n)`.
unfoldable pub added : ℕ → ℕ → CounterVec → CounterVec
added i n c = record c { cells = set c.cells i (wrap (cell_at c.cells i + n)) }

-- The next step of one call.
unfoldable pub advance : Call → Phase → CounterVec → CounterVec × Phase
advance call waiting c = (c, looked (lookup call.key c.values))
advance call missed c = created call.key (lookup call.key c.values) c
advance call (holding i) c = (added i call.amount c, done)
advance call done c = (c, done)

unfoldable pub stepped : ℕ → Option Call → State → State
stepped n none s = s
stepped n (some call) s =
    let next = advance call call.phase s.counter in
    record { counter = next.0; calls = set s.calls n (record call { phase = next.1 }) }

unfoldable pub step : ℕ → State → State
step n s = stepped n (get_elem? s.calls n) s

-- A schedule names the call that takes its next step.
unfoldable pub run : List ℕ → State → State
run [] s = s
run (n ∷ schedule) s = run schedule (step n s)

abbrev pub call_of : Bytes × ℕ → Call
call_of a = record { key = a.0; amount = a.1; phase = waiting }

unfoldable pub start : List (Bytes × ℕ) → State
start adds = record { counter = record { values = []; cells = [] }; calls = map call_of adds }
