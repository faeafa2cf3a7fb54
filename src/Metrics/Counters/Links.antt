-- ===== src/Metrics/Counters/Links.antt =====
-- internal/metrics/metrics.go: which cell a series has, and what is in it, as the calls of Add move on.
use hooklens.Base.{
  ℕ, zero, suc, ◌+◌, ◌<◌, ◌≡◌, ◌∙◌, refl, ap, true, ◌&&◌, none, some, List, [], ◌∷◌, ◌++◌, Bytes,
  bytes_eq, bytes_eq_iff, bytes_key, lookup, ◌==◌, lookup-insert, length, length-append, get_elem?,
  get_elem?-set, set, weigh, weigh-set, arith, Bool-cases, Option-cases, inl, inr, if◌then◌else◌,
}
use native.Mathlib.Nat.{mod-add-mod}
use hooklens.Metrics.{wrap}
use hooklens.Metrics.Counters.Finished.{is_done}
use hooklens.Metrics.Counters.{
  Phase, done, holding, Call, CounterVec, cell_at, value_of, value, installed, added,
}

-- What a call has added to a key.
unfoldable pub given : Bytes → Call → ℕ
given key c = if is_done c.phase && bytes_eq c.key key then c.amount else 0

-- Cells are of the store, no two keys share one, and a call that holds one holds its key's.
abbrev pub Linked : CounterVec → List Call → Type 0
Linked c calls =
    ((k : Bytes) (i : ℕ) → lookup k c.values ≡ some i → i < length c.cells)
    × ((k j : Bytes) (i : ℕ) → lookup k c.values ≡ some i → lookup j c.values ≡ some i → k ≡ j)
    × ((n i : ℕ) (call : Call)
        → get_elem? calls n ≡ some call
        → call.phase ≡ holding i
        → lookup call.key c.values ≡ some i)

abbrev pub Counts : CounterVec → List Call → Type 0
Counts c calls = (k : Bytes) → value k c ≡ wrap (weigh (given k) calls)

cell_at-set :
    (cells : List ℕ) (i j v : ℕ)
    → i < length cells
    → cell_at (set cells i v) j ≡ (if i == j then v else cell_at cells j)
unfolding cell_at get_elem? set
cell_at-set [] i j v h = absurd (ground arith)
cell_at-set (x ∷ cells) zero zero v h = refl
cell_at-set (x ∷ cells) zero (suc j) v h = ground arith
cell_at-set (x ∷ cells) (suc i) zero v h = ground arith
cell_at-set (x ∷ cells) (suc i) (suc j) v h = ground (arith, cell_at-set cells i j v (ground arith))

cell_at-append : (cells : List ℕ) (i : ℕ) → cell_at (cells ++ (0 ∷ [])) i ≡ cell_at cells i
unfolding cell_at get_elem?
cell_at-append [] zero = refl
cell_at-append [] (suc i) = refl
cell_at-append (x ∷ cells) zero = refl
cell_at-append (x ∷ cells) (suc i) = cell_at-append cells i

cell_at-end : (cells : List ℕ) → cell_at (cells ++ (0 ∷ [])) (length cells) ≡ 0
unfolding cell_at get_elem?
cell_at-end [] = refl
cell_at-end (x ∷ cells) = cell_at-end cells

length-set : (cells : List ℕ) (i v : ℕ) → length (set cells i v) ≡ length cells
unfolding set
length-set [] i v = refl
length-set (x ∷ cells) zero v = refl
length-set (x ∷ cells) (suc i) v = ap suc (length-set cells i v)

abbrev pub moved : List Call → ℕ → Call → Phase → List Call
moved calls n call p = set calls n (record call { phase = p })

-- One call moves on.
pub moved-Linked :
    (c : CounterVec) (calls : List Call) (n : ℕ) (call : Call) (p : Phase)
    → get_elem? calls n ≡ some call
    → ((i : ℕ) → p ≡ holding i → lookup call.key c.values ≡ some i)
    → Linked c calls
    → Linked c (moved calls n call p)
moved-Linked c calls n call p here holds (inside, apart, held) = (
  inside,
  apart,
  λ m i other at is.
      let read = get_elem?-set calls n m (record call { phase = p }) call here in
      elim (Bool-cases (n == m)) [
        | inl same ↦
            let self : record call { phase = p } ≡ other = ground (arith, read, same, at) in
            cc (ap Call.key self, holds i (ap Call.phase self ∙ is))
        | inr apart ↦ held m i other (ground (arith, read, apart, at)) is
      ],
)

pub installed-Linked :
    (c : CounterVec) (calls : List Call) (key : Bytes)
    → lookup key c.values ≡ none
    → Linked c calls
    → Linked (installed key c) calls
unfolding installed
installed-Linked c calls key new (inside, apart, held) =
    let longer = length-append c.cells (0 ∷ []) in
    let read = λ (k : Bytes). lookup-insert key k (length c.cells) c.values in
    (
      λ k i at. ground (arith, read k, inside k i, longer),
      λ k j i at_k at_j. ground (
        arith,
        read k,
        read j,
        inside k i,
        inside j i,
        apart k j i,
        bytes_eq_iff key k,
        bytes_eq_iff key j,
      ),
      λ n i call at is.
          ground (arith, held n i call at is, read call.key, bytes_eq_iff key call.key),
    )

pub added-Linked :
    (c : CounterVec) (calls : List Call) (i amount : ℕ)
    → Linked c calls
    → Linked (added i amount c) calls
unfolding added
added-Linked c calls i amount (inside, apart, held) = (
  λ k j at. ground (arith, inside k j at, length-set c.cells i (wrap (cell_at c.cells i + amount))),
  apart,
  held,
)

pub moved-Counts :
    (c : CounterVec) (calls : List Call) (n : ℕ) (call : Call) (p : Phase)
    → get_elem? calls n ≡ some call
    → is_done call.phase ≡ is_done p
    → Counts c calls
    → Counts c (moved calls n call p)
unfolding given
moved-Counts c calls n call p here same_phase counts k =
    let moves = weigh-set (given k) calls n (record call { phase = p }) call here in
    let same : weigh (given k) (moved calls n call p) ≡ weigh (given k) calls =
      ground (arith, moves, same_phase) in
    cc (counts k, same)

pub installed-Counts :
    (c : CounterVec) (calls : List Call) (key : Bytes)
    → lookup key c.values ≡ none
    → Linked c calls
    → Counts c calls
    → Counts (installed key c) calls
unfolding value value_of installed
installed-Counts c calls key new (inside, apart, held) counts k =
    let read = lookup-insert key k (length c.cells) c.values in
    let fresh = cell_at-end c.cells in
    elim (Bool-cases (bytes_eq key k)) [
      | inl same ↦ cc (read, same, (bytes_eq_iff key k).0 same, new, fresh, counts k)
      | inr other ↦ elim (Option-cases (lookup k c.values)) [
        | inl without ↦ cc (read, other, without, counts k)
        | inr (i, at) ↦ cc (read, other, at, counts k, cell_at-append c.cells i)
      ]
    ]

wrap-add : (a b : ℕ) → wrap (wrap a + b) ≡ wrap (a + b)
wrap-add a b = mod-add-mod a 18446744073709551616 b

pub added-Counts :
    (c : CounterVec) (calls : List Call) (n i : ℕ) (call : Call)
    → get_elem? calls n ≡ some call
    → call.phase ≡ holding i
    → Linked c calls
    → Counts c calls
    → Counts (added i call.amount c) (moved calls n call done)
unfolding value value_of added given is_done
added-Counts c calls n i call here is (inside, apart, held) counts k =
    let moves = weigh-set (given k) calls n (record call { phase = done }) call here in
    let own = held n i call here is in
    let write = λ (j : ℕ).
      cell_at-set c.cells i j (wrap (cell_at c.cells i + call.amount)) (inside call.key i own) in
    elim (Bool-cases (bytes_eq call.key k)) [
      | inl same ↦
          let name = (bytes_eq_iff call.key k).0 same in
          let kept : cell_at c.cells i ≡ wrap (weigh (given k) calls) = cc (counts k, name, own) in
          let sum : weigh (given k) (moved calls n call done)
              ≡ weigh (given k) calls + call.amount =
            ground (arith, moves, same, ap is_done is) in
          let here_now = write i in
          let total = wrap-add (weigh (given k) calls) call.amount in
          let again : (i == i) ≡ true = ground arith in
          cc (here_now, kept, sum, name, own, total, again)
      | inr other ↦
          let sum : weigh (given k) (moved calls n call done) ≡ weigh (given k) calls =
            ground (arith, moves, other) in
          elim (Option-cases (lookup k c.values)) [
            | inl without ↦ cc (counts k, sum, without)
            | inr (j, at) ↦ elim (Bool-cases (i == j)) [
              | inl shared ↦
                  let cell : i ≡ j = ground arith in
                  let key : call.key ≡ k = apart call.key k i own (cc (at, cell)) in
                  absurd (ground (arith, key, bytes_eq_iff call.key k))
              | inr separate ↦ cc (counts k, sum, at, write j, separate)
            ]
          ]
    ]
