-- ===== src/Ingest/Handler/Touches.antt =====
-- internal/ingest/ingest.go (`shouldTouch`, `EvictTouched`): how often last_seen_at is written.
use hooklens.Base.{
  ℕ, ◌+◌, ◌*◌, ◌≤◌, ◌≡◌, max, refl, true, ◌&&◌, Option, none, some, List, [], ◌∷◌, Bytes, bytes_eq,
  bytes_eq_iff, bytes_key, Map, lookup, if◌then◌else◌, lookup-insert, arith,
}
use hooklens.Ingest.Handler.{touch_interval, should_touch}

-- How often an inbox is touched in a run of captures.
unfoldable pub touches : Bytes → List (Bytes × ℕ) → Map Bytes ℕ → ℕ
touches id [] m = 0
touches id ((other, now) ∷ rest) m =
    let (due, m') = should_touch other now m in
    (if bytes_eq other id && due then 1 else 0) + touches id rest m'

-- The instants do not go back, and none is outside the interval.
unfoldable pub Ordered : ℕ → List (Bytes × ℕ) → ℕ → Type 0
Ordered start [] finish = start ≤ finish
Ordered start ((id, now) ∷ rest) finish = (start ≤ now) × Ordered now rest finish

-- The instant from which the next touch is due.
unfoldable pub due_at : Option ℕ → ℕ
due_at none = 0
due_at (some at) = at + touch_interval

touch-lookup :
    (id other : Bytes) (now : ℕ) (m : Map Bytes ℕ)
    → lookup id (should_touch other now m).1
      ≡ (if bytes_eq other id && (should_touch other now m).0 then some now else lookup id m)
unfolding should_touch
touch-lookup id other now m = ground (arith, lookup-insert other id now m)

touch-due :
    (id : Bytes) (now : ℕ) (m : Map Bytes ℕ)
    → (should_touch id now m).0 ≡ true
    → due_at (lookup id m) ≤ now
unfolding should_touch due_at
touch-due id now m = ground arith

Ordered-le :
    (start : ℕ) (calls : List (Bytes × ℕ)) (finish : ℕ)
    → Ordered start calls finish
    → start ≤ finish
unfolding Ordered
Ordered-le start [] finish h = h
Ordered-le start ((id, now) ∷ rest) finish h = omega (arith, h.0, Ordered-le now rest finish h.1)

due_at-some : (now : ℕ) → due_at (some now) ≡ now + touch_interval
unfolding due_at
due_at-some now = refl

paced :
    (id : Bytes) (start finish : ℕ) (calls : List (Bytes × ℕ)) (m : Map Bytes ℕ)
    → Ordered start calls finish
    → touches id calls m * touch_interval + max start (due_at (lookup id m))
      ≤ max (finish + touch_interval) (max start (due_at (lookup id m)))
unfolding touches Ordered
paced id start finish [] m h = omega arith
paced id start finish ((other, now) ∷ rest) m h = ground (
  arith,
  paced id now finish rest (should_touch other now m).1 h.1,
  touch-lookup id other now m,
  touch-due id now m,
  due_at-some now,
  bytes_eq_iff other id,
  Ordered-le now rest finish h.1,
)

-- However many captures an inbox gets, its last_seen_at is written at most once a minute, and once
-- more at the start.
touches_spaced :
    (id : Bytes) (start finish : ℕ) (calls : List (Bytes × ℕ)) (m : Map Bytes ℕ)
    → Ordered start calls finish
    → touches id calls m * touch_interval + start ≤ finish + touch_interval
touches_spaced id start finish calls m h =
    omega (arith, paced id start finish calls m h, Ordered-le start calls finish h)
