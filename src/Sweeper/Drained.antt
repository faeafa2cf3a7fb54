-- ===== src/Sweeper/Drained.antt =====
-- internal/sweeper/sweeper.go: how much a tick deletes.
use hooklens.Base.{
  ℕ, zero, suc, ◌+◌, ◌*◌, ◌≤◌, ◌≡◌, ◌∙◌, refl, Bool, true, false, not, List, length, keep, min, ltb,
  if◌then◌else◌, arith, replicate,
}
use hooklens.Store.Retention.{Row, Tables, expired, delete_expired}
use hooklens.Store.Retention.Batches.{distinct_rows}
use hooklens.Store.Retention.Deletions.{
  delete_expired-kept, delete_expired-distinct, delete_expired-count, delete_expired-split,
  batch_size,
}
use hooklens.Sweeper.{Sweeper, runs, sweep_loop, sweep_once}

abbrev pub live : ℕ → Tables → List Row
live now t = keep (λ r. not (expired now r)) t.rows

abbrev pub backlog : ℕ → Tables → ℕ
backlog now t = length (keep (expired now) t.rows)

-- What a sweep that may delete so many rows comes to: it has added to the total the number of the
-- expired, or its most if they are more, and has deleted so many of them and no live row.
abbrev pub Swept : ℕ → ℕ → ℕ → Tables → ℕ × Tables → Type 0
Swept now most total t u =
    (u.0 ≡ total + min most (backlog now t))
    × (live now u.1 ≡ live now t)
    × (backlog now u.1 + min most (backlog now t) ≡ backlog now t)

if-Swept :
    (b : Bool) (now most total : ℕ) (t : Tables) (x y : ℕ × Tables)
    → (b ≡ true → Swept now most total t x)
    → (b ≡ false → Swept now most total t y)
    → Swept now most total t (if b then x else y)
if-Swept true now most total t x y h k = h refl
if-Swept false now most total t x y h k = k refl

module _ (s : Sweeper) (now : ℕ) (one : 1 ≤ s.batch) where
  same_size : batch_size s.batch ≡ s.batch
  same_size = ground arith

  loop_drains :
      (k total : ℕ) (t : Tables)
      → distinct_rows t.rows ≡ true
      → Swept now (k * s.batch) total t (sweep_loop s k (replicate k (runs now)) total t)
  unfolding sweep_loop replicate
  loop_drains zero total t ids = (omega arith, refl, omega arith)
  loop_drains (suc k) total t ids =
      let d = delete_expired now s.batch t in
      let ih = loop_drains k (total + d.0) d.1 (delete_expired-distinct now s.batch t ids) in
      let count = delete_expired-count now s.batch t ids in
      let kept = delete_expired-kept now s.batch t ids in
      let split = delete_expired-split now s.batch t ids in
      if-Swept (ltb d.0 s.batch) now (suc k * s.batch) total t (total + d.0, d.1) _
        (λ fewer. (
          ground (arith, fewer, same_size, count),
          kept,
          ground (arith, fewer, same_size, count, split),
        ))
        (λ full. (
          ground (arith, full, same_size, count, split, ih.0),
          ih.1 ∙ kept,
          ground (arith, full, same_size, count, split, ih.2),
        ))

  -- A tick in whose rounds nothing fails deletes every capture that has expired at its instant, or
  -- 20 batches of them if they are more, no capture that has not expired, and reports how many it
  -- deleted. The batch is not empty, no two captures have one id, and the clock stands still.
  pub sweep_drains {ℓ} :
      {A : Type ℓ} (on_tick : A → A) (a : A) (t : Tables)
      → distinct_rows t.rows ≡ true
      → Swept now (20 * s.batch) 0 t (sweep_once s on_tick (replicate 20 (runs now)) a t).1
  unfolding sweep_once
  sweep_drains on_tick a t ids = loop_drains 20 0 t ids
