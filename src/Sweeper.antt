-- ===== src/Sweeper.antt =====
-- internal/sweeper/sweeper.go: one tick of the retention sweep. Log lines and the recovery of a panic
-- are left out; the ticker calls `sweep_once` until its context ends.
pub mod Drained
mod Tests
use hooklens.Base.{ℕ, zero, suc, ◌+◌, ◌*◌, List, [], ◌∷◌, ltb, ◌==◌, if◌then◌else◌}
use hooklens.Store.Retention.{Tables, delete_expired}

abbrev pub default_interval : ℕ
default_interval = 300 * 1000000000

abbrev pub default_batch : ℕ
default_batch = 1000

abbrev pub max_batches_per_tick : ℕ
max_batches_per_tick = 20

pub record Sweeper : Type 0 where
  pub interval : ℕ
  pub batch : ℕ

-- A 0 stands for a number that is not positive.
unfoldable pub new : ℕ → ℕ → Sweeper
new interval batch = record {
  interval = if interval == 0 then default_interval else interval;
  batch = if batch == 0 then default_batch else batch;
}

-- What one round of the loop meets: a context that has ended, an error of the database, or the
-- database at an instant.
pub data Round : Type 0 where
  canceled db_fails : Round
  runs : ℕ → Round

-- The rounds that may still come, the number deleted so far, and the tables.
unfoldable pub sweep_loop : Sweeper → ℕ → List Round → ℕ → Tables → ℕ × Tables
sweep_loop s zero rounds total t = (total, t)
sweep_loop s (suc k) [] total t = (total, t)
sweep_loop s (suc k) (canceled ∷ rounds) total t = (total, t)
sweep_loop s (suc k) (db_fails ∷ rounds) total t = (total, t)
sweep_loop s (suc k) (runs now ∷ rounds) total t =
    let deleted = delete_expired now s.batch t in
    let rest = sweep_loop s k rounds (total + deleted.0) deleted.1 in
    if ltb deleted.0 s.batch then (total + deleted.0, deleted.1) else rest

-- `sweepOnce`: the call on the tick, which evicts elsewhere, and the batches.
unfoldable pub sweep_once {ℓ} :
    {A : Type ℓ} → Sweeper → (A → A) → List Round → A → Tables → A × (ℕ × Tables)
sweep_once s on_tick rounds a t = (on_tick a, sweep_loop s max_batches_per_tick rounds 0 t)
