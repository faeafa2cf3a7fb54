-- ===== src/Sweeper/Tests.antt =====
-- A few writes to the tables, and a sweep over what they leave.
use hooklens.Base.{
  ℕ, ◌*◌, ◌≤◌, ◌≡◌, refl, true, false, none, List, [], ◌∷◌, codes, bytes_eq, length, replicate,
  arith,
}
use hooklens.Capture.{Request}
use hooklens.Store.{Endpoint}
use hooklens.Store.Access.{find_inbox}
use hooklens.Store.Retention.{
  hour, expiry_of, inserted, insert_request, with_hours, reprojected, set_retention, touched,
  touch_endpoint, delete_endpoint, insert_endpoint, insert_expiry, by_expiry, picked, delete_picked,
  delete_expired,
}
use hooklens.Store.Retention.Expiry.{
  Write, insert, retain, create, attempt, settled, run_writes, Projected, run_writes-Projected,
}
use hooklens.Store.Retention.Batches.{distinct_rows}
use hooklens.Sweeper.{Sweeper, new, runs, canceled, sweep_loop, sweep_once}
use hooklens.Sweeper.Drained.{Swept, sweep_drains}

program : Unit {0}
unfolding bytes_eq replicate find_inbox expiry_of inserted insert_request with_hours reprojected
    set_retention touched touch_endpoint delete_endpoint insert_endpoint insert_expiry by_expiry
    picked delete_picked delete_expired attempt settled run_writes distinct_rows new sweep_loop
    sweep_once
program = tt

abbrev posted : ℕ → Request
posted at = record {
  method = codes "POST";
  path = codes "/";
  query = [];
  headers = [];
  body = [];
  truncated = false;
  declared_size = none;
  source_ip = none;
  received_at = at;
}

abbrev endpoint : Endpoint
endpoint = record {
  id = codes "e";
  slug = codes "a7f3";
  name = [];
  created_at = 0;
  last_seen_at = none;
}

-- The latest first. The insertion for an unknown inbox and the retention of no hours fail.
abbrev writes : List Write
writes =
    retain true true true (codes "e") 0
    ∷ insert (codes "d") (codes "f") (posted 1)
    ∷ insert (codes "c") (codes "e") (posted (5 * hour))
    ∷ retain true true true (codes "e") 2
    ∷ insert (codes "b") (codes "e") (posted 3)
    ∷ insert (codes "a") (codes "e") (posted 2)
    ∷ create endpoint (codes "k")
    ∷ []

run_writes-Projected_example : Projected (run_writes writes)
run_writes-Projected_example = run_writes-Projected writes

three_rows : length (run_writes writes).rows ≡ 3
unfolding program
three_rows = refl

abbrev sweeper : Sweeper
sweeper = new 0 1

positive_batch : 1 ≤ sweeper.batch
unfolding program
positive_batch = omega arith

writes-distinct : distinct_rows (run_writes writes).rows ≡ true
unfolding program
writes-distinct = refl

abbrev idle : ℕ → ℕ
idle n = 0

sweep_drains_example :
    Swept
      (3 * hour)
      (20 * sweeper.batch)
      0
      (run_writes writes)
      (sweep_once sweeper idle (replicate 20 (runs (3 * hour))) 0 (run_writes writes)).1
sweep_drains_example =
    sweep_drains sweeper (3 * hour) positive_batch idle 0 (run_writes writes) writes-distinct

two_deleted :
    (sweep_once sweeper idle (replicate 20 (runs (3 * hour))) 0 (run_writes writes)).1.0 ≡ 2
unfolding program
two_deleted = refl

canceled_early :
    (sweep_once sweeper idle (runs (3 * hour) ∷ canceled ∷ []) 0 (run_writes writes)).1.0 ≡ 1
unfolding program
canceled_early = refl
