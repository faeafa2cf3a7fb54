-- ===== src/Ingest/Tests.antt =====
-- Runs of the endpoint cache.
use hooklens.Base.{
  ◌+◌, ◌<◌, ◌≡◌, ◌≢◌, ◌⊎◌, refl, none, some, List, [], ◌∷◌, codes, bytes_key, bytes_eq, lookup,
  insert, delete, arith, retain, count_failing, bytes_eq_iff,
}
use hooklens.Store.{Endpoint, failure}
use hooklens.Ingest.Cache.{
  CacheEntry, EndpointCache, Event, gets, puts, forgets, evicts, entry_of, get_entry, get, ttl,
  evict_expired, admit, put_full, put, forget, step, run, settle, resolve_miss, resolve, cached,
}
use hooklens.Ingest.Cache.Bounds.{Inv, run_history-Inv}
use hooklens.Ingest.Cache.Staleness.{Sourced, resolve_explained}

program : Unit {0}
unfolding lookup insert delete bytes_eq get_entry get ttl evict_expired admit put_full put forget
    step run settle resolve_miss resolve retain count_failing
program = tt

abbrev shop : Endpoint
shop = record {
  id = codes "7";
  slug = codes "shop";
  name = [];
  created_at = 3;
  last_seen_at = none;
}

abbrev history : List Event
history =
    gets (codes "shop") 9000000000
    ∷ puts (codes "scan") none 8000000000
    ∷ forgets (codes "old") 7000000000
    ∷ puts (codes "shop") (some shop) 6000000000
    ∷ evicts 5000000000
    ∷ []

abbrev shop_cache : EndpointCache
shop_cache = (codes "shop", entry_of (some shop) 6000000000) ∷ []

run_history-Inv_example : Inv (run history)
run_history-Inv_example = run_history-Inv history

get-stale : get (codes "scan") 9000000000 (run history) ≡ (none, shop_cache)
unfolding program
get-stale = refl

get-hit : (get (codes "shop") 9000000000 (run history)).0 ≡ some (some shop)
unfolding program
get-hit = refl

scan-shop : codes "scan" ≢ codes "shop"
unfolding bytes_eq
scan-shop = ground (arith, bytes_eq_iff (codes "scan") (codes "shop"))

shop_cache-Inv : Inv shop_cache
unfolding lookup
shop_cache-Inv = ((refl, tt), omega arith)

shop_there : lookup (codes "shop") shop_cache ≡ some (entry_of (some shop) 6000000000)
unfolding program
shop_there = refl

shop_live : 8000000000 < 6000000000 + ttl (some shop)
unfolding program
shop_live = omega arith

resolve_explained_example :
    ((resolve (codes "shop") 10000000000 11000000000 failure (run history)).0 ≡ failure)
    ⊎ ((e : CacheEntry) × Sourced (codes "shop") e history
        × (10000000000 < e.expires)
        × ((resolve (codes "shop") 10000000000 11000000000 failure (run history)).0 ≡ cached e.ep))
resolve_explained_example = resolve_explained history (codes "shop") 10000000000 11000000000 failure

scan_live : 8500000000 < 8000000000 + ttl none
unfolding program
scan_live = omega arith
