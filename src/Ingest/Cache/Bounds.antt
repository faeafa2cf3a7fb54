-- ===== src/Ingest/Cache/Bounds.antt =====
-- internal/ingest/cache.go: how large the map can grow, and what a full one does.
use hooklens.Base.{
  ℕ, ◌≤◌, ◌<◌, ◌≡◌, ◌≢◌, Option, none, some, List, [], ◌∷◌, Bytes, bytes_key, lookup, delete,
  retain, passing, length, Distinct, lookup-insert, length-delete-le, length-insert-le,
  insert-Distinct, delete-Distinct, beq_of_ne, retain-count, lookup-retain, retain-Distinct, arith,
}
use hooklens.Store.{Endpoint}
use hooklens.Ingest.Cache.{
  CacheEntry, entry_of, EndpointCache, Event, gets, puts, forgets, evicts, max_endpoint_entries,
  fresh, get_entry, get, evict_expired, admit, put_full, put, forget, step, run,
}

-- Every slug has one entry, and there are no more entries than the cap.
abbrev pub Inv : EndpointCache → Type 0
Inv c = Distinct c × (length c ≤ max_endpoint_entries)

evict-Inv : (now : ℕ) (c : EndpointCache) → Inv c → Inv (evict_expired now c).1
unfolding evict_expired
evict-Inv now c inv =
    (retain-Distinct (fresh now) c inv.0, omega (arith, inv.1, retain-count (fresh now) c))

admit-Inv :
    (slug : Bytes) (ep : Option Endpoint) (now : ℕ) (c : EndpointCache)
    → Distinct c
    → length c < max_endpoint_entries
    → Inv (admit slug ep now c)
unfolding admit
admit-Inv slug ep now c d room = (
  insert-Distinct slug (entry_of ep now) c d,
  omega (arith, room, length-insert-le slug (entry_of ep now) c),
)

put-Inv :
    (slug : Bytes) (ep : Option Endpoint) (now : ℕ) (c : EndpointCache)
    → Inv c
    → Inv (put slug ep now c)
unfolding put put_full evict_expired
put-Inv slug ep now c inv = ground (
  arith,
  admit-Inv slug ep now c inv.0,
  admit-Inv slug ep now (retain (fresh now) c) (retain-Distinct (fresh now) c inv.0),
  retain-count (fresh now) c,
  retain-Distinct (fresh now) c inv.0,
)

delete-Inv : (slug : Bytes) (c : EndpointCache) → Inv c → Inv (delete slug c)
delete-Inv slug c inv =
    (delete-Distinct slug c inv.0, omega (arith, inv.1, length-delete-le slug c))

get_entry-Inv :
    (slug : Bytes) (now : ℕ) (c : EndpointCache) (o : Option CacheEntry)
    → Inv c
    → Inv (get_entry slug now c o).1
unfolding get_entry
get_entry-Inv slug now c none inv = inv
get_entry-Inv slug now c (some e) inv = ground (arith, delete-Inv slug c inv)

get-Inv : (slug : Bytes) (now : ℕ) (c : EndpointCache) → Inv c → Inv (get slug now c).1
unfolding get
get-Inv slug now c inv = get_entry-Inv slug now c (lookup slug c) inv

-- However the goroutines' events interleave, and whatever the clock reads at each, the map never
-- holds more than 10,000 entries, and never two for one slug.
pub run_history-Inv : (history : List Event) → Inv (run history)
unfolding run step forget
run_history-Inv [] = (tt, omega arith)
run_history-Inv (gets slug now ∷ earlier) = get-Inv slug now (run earlier) (run_history-Inv earlier)
run_history-Inv (puts slug ep now ∷ earlier) =
    put-Inv slug ep now (run earlier) (run_history-Inv earlier)
run_history-Inv (forgets slug now ∷ earlier) =
    delete-Inv slug (run earlier) (run_history-Inv earlier)
run_history-Inv (evicts now ∷ earlier) = evict-Inv now (run earlier) (run_history-Inv earlier)

-- No put evicts a live entry of another slug, whether the map is full or not: a scan of made-up
-- names cannot push an inbox out.
live_kept :
    (slug other : Bytes) (ep : Option Endpoint) (now : ℕ) (c : EndpointCache) (e : CacheEntry)
    → Inv c
    → slug ≢ other
    → lookup other c ≡ some e
    → now < e.expires
    → lookup other (put slug ep now c) ≡ some e
unfolding put put_full evict_expired admit passing
live_kept slug other ep now c e inv differ there live = ground (
  arith,
  lookup-insert slug other (entry_of ep now) c,
  lookup-insert slug other (entry_of ep now) (retain (fresh now) c),
  lookup-retain (fresh now) other c inv.0,
  beq_of_ne slug other differ,
)
