-- ===== src/Ingest/Cache.antt =====
-- internal/ingest/cache.go: the endpoint cache. The clock is an argument of each operation; the
-- mutex makes each one atomic. `resolve` holds no lock while it asks the database, so its `get` and
-- its `put` are two events, and other goroutines' events may fall between them.
pub mod Bounds
pub mod Staleness
use hooklens.Base.{
  ℕ, ◌+◌, ◌*◌, Bool, true, false, Option, none, some, List, [], ◌∷◌, Bytes, bytes_key, Map, lookup,
  insert, delete, retain, count_failing, length, ltb, leb, ◌==◌, if◌then◌else◌,
}
use hooklens.Store.{Endpoint, Answer, found, not_found, failure}

-- In nanoseconds.
abbrev pub second : ℕ
second = 1000000000

abbrev pub endpoint_ttl : ℕ
endpoint_ttl = 5 * second

abbrev pub negative_ttl : ℕ
negative_ttl = second

abbrev pub max_endpoint_entries : ℕ
max_endpoint_entries = 10000

-- `none` is a cached "no such inbox".
pub record CacheEntry : Type 0 where
  pub ep : Option Endpoint
  pub expires : ℕ

abbrev pub EndpointCache : Type 0
EndpointCache = Map Bytes CacheEntry

abbrev pub new : EndpointCache
new = []

-- `now.Before(e.expires)`.
abbrev pub fresh : ℕ → CacheEntry → Bool
fresh now e = ltb now e.expires

unfoldable pub get_entry :
    Bytes → ℕ → EndpointCache → Option CacheEntry → Option (Option Endpoint) × EndpointCache
get_entry slug now c none = (none, c)
get_entry slug now c (some e) = if fresh now e then (some e.ep, c) else (none, delete slug c)

-- The outer `none` is a miss, the inner one a hit on "no such inbox".
unfoldable pub get : Bytes → ℕ → EndpointCache → Option (Option Endpoint) × EndpointCache
get slug now c = get_entry slug now c (lookup slug c)

unfoldable pub ttl : Option Endpoint → ℕ
ttl none = negative_ttl
ttl (some ep) = endpoint_ttl

unfoldable pub evict_expired : ℕ → EndpointCache → ℕ × EndpointCache
evict_expired now c = (count_failing (fresh now) c, retain (fresh now) c)

abbrev pub entry_of : Option Endpoint → ℕ → CacheEntry
entry_of ep now = record { ep = ep; expires = now + ttl ep }

unfoldable pub admit : Bytes → Option Endpoint → ℕ → EndpointCache → EndpointCache
admit slug ep now c = insert slug (entry_of ep now) c

-- `put` when the map is full.
unfoldable pub put_full : Bytes → Option Endpoint → ℕ → EndpointCache → EndpointCache
put_full slug ep now c =
    let (n, rest) = evict_expired now c in if n == 0 then rest else admit slug ep now rest

unfoldable pub put : Bytes → Option Endpoint → ℕ → EndpointCache → EndpointCache
put slug ep now c =
    if leb max_endpoint_entries (length c) then put_full slug ep now c else admit slug ep now c

unfoldable pub forget : Bytes → EndpointCache → EndpointCache
forget slug c = delete slug c

-- What `resolve` does with the database's answer: `not_found` is cached, an error is not.
unfoldable pub settle : Bytes → Answer → ℕ → EndpointCache → Answer × EndpointCache
settle slug (found ep) now c = (found ep, put slug (some ep) now c)
settle slug not_found now c = (not_found, put slug none now c)
settle slug failure now c = (failure, c)

abbrev pub cached : Option Endpoint → Answer
cached none = not_found
cached (some ep) = found ep

-- One `resolve` that nothing falls into. The database is asked on a miss; its answer comes at the
-- later instant.
unfoldable pub resolve_miss :
    Bytes → ℕ → Answer → EndpointCache → Option (Option Endpoint) → Answer × EndpointCache
resolve_miss slug later answer c none = settle slug answer later c
resolve_miss slug later answer c (some ep) = (cached ep, c)

unfoldable pub resolve : Bytes → ℕ → ℕ → Answer → EndpointCache → Answer × EndpointCache
resolve slug now later answer c =
    let (hit, kept) = get slug now c in resolve_miss slug later answer kept hit

-- The events of all goroutines on the one cache, each with its instant.
pub data Event : Type 0 where
  gets : Bytes → ℕ → Event
  puts : Bytes → Option Endpoint → ℕ → Event
  forgets : Bytes → ℕ → Event
  evicts : ℕ → Event

unfoldable pub step : Event → EndpointCache → EndpointCache
step (gets slug now) c = (get slug now c).1
step (puts slug ep now) c = put slug ep now c
step (forgets slug now) c = forget slug c
step (evicts now) c = (evict_expired now c).1

-- The cache after a history, whose newest event comes first.
unfoldable pub run : List Event → EndpointCache
run [] = new
run (e ∷ earlier) = step e (run earlier)
