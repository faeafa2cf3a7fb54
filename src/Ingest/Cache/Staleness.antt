-- ===== src/Ingest/Cache/Staleness.antt =====
-- internal/ingest/cache.go: how old an answer from the cache can be.
use hooklens.Base.{
  ℕ, ◌+◌, ◌<◌, ◌≡◌, ◌≢◌, ◌⊎◌, inl, inr, refl, Option, none, some, List, [], ◌∷◌, Bytes, bytes_key,
  lookup, retain, passing, length, Distinct, lookup-insert, lookup-delete, lookup-retain,
  bytes_eq_iff, arith, Bool-cases, beq_refl,
}
use hooklens.Store.{Endpoint, Answer, found, not_found, failure}
use hooklens.Ingest.Cache.{
  CacheEntry, EndpointCache, Event, gets, puts, forgets, evicts, max_endpoint_entries, fresh,
  entry_of, get_entry, get, ttl, evict_expired, admit, put_full, put, forget, step, run, cached,
  settle, resolve_miss, resolve,
}
use hooklens.Ingest.Cache.Bounds.{run_history-Inv}

-- The entry comes from a `put` of the history, and the slug was not forgotten after it.
pub Sourced : Bytes → CacheEntry → List Event → Type 0
Sourced slug e [] = ⊥
Sourced slug e (gets other now ∷ earlier) = Sourced slug e earlier
Sourced slug e (puts other ep now ∷ earlier) =
    ((other ≡ slug) × (e ≡ entry_of ep now)) ⊎ Sourced slug e earlier
Sourced slug e (forgets other now ∷ earlier) = (other ≢ slug) × Sourced slug e earlier
Sourced slug e (evicts now ∷ earlier) = Sourced slug e earlier

lookup-put :
    (slug other : Bytes) (ep : Option Endpoint) (now : ℕ) (c : EndpointCache) (e : CacheEntry)
    → Distinct c
    → lookup other (put slug ep now c) ≡ some e
    → ((slug ≡ other) × (e ≡ entry_of ep now)) ⊎ (lookup other c ≡ some e)
unfolding put put_full evict_expired admit passing
lookup-put slug other ep now c e d = ground (
  arith,
  lookup-insert slug other (entry_of ep now) c,
  lookup-insert slug other (entry_of ep now) (retain (fresh now) c),
  lookup-retain (fresh now) other c d,
  bytes_eq_iff slug other,
)

lookup-get_entry :
    (slug other : Bytes) (now : ℕ) (c : EndpointCache) (o : Option CacheEntry) (e : CacheEntry)
    → lookup other (get_entry slug now c o).1 ≡ some e
    → lookup other c ≡ some e
unfolding get_entry
lookup-get_entry slug other now c none e h = h
lookup-get_entry slug other now c (some old) e h = ground (arith, lookup-delete slug other c)

lookup-get :
    (slug other : Bytes) (now : ℕ) (c : EndpointCache) (e : CacheEntry)
    → lookup other (get slug now c).1 ≡ some e
    → lookup other c ≡ some e
unfolding get
lookup-get slug other now c e h = lookup-get_entry slug other now c (lookup slug c) e h

lookup-evict :
    (other : Bytes) (now : ℕ) (c : EndpointCache) (e : CacheEntry)
    → Distinct c
    → lookup other (evict_expired now c).1 ≡ some e
    → lookup other c ≡ some e
unfolding evict_expired passing
lookup-evict other now c e d = ground (arith, lookup-retain (fresh now) other c d)

lookup-forget :
    (slug other : Bytes) (now : ℕ) (c : EndpointCache) (e : CacheEntry)
    → lookup other (forget slug c) ≡ some e
    → (slug ≢ other) × (lookup other c ≡ some e)
unfolding forget
lookup-forget slug other now c e =
    ground (arith, lookup-delete slug other c, bytes_eq_iff slug other)

sourced :
    (slug : Bytes) (e : CacheEntry) (history : List Event)
    → lookup slug (run history) ≡ some e
    → Sourced slug e history
unfolding Sourced run step lookup
sourced slug e [] h = ground arith
sourced slug e (gets other now ∷ earlier) h =
    sourced slug e earlier (lookup-get other slug now (run earlier) e h)
sourced slug e (puts other ep now ∷ earlier) h =
    elim (lookup-put other slug ep now (run earlier) e (run_history-Inv earlier).0 h) [
      | inl here ↦ inl here
      | inr before ↦ inr (sourced slug e earlier before)
    ]
sourced slug e (forgets other now ∷ earlier) h =
    let there = lookup-forget other slug now (run earlier) e h in
    (there.0, sourced slug e earlier there.1)
sourced slug e (evicts now ∷ earlier) h =
    sourced slug e earlier (lookup-evict slug now (run earlier) e (run_history-Inv earlier).0 h)

settle-answer :
    (slug : Bytes) (answer : Answer) (later : ℕ) (c : EndpointCache)
    → (settle slug answer later c).0 ≡ answer
unfolding settle
settle-answer slug (found ep) later c = refl
settle-answer slug not_found later c = refl
settle-answer slug failure later c = refl

get_entry-hit :
    (slug : Bytes) (now : ℕ) (c : EndpointCache) (o : Option CacheEntry)
    → ((get_entry slug now c o).0 ≡ none)
      ⊎ ((e : CacheEntry) × (o ≡ some e)
          × (now < e.expires)
          × ((get_entry slug now c o).0 ≡ some e.ep))
unfolding get_entry
get_entry-hit slug now c none = inl refl
get_entry-hit slug now c (some e) = elim (Bool-cases (fresh now e)) [
  | inl live ↦ inr (e, refl, ground arith, ground arith)
  | inr stale ↦ inl (ground arith)
]

resolve_miss-answer :
    (slug : Bytes) (later : ℕ) (answer : Answer) (c : EndpointCache)
    (hit : Option (Option Endpoint))
    → ((hit ≡ none) → (resolve_miss slug later answer c hit).0 ≡ answer)
      × ((v : Option Endpoint) → hit ≡ some v → (resolve_miss slug later answer c hit).0 ≡ cached v)
unfolding resolve_miss
resolve_miss-answer slug later answer c none = (λ _. settle-answer slug answer later c, λ v h. cc)
resolve_miss-answer slug later answer c (some ep) = (λ h. cc, λ v h. cc)

-- However the events of the other goroutines interleave before it, `resolve` returns what the
-- database answers this time, an error included, or what an entry says that some `put` stored less
-- than its time to live ago and that no `forget` of the slug has followed.
pub resolve_explained :
    (history : List Event) (slug : Bytes) (now later : ℕ) (answer : Answer)
    → ((resolve slug now later answer (run history)).0 ≡ answer)
      ⊎ ((e : CacheEntry) × Sourced slug e history
          × (now < e.expires)
          × ((resolve slug now later answer (run history)).0 ≡ cached e.ep))
unfolding resolve get
resolve_explained history slug now later answer =
    let c = run history in
    let asked = get slug now c in
    let outcome = resolve_miss-answer slug later answer asked.1 asked.0 in
    elim (get_entry-hit slug now c (lookup slug c)) [
      | inl miss ↦ inl (outcome.0 miss)
      | inr (e, there, live, hit) ↦ inr (e, sourced slug e history there, live, outcome.1 e.ep hit)
    ]

lookup-put_room :
    (slug : Bytes) (ep : Option Endpoint) (now : ℕ) (c : EndpointCache)
    → length c < max_endpoint_entries
    → lookup slug (put slug ep now c) ≡ some (entry_of ep now)
unfolding put admit
lookup-put_room slug ep now c room =
    ground (arith, lookup-insert slug slug (entry_of ep now) c, beq_refl slug)

resolve-fresh :
    (slug : Bytes) (now later : ℕ) (answer : Answer) (c : EndpointCache) (e : CacheEntry)
    → lookup slug c ≡ some e
    → now < e.expires
    → resolve slug now later answer c ≡ (cached e.ep, c)
unfolding resolve get get_entry resolve_miss
resolve-fresh slug now later answer c e there live = ground arith

-- While there is room, an answer of the database that is not an error is given again, and the
-- database is not asked, for one second after it came when it was "no such inbox" and for five
-- when it was an inbox.
resolve_again :
    (slug : Bytes) (ep : Option Endpoint) (first now later : ℕ) (other : Answer) (c : EndpointCache)
    → length c < max_endpoint_entries
    → now < first + ttl ep
    → resolve slug now later other (settle slug (cached ep) first c).1
      ≡ settle slug (cached ep) first c
unfolding settle
resolve_again slug none first now later other c room soon =
    resolve-fresh slug now later other (put slug none first c) (entry_of none first)
      (lookup-put_room slug none first c room) soon
resolve_again slug (some ep) first now later other c room soon =
    resolve-fresh slug now later other (put slug (some ep) first c) (entry_of (some ep) first)
      (lookup-put_room slug (some ep) first c room) soon
