-- ===== src/Tunnel/Hub.antt =====
-- internal/tunnel/hub.go (`Hub`): the registry of tunnels, one for each inbox. A client is a pointer,
-- so it is a number. `Server.Handle` of internal/tunnel/server.go registers a client, closes the
-- one that it displaces, and unregisters its own client on the way out.
use hooklens.Base.{
  ℕ, ◌≡◌, refl, Bool, true, false, Option, none, some, List, [], ◌∷◌, Bytes, bytes_eq, bytes_eq_iff,
  bytes_key, Map, lookup, insert, delete, lookup-insert, lookup-delete, ◌==◌, arith, if◌then◌else◌,
  any_of, Option-cases, inl, inr,
}

pub record Hub : Type 0 where
  pub clients : Map Bytes ℕ

unfoldable pub new : Hub
new = record { clients = [] }

-- `Forward` up to the call of `send`: the client that takes the request, or `ErrNoTunnel`.
unfoldable pub target : Hub → Bytes → Option ℕ
target h ep = lookup ep h.clients

unfoldable pub connected : Hub → Bytes → Bool
connected h ep = elim (lookup ep h.clients) [ none ↦ false | some _ ↦ true ]

-- The new registry, and the client that was displaced.
unfoldable pub register : Bytes → ℕ → Hub → Hub × Option ℕ
register ep c h = (record { clients = insert ep c h.clients }, lookup ep h.clients)

abbrev holds : Hub → Bytes → ℕ → Bool
holds h ep c = elim (lookup ep h.clients) [ none ↦ false | some d ↦ d == c ]

unfoldable pub unregister : Bytes → ℕ → Hub → Hub
unregister ep c h = if holds h ep c then record { clients = delete ep h.clients } else h

pub data Event : Type 0 where
  connects exits : Bytes → ℕ → Event

-- The registry after the events, the latest one first.
unfoldable pub replay : List Event → Hub
replay [] = new
replay (connects ep c ∷ es) = (register ep c (replay es)).0
replay (exits ep c ∷ es) = unregister ep c (replay es)

-- The client of the latest connection of an inbox, unless it has left since. `gone` are the clients
-- that left the inbox later than the events.
unfoldable pub newest : Bytes → List ℕ → List Event → Option ℕ
newest ep gone [] = none
newest ep gone (connects ep' c ∷ es) =
    let rest = newest ep gone es in
    if bytes_eq ep' ep then (if any_of (λ d. c == d) gone then none else some c) else rest
newest ep gone (exits ep' c ∷ es) = newest ep (if bytes_eq ep' ep then c ∷ gone else gone) es

-- A client, unless it is among those that left.
abbrev staying : List ℕ → Option ℕ → Option ℕ
staying gone none = none
staying gone (some c) = if any_of (λ d. c == d) gone then none else some c

staying-lookup :
    (ep : Bytes) (gone : List ℕ) (es : List Event)
    → newest ep gone es ≡ staying gone (lookup ep (replay es).clients)
unfolding newest replay register unregister new lookup
staying-lookup ep gone [] = refl
staying-lookup ep gone (connects ep' c ∷ es) =
    ground (arith, lookup-insert ep' ep c (replay es).clients, staying-lookup ep gone es)
staying-lookup ep gone (exits ep' c ∷ es) = elim (Option-cases (lookup ep (replay es).clients)) [
  | inl e ↦ ground (
    arith,
    bytes_eq_iff ep' ep,
    lookup-delete ep' ep (replay es).clients,
    staying-lookup ep gone es,
    staying-lookup ep (c ∷ gone) es,
  )
  | inr (d, e) ↦ ground (
    arith,
    bytes_eq_iff ep' ep,
    lookup-delete ep' ep (replay es).clients,
    staying-lookup ep gone es,
    staying-lookup ep (c ∷ gone) es,
  )
]

-- After any history of connections and exits, in any order, a forward for an inbox goes to the
-- client that connected last for it, unless that one has left since: then there is no tunnel. The
-- exit of a displaced client removes nothing.
pub target-newest : (ep : Bytes) (es : List Event) → target (replay es) ep ≡ newest ep [] es
unfolding target
target-newest ep es = elim (Option-cases (lookup ep (replay es).clients)) [
  | inl e ↦ ground (arith, staying-lookup ep [] es)
  | inr (d, e) ↦ ground (arith, staying-lookup ep [] es)
]
