-- ===== src/Tunnel/Serve/Phases.antt =====
-- internal/tunnel/server.go: the order that the calls for one connection keep, as a state machine.
use hooklens.Base.{
  ◌≡◌, refl, Bool, true, false, not, Option, none, some, List, [], ◌∷◌, ◌++◌, Bytes, bytes_eq,
  if◌then◌else◌,
}
use hooklens.Tunnel.Serve.{
  Auth, granted, unauthorized, failure, Server, Effect, asked, closed_with, welcomed, registered,
  replaced, opened, delivered, gauge_closed, unregistered, client_closed, connection_closed,
}

-- Where a connection stands. The flag is whether the gauge counts it; `behind` is where its reader
-- may still be when all else is over.
pub data Phase : Type 0 where
  waiting turned_away over : Phase
  known : Bytes → Phase
  let_in : Bytes → Phase
  serving : Bytes → Bool → Phase
  ending : Bytes → Bool → Phase
  removed shut behind : Phase

unfoldable pub known_as : Auth → Phase
known_as (granted id) = known id
known_as unauthorized = turned_away
known_as failure = turned_away

-- What may follow: an inbox is registered only for a client that authentication let into it and that
-- has its answer, responses are delivered only from then on, a close frame ends the service, the
-- gauge goes down where it went up, and the client is removed before it is closed. The reader may
-- still deliver or close until the end and behind it.
unfoldable pub follows : Server → Phase → Effect → Option Phase
follows s waiting (asked slug token) = some (known_as (s.auth slug token))
follows s waiting (closed_with code reason) = some turned_away
follows s waiting connection_closed = some over
follows s turned_away (closed_with code reason) = some turned_away
follows s turned_away connection_closed = some over
follows s (known id) (welcomed ok) = some (let_in id)
follows s (known id) connection_closed = some over
follows s (let_in id) (registered other) =
    if bytes_eq id other then some (serving id false) else none
follows s (serving id false) replaced = some (serving id false)
follows s (serving id false) opened = some (serving id true)
follows s (serving id gauge) (delivered resp) = some (serving id gauge)
follows s (serving id gauge) (closed_with code reason) = some (ending id gauge)
follows s (serving id true) gauge_closed = some (ending id false)
follows s (ending id true) gauge_closed = some (ending id false)
follows s (serving id false) (unregistered other) = if bytes_eq id other then some removed else none
follows s (ending id false) (unregistered other) = if bytes_eq id other then some removed else none
follows s (ending id gauge) (delivered resp) = some (ending id gauge)
follows s (ending id gauge) (closed_with code reason) = some (ending id gauge)
follows s removed (delivered resp) = some removed
follows s removed (closed_with code reason) = some removed
follows s removed client_closed = some shut
follows s shut (delivered resp) = some shut
follows s shut (closed_with code reason) = some shut
follows s shut connection_closed = some behind
follows s behind (delivered resp) = some behind
follows s behind (closed_with code reason) = some behind
follows s phase effect = none

unfoldable pub advance : Server → Option Phase → Effect → Option Phase
advance s none e = none
advance s (some p) e = follows s p e

unfoldable pub replay : Server → Option Phase → List Effect → Option Phase
replay s p [] = p
replay s p (e ∷ es) = replay s (advance s p e) es

-- The connection is over, or it is being served and nothing has ended it.
unfoldable pub conforms : Bool → Option Phase → Bool
conforms ended (some over) = true
conforms ended (some behind) = ended
conforms ended (some (serving id gauge)) = not ended
conforms ended p = false

module _ (s : Server) where
  pub replay-append :
      (p : Option Phase) (xs ys : List Effect) → replay s p (xs ++ ys) ≡ replay s (replay s p xs) ys
  unfolding replay
  replay-append p [] ys = refl
  replay-append p (x ∷ xs) ys = replay-append (advance s p x) xs ys
