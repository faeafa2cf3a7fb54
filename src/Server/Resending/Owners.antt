-- ===== src/Server/Resending/Owners.antt =====
-- internal/server/replay.go: what a replay sends, and for whom.
use hooklens.Base.{
  true, ◌||◌, ◌≡◌, ◌⊎◌, Option, none, some, List, [], ◌∷◌, ◌++◌, map, All, Bytes, codes, bytes_eq,
}
use hooklens.Replay as Replay
use hooklens.Replay.Guarded.{Guarded}
use hooklens.Capture.{Header}
use hooklens.Store.Access.{Inbox, Access}
use hooklens.Store.Requests.{StoredRequest}
use hooklens.Server.Listing.Owners.{held}
use hooklens.Server.Resending.{Asked, Sending, to_tunnel, to_web, Codec, Edits, marker, to_wire}

module _ (codec : Codec) where
  -- The body that is sent: the one that was asked for, decoded, or else the stored one.
  abbrev pub Payload : StoredRequest → Option Bytes → Bytes → Type 0
  Payload r none payload = payload ≡ r.body
  Payload r (some text) payload = codec.decode text ≡ some payload

  -- The headers that are asked for, or else the stored ones.
  abbrev pub sent_headers : StoredRequest → Option (List Header) → List Header
  sent_headers r none = r.headers
  sent_headers r (some hs) = hs

  abbrev Edited : StoredRequest → Asked → Edits → Type 0
  Edited r asked e = Payload r asked.body_b64 e.payload × (e.headers ≡ sent_headers r asked.headers)

module _ (lib : Replay.Library) (codec : Codec) where
  -- The stored request with other headers and another body.
  abbrev pub replayed : StoredRequest → List Header → Bytes → Replay.Request
  replayed r hs payload = record {
    method = r.method;
    path = r.path;
    query = r.query;
    headers = hs;
    body = payload;
  }

  -- With what was asked for.
  abbrev pub edited : StoredRequest → Asked → Bytes → Replay.Request
  edited r asked payload = replayed r (sent_headers codec r asked.headers) payload

  -- To the tunnel of the capture's own inbox, marked behind all of its headers; or to the URL that
  -- was asked for, on connections to public addresses, with the marker. Either way it is the capture
  -- with the edits that were asked for.
  unfoldable pub Resent : StoredRequest → Asked → Sending → Type 0
  Resent r asked (to_tunnel id req) =
      (id ≡ r.endpoint_id)
      × ((bytes_eq asked.target [] || bytes_eq asked.target (codes "tunnel")) ≡ true)
      × (req.method ≡ r.method)
      × (req.path ≡ r.path)
      × (req.query ≡ r.query)
      × (req.headers ≡ map to_wire (sent_headers codec r asked.headers) ++ (marker ∷ []))
      × ((payload : Bytes) × Payload codec r asked.body_b64 payload
          × (req.body_b64 ≡ codec.encode payload))
  Resent r asked (to_web effect) =
      (payload : Bytes) × Payload codec r asked.body_b64 payload
      × Guarded lib asked.target (edited r asked payload) effect

  -- A capture of the token's, as the body of the request asks.
  abbrev pub Allowed : (Bytes → Bytes) → List Inbox → Bytes → Option Asked → List Sending → Type 0
  Allowed hash inboxes token body sent =
      (sent ≡ [])
      ⊎ ((r : StoredRequest) × (asked : Asked) × (held hash inboxes token r ≡ true)
          × (body ≡ some asked)
          × All (Resent r asked) sent)
