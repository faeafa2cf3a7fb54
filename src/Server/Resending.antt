-- ===== src/Server/Resending.antt =====
-- internal/server/replay.go: a capture sent again for the holder of its inbox's token, to the tunnel or
-- to a URL. The texts of hints are left out.

pub mod Owners
mod Tests
use hooklens.Base.{
  Bool, true, false, ◌||◌, Option, none, some, List, [], ◌∷◌, ◌++◌, map, Bytes, codes, bytes_eq,
  if◌then◌else◌,
}
use hooklens.Capture.{Header}
use hooklens.Replay as Replay
use hooklens.Replay.{Network, blocked_destination, replay_header, check_url, to_url}
use hooklens.Replay.Addresses.{Reason}
use hooklens.Store.Access.{
  Inbox, Access, granted, unauthorized, failure, find_request, authenticate_request,
}
use hooklens.Store.Requests.{StoredRequest}
use hooklens.Server.Listing.{bearer_token}
use hooklens.Tunnel.Protocol as Protocol

-- The body of the request, decoded; an empty one has no field.
pub record Asked : Type 0 where
  pub target : Bytes
  pub body_b64 : Option Bytes
  pub headers : Option (List Header)

-- What `Hub.Forward` comes to: an error, with whether it is ErrNoTunnel, or the client's response.
pub data Forwarded : Type 0 where
  unsent : Bool → Bytes → Forwarded
  responded : Protocol.Response → Forwarded

-- The answers that one replay may get.
pub record World : Type 0 where
  pub forwarded : Forwarded
  pub network : Network

pub data Sending : Type 0 where
  to_tunnel : Bytes → Protocol.Request → Sending
  to_web : Replay.Effect → Sending

pub data Outcome : Type 0 where
  no_client : Bytes → Outcome
  not_forwarded : Bytes → Outcome
  app_unreached : Bytes → Outcome
  app_answered : Protocol.Response → Outcome
  not_sent : Replay.Error → Outcome
  web_answered : Replay.Response → Outcome

-- `done` has whether the capture was edited, and the target.
pub data ReplayReply : Type 0 where
  denied bad_id invalid_json bad_base64 : ReplayReply
  refused_target : Replay.Error → ReplayReply
  refused_at_dial : Reason → ReplayReply
  done : Bool → Bytes → Outcome → ReplayReply

-- base64 in its two directions.
pub record Codec : Type 0 where
  pub encode : Bytes → Bytes
  pub decode : Bytes → Option Bytes

-- What is sent, after the edits.
pub record Edits : Type 0 where
  pub payload : Bytes
  pub headers : List Header
  pub edited : Bool

unfoldable pub edits : Codec → StoredRequest → Asked → Option Edits
edits codec r asked =
    let with_headers = λ (payload : Bytes) (edited : Bool). elim asked.headers as (λ _. Edits) [
      | none ↦ record { payload = payload; headers = r.headers; edited = edited }
      | some hs ↦ record { payload = payload; headers = hs; edited = true }
    ] in
    elim asked.body_b64 [
      | none ↦ some (with_headers r.body false)
      | some text ↦ elim (codec.decode text) [
        | none ↦ none
        | some body ↦ some (with_headers body true)
      ]
    ]

abbrev pub marker : Protocol.Header
marker = record { name = replay_header; content = codes "1" }

abbrev pub to_wire : Header → Protocol.Header
to_wire h = record { name = h.name; content = h.content }

unfoldable pub tunnel_request : Codec → StoredRequest → Edits → Protocol.Request
tunnel_request codec r e = record {
  req_id = [];
  method = r.method;
  path = r.path;
  query = r.query;
  headers = map to_wire e.headers ++ (marker ∷ []);
  body_b64 = codec.encode e.payload;
}

unfoldable pub tunnel_outcome : Forwarded → Outcome
tunnel_outcome (unsent no_tunnel text) = if no_tunnel then no_client text else not_forwarded text
tunnel_outcome (responded resp) =
    if bytes_eq resp.error [] then app_answered resp else app_unreached resp.error

unfoldable pub replay_to_tunnel : Codec → World → StoredRequest → Edits → List Sending × ReplayReply
replay_to_tunnel codec w r e = (
  to_tunnel r.endpoint_id (tunnel_request codec r e) ∷ [],
  done e.edited (codes "tunnel") (tunnel_outcome w.forwarded),
)

unfoldable pub web_request : StoredRequest → Edits → Replay.Request
web_request r e = record {
  method = r.method;
  path = r.path;
  query = r.query;
  headers = e.headers;
  body = e.payload;
}

unfoldable pub web_reply : Bool → Bytes → Replay.Result Replay.Response → ReplayReply
web_reply edited target (Replay.err (blocked_destination reason)) = refused_at_dial reason
web_reply edited target (Replay.err e) = done edited target (not_sent e)
web_reply edited target (Replay.ok resp) = done edited target (web_answered resp)

module _ (lib : Replay.Library) (codec : Codec) where
  -- With what the check of the target says.
  unfoldable pub replay_checked :
      World → StoredRequest → Bytes → Edits → Option Replay.Error → List Sending × ReplayReply
  replay_checked w r target e (some refusal) = ([], refused_target refusal)
  replay_checked w r target e none =
      let sent = to_url lib w.network target (web_request r e) in
      (map to_web sent.0, web_reply e.edited target sent.1)

  abbrev pub replay_to_url : World → StoredRequest → Bytes → Edits → List Sending × ReplayReply
  replay_to_url w r target e = replay_checked w r target e (check_url lib target)

  unfoldable pub replay_edited :
      World → StoredRequest → Bytes → Option Edits → List Sending × ReplayReply
  replay_edited w r target none = ([], bad_base64)
  replay_edited w r target (some e) =
      if bytes_eq target [] || bytes_eq target (codes "tunnel")
      then replay_to_tunnel codec w r e
      else replay_to_url w r target e

  -- The body decoded, or none where it is not JSON.
  unfoldable pub handle_replay :
      World → Access StoredRequest → Option Asked → List Sending × ReplayReply
  handle_replay w unauthorized body = ([], denied)
  handle_replay w failure body = ([], bad_id)
  handle_replay w (granted r) none = ([], invalid_json)
  handle_replay w (granted r) (some asked) = replay_edited w r asked.target (edits codec r asked)

  unfoldable pub replay_api :
      (Bytes → Bytes)
      → (Bytes → Bytes → Bool)
      → (Bytes → Bool)
      → List Inbox
      → List StoredRequest
      → World
      → Bytes
      → Bytes
      → Option Asked
      → List Sending × ReplayReply
  replay_api hash wide_fold is_id inboxes table w authorization id body =
      let token = bearer_token wide_fold authorization in
      handle_replay w (authenticate_request hash token (find_request is_id id table inboxes)) body
