-- ===== src/Server/Resending/Tests.antt =====
-- Replays to a tunnel and to URLs, with toy parsers; and addresses that are refused and not.
use hooklens.Base.{
  ◌+◌, ◌*◌, ◌^◌, Bool, true, false, ◌≡◌, refl, is_some, Option, none, some, List, [], ◌∷◌, All,
  Bytes, codes, bytes_eq, bytes_key, lookup, insert, trim_space, strip_one, strip_all, equal_fold,
  to_lower, trim_suffix_byte, cut_suffix, if◌then◌else◌,
}
use hooklens.Capture.{Header, read_limited}
use hooklens.Replay as Replay
use hooklens.Replay.{
  Url, Library, Network, connect, send, hop_by_hop, parsed_url, parse_http_url, check_addr,
  check_url, control_addr, control, or_error, tried, dial, values_at, carry, outgoing, one_header,
  all_headers, read_answer, sent_on, send_to, to_url, blocked_destination, bad_scheme,
}
use hooklens.Replay.Addresses.{
  Addr, v4, v6, ipv4, leads, unmap, is_loopback, is_link_local_unicast, is_link_local_multicast,
  is_interface_local_multicast, is_private, is_unspecified, is_multicast, is_broadcast,
  is_global_unicast, contains, link_local, loopback, first_containing, blocked_unmapped, blocked,
}
use hooklens.Replay.Ranges.{within}
use hooklens.Replay.Reserved.{reserved_unmapped, reserved, blocked-reserved}
use hooklens.Replay.Guarded.{Guarded, to_url-Guarded}
use hooklens.Server.Net.{split_host_port}
use hooklens.Store.Access.{Inbox, find_inbox, find_row, find_request, authenticate_request}
use hooklens.Store.Access as Access
use hooklens.Store.Requests.{StoredRequest}
use hooklens.Server.Listing.{bearer_token}
use hooklens.Server.Resending.{
  Asked, unsent, World, denied, bad_base64, done, no_client, Codec, edits, tunnel_request,
  tunnel_outcome, replay_to_tunnel, web_request, web_reply, replay_checked, replay_edited,
  handle_replay, replay_api,
}

program : Unit {0}
unfolding is_some bytes_eq lookup insert trim_space strip_one strip_all equal_fold to_lower
    trim_suffix_byte cut_suffix hop_by_hop parsed_url parse_http_url check_addr check_url
    control_addr control or_error tried dial values_at carry outgoing one_header all_headers
    read_answer sent_on send_to to_url leads unmap is_loopback is_link_local_unicast
    is_link_local_multicast is_interface_local_multicast is_private is_unspecified is_multicast
    is_broadcast is_global_unicast contains first_containing blocked_unmapped blocked within
    reserved_unmapped reserved split_host_port find_inbox find_row find_request Access.joined
    Access.equal authenticate_request bearer_token edits tunnel_request tunnel_outcome
    replay_to_tunnel web_request web_reply replay_checked replay_edited handle_replay replay_api
program = tt

-- The address of the cloud's metadata, and IPv4's loopback inside IPv6.
metadata : blocked (v4 (ipv4 169 254 169 254)) ≡ some link_local
unfolding program
metadata = refl

mapped_loopback : blocked (v6 (65535 * 2 ^ 32 + ipv4 127 0 0 1) []) ≡ some loopback
unfolding program
mapped_loopback = refl

neighbours : (blocked (v4 (ipv4 172 15 255 255)) ≡ none) × (blocked (v4 (ipv4 172 32 0 0)) ≡ none)
unfolding program
neighbours = (refl, refl)

-- The unspecified address with a zone is not refused, nor is an address of NAT64.
unspecified_zone : blocked (v6 0 (codes "lo")) ≡ none
unfolding program
unspecified_zone = refl

translated : blocked (v6 (6619035 * 2 ^ 104 + ipv4 10 0 0 1) []) ≡ none
unfolding program
translated = refl

blocked-reserved_example :
    is_some (blocked (v4 (ipv4 100 64 0 1))) ≡ reserved (v4 (ipv4 100 64 0 1))
blocked-reserved_example = blocked-reserved (v4 (ipv4 100 64 0 1))

unfoldable addresses : Bytes → Option Addr
addresses s =
    if bytes_eq s (codes "10.0.0.1")
    then some (v4 (ipv4 10 0 0 1))
    else if bytes_eq s (codes "1.1.1.1")
    then some (v4 (ipv4 1 1 1 1))
    else none

-- A scheme up to the colon would do; the host is the whole text.
unfoldable urls : Bytes → Option Url
urls s = some (record { scheme = codes "http"; host = s; path = codes "/api/"; query = [] })

abbrev toy : Library
toy = record {
  parse_url = urls;
  parse_addr = addresses;
  accepts = λ method u. true;
  canonical = λ name. name;
  wide = λ s. s;
}

-- A name that resolves to a private address and to a public one.
abbrev rebound : Network
rebound = record {
  tries = (codes "10.0.0.1:80", true) ∷ (codes "1.1.1.1:80", true) ∷ [];
  answer = some (record { status = 204; header = []; body = record { bytes = []; fails = false } });
}

abbrev header : Bytes → Bytes → Header
header name content = record { name = name; content = content }

abbrev hook : Replay.Request
hook = record {
  method = codes "POST";
  path = codes "/hook";
  query = [];
  headers = header (codes "Host") (codes "h") ∷ header (codes "A") (codes "1") ∷ [];
  body = codes "x";
}

only_public : to_url toy rebound (codes "name") hook ≡ (
  connect (codes "1.1.1.1:80")
      ∷ send (codes "1.1.1.1:80") (record {
        method = codes "POST";
        url = record {
          scheme = codes "http";
          host = codes "name";
          path = codes "/api/hook";
          query = [];
        };
        header = (codes "A", codes "1" ∷ []) ∷ (codes "X-Hooklens-Replay", codes "1" ∷ []) ∷ [];
        body = codes "x";
      })
      ∷ [],
  Replay.ok (record { status = 204; headers = []; body = [] }),
)
unfolding program addresses urls read_limited
only_public = refl

literal_refused :
    check_url toy (codes "10.0.0.1") ≡ some (blocked_destination Replay.Addresses.private_range)
unfolding program addresses urls read_limited
literal_refused = refl

to_url-Guarded_example :
    All (Guarded toy (codes "name") hook) (to_url toy rebound (codes "name") hook).0
to_url-Guarded_example = to_url-Guarded toy rebound (codes "name") hook

abbrev stored : Bytes → Bytes → StoredRequest
stored id endpoint_id = record {
  id = id;
  endpoint_id = endpoint_id;
  method = codes "POST";
  path = codes "/";
  query = [];
  headers = [];
  body = codes "b";
  body_size = 1;
  body_truncated = false;
  declared_size = none;
  source_ip = none;
  received_at = 0;
  forward_status = none;
  forward_error = none;
  forward_ms = none;
}

abbrev inboxes : List Inbox
inboxes =
    (record {
      endpoint = record {
        id = codes "e";
        slug = codes "s";
        name = [];
        created_at = 0;
        last_seen_at = none;
      };
      owner_token_hash = codes "k";
      retention_hours = 168;
    })
    ∷ []

abbrev table : List StoredRequest
table = stored (codes "1") (codes "e") ∷ stored (codes "2") (codes "f") ∷ []

abbrev plain : Codec
plain = record { encode = λ s. s; decode = λ s. if bytes_eq s (codes "!") then none else some s }

abbrev world : World
world = record { forwarded = unsent true (codes "no tunnel"); network = rebound }

abbrev hash : Bytes → Bytes
hash s = s

no_fold : Bytes → Bytes → Bool
no_fold s t = false

-- Every text is an id.
abbrev any_id : Bytes → Bool
any_id id = true

abbrev asked : Bytes → Option Bytes → Option Asked
asked target body_b64 = some (record { target = target; body_b64 = body_b64; headers = none })

foreign_denied :
    replay_api toy plain hash no_fold any_id inboxes table world
      (codes "Bearer k")
      (codes "2")
      (asked [] none)
    ≡ ([], denied)
unfolding program
foreign_denied = refl

not_base64 :
    replay_api toy plain hash no_fold any_id inboxes table world
      (codes "Bearer k")
      (codes "1")
      (asked [] (some (codes "!")))
    ≡ ([], bad_base64)
unfolding program
not_base64 = refl

without_tunnel :
    (replay_api toy plain hash no_fold any_id inboxes table world
      (codes "Bearer k")
      (codes "1")
      (asked [] none)).1
    ≡ done false (codes "tunnel") (no_client (codes "no tunnel"))
unfolding program
without_tunnel = refl
