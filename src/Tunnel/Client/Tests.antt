-- ===== src/Tunnel/Client/Tests.antt =====
-- A session with two calls in flight, which end in the other order.
use hooklens.Base.{
  ◌≤◌, ◌≡◌, refl, true, false, none, some, List, [], ◌∷◌, Bytes, codes, bytes_eq, bytes_key, lookup,
  insert, to_lower, trim_suffix_byte, cut_suffix, get_elem?, weigh,
}
use hooklens.Capture.{read_limited}
use hooklens.Tunnel.Protocol.{Request}
use hooklens.Tunnel.Local.{
  Net, answered, unreached, is_hop_by_hop_header, values_at, add, set, carried, carry, outgoing,
  one_header, relayed_headers, relayed_answer, read_answer, call_decoded, call_local,
  call_local_bounded,
}
use hooklens.Tunnel.Client.{
  ClientOptions, hello_ok, request_frame, close_frame, Turn, reads, finishes, closed, without,
  placed, handle, read_frame, finish, turn, next_of, serve, acknowledged, handshake, attached,
  connect_once, Frame,
}
use hooklens.Tunnel.Client.Answers.{answers_to, requests_of, connect_once-answers}

program : Unit {0}
unfolding bytes_eq lookup insert to_lower trim_suffix_byte cut_suffix get_elem? weigh read_limited
    is_hop_by_hop_header values_at add set carried carry outgoing one_header relayed_headers
    relayed_answer read_answer call_decoded call_local call_local_bounded without placed handle
    read_frame finish turn next_of serve acknowledged handshake attached connect_once answers_to
    requests_of
program = tt

abbrev net : Net
net = record {
  wide = λ s. s;
  canonical = λ s. s;
  encode = λ s. s;
  decode = λ s. some s;
  target_path = [];
  url = λ path query. path;
  accepts = λ method url. true;
}

abbrev request : Bytes → Request
request id = record {
  req_id = id;
  method = codes "POST";
  path = codes "/";
  query = [];
  headers = [];
  body_b64 = [];
}

abbrev options : ClientOptions
options = record { slug = codes "s"; token = codes "k" }

abbrev welcome : Frame
welcome = hello_ok (some (record { slug = codes "s"; public_url = codes "u"; ping_seconds = 20 }))

abbrev turns : List Turn
turns =
    reads (request_frame (some (request (codes "1"))))
    ∷ reads (request_frame (some (request (codes "2"))))
    ∷ finishes 1 true
        (answered (record {
          status = 200;
          headers = [];
          body = record { bytes = codes "ok"; fails = false };
        }))
        true
    ∷ finishes 0 false (unreached (codes "down")) true
    ∷ reads (close_frame none)
    ∷ []

both_answered :
    (weigh (answers_to (codes "1")) (connect_once net options true true (some welcome) turns).0 ≡ 1)
    × (weigh (answers_to (codes "2")) (connect_once net options true true (some welcome) turns).0
        ≡ 1)
unfolding program
both_answered = (refl, refl)

ended_by_server :
    (connect_once net options true true (some welcome) turns).1
    ≡ closed (record { code = codes "unknown"; reason = codes "server closed the tunnel" })
unfolding program
ended_by_server = refl

connect_once-answers_example :
    weigh (answers_to (codes "1")) (connect_once net options true true (some welcome) turns).0
    ≤ weigh (requests_of (codes "1")) turns
connect_once-answers_example =
    connect_once-answers net options true true (some welcome) turns (codes "1")
