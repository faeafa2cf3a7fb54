-- ===== src/Ingest/Handler/Tests.antt =====
-- The capture handler on concrete requests.
use hooklens.Base.{
  ℕ, ◌≡◌, refl, true, false, none, some, List, [], ◌∷◌, Bytes, codes, bytes_key, bytes_eq, arith,
  All, Bool-cases, inl, inr, if◌then◌else◌,
}
use hooklens.Store.{Endpoint, found, record_forward}
use hooklens.Capture.{HttpRequest}
use hooklens.Tunnel.Protocol.{Response}
use hooklens.Ingest.Handler.{Library, Handler, State, Arrival, responded, capture, write_forwarded}
use hooklens.Ingest.Handler.Durability.{Settled, durability}
use hooklens.Ingest.Handler.Forwarding.{Whole, body_forwarded}
use hooklens.Ingest.Handler.Outcomes.{Accepted, checks_pass}
use hooklens.Ingest.Handler.Relayed.{ids, genuine_id}
use hooklens.Ingest.Handler.Touches.{Ordered}

abbrev lib : Library
lib = record {
  wide = λ s. s;
  canonical = λ s. s;
  encode = λ s. s;
  decode = λ s. some s;
  parse_addr = λ s. some s;
}

abbrev handler : Handler
handler = record { broker = true; fwd = true; rec = true; max_body = 8 }

abbrev state : State
state = record { endpoints = []; limiter = none; touched = [] }

abbrev shop : Endpoint
shop = record {
  id = codes "7";
  slug = codes "shop";
  name = [];
  created_at = 3;
  last_seen_at = none;
}

abbrev http : HttpRequest
http = record {
  method = codes "POST";
  escaped_path = codes "/hook";
  raw_query = [];
  header = [];
  host = codes "shop.hooklens.dev";
  transfer_encoding = [];
  body = some (record { bytes = codes "{}"; fails = false });
  content_length = some 2;
  remote_addr = codes "10.0.0.1:99";
}

abbrev answered : Response
answered = record {
  req_id = codes "1";
  status = 418;
  headers = (record { name = codes "x-hooklens-id"; content = codes "forged" }) ∷ [];
  body_b64 = codes "tea";
  error = [];
}

abbrev arrival : Arrival
arrival = record {
  slug = codes "shop";
  http = http;
  asked_at = 10;
  answered_at = 20;
  answer = found shop;
  allowed_at = 30;
  received_at = 40;
  insertion = some (codes "id1");
  watched = true;
  attempt = responded answered;
  elapsed = 12;
  record_ok = true;
  still_watched = true;
}

durability_example : Settled lib handler arrival (capture lib handler state arrival)
durability_example = durability lib handler arrival state

body_forwarded_example : All (Whole lib http) (capture lib handler state arrival).0
body_forwarded_example = body_forwarded lib handler arrival state

checks_pass_example : All (Accepted arrival.attempt) (capture lib handler state arrival).0
checks_pass_example = checks_pass lib handler arrival state

-- Names of one other spelling.
unfoldable spelled : Bytes → Bytes
spelled s = if bytes_eq s (codes "x-hooklens-id") then codes "X-Hooklens-Id" else s

abbrev spelling : Library
spelling = record lib { canonical = spelled }

spelled_twice : (s : Bytes) → spelled (spelled s) ≡ spelled s
unfolding spelled bytes_eq
spelled_twice s = elim (Bool-cases (bytes_eq s (codes "x-hooklens-id"))) [
  | inl e ↦ rw e refl
  | inr e ↦ rw (e, e) refl
]

spelled_id : spelled (codes "X-Hooklens-Id") ≡ codes "X-Hooklens-Id"
unfolding spelled bytes_eq
spelled_id = refl

spelled_forward : spelled (codes "X-Hooklens-Forward") ≡ codes "X-Hooklens-Forward"
unfolding spelled bytes_eq
spelled_forward = refl

genuine_id_example :
    ids spelling (write_forwarded spelling answered (codes "id1")).headers
    ≡ (codes "X-Hooklens-Id", codes "id1") ∷ []
genuine_id_example =
    genuine_id spelling answered (codes "id1") spelled_twice spelled_id spelled_forward

-- A status outside HTTP's makes the row fail its checks.
row-refused : record_forward (record { status = 700; error = []; elapsed = 1 }) ≡ false
unfolding record_forward
row-refused = refl

abbrev captures : List (Bytes × ℕ)
captures = (codes "7", 1) ∷ (codes "7", 2) ∷ (codes "8", 3) ∷ (codes "7", 70000000000) ∷ []

captures-Ordered : Ordered 1 captures 70000000000
unfolding Ordered
captures-Ordered = (omega arith, (omega arith, (omega arith, (omega arith, omega arith))))
