-- ===== src/Tunnel/Client/Answers.antt =====
-- internal/tunnel/client.go: the requests of a session and the responses to them.
use hooklens.Base.{
  ℕ, zero, suc, ◌+◌, ◌≤◌, ◌≡◌, refl, Bool, ◌⊎◌, inl, inr, Option, none, some, List, [], ◌∷◌, ◌++◌,
  Bytes, bytes_eq, get_elem?, weigh, arith, if◌then◌else◌,
}
use hooklens.Tunnel.Protocol.{Request}
use hooklens.Tunnel.Serve.{HelloOk}
use hooklens.Tunnel.Local.{Net, Call, Reply, call_local_bounded}
use hooklens.Tunnel.Client.{
  ClientOptions, Frame, bad_envelope, hello_ok, request_frame, close_frame, other_frame, Turn,
  read_fails, reads, finishes, Effect, answered, Ending, without, placed, handle, read_frame,
  finish, turn, next_of, serve, attached, handshake, connect_once,
}

-- How often a response of an id is sent, and a request of an id is read.
unfoldable pub answers_to : Bytes → Effect → ℕ
answers_to id (answered resp) = if bytes_eq resp.req_id id then 1 else 0
answers_to id effect = 0

unfoldable pub requests_of : Bytes → Turn → ℕ
requests_of id (reads (request_frame (some req))) = if bytes_eq req.req_id id then 1 else 0
requests_of id t = 0

unfoldable in_flight_of : Bytes → Request → ℕ
in_flight_of id req = if bytes_eq req.req_id id then 1 else 0

weigh-append : (w : Effect → ℕ) (xs ys : List Effect) → weigh w (xs ++ ys) ≡ weigh w xs + weigh w ys
unfolding weigh
weigh-append w [] ys = omega arith
weigh-append w (x ∷ xs) ys = omega (arith, weigh-append w xs ys)

weigh-snoc :
    (w : Request → ℕ) (xs : List Request) (x : Request)
    → weigh w (xs ++ (x ∷ [])) ≡ weigh w xs + w x
unfolding weigh
weigh-snoc w [] x = omega arith
weigh-snoc w (y ∷ xs) x = omega (arith, weigh-snoc w xs x)

weigh-without :
    (w : Request → ℕ) (xs : List Request) (i : ℕ) (x : Request)
    → get_elem? xs i ≡ some x
    → weigh w (without i xs) + w x ≡ weigh w xs
unfolding weigh without get_elem?
weigh-without w [] i x e = cc e
weigh-without w (y ∷ xs) zero x e = ground arith
weigh-without w (y ∷ xs) (suc i) x e = ground (arith, weigh-without w xs i x e)

placed-answers :
    (id : Bytes) (call : Option Call) (effects : List Effect)
    → weigh (answers_to id) (placed call ++ effects) ≡ weigh (answers_to id) effects
unfolding placed weigh answers_to
placed-answers id none effects = refl
placed-answers id (some call) effects = omega arith

handle-answers :
    (net : Net) (acquired : Bool) (reply : Reply) (written : Bool) (req : Request) (id : Bytes)
    → weigh (answers_to id) (handle net acquired reply written req) ≤ in_flight_of id req
unfolding handle weigh answers_to in_flight_of
handle-answers net acquired reply written req id =
    let out = call_local_bounded net acquired req reply in
    ground (
      arith,
      placed-answers id out.0
          (if written then answered (record (out.1) { req_id = req.req_id }) ∷ [] else []),
    )

read_frame-answers :
    (frame : Frame) (flight : List Request) (id : Bytes)
    → weigh (answers_to id) (read_frame frame flight).effects
        + weigh (in_flight_of id) (read_frame frame flight).in_flight
      ≤ requests_of id (reads frame) + weigh (in_flight_of id) flight
unfolding read_frame weigh requests_of in_flight_of
read_frame-answers bad_envelope flight id = omega arith
read_frame-answers (hello_ok ok) flight id = omega arith
read_frame-answers (request_frame none) flight id = omega arith
read_frame-answers (request_frame (some req)) flight id =
    ground (arith, weigh-snoc (in_flight_of id) flight req)
read_frame-answers (close_frame e) flight id = omega arith
read_frame-answers (other_frame kind) flight id = omega arith

finish-answers :
    (net : Net) (i : ℕ) (acquired : Bool) (reply : Reply) (written : Bool) (flight : List Request)
    (o : Option Request) (id : Bytes)
    → get_elem? flight i ≡ o
    → let s = finish net i acquired reply written flight o in
      weigh (answers_to id) s.effects + weigh (in_flight_of id) s.in_flight
      ≤ weigh (in_flight_of id) flight
unfolding finish weigh
finish-answers net i acquired reply written flight none id e = omega arith
finish-answers net i acquired reply written flight (some req) id e = omega (
  arith,
  handle-answers net acquired reply written req id,
  weigh-without (in_flight_of id) flight i req e,
)

turn-answers :
    (net : Net) (t : Turn) (flight : List Request) (id : Bytes)
    → weigh (answers_to id) (turn net t flight).effects
        + weigh (in_flight_of id) (turn net t flight).in_flight
      ≤ requests_of id t + weigh (in_flight_of id) flight
unfolding turn weigh requests_of
turn-answers net (read_fails interrupted) flight id = omega arith
turn-answers net (reads frame) flight id = read_frame-answers frame flight id
turn-answers net (finishes i acquired reply written) flight id =
    omega (arith, finish-answers net i acquired reply written flight (get_elem? flight i) id refl)

next_of-answers :
    (id : Bytes) (o : Option Ending) (effects : List Effect) (later : List Effect × Ending)
    → weigh (answers_to id) (next_of o effects later).0
      ≤ weigh (answers_to id) effects + weigh (answers_to id) later.0
unfolding next_of
next_of-answers id (some e) effects later = omega arith
next_of-answers id none effects later = omega (arith, weigh-append (answers_to id) effects later.0)

serve-answers :
    (net : Net) (turns : List Turn) (flight : List Request) (id : Bytes)
    → weigh (answers_to id) (serve net turns flight).0
      ≤ weigh (requests_of id) turns + weigh (in_flight_of id) flight
unfolding serve weigh
serve-answers net [] flight id = omega arith
serve-answers net (t ∷ rest) flight id =
    let s = turn net t flight in
    omega (
      arith,
      turn-answers net t flight id,
      serve-answers net rest s.in_flight id,
      next_of-answers id s.ending s.effects (serve net rest s.in_flight),
    )

attached-answers :
    (net : Net) (turns : List Turn) (h : Ending ⊎ HelloOk) (id : Bytes)
    → weigh (answers_to id) (attached net turns h).0 ≤ weigh (requests_of id) turns
unfolding attached weigh answers_to
attached-answers net turns (inl e) id = omega arith
attached-answers net turns (inr ok) id = omega (arith, serve-answers net turns [] id)

-- Whatever comes on a connection and however the calls of the app end, for every id at most as many
-- responses are sent as requests were read: none is answered twice, and none is made up.
pub connect_once-answers :
    (net : Net) (opt : ClientOptions) (dialled sent : Bool) (first : Option Frame)
    (turns : List Turn) (id : Bytes)
    → weigh (answers_to id) (connect_once net opt dialled sent first turns).0
      ≤ weigh (requests_of id) turns
unfolding connect_once weigh answers_to
connect_once-answers net opt dialled sent first turns id =
    ground (arith, attached-answers net turns (handshake sent first) id)
