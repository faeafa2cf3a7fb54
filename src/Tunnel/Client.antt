-- ===== src/Tunnel/Client.antt =====
-- internal/tunnel/client.go: one connection as the client sees it, from the dialling to its end, over a
-- script of what the socket and the app deliver. A frame is as it decodes; JSON is a parameter of it.
pub mod Answers
mod Tests
use hooklens.Base.{
  ℕ, zero, suc, not, ◌⊎◌, inl, inr, Bool, true, false, Option, none, some, List, [], ◌∷◌, ◌++◌, map,
  Bytes, codes, get_elem?, if◌then◌else◌,
}
use hooklens.Tunnel.Protocol.{Request, Response, CloseError}
use hooklens.Tunnel.Serve.{Hello, HelloOk, protocol_version}
use hooklens.Tunnel.Local.{Net, Call, Reply, call_local_bounded}

pub record ClientOptions : Type 0 where
  pub slug : Bytes
  pub token : Bytes

-- A payload is none where it does not decode.
pub data Frame : Type 0 where
  bad_envelope : Frame
  hello_ok : Option HelloOk → Frame
  request_frame : Option Request → Frame
  close_frame : Option CloseError → Frame
  other_frame : Bytes → Frame

-- What comes next: a failed read, with whether the user interrupted; a frame; or the end of one of the
-- calls in flight, with whether it got a slot, what the app answered, and whether the response went out.
pub data Turn : Type 0 where
  read_fails : Bool → Turn
  reads : Frame → Turn
  finishes : ℕ → Bool → Reply → Bool → Turn

pub data Effect : Type 0 where
  greeted : Hello → Effect
  connected : Bytes → Effect
  called : Call → Effect
  answered : Response → Effect

pub data Ending : Type 0 where
  orderly unconnected unsent unread bad_answer lost still_serving : Ending
  unexpected : Bytes → Ending
  closed : CloseError → Ending

abbrev pub close_error : Option CloseError → Bytes → CloseError
close_error none reason = record { code = codes "unknown"; reason = reason }
close_error (some e) reason = e

-- The calls in flight without one of them.
unfoldable pub without {ℓ} : {A : Type ℓ} → ℕ → List A → List A
without i [] = []
without zero (x ∷ xs) = xs
without (suc i) (x ∷ xs) = x ∷ without i xs

unfoldable pub placed : Option Call → List Effect
placed none = []
placed (some call) = called call ∷ []

-- `handle`, when the call has come to its end.
unfoldable pub handle : Net → Bool → Reply → Bool → Request → List Effect
handle net acquired reply written req =
    let out = call_local_bounded net acquired req reply in
    let resp = record (out.1) { req_id = req.req_id } in
    placed out.0 ++ (if written then answered resp ∷ [] else [])

pub record Step : Type 0 where
  pub effects : List Effect
  pub ending : Option Ending
  pub in_flight : List Request

abbrev goes_on : List Request → Step
goes_on flight = record { effects = []; ending = none; in_flight = flight }

abbrev ends : Ending → List Request → Step
ends e flight = record { effects = []; ending = some e; in_flight = flight }

-- The switch of the read loop; a request is handled in a goroutine.
unfoldable pub read_frame : Frame → List Request → Step
read_frame (request_frame (some req)) flight = goes_on (flight ++ (req ∷ []))
read_frame (close_frame e) flight =
    ends (closed (close_error e (codes "server closed the tunnel"))) flight
read_frame frame flight = goes_on flight

unfoldable pub finish : Net → ℕ → Bool → Reply → Bool → List Request → Option Request → Step
finish net i acquired reply written flight none = goes_on flight
finish net i acquired reply written flight (some req) = record {
  effects = handle net acquired reply written req;
  ending = none;
  in_flight = without i flight;
}

unfoldable pub turn : Net → Turn → List Request → Step
turn net (read_fails interrupted) flight = ends (if interrupted then orderly else lost) flight
turn net (reads frame) flight = read_frame frame flight
turn net (finishes i acquired reply written) flight =
    finish net i acquired reply written flight (get_elem? flight i)

-- What follows a turn, if the loop goes on.
unfoldable pub next_of : Option Ending → List Effect → List Effect × Ending → List Effect × Ending
next_of (some e) effects later = (effects, e)
next_of none effects later = (effects ++ later.0, later.1)

-- `serve`, with the calls in flight. The script's end stands for a loop that goes on.
unfoldable pub serve : Net → List Turn → List Request → List Effect × Ending
serve net [] flight = ([], still_serving)
serve net (t ∷ rest) flight =
    let s = turn net t flight in next_of s.ending s.effects (serve net rest s.in_flight)

-- The answer to the hello.
unfoldable pub acknowledged : Frame → Ending ⊎ HelloOk
acknowledged bad_envelope = inl bad_answer
acknowledged (hello_ok none) = inl bad_answer
acknowledged (hello_ok (some ok)) = inr ok
acknowledged (close_frame e) = inl (closed (close_error e (codes "rejected by server")))
acknowledged (request_frame req) = inl (unexpected (codes "request"))
acknowledged (other_frame kind) = inl (unexpected kind)

-- The hello is sent or not; then a frame is read, or none.
unfoldable pub handshake : Bool → Option Frame → Ending ⊎ HelloOk
handshake false frame = inl unsent
handshake true none = inl unread
handshake true (some frame) = acknowledged frame

unfoldable pub attached : Net → List Turn → Ending ⊎ HelloOk → List Effect × Ending
attached net turns (inl e) = ([], e)
attached net turns (inr ok) =
    let served = serve net turns [] in (connected ok.public_url ∷ served.0, served.1)

abbrev pub hello_of : ClientOptions → Hello
hello_of opt = record { version = protocol_version; slug = opt.slug; token = opt.token }

-- `connectOnce`, after the dialling.
unfoldable pub connect_once :
    Net → ClientOptions → Bool → Bool → Option Frame → List Turn → List Effect × Ending
connect_once net opt dialled sent first turns =
    let rest = attached net turns (handshake sent first) in
    if not dialled
    then ([], unconnected)
    else ((if sent then greeted (hello_of opt) ∷ rest.0 else rest.0), rest.1)
