-- ===== src/Tunnel/Serve.antt =====
-- internal/tunnel/server.go: one connection of a client, from its first frame to its end, as the calls
-- made for it in their order. What the socket delivers is a script; JSON is a parameter of it.
pub mod Phases
pub mod Reader
pub mod Conformance
mod Tests
use hooklens.Base.{
  ℕ, Bool, true, false, Option, none, some, List, [], ◌∷◌, ◌++◌, Bytes, codes, bytes_eq, ℤ, pos,
  negsuc, format_int, ◌==◌, if◌then◌else◌,
}
use hooklens.Tunnel.Protocol.{
  Response, code_unauthorized, code_version, code_malformed, code_handshake, code_replaced,
  code_server_shutdown,
}

pub record Hello : Type 0 where
  pub version : ℤ
  pub slug : Bytes
  pub token : Bytes

pub record HelloOk : Type 0 where
  pub slug : Bytes
  pub public_url : Bytes
  pub ping_seconds : ℕ

-- What a frame decodes to; a text is that of an error, or the type of the frame.
pub data Frame : Type 0 where
  binary : Frame
  bad_envelope : Bytes → Frame
  bad_payload : Bytes → Bytes → Frame
  hello_frame : Hello → Frame
  response_frame : Response → Frame
  other_frame : Bytes → Frame

-- What `AuthFunc` returns: the inbox's id, ErrUnauthorized, or another error.
pub data Auth : Type 0 where
  granted : Bytes → Auth
  unauthorized failure : Auth

pub record Server : Type 0 where
  pub auth : Bytes → Bytes → Auth
  pub public_url : Bytes → Bytes
  pub ping_seconds : ℕ
  pub observed : Bool

-- The first read: the deadline passes, the read fails, or there is a frame.
pub data First : Type 0 where
  late broken : First
  arrived : Frame → First

-- What the loop of `serve` meets next: the server's end, a failed read, a frame, or a ping and
-- whether it was answered.
pub data Turn : Type 0 where
  shutdown read_fails : Turn
  reads : Frame → Turn
  ping : Bool → Turn

pub data Effect : Type 0 where
  asked : Bytes → Bytes → Effect
  closed_with : Bytes → Bytes → Effect
  welcomed : HelloOk → Effect
  registered : Bytes → Effect
  replaced : Effect
  opened : Effect
  delivered : Response → Effect
  gauge_closed : Effect
  unregistered : Bytes → Effect
  client_closed : Effect
  connection_closed : Effect

abbrev pub protocol_version : ℤ
protocol_version = pos 1

abbrev pub version_reason : ℤ → Bytes
version_reason version =
    codes "this server speaks protocol version "
    ++ (format_int protocol_version
        ++ (codes ", your client speaks "
            ++ (format_int version ++ (codes " " ++ (226 ∷ 128 ∷ 148 ∷ codes " upgrade the CLI")))))

unfoldable pub same_version : ℤ → Bool
same_version (pos n) = n == 1
same_version (negsuc n) = false

abbrev pub refused : Bytes → Bytes → List Effect × Option Bytes
refused code reason = (closed_with code reason ∷ [], none)

-- A hello_ok that cannot be written ends the handshake.
unfoldable pub identified : Server → Hello → Bool → Auth → List Effect × Option Bytes
identified s h written (granted id) =
    if written
    then (
      asked h.slug h.token
          ∷ welcomed (record {
            slug = h.slug;
            public_url = s.public_url h.slug;
            ping_seconds = s.ping_seconds;
          })
          ∷ [],
      some id,
    )
    else (asked h.slug h.token ∷ [], none)
identified s h written unauthorized = (
  asked h.slug h.token ∷ closed_with code_unauthorized (codes "unknown inbox or bad token") ∷ [],
  none,
)
identified s h written failure = (
  asked h.slug h.token ∷ closed_with code_unauthorized (codes "unknown inbox or bad token") ∷ [],
  none,
)

abbrev pub not_hello : Bytes → List Effect × Option Bytes
not_hello kind = refused code_malformed (codes "first frame must be hello, got " ++ kind)

unfoldable pub greeted : Server → Bool → Frame → List Effect × Option Bytes
greeted s written binary = refused code_malformed (codes "frames must be text, not binary")
greeted s written (bad_envelope text) = refused code_malformed text
greeted s written (bad_payload kind text) =
    if bytes_eq kind (codes "hello") then refused code_malformed text else not_hello kind
greeted s written (response_frame resp) = not_hello (codes "response")
greeted s written (other_frame kind) = not_hello kind
greeted s written (hello_frame h) =
    if same_version h.version
    then identified s h written (s.auth h.slug h.token)
    else refused code_version (version_reason h.version)

-- The calls, and the endpoint of a client that was let in.
unfoldable pub handshake : Server → First → Bool → List Effect × Option Bytes
handshake s late written =
    refused code_handshake (codes "no hello frame within the handshake deadline")
handshake s broken written = ([], none)
handshake s (arrived frame) written = greeted s written frame

-- One frame in `readLoop`: the response that it delivers, or the reason of the end.
unfoldable pub read_frame : Frame → List Effect × Bool
read_frame (response_frame resp) = (delivered resp ∷ [], true)
read_frame binary =
    (closed_with code_malformed (codes "frames must be text, not binary") ∷ [], false)
read_frame (bad_envelope text) = (closed_with code_malformed text ∷ [], false)
read_frame (bad_payload kind text) = (
  closed_with code_malformed
        (if bytes_eq kind (codes "response") then text else codes "unexpected frame type " ++ kind)
      ∷ [],
  false,
)
read_frame (hello_frame h) =
    (closed_with code_malformed (codes "unexpected frame type hello") ∷ [], false)
read_frame (other_frame kind) =
    (closed_with code_malformed (codes "unexpected frame type " ++ kind) ∷ [], false)

-- How the loop stands: it goes on, it has ended because `readLoop` has, or it has ended and left the
-- goroutine of `readLoop` behind.
pub data Stop : Type 0 where
  going reader_ended reader_left : Stop

abbrev pub ended : Stop → Bool
ended going = false
ended reader_ended = true
ended reader_left = true

-- When `readLoop` has ended, the loop may still meet the server's end before it hears of that.
unfoldable pub reader_gone : List Turn → List Effect
reader_gone (shutdown ∷ turns) =
    closed_with code_server_shutdown (codes "server is shutting down") ∷ []
reader_gone turns = []

unfoldable pub serve : List Turn → List Effect × Stop
serve [] = ([], going)
serve (shutdown ∷ turns) =
    (closed_with code_server_shutdown (codes "server is shutting down") ∷ [], reader_left)
serve (read_fails ∷ turns) = (reader_gone turns, reader_ended)
serve (ping answered ∷ turns) =
    let rest = serve turns in if answered then rest else ([], reader_left)
serve (reads frame ∷ turns) =
    let rest = serve turns in
    let (calls, goes_on) = read_frame frame in
    if goes_on then (calls ++ rest.0, rest.1) else (calls ++ reader_gone turns, reader_ended)

-- `readLoop` over some frames, and whether it goes on.
unfoldable pub read_all : List Frame → List Effect × Bool
read_all [] = ([], true)
read_all (frame ∷ frames) =
    let rest = read_all frames in
    let (calls, goes_on) = read_frame frame in
    if goes_on then (calls ++ rest.0, rest.1) else (calls, false)

-- The goroutine of `readLoop` beside other calls: the frames that it takes before each of them, and
-- those that it still has in hand after the last.
unfoldable pub overtaken : List Effect → List (List Frame) → List Effect
overtaken [] [] = []
overtaken [] (frames ∷ after) = (read_all frames).0
overtaken (e ∷ rest) [] = e ∷ rest
overtaken (e ∷ rest) (frames ∷ after) =
    let read = read_all frames in read.0 ++ (e ∷ overtaken rest (if read.1 then after else []))

-- The deferred calls, the last first.
unfoldable pub deferred : Server → Bytes → List Effect
deferred s id =
    (if s.observed then gauge_closed ∷ [] else [])
    ++ (unregistered id ∷ client_closed ∷ connection_closed ∷ [])

-- What follows the loop; `after` is what its reader still takes.
unfoldable pub left : Server → Bytes → List (List Frame) → Stop → List Effect
left s id after going = []
left s id after reader_ended = deferred s id
left s id after reader_left = overtaken (deferred s id) after

unfoldable pub attached : Server → Bytes → Bool → List Turn → List (List Frame) → List Effect
attached s id replaces turns after =
    let (calls, stop) = serve turns in
    registered id
    ∷ ((if replaces then replaced ∷ [] else [])
        ++ ((if s.observed then opened ∷ [] else []) ++ (calls ++ left s id after stop)))

-- What follows the handshake; `replaces` is whether the inbox had a client.
unfoldable pub handled :
    Server → List Effect × Option Bytes → Bool → List Turn → List (List Frame) → List Effect
handled s (calls, none) replaces turns after = calls ++ (connection_closed ∷ [])
handled s (calls, some id) replaces turns after = calls ++ attached s id replaces turns after

-- `Handle` after the upgrade, with what its reader does behind it.
unfoldable pub handle : Server → First → Bool → Bool → List Turn → List (List Frame) → List Effect
handle s first written replaces turns after =
    handled s (handshake s first written) replaces turns after
