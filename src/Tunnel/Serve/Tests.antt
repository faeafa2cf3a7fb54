-- ===== src/Tunnel/Serve/Tests.antt =====
-- A connection that is served, and one that is turned away.
use hooklens.Base.{
  ◌≡◌, refl, true, false, some, List, [], ◌∷◌, ◌++◌, codes, bytes_eq, pos, if◌then◌else◌,
}
use hooklens.Tunnel.Protocol.{Response, code_malformed, code_server_shutdown}
use hooklens.Tunnel.Serve.{
  Hello, binary, hello_frame, response_frame, granted, unauthorized, Server, arrived, Turn, reads,
  ping, asked, closed_with, welcomed, registered, replaced, opened, delivered, gauge_closed,
  unregistered, client_closed, connection_closed, same_version, identified, greeted, handshake,
  read_frame, reader_gone, read_all, overtaken, ended, shutdown, serve, deferred, left, attached,
  handled, handle,
}
use hooklens.Tunnel.Serve.Phases.{waiting, replay, conforms}
use hooklens.Tunnel.Serve.Conformance.{handle-conforms}

program : Unit {0}
unfolding bytes_eq same_version identified greeted handshake read_frame reader_gone read_all
    overtaken serve deferred left attached handled handle
program = tt

abbrev server : Server
server = record {
  auth = λ slug token. if bytes_eq token (codes "k") then granted (codes "e") else unauthorized;
  public_url = λ slug. codes "https://" ++ slug;
  ping_seconds = 30;
  observed = true;
}

abbrev hello : Hello
hello = record { version = pos 1; slug = codes "a7f3"; token = codes "k" }

abbrev response : Response
response = record { req_id = codes "1"; status = 200; headers = []; body_b64 = []; error = [] }

abbrev turns : List Turn
turns =
    ping true
    ∷ reads (response_frame response)
    ∷ reads binary
    ∷ reads (response_frame response)
    ∷ []

handle-conforms_example :
    conforms (ended (serve turns).1) (
      replay server (some waiting) (handle server (arrived (hello_frame hello)) true true turns []))
    ≡ true
handle-conforms_example = handle-conforms server (arrived (hello_frame hello)) true true turns []

served_in_order :
    handle server (arrived (hello_frame hello)) true true turns []
    ≡ asked (codes "a7f3") (codes "k")
      ∷ welcomed
          (record { slug = codes "a7f3"; public_url = codes "https://a7f3"; ping_seconds = 30 })
      ∷ registered (codes "e")
      ∷ replaced
      ∷ opened
      ∷ delivered response
      ∷ closed_with code_malformed (codes "frames must be text, not binary")
      ∷ gauge_closed
      ∷ unregistered (codes "e")
      ∷ client_closed
      ∷ connection_closed
      ∷ []
unfolding program
served_in_order = refl

-- After the close frame of a shutdown, a response that was on its way is still delivered.
late_response :
    handle server
      (arrived (hello_frame hello))
      true
      false
      (shutdown ∷ [])
      ([] ∷ (response_frame response ∷ []) ∷ [])
    ≡ asked (codes "a7f3") (codes "k")
      ∷ welcomed
          (record { slug = codes "a7f3"; public_url = codes "https://a7f3"; ping_seconds = 30 })
      ∷ registered (codes "e")
      ∷ opened
      ∷ closed_with code_server_shutdown (codes "server is shutting down")
      ∷ gauge_closed
      ∷ delivered response
      ∷ unregistered (codes "e")
      ∷ client_closed
      ∷ connection_closed
      ∷ []
unfolding program
late_response = refl
