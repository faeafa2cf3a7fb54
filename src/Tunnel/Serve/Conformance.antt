-- ===== src/Tunnel/Serve/Conformance.antt =====
-- internal/tunnel/server.go: the order of the calls for one connection.
use hooklens.Base.{
  ◌≡◌, ◌⊎◌, ◌∙◌, refl, ap, Bool, true, false, Option, none, some, List, [], ◌∷◌, ◌++◌, Bytes, codes,
  bytes_eq, bytes_eq_refl, if◌then◌else◌, arith, inl, inr,
}
use hooklens.Tunnel.Protocol.{code_malformed, code_version}
use hooklens.Tunnel.Serve.{
  Hello, Frame, binary, bad_envelope, bad_payload, hello_frame, response_frame, other_frame, Auth,
  granted, unauthorized, failure, Server, First, late, broken, arrived, Turn, shutdown, read_fails,
  reads, ping, Stop, going, reader_ended, reader_left, ended, Effect, closed_with, registered,
  replaced, opened, connection_closed, same_version, refused, not_hello, version_reason, identified,
  greeted, handshake, read_frame, reader_gone, serve, left, attached, handled, handle,
}
use hooklens.Tunnel.Serve.Phases.{
  Phase, waiting, over, let_in, serving, ending, known_as, follows, advance, replay, conforms,
  replay-append,
}
use hooklens.Tunnel.Serve.Reader.{after_delivered, after_close, Near, reader_gone-Near, left-Behind}

module _ (s : Server) where
  -- The calls of a loop that was entered while serving keep it serving, or end it.
  abbrev Kept : Bytes → Bool → Stop → Option Phase → Type 0
  Kept id g stop p = (p ≡ some (serving id g)) ⊎ ((p ≡ some (ending id g)) × (ended stop ≡ true))

  Near-Kept :
      (id : Bytes) (g : Bool) (stop : Stop) (p : Option Phase)
      → ended stop ≡ true
      → Near s id g p
      → Kept id g stop p
  Near-Kept id g stop p is (inl e) = inl e
  Near-Kept id g stop p is (inr e) = inr (e, is)

  Kept-Near :
      (id : Bytes) (g : Bool) (stop : Stop) (p : Option Phase) → Kept id g stop p → Near s id g p
  Kept-Near id g stop p (inl e) = inl e
  Kept-Near id g stop p (inr (e, is)) = inr e

  closing-Kept :
      (id : Bytes) (g : Bool) (code reason : Bytes) (turns : List Turn)
      → Kept id g reader_ended
          (replay s (some (serving id g)) (closed_with code reason ∷ reader_gone turns))
  unfolding replay advance
  closing-Kept id g code reason turns =
      Near-Kept id g reader_ended _ refl
        (reader_gone-Near s id g turns _ (inr (after_close s id g code reason)))

  serve-Kept :
      (id : Bytes) (g : Bool) (turns : List Turn)
      → Kept id g (serve turns).1 (replay s (some (serving id g)) (serve turns).0)
  unfolding serve read_frame replay advance
  serve-Kept id g [] = inl refl
  serve-Kept id g (shutdown ∷ turns) = inr (after_close s id g _ _, refl)
  serve-Kept id g (read_fails ∷ turns) =
      Near-Kept id g reader_ended _ refl (reader_gone-Near s id g turns _ (inl refl))
  serve-Kept id g (ping true ∷ turns) = serve-Kept id g turns
  serve-Kept id g (ping false ∷ turns) = inl refl
  serve-Kept id g (reads binary ∷ turns) = closing-Kept id g _ _ turns
  serve-Kept id g (reads (bad_envelope text) ∷ turns) = closing-Kept id g _ _ turns
  serve-Kept id g (reads (bad_payload kind text) ∷ turns) = closing-Kept id g _ _ turns
  serve-Kept id g (reads (hello_frame h) ∷ turns) = closing-Kept id g _ _ turns
  serve-Kept id g (reads (other_frame kind) ∷ turns) = closing-Kept id g _ _ turns
  serve-Kept id g (reads (response_frame resp) ∷ turns) =
      let rest = serve-Kept id g turns in
      let same = ap (λ p. replay s p (serve turns).0) (after_delivered s id g resp) in
      elim rest [ inl e ↦ inl (same ∙ e) | inr (e, is) ↦ inr (same ∙ e, is) ]

  entered :
      (id : Bytes) (replaces o : Bool) (rest : List Effect)
      → replay s (some (let_in id)) (
          registered id
          ∷ ((if replaces then replaced ∷ [] else []) ++ ((if o then opened ∷ [] else []) ++ rest)))
        ≡ replay s (some (serving id o)) rest
  unfolding replay advance follows
  entered id true true rest = ground (arith, bytes_eq_refl id)
  entered id true false rest = ground (arith, bytes_eq_refl id)
  entered id false true rest = ground (arith, bytes_eq_refl id)
  entered id false false rest = ground (arith, bytes_eq_refl id)

  left_conforms :
      (id : Bytes) (after : List (List Frame)) (stop : Stop) (p : Option Phase)
      → Kept id s.observed stop p
      → conforms (ended stop) (replay s p (left s id after stop)) ≡ true
  unfolding conforms replay left
  left_conforms id after going p (inl e) = ap (conforms false) e
  left_conforms id after going p (inr (e, is)) = absurd (cc is)
  left_conforms id after reader_ended p k =
      ap (conforms true)
        (left-Behind s id after reader_ended p refl (Kept-Near id s.observed reader_ended p k))
  left_conforms id after reader_left p k =
      ap (conforms true)
        (left-Behind s id after reader_left p refl (Kept-Near id s.observed reader_left p k))

  attached-conforms :
      (id : Bytes) (replaces : Bool) (turns : List Turn) (after : List (List Frame))
      → conforms
          (ended (serve turns).1)
          (replay s (some (let_in id)) (attached s id replaces turns after))
        ≡ true
  unfolding attached
  attached-conforms id replaces turns after =
      let calls = (serve turns).0 in
      let stop = (serve turns).1 in
      let tail = left s id after stop in
      ap (conforms (ended stop)) (
        entered id replaces s.observed (calls ++ tail)
        ∙ replay-append s (some (serving id s.observed)) calls tail)
      ∙ left_conforms id after stop (replay s (some (serving id s.observed)) calls)
          (serve-Kept id s.observed turns)

  -- What the handshake leaves: a client that was let in, or a connection that can only be closed.
  abbrev Greeted : List Effect × Option Bytes → Type 0
  Greeted (calls, none) = replay s (some waiting) (calls ++ (connection_closed ∷ [])) ≡ some over
  Greeted (calls, some id) = replay s (some waiting) calls ≡ some (let_in id)

  refused-Greeted : (code reason : Bytes) → Greeted (refused code reason)
  unfolding replay advance follows
  refused-Greeted code reason = refl

  identified-Greeted :
      (h : Hello) (written : Bool) (auth : Auth)
      → s.auth h.slug h.token ≡ auth
      → Greeted (identified s h written auth)
  unfolding identified replay advance follows known_as
  identified-Greeted h true (granted id) e = ground (arith, e)
  identified-Greeted h false (granted id) e = ground (arith, e)
  identified-Greeted h written unauthorized e = ground (arith, e)
  identified-Greeted h written failure e = ground (arith, e)

  Greeted-if :
      (b : Bool) (x y : List Effect × Option Bytes)
      → Greeted x
      → Greeted y
      → Greeted (if b then x else y)
  Greeted-if true x y h k = h
  Greeted-if false x y h k = k

  greeted-Greeted : (written : Bool) (frame : Frame) → Greeted (greeted s written frame)
  unfolding greeted
  greeted-Greeted written binary = refused-Greeted _ _
  greeted-Greeted written (bad_envelope text) = refused-Greeted _ _
  greeted-Greeted written (bad_payload kind text) =
      Greeted-if (bytes_eq kind (codes "hello")) (refused code_malformed text) (not_hello kind)
        (refused-Greeted code_malformed text)
        (refused-Greeted code_malformed (codes "first frame must be hello, got " ++ kind))
  greeted-Greeted written (response_frame resp) = refused-Greeted _ _
  greeted-Greeted written (other_frame kind) = refused-Greeted _ _
  greeted-Greeted written (hello_frame h) =
      Greeted-if (same_version h.version) (identified s h written (s.auth h.slug h.token))
        (refused code_version (version_reason h.version))
        (identified-Greeted h written (s.auth h.slug h.token) refl)
        (refused-Greeted code_version (version_reason h.version))

  handshake-Greeted : (first : First) (written : Bool) → Greeted (handshake s first written)
  unfolding handshake replay advance follows
  handshake-Greeted late written = refl
  handshake-Greeted broken written = refl
  handshake-Greeted (arrived frame) written = greeted-Greeted written frame

  handled-conforms :
      (let_in_calls : List Effect × Option Bytes) (replaces : Bool) (turns : List Turn)
      (after : List (List Frame))
      → Greeted let_in_calls
      → conforms
          (ended (serve turns).1)
          (replay s (some waiting) (handled s let_in_calls replaces turns after))
        ≡ true
  unfolding handled conforms
  handled-conforms (calls, none) replaces turns after h = ap (conforms (ended (serve turns).1)) h
  handled-conforms (calls, some id) replaces turns after h =
      ap (conforms (ended (serve turns).1)) (
        replay-append s (some waiting) calls (attached s id replaces turns after)
        ∙ ap (λ p. replay s p (attached s id replaces turns after)) h)
      ∙ attached-conforms id replaces turns after

  -- The calls for a connection are in the order of the protocol, whatever the socket delivers and
  -- authentication answers, and whatever its reader still takes beside and behind the calls that end
  -- it: a client is registered only for the inbox that authentication let it into and after its
  -- answer is written, a response is delivered only from then on, the gauge goes down exactly as it
  -- went up, the client is removed and then closed, and the connection is closed unless nothing has
  -- ended the loop.
  pub handle-conforms :
      (first : First) (written replaces : Bool) (turns : List Turn) (after : List (List Frame))
      → conforms
          (ended (serve turns).1)
          (replay s (some waiting) (handle s first written replaces turns after))
        ≡ true
  unfolding handle
  handle-conforms first written replaces turns after =
      handled-conforms (handshake s first written) replaces turns after
        (handshake-Greeted first written)
