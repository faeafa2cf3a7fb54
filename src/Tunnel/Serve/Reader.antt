-- ===== src/Tunnel/Serve/Reader.antt =====
-- internal/tunnel/server.go: the goroutine of `readLoop` beside the end of its connection.
use hooklens.Base.{
  ◌≡◌, ◌⊎◌, ◌∙◌, refl, sym, ap, Bool, true, false, some, List, [], ◌∷◌, Bytes, bytes_eq_refl,
  if◌then◌else◌, Option, arith, inl, inr,
}
use hooklens.Tunnel.Protocol.{Response}
use hooklens.Tunnel.Serve.{
  Frame, binary, bad_envelope, bad_payload, hello_frame, response_frame, other_frame, Server, Turn,
  shutdown, read_fails, reads, ping, Stop, going, reader_ended, reader_left, ended, Effect,
  closed_with, delivered, gauge_closed, unregistered, client_closed, connection_closed, read_frame,
  reader_gone, read_all, overtaken, deferred, left,
}
use hooklens.Tunnel.Serve.Phases.{
  Phase, serving, ending, removed, shut, behind, follows, advance, replay, replay-append,
}

overtaken-nil : (es : List Effect) → overtaken es [] ≡ es
unfolding overtaken
overtaken-nil [] = refl
overtaken-nil (e ∷ es) = refl

abbrev nothing : Response
nothing = record { req_id = []; status = 0; headers = []; body_b64 = []; error = [] }

module _ (s : Server) where
  pub after_delivered :
      (id : Bytes) (g : Bool) (resp : Response)
      → follows s (serving id g) (delivered resp) ≡ some (serving id g)
  unfolding follows
  after_delivered id true resp = refl
  after_delivered id false resp = refl

  pub after_close :
      (id : Bytes) (g : Bool) (code reason : Bytes)
      → follows s (serving id g) (closed_with code reason) ≡ some (ending id g)
  unfolding follows
  after_close id true code reason = refl
  after_close id false code reason = refl

  ending_stays :
      (id : Bytes) (g : Bool) (resp : Response) (code reason : Bytes)
      → (follows s (ending id g) (delivered resp) ≡ some (ending id g))
        × (follows s (ending id g) (closed_with code reason) ≡ some (ending id g))
  unfolding follows
  ending_stays id true resp code reason = (refl, refl)
  ending_stays id false resp code reason = (refl, refl)

  -- Served, or told to end.
  abbrev pub Near : Bytes → Bool → Option Phase → Type 0
  Near id g p = (p ≡ some (serving id g)) ⊎ (p ≡ some (ending id g))

  -- What the reader does leaves a property of the phase as it is.
  pub record Stays (K : Option Phase → Type 0) : Type 0 where
    pub on_delivered : (resp : Response) (p : Option Phase) → K p → K (advance s p (delivered resp))
    pub on_closed :
        (code reason : Bytes) (p : Option Phase) → K p → K (advance s p (closed_with code reason))

  Near-Stays : (id : Bytes) (g : Bool) → Stays (Near id g)
  unfolding advance follows
  Near-Stays id g = record {
    on_delivered = λ resp p near. elim near [
      | inl e ↦ inl (ap (λ q. advance s q (delivered resp)) e ∙ after_delivered id g resp)
      | inr e ↦ inr (ap (λ q. advance s q (delivered resp)) e ∙ (ending_stays id g resp [] []).0)
    ];
    on_closed = λ code reason p near. elim near [
      | inl e ↦
          inr (ap (λ q. advance s q (closed_with code reason)) e ∙ after_close id g code reason)
      | inr e ↦ inr (
          ap (λ q. advance s q (closed_with code reason)) e
          ∙ (ending_stays id g nothing code reason).1)
    ];
  }

  removed-Stays : Stays (λ p. p ≡ some removed)
  unfolding advance follows
  removed-Stays = record {
    on_delivered = λ resp p e. ap (λ q. advance s q (delivered resp)) e;
    on_closed = λ code reason p e. ap (λ q. advance s q (closed_with code reason)) e;
  }

  shut-Stays : Stays (λ p. p ≡ some shut)
  unfolding advance follows
  shut-Stays = record {
    on_delivered = λ resp p e. ap (λ q. advance s q (delivered resp)) e;
    on_closed = λ code reason p e. ap (λ q. advance s q (closed_with code reason)) e;
  }

  abbrev pub Behind : Option Phase → Type 0
  Behind p = p ≡ some behind

  Behind-Stays : Stays Behind
  unfolding advance follows
  Behind-Stays = record {
    on_delivered = λ resp p e. ap (λ q. advance s q (delivered resp)) e;
    on_closed = λ code reason p e. ap (λ q. advance s q (closed_with code reason)) e;
  }

  read_all-Stays :
      {K : Option Phase → Type 0} (stays : Stays K) (frames : List Frame) (p : Option Phase)
      → K p
      → K (replay s p (read_all frames).0)
  unfolding read_all read_frame replay
  read_all-Stays stays [] p k = k
  read_all-Stays stays (response_frame resp ∷ frames) p k =
      read_all-Stays stays frames (advance s p (delivered resp)) (stays.on_delivered resp p k)
  read_all-Stays stays (binary ∷ frames) p k = stays.on_closed _ _ p k
  read_all-Stays stays (bad_envelope text ∷ frames) p k = stays.on_closed _ _ p k
  read_all-Stays stays (bad_payload kind text ∷ frames) p k = stays.on_closed _ _ p k
  read_all-Stays stays (hello_frame h ∷ frames) p k = stays.on_closed _ _ p k
  read_all-Stays stays (other_frame kind ∷ frames) p k = stays.on_closed _ _ p k

  pub reader_gone-Near :
      (id : Bytes) (g : Bool) (turns : List Turn) (p : Option Phase)
      → Near id g p
      → Near id g (replay s p (reader_gone turns))
  unfolding reader_gone replay
  reader_gone-Near id g [] p k = k
  reader_gone-Near id g (shutdown ∷ turns) p k = (Near-Stays id g).on_closed _ _ p k
  reader_gone-Near id g (read_fails ∷ turns) p k = k
  reader_gone-Near id g (reads frame ∷ turns) p k = k
  reader_gone-Near id g (ping answered ∷ turns) p k = k

  -- One more call, whatever the reader does before it.
  overtaken-call :
      {K next : Option Phase → Type 0} (stays : Stays K) (e : Effect) (rest : List Effect)
      → ((p : Option Phase) → K p → next (advance s p e))
      → ((after : List (List Frame)) (p : Option Phase)
          → next p
          → Behind (replay s p (overtaken rest after)))
      → (after : List (List Frame)) (p : Option Phase) → K p
      → Behind (replay s p (overtaken (e ∷ rest) after))
  unfolding overtaken replay
  overtaken-call stays e rest step go_on [] p k =
      ap (λ es. replay s (advance s p e) es) (sym (overtaken-nil rest))
      ∙ go_on [] (advance s p e) (step p k)
  overtaken-call stays e rest step go_on (frames ∷ after) p k =
      let read = read_all frames in
      let more = if read.1 then after else [] in
      let here = replay s p read.0 in
      replay-append s p read.0 (e ∷ overtaken rest more)
      ∙ go_on more (advance s here e) (step here (read_all-Stays stays frames p k))

  overtaken_end :
      (after : List (List Frame)) (p : Option Phase)
      → Behind p
      → Behind (replay s p (overtaken [] after))
  unfolding overtaken replay
  overtaken_end [] p k = k
  overtaken_end (frames ∷ after) p k = read_all-Stays Behind-Stays frames p k

  overtaken_close :
      (after : List (List Frame)) (p : Option Phase)
      → p ≡ some removed
      → Behind (replay s p (overtaken (client_closed ∷ connection_closed ∷ []) after))
  unfolding advance follows
  overtaken_close =
      overtaken-call removed-Stays client_closed (connection_closed ∷ [])
        (λ p e. ap (λ q. advance s q client_closed) e)
        (overtaken-call shut-Stays connection_closed []
          (λ p e. ap (λ q. advance s q connection_closed) e) overtaken_end)

  unregistered_next :
      (id : Bytes) (p : Option Phase)
      → Near id false p
      → advance s p (unregistered id) ≡ some removed
  unfolding advance follows
  unregistered_next id p (inl e) =
      ap (λ q. advance s q (unregistered id)) e ∙ ground (arith, bytes_eq_refl id)
  unregistered_next id p (inr e) =
      ap (λ q. advance s q (unregistered id)) e ∙ ground (arith, bytes_eq_refl id)

  overtaken_leave :
      (id : Bytes) (after : List (List Frame)) (p : Option Phase)
      → Near id false p
      → Behind
          (replay s p (overtaken (unregistered id ∷ client_closed ∷ connection_closed ∷ []) after))
  overtaken_leave id =
      overtaken-call (Near-Stays id false) (unregistered id)
        (client_closed ∷ connection_closed ∷ []) (unregistered_next id) overtaken_close

  gauge_next :
      (id : Bytes) (p : Option Phase) → Near id true p → Near id false (advance s p gauge_closed)
  unfolding advance follows
  gauge_next id p (inl e) = inr (ap (λ q. advance s q gauge_closed) e)
  gauge_next id p (inr e) = inr (ap (λ q. advance s q gauge_closed) e)

  pub deferred-Behind :
      (id : Bytes) (o : Bool)
      → s.observed ≡ o
      → (after : List (List Frame)) (p : Option Phase) → Near id o p
      → Behind (replay s p (overtaken (deferred s id) after))
  unfolding deferred replay advance follows
  deferred-Behind id true e after p k = rw e (
      overtaken-call (Near-Stays id true) gauge_closed
        (unregistered id ∷ client_closed ∷ connection_closed ∷ []) (gauge_next id)
        (overtaken_leave id) after p k)
  deferred-Behind id false e after p k = rw e (overtaken_leave id after p k)

  pub left-Behind :
      (id : Bytes) (after : List (List Frame)) (stop : Stop) (p : Option Phase)
      → ended stop ≡ true
      → Near id s.observed p
      → Behind (replay s p (left s id after stop))
  unfolding left
  left-Behind id after going p is k = absurd (cc is)
  left-Behind id after reader_ended p is k =
      ap (λ es. replay s p es) (sym (overtaken-nil (deferred s id)))
      ∙ deferred-Behind id s.observed refl [] p k
  left-Behind id after reader_left p is k = deferred-Behind id s.observed refl after p k
