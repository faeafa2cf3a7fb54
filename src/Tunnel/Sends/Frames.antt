-- ===== src/Tunnel/Sends/Frames.antt =====
-- The events of internal/tunnel/hub.go that change the map of waiting requests: `send` enters an
-- id, `forget` and `deliver` take it out, `close` empties the map.
use hooklens.Base.{
  ℕ, ◌≡◌, ◌≢◌, refl, true, none, some, Bytes, bytes_eq_iff, bytes_eq_refl, bytes_key, lookup,
  delete, lookup-delete, get_elem?, get_elem?-set, format_uint, format_uint-injective, arith,
  Bool-cases, Option-cases, inl, inr,
}
use hooklens.Tunnel.Protocol.{Response}
use hooklens.Tunnel.Sends.{
  Client, Sender, Verdict, failed, numbered, registered, leaving, releasing, put, enter, moves,
  register, forget, take_frame, put_frame, mark_closed, close_done, disconnected,
}
use hooklens.Tunnel.Sends.Moves.{number_of, is_empty, accepts, spot, At, Inv, Fits-Inv}
use hooklens.Tunnel.Sends.Steps.{Keeps, Keeps-if, Alike-Inv}
use hooklens.Tunnel.Sends.Entries.{insert-Inv, delete-Inv, hand-Inv, empty-Inv}

module _ (n : ℕ) (c : Client) (v : Inv n c) where
  pub take_frame-Keeps : (r : Response) → Keeps n (take_frame r c)
  unfolding take_frame
  take_frame-Keeps r = elim (Option-cases c.hand) [
    | inr (w, e) ↦ rw (e, take_frame) tt
    | inl e ↦ elim (Option-cases (lookup r.req_id c.pending)) [
      | inl out ↦ rw (e, out, take_frame) v
      | inr (i, found) ↦
          rw (e, found, take_frame)
            (hand-Inv n (record c { pending = delete r.req_id c.pending })
              (delete-Inv n c v r.req_id) i r (ready i found)
              (ground (arith, lookup-delete r.req_id r.req_id c.pending, bytes_eq_refl r.req_id)))
    ]
  ]
    where
      ready : (i : ℕ) → lookup r.req_id c.pending ≡ some i → spot (accepts r.req_id) c i ≡ true
      ready i found = elim (Option-cases (get_elem? c.senders i)) [
        | inl e ↦ ground (arith, v.expected r.req_id i found)
        | inr (s, e) ↦ ground (arith, v.expected r.req_id i found)
      ]

  pub mark_closed-Keeps : Keeps n (mark_closed c)
  unfolding mark_closed lookup
  mark_closed-Keeps =
      Keeps-if n c.closed _ _ (λ e. v)
        λ e. record {
          held = v.held;
          within = v.within;
          counted = v.counted;
          issued = v.issued;
          unique = v.unique;
          expected = λ key i w. cc;
          accepted = v.accepted;
          taken = λ i r w. refl;
          routed = v.routed;
          correlated = v.correlated;
          cleared = λ w. refl;
          closing_once = λ w. ground (arith, v.done_closed);
          done_closed = λ w. refl;
        }

  -- The channel `done` is closed once: no close finds it closed.
  pub close_done-Keeps : Keeps n (close_done c)
  unfolding close_done
  close_done-Keeps = elim (Bool-cases c.closing) [
    | inr e ↦ rw (e, close_done) tt
    | inl e ↦
        let (marked, still) = v.closing_once e in
        rw (e, still, close_done)
          (record {
            held = v.held;
            within = v.within;
            counted = v.counted;
            issued = v.issued;
            unique = v.unique;
            expected = v.expected;
            accepted = v.accepted;
            taken = v.taken;
            routed = v.routed;
            correlated = v.correlated;
            cleared = v.cleared;
            closing_once = λ w. cc;
            done_closed = λ w. marked;
          })
  ]

  -- The channel that takes a response has room: the reader does not wait.
  pub put_frame-moves :
      (i : ℕ) (r : Response)
      → c.hand ≡ some (i, r)
      → (c' : Client) × (put_frame c ≡ moves c') × Inv n c'
  unfolding put_frame
  put_frame-moves i r e = elim (Option-cases (get_elem? c.senders i)) [
    | inl gone ↦ absurd (ground (arith, v.accepted i r e))
    | inr (s, here) ↦ elim (Option-cases s.chan) [
      | inr (old, full) ↦ absurd (ground (arith, v.accepted i r e))
      | inl room ↦ (
        record (put c i (record s { chan = some r })) { hand = none },
        rw (e, here, room, put_frame),
        Fits-Inv n n (record c { hand = none }) i s (record s { chan = some r }) c.slots c.next_id
            here (empty-Inv n c v)
            (record {
              weight = omega arith;
              within = v.within;
              grows = omega arith;
              counted = v.counted;
              issued = λ k w. v.issued i k s here w;
              unique = λ j k t b w w'. v.unique j i k t s b here w' w;
              expected = λ key w. absurd (waiting s here room key w);
              accepted = λ r' w. cc;
              routed = λ r' w. ground (arith, v.accepted i r e);
              correlated = λ r' w. v.correlated i s r' here w;
            }),
      )
    ]
  ]
    where
      -- The call in whose channel the response goes waits under that id alone.
      waiting :
          (s : Sender)
          → At c i s
          → s.chan ≡ none
          → (key : Bytes) → lookup key c.pending ≡ some i
          → ⊥
      waiting s here room key w = elim (Option-cases (number_of s.phase)) [
        | inl none_yet ↦ ground (arith, v.accepted i r e)
        | inr (k, num) ↦ ground (
          arith,
          v.accepted i r e,
          v.expected key i w,
          v.taken i r e,
          bytes_eq_iff (format_uint k) key,
          bytes_eq_iff (format_uint k) r.req_id,
        )
      ]

  module _ (i : ℕ) (s : Sender) (here : At c i s) where
    pub register-Keeps : (id : ℕ) → s.phase ≡ numbered id → Keeps n (register c i s id)
    unfolding register
    register-Keeps id at =
        Keeps-if n c.closed _ _
          (λ e. Alike-Inv n c i s here v (releasing (some id) (failed disconnected)) (record {
            number = ground arith;
            slots = ground arith;
            listed_on = λ w. ground arith;
            past_on = λ w. refl;
            no_answer = refl;
          }))
          (λ e.
            insert-Inv n (enter c i s (registered id))
              (Alike-Inv n c i s here v (registered id) (record {
                number = ground arith;
                slots = ground arith;
                listed_on = λ w. refl;
                past_on = λ w. refl;
                no_answer = refl;
              }))
              (format_uint id) i e
              (ground (
                arith,
                get_elem?-set c.senders i i (record s { phase = registered id }) s here,
                bytes_eq_refl (format_uint id),
                v.routed i s,
                chan_empty at,
              ))
              (free id at))
      where
        chan_empty : {id : ℕ} → s.phase ≡ numbered id → is_empty s.chan ≡ true
        chan_empty at = elim (Option-cases s.chan) [
          | inl none_yet ↦ ground arith
          | inr (r, e) ↦ absurd (ground (arith, v.routed i s r here e))
        ]

        -- Nobody else has this id, so no response for it is in hand.
        free :
            (id : ℕ)
            → s.phase ≡ numbered id
            → (j : ℕ) (r : Response) → c.hand ≡ some (j, r)
            → r.req_id ≢ format_uint id
        free id at j r e q = elim (Option-cases (get_elem? c.senders j)) [
          | inl gone ↦ ground (arith, v.accepted j r e)
          | inr (t, there) ↦ elim (Option-cases (number_of t.phase)) [
            | inl none_yet ↦ ground (arith, v.accepted j r e)
            | inr (k, num) ↦ ground (
              arith,
              v.accepted j r e,
              bytes_eq_iff (format_uint k) r.req_id,
              format_uint-injective k id,
              v.unique j i id t s there here,
            )
          ]
        ]

    pub forget-Keeps : (id : ℕ) (d : Verdict) → s.phase ≡ leaving id d → Keeps n (forget c i s id d)
    unfolding forget
    forget-Keeps id d at =
        let key = format_uint id in
        let c' : Client = record c { pending = delete key c.pending } in
        let v' : Inv n c' = delete-Inv n c v key in
        Fits-Inv n n c' i s (record s { phase = releasing (some id) d }) c.slots c.next_id here v'
          (record {
            weight = ground arith;
            within = v.within;
            grows = omega arith;
            counted = v.counted;
            issued = λ k w. ground (arith, v.issued i k s here);
            unique = λ j k t b w w'. ground (arith, v.unique j i k t s b here);
            expected = λ k w.
                absurd (
                  ground
                    (arith, lookup-delete key k c.pending, v.expected k i, bytes_eq_iff key k));
            accepted = λ r w. ground (arith, v.accepted i r);
            routed = λ r w. ground (arith, v.routed i s r here);
            correlated = λ r w. ground (arith, v.correlated i s r here);
          })
