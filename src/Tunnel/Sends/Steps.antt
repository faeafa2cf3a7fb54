-- ===== src/Tunnel/Sends/Steps.antt =====
-- Every event of internal/tunnel/hub.go's requests in flight keeps the invariant, and none panics.
use hooklens.Base.{
  ℕ, ◌<◌, ◌+◌, ◌%◌, ◌^◌, ◌≡◌, refl, Bool, true, false, Option, none, bytes_key, arith,
  if◌then◌else◌, ◌==◌, ◌-◌, Bool-cases, Option-cases, inl, inr, ltb,
}
use hooklens.Tunnel.Sends.{
  Client, Sender, Phase, Verdict, answered, queued, holding, numbered, awaiting, leaving, releasing,
  finished, max_in_flight, semaphore_cap, enter, Turn, blocked, panics, moves, acquire, number,
  take_answer, release,
}
use hooklens.Tunnel.Sends.Moves.{
  number_of, holds, listed, past, response_of, At, Inv, Fits, Fits-Inv,
}

-- What a turn may come to: a client that satisfies the invariant, or nothing yet; never a panic.
abbrev pub Keeps : ℕ → Turn → Type 0
Keeps n blocked = Unit
Keeps n panics = ⊥
Keeps n (moves c) = Inv n c

-- A turn that depends on a test.
pub Keeps-if :
    (n : ℕ) (b : Bool) (t u : Turn)
    → (b ≡ true → Keeps n t)
    → (b ≡ false → Keeps n u)
    → Keeps n (if b then t else u)
Keeps-if n true t u yes' no' = yes' refl
Keeps-if n false t u yes' no' = no' refl

-- A call moves to a phase with the same id that holds as many slots, and still waits in `pending`
-- if it did.
pub record Alike (s : Sender) (p : Phase) : Type 0 where
  pub number : number_of p ≡ number_of s.phase
  pub slots : holds p ≡ holds s.phase
  pub listed_on : listed s.phase ≡ true → listed p ≡ true
  pub past_on : past s.phase ≡ true → past p ≡ true
  pub no_answer : response_of p ≡ none

module _ (n : ℕ) (c : Client) (i : ℕ) (s : Sender) (here : At c i s) (v : Inv n c) where
  -- The facts of the invariant at the call that moves.
  Alike-Fits : (p : Phase) → Alike s p → Fits n c i s (record s { phase = p }) c.slots c.next_id
  Alike-Fits p a = record {
    weight = omega (arith, a.slots);
    within = v.within;
    grows = omega arith;
    counted = v.counted;
    issued = λ k e. ground (arith, a.number, v.issued i k s here);
    unique = λ j k t b e e'. ground (arith, a.number, v.unique j i k t s b here);
    expected = λ key e. ground (arith, a.number, a.listed_on, v.expected key i);
    accepted = λ r e. ground (arith, a.number, a.past_on, v.accepted i r);
    routed = λ r e. ground (arith, a.number, a.past_on, v.routed i s r here);
    correlated = λ r e. ground (arith, a.no_answer);
  }

  pub Alike-Inv : (p : Phase) → Alike s p → Inv n (enter c i s p)
  Alike-Inv p a =
      Fits-Inv n n c i s (record s { phase = p }) c.slots c.next_id here v (Alike-Fits p a)

  pub acquire-Keeps : s.phase ≡ queued → Keeps n (acquire c i s)
  unfolding acquire
  acquire-Keeps at = elim (Bool-cases (ltb c.slots (semaphore_cap max_in_flight))) [
    | inl room ↦
        rw (room, acquire)
          (Fits-Inv n n c i s (record s { phase = holding }) (c.slots + 1) c.next_id here v
            (record {
              weight = ground arith;
              within = unfold semaphore_cap in ground arith;
              grows = omega arith;
              counted = v.counted;
              issued = λ k e. cc;
              unique = λ j k t b e e'. cc;
              expected = λ key e. ground (arith, v.expected key i);
              accepted = λ r e. ground (arith, v.accepted i r);
              routed = λ r e. ground (arith, v.routed i s r here);
              correlated = λ r e. cc;
            }))
    | inr full ↦ rw (full, acquire) tt
  ]

  pub number-Keeps : n + 1 < 2 ^ 64 → s.phase ≡ holding → Keeps (n + 1) (number c i s)
  unfolding number
  number-Keeps small at =
      let id = (c.next_id + 1) % 2 ^ 64 in
      let fresh : id ≡ c.next_id + 1 = omega (arith, v.counted) in
      Fits-Inv (n + 1) n c i s (record s { phase = numbered id }) c.slots id here v
        (record {
          weight = ground arith;
          within = v.within;
          grows = omega arith;
          counted = omega (arith, v.counted);
          issued = λ k e. ground arith;
          unique = λ j k t b e e'. absurd (ground (arith, v.issued j k t b));
          expected = λ key e. ground (arith, v.expected key i);
          accepted = λ r e. ground (arith, v.accepted i r);
          routed = λ r e. ground (arith, v.routed i s r here);
          correlated = λ r e. cc;
        })

  pub take_answer-Keeps : (id : ℕ) → s.phase ≡ awaiting id → Keeps n (take_answer c i s id)
  unfolding take_answer
  take_answer-Keeps id at = elim (Option-cases s.chan) [
    | inl e ↦ rw (e, take_answer) tt
    | inr (r, e) ↦
        rw (e, take_answer)
          (Fits-Inv n n c i s (record { phase = leaving id (answered r); chan = none }) c.slots
            c.next_id here v
            (record {
              weight = ground arith;
              within = v.within;
              grows = omega arith;
              counted = v.counted;
              issued = λ k w. ground (arith, v.issued i k s here);
              unique = λ j k t b w w'. ground (arith, v.unique j i k t s b here);
              expected = λ key w. ground (arith, v.expected key i);
              accepted = λ r' w. ground (arith, v.accepted i r');
              routed = λ r' w. cc;
              correlated = λ r' w. ground (arith, v.routed i s r here e);
            }))
  ]

  pub release-Keeps :
      (id : Option ℕ) (d : Verdict) → s.phase ≡ releasing id d → Keeps n (release c i s id d)
  unfolding release
  release-Keeps id d at = elim (Bool-cases (c.slots == 0)) [
    | inl empty ↦ rw (empty, release) tt
    | inr some_taken ↦
        rw (some_taken, release)
          (Fits-Inv n n c i s (record s { phase = finished id d }) (c.slots - 1) c.next_id here v
            (record {
              weight = ground arith;
              within = ground (arith, v.within);
              grows = omega arith;
              counted = v.counted;
              issued = λ k w. ground (arith, v.issued i k s here);
              unique = λ j k t b w w'. ground (arith, v.unique j i k t s b here);
              expected = λ key w. ground (arith, v.expected key i);
              accepted = λ r w. ground (arith, v.accepted i r);
              routed = λ r w. ground (arith, v.routed i s r here);
              correlated = λ r w. ground (arith, v.correlated i s r here);
            }))
  ]
