-- ===== src/Tunnel/Sends/Safety.antt =====
-- What every schedule of internal/tunnel/hub.go's calls, reader and closes keeps: no panic, no
-- blocked reader, answers that belong to their requests, and nothing left behind.
use hooklens.Base.{
  ℕ, ◌<◌, ◌+◌, ◌^◌, ◌≡◌, refl, sym, ◌∙◌, ◌-◌, Bool, true, false, Option, none, some, List, [], ◌∷◌,
  Bytes, bytes_key, lookup, get_elem?, get_elem?-replicate, weigh-replicate, all_of,
  all_of-get_elem?, weigh_of_all, weigh-get_elem?-le, format_uint, arith, Option-cases, inl, inr,
  length, bytes_eq_iff,
}
use hooklens.Tunnel.Protocol.{Response}
use hooklens.Tunnel.Sends.{
  Client, Sender, Phase, Verdict, answered, idle, queued, holding, numbered, registered, awaiting,
  leaving, releasing, finished, fresh_sender, new, enter, Turn, blocked, panics, moves, Event,
  begins, acquires, expires, numbers, registers, encode_fails, write_fails, writes, takes_answer,
  sees_done, gives_up, forgets, releases, see_done, release, dispatch, send_step, put_frame, Action,
  sends, reads, hands_over, marks_closed, closes_done, step, run,
}
use hooklens.Tunnel.Sends.Moves.{Inv, At, holds}
use hooklens.Tunnel.Sends.Steps.{
  Keeps, Keeps-if, Alike, Alike-Inv, acquire-Keeps, number-Keeps, take_answer-Keeps, release-Keeps,
}
use hooklens.Tunnel.Sends.Frames.{
  take_frame-Keeps, put_frame-moves, mark_closed-Keeps, close_done-Keeps, register-Keeps,
  forget-Keeps,
}

Inv-later : (n : ℕ) (c : Client) → Inv n c → Inv (n + 1) c
Inv-later n c v = record {
  held = v.held;
  within = v.within;
  counted = omega (arith, v.counted);
  issued = v.issued;
  unique = v.unique;
  expected = v.expected;
  accepted = v.accepted;
  taken = v.taken;
  routed = v.routed;
  correlated = v.correlated;
  cleared = v.cleared;
  closing_once = v.closing_once;
  done_closed = v.done_closed;
}

Keeps-later : (n : ℕ) (t : Turn) → Keeps n t → Keeps (n + 1) t
Keeps-later n blocked k = tt
Keeps-later n panics k = k
Keeps-later n (moves c) k = Inv-later n c k

module _ (n : ℕ) (c : Client) (i : ℕ) (s : Sender) (here : At c i s) (v : Inv n c) where
  alike : (p : Phase) → Alike s p → Inv (n + 1) (enter c i s p)
  alike p a = Inv-later n _ (Alike-Inv n c i s here v p a)

  see_done-Keeps : (id : ℕ) → s.phase ≡ awaiting id → Keeps (n + 1) (see_done c i s id)
  unfolding see_done
  see_done-Keeps id at = Keeps-if (n + 1) c.done _ _ (λ e. alike _ (ground arith)) (λ e. tt)

  dispatch-Keeps :
      n + 1 < 2 ^ 64 → (e : Event) (p : Phase) → s.phase ≡ p → Keeps (n + 1) (dispatch e p c i s)
  unfolding dispatch
  dispatch-Keeps small begins idle at = alike queued (ground arith)
  dispatch-Keeps small acquires queued at = Keeps-later n _ (acquire-Keeps n c i s here v at)
  dispatch-Keeps small expires queued at = alike _ (ground arith)
  dispatch-Keeps small numbers holding at = number-Keeps n c i s here v small at
  dispatch-Keeps small registers (numbered id) at =
      Keeps-later n _ (register-Keeps n c v i s here id at)
  dispatch-Keeps small encode_fails (registered id) at = alike _ (ground arith)
  dispatch-Keeps small write_fails (registered id) at = alike _ (ground arith)
  dispatch-Keeps small writes (registered id) at = alike _ (ground arith)
  dispatch-Keeps small takes_answer (awaiting id) at =
      Keeps-later n _ (take_answer-Keeps n c i s here v id at)
  dispatch-Keeps small sees_done (awaiting id) at = see_done-Keeps id at
  dispatch-Keeps small gives_up (awaiting id) at = alike _ (ground arith)
  dispatch-Keeps small forgets (leaving id d) at =
      Keeps-later n _ (forget-Keeps n c v i s here id d at)
  dispatch-Keeps small releases (releasing id d) at =
      Keeps-later n _ (release-Keeps n c i s here v id d at)
  dispatch-Keeps small _ _ at = tt

put_frame-Keeps : (n : ℕ) (c : Client) → Inv n c → Keeps n (put_frame c)
put_frame-Keeps n c v = elim (Option-cases c.hand) [
  | inl e ↦ unfold put_frame in rw (e, put_frame) tt
  | inr (w, e) ↦ let (c', moved, v') = put_frame-moves n c v w.0 w.1 e in rw moved v'
]

step-Keeps : (n : ℕ) (a : Action) (c : Client) → n + 1 < 2 ^ 64 → Inv n c → Keeps (n + 1) (step a c)
unfolding step send_step
step-Keeps n (sends e i) c small v = elim (Option-cases (get_elem? c.senders i)) [
  | inl gone ↦ rw (gone, send_step) tt
  | inr (s, here) ↦ rw (here, send_step) (dispatch-Keeps n c i s here v small e s.phase refl)
]
step-Keeps n (reads r) c small v = Keeps-later n _ (take_frame-Keeps n c v r)
step-Keeps n hands_over c small v = Keeps-later n _ (put_frame-Keeps n c v)
step-Keeps n marks_closed c small v = Keeps-later n _ (mark_closed-Keeps n c v)
step-Keeps n closes_done c small v = Keeps-later n _ (close_done-Keeps n c v)

new-Inv : (calls : ℕ) → Inv 0 (new calls)
unfolding new lookup
new-Inv calls = record {
  held = sym (weigh-replicate (λ (s : Sender). holds s.phase) calls fresh_sender refl);
  within = omega arith;
  counted = omega arith;
  issued = λ i k s a e. ground (arith, get_elem?-replicate calls i fresh_sender s);
  unique = λ i j k s t a b e e'. ground (arith, get_elem?-replicate calls i fresh_sender s);
  expected = λ key i e. cc;
  accepted = λ i r e. cc;
  taken = λ i r e. cc;
  routed = λ i s r a e. ground (arith, get_elem?-replicate calls i fresh_sender s);
  correlated = λ i s r a e. ground (arith, get_elem?-replicate calls i fresh_sender s);
  cleared = λ e. refl;
  closing_once = λ e. cc;
  done_closed = λ e. cc;
}

run-Inv :
    (as' : List Action) (n m : ℕ) (c : Client)
    → n + length as' ≡ m
    → m < 2 ^ 64
    → Inv n c
    → (c' : Client) × (run as' c ≡ some c') × Inv m c'
unfolding run
run-Inv [] n m c e small v = let q : n ≡ m = omega arith in (c, refl, rw (← q) v)
run-Inv (a ∷ as') n m c e small v =
    go (λ c' v'. run-Inv as' (n + 1) m c' (omega arith) small v') (step a c)
      (step-Keeps n a c (omega arith) v)
  where
    go :
        ((c' : Client) → Inv (n + 1) c' → (d : Client) × (run as' c' ≡ some d) × Inv m d)
        → (t : Turn) → Keeps (n + 1) t
        → (d : Client) × (elim t [ blocked ↦ run as' c | panics ↦ none | moves c' ↦ run as' c' ]
            ≡ some d)
          × Inv m d
    go later blocked k = later c (Inv-later n c v)
    go later panics k = absurd k
    go later (moves c') k = later c' k

-- From a new tunnel with any number of calls of `send`, every schedule of fewer than 2 ^ 64 events
-- runs without a panic (so `done` is closed at most once), and the client it leaves satisfies the
-- invariant: among other things, at most 32 calls hold a slot, and the ids in use differ.
pub run_schedule-Inv :
    (calls : ℕ) (as' : List Action)
    → length as' < 2 ^ 64
    → (c : Client) × (run as' (new calls) ≡ some c) × Inv (length as') c
run_schedule-Inv calls as' small =
    run-Inv as' 0 (length as') (new calls) (omega arith) small (new-Inv calls)

-- The client after a schedule that starts at a new tunnel.
abbrev pub Reached : Client → Type 0
Reached c =
    (calls : ℕ) × (as' : List Action) × (length as' < 2 ^ 64) × (run as' (new calls) ≡ some c)

Reached-Inv : (c : Client) → Reached c → (n : ℕ) × Inv n c
Reached-Inv c (calls, as', small, e) =
    let (d, e', v) = run_schedule-Inv calls as' small in
    let same : d ≡ c = ground arith in (length as', rw same at v)

-- In every client that a schedule reaches, a call that ended with a response got the response whose
-- id is the id of its own request.
pub answer_correlated :
    (c : Client) (i k : ℕ) (s : Sender) (r : Response)
    → Reached c
    → At c i s
    → s.phase ≡ finished (some k) (answered r)
    → r.req_id ≡ format_uint k
answer_correlated c i k s r reached here e =
    let (n, v) = Reached-Inv c reached in
    ground (arith, v.correlated i s r here, bytes_eq_iff (format_uint k) r.req_id)

-- In every client that a schedule reaches, the reader never waits: a response that `deliver` has
-- taken out of the map goes into its call's channel at once.
pub reader_never_waits :
    (c : Client) (i : ℕ) (r : Response)
    → Reached c
    → c.hand ≡ some (i, r)
    → (c' : Client) × (step hands_over c ≡ moves c') × (c'.hand ≡ none)
unfolding step put_frame
reader_never_waits c i r reached e =
    let (n, v) = Reached-Inv c reached in
    let (c', moved, v') = put_frame-moves n c v i r e in (c', moved, ground arith)

-- In every client that a schedule reaches, the deferred release of a call that holds a slot never
-- waits.
release_never_waits :
    (c : Client) (i : ℕ) (s : Sender) (id : Option ℕ) (d : Verdict)
    → Reached c
    → At c i s
    → s.phase ≡ releasing id d
    → send_step releases i c ≡ moves (record (enter c i s (finished id d)) { slots = c.slots - 1 })
unfolding send_step dispatch release
release_never_waits c i s id d reached here e =
    let (n, v) = Reached-Inv c reached in
    ground (arith, v.held, weigh-get_elem?-le (λ (x : Sender). holds x.phase) c.senders i s here)

abbrev pub is_finished : Phase → Bool
is_finished (finished id d) = true
is_finished _ = false

finished_holds : (s : Sender) → is_finished s.phase ≡ true → holds s.phase ≡ 0
finished_holds s h = ground arith

-- In every client that a schedule reaches, once all calls have ended no slot is taken and no request
-- is waiting in the map: nothing leaks on any exit path.
pub nothing_leaks :
    (c : Client)
    → Reached c
    → all_of (λ s. is_finished s.phase) c.senders ≡ true
    → (c.slots ≡ 0) × ((key : Bytes) → lookup key c.pending ≡ none)
nothing_leaks c reached over =
    let (n, v) = Reached-Inv c reached in
    (
      v.held
          ∙ weigh_of_all (λ (x : Sender). holds x.phase) (λ x. is_finished x.phase) finished_holds
              c.senders over,
      λ key. unlisted n v key (lookup key c.pending) refl,
    )
  where
    unlisted :
        (n : ℕ) → Inv n c → (key : Bytes) (o : Option ℕ) → lookup key c.pending ≡ o → o ≡ none
    unlisted n v key none e = refl
    unlisted n v key (some i) e = elim (Option-cases (get_elem? c.senders i)) [
      | inl gone ↦ absurd (ground (arith, v.expected key i e))
      | inr (s, here) ↦ absurd (
          ground (
            arith,
            v.expected key i e,
            all_of-get_elem? (λ (x : Sender). is_finished x.phase) c.senders i s over here,
          ))
    ]
