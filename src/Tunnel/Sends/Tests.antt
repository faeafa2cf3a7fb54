-- ===== src/Tunnel/Sends/Tests.antt =====
-- Schedules of one tunnel, and the theorems at the clients that they reach.
use hooklens.Base.{
  ◌≡◌, refl, false, none, some, List, [], ◌∷◌, Bytes, bytes_eq, bytes_key, codes, lookup, insert,
  delete, get_elem?, set, replicate, format_uint, arith,
}
use hooklens.Tunnel.Protocol.{Response}
use hooklens.Tunnel.Sends.{
  Client, answered, failed, releasing, finished, awaiting, semaphore_cap, new, moves, begins,
  acquires, numbers, registers, writes, takes_answer, forgets, releases, gives_up, dispatch,
  send_step, take_frame, put_frame, mark_closed, close_done, Action, sends, reads, hands_over,
  marks_closed, closes_done, step, run, timeout,
}
use hooklens.Tunnel.Sends.Moves.{Inv}
use hooklens.Tunnel.Sends.Safety.{
  Reached, run_schedule-Inv, answer_correlated, reader_never_waits, nothing_leaks,
}

program : Unit {0}
unfolding bytes_eq lookup insert delete get_elem? set replicate format_uint semaphore_cap new
    dispatch send_step take_frame put_frame mark_closed close_done step run
program = tt

abbrev yes_sir : Response
yes_sir = record { req_id = codes "1"; status = 200; headers = []; body_b64 = []; error = [] }

abbrev sending : List Action
sending =
    sends begins 0
    ∷ sends acquires 0
    ∷ sends numbers 0
    ∷ sends registers 0
    ∷ sends writes 0
    ∷ reads yes_sir
    ∷ []

abbrev closing_twice : List Action
closing_twice = marks_closed ∷ marks_closed ∷ closes_done ∷ closes_done ∷ []

run_schedule-Inv_example : (c : Client) × (run closing_twice (new 2) ≡ some c) × Inv 4 c
run_schedule-Inv_example = run_schedule-Inv 2 closing_twice (omega arith)

abbrev in_hand : Client
in_hand = record {
  slots = 1;
  next_id = 1;
  pending = [];
  closed = false;
  closing = false;
  done = false;
  hand = some (0, yes_sir);
  senders = record { phase = awaiting 1; chan = none } ∷ [];
}

in_hand-Reached : Reached in_hand
unfolding program
in_hand-Reached = (1, sending, omega arith, refl)

reader_never_waits_example : (c' : Client) × (step hands_over in_hand ≡ moves c') × (c'.hand ≡ none)
reader_never_waits_example = reader_never_waits in_hand 0 yes_sir in_hand-Reached refl

abbrev served : Client
served = record in_hand {
  slots = 0;
  hand = none;
  senders = record { phase = finished (some 1) (answered yes_sir); chan = none } ∷ [];
}

abbrev serving : List Action
serving =
    sends begins 0
    ∷ sends acquires 0
    ∷ sends numbers 0
    ∷ sends registers 0
    ∷ sends writes 0
    ∷ reads yes_sir
    ∷ hands_over
    ∷ sends takes_answer 0
    ∷ sends forgets 0
    ∷ sends releases 0
    ∷ []

served-Reached : Reached served
unfolding program
served-Reached = (1, serving, omega arith, refl)

answer_correlated_example : yes_sir.req_id ≡ format_uint 1
unfolding program
answer_correlated_example =
    answer_correlated served 0 1
      (record { phase = finished (some 1) (answered yes_sir); chan = none }) yes_sir served-Reached
      refl refl

nothing_leaks_example : (served.slots ≡ 0) × ((key : Bytes) → lookup key served.pending ≡ none)
nothing_leaks_example = nothing_leaks served served-Reached refl

-- The caller gave up, and the late response went into its channel all the same.
abbrev late : Client
late = record in_hand {
  hand = none;
  senders = record { phase = releasing (some 1) (failed timeout); chan = some yes_sir } ∷ [];
}

abbrev giving_up : List Action
giving_up =
    sends begins 0
    ∷ sends acquires 0
    ∷ sends numbers 0
    ∷ sends registers 0
    ∷ sends writes 0
    ∷ reads yes_sir
    ∷ sends gives_up 0
    ∷ hands_over
    ∷ sends forgets 0
    ∷ []

late-Reached : Reached late
unfolding program
late-Reached = (1, giving_up, omega arith, refl)
