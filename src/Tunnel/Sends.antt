-- ===== src/Tunnel/Sends.antt =====
-- internal/tunnel/hub.go (`client`) and internal/tunnel/semaphore.go: the requests in flight on one
-- tunnel. A call of `send` is a goroutine with a phase; the reader's `deliver` and every `close`
-- interleave with the calls, one event at a time. A step under `c.mu` is one event.
pub mod Moves
pub mod Steps
pub mod Entries
pub mod Frames
pub mod Safety
mod Tests
use hooklens.Base.{
  ℕ, suc, ◌+◌, ◌-◌, ◌%◌, ◌^◌, Bool, true, false, Option, none, some, List, [], ◌∷◌, Bytes, Key,
  bytes_key, Map, lookup, insert, delete, get_elem?, set, replicate, format_uint, ltb, ◌==◌,
  if◌then◌else◌,
}
use hooklens.Tunnel.Protocol.{Response}

abbrev pub max_in_flight : ℕ
max_in_flight = 32

-- `newSemaphore`: the capacity of the channel that is the semaphore.
unfoldable pub semaphore_cap : ℕ → ℕ
semaphore_cap n = if n == 0 then 1 else n

pub data SendError : Type 0 where
  no_tunnel timeout disconnected overloaded encode_failed write_failed : SendError

pub data Verdict : Type 0 where
  answered : Response → Verdict
  failed : SendError → Verdict

-- Where a call of `send` stands. A number is the request's id, whose text is its decimal form; the
-- phases behind it remember it. `leaving` is about to run the deferred `forget`, and `releasing` the
-- deferred `release`, which a call without an id runs too.
pub data Phase : Type 0 where
  idle queued holding : Phase
  numbered registered awaiting : ℕ → Phase
  leaving : ℕ → Verdict → Phase
  releasing finished : Option ℕ → Verdict → Phase

-- A call's phase and its channel, which has room for one response.
pub record Sender : Type 0 where
  pub phase : Phase
  pub chan : Option Response

-- `hand` is the response that `deliver` took out of the map and has not yet sent on; `closing` says
-- that a `close` has set the flag and has not yet closed the channel `done`.
pub record Client : Type 0 where
  pub slots : ℕ
  pub next_id : ℕ
  pub pending : Map Bytes ℕ
  pub closed : Bool
  pub closing : Bool
  pub done : Bool
  pub hand : Option (ℕ × Response)
  pub senders : List Sender

abbrev pub fresh_sender : Sender
fresh_sender = record { phase = idle; chan = none }

-- `newClient`, with as many calls to come as the argument says.
pub new : ℕ → Client
new calls = record {
  slots = 0;
  next_id = 0;
  pending = [];
  closed = false;
  closing = false;
  done = false;
  hand = none;
  senders = replicate calls fresh_sender;
}

-- What an event comes to: it cannot happen now, it panics, or the client moves on.
pub data Turn : Type 0 where
  blocked panics : Turn
  moves : Client → Turn

abbrev pub put : Client → ℕ → Sender → Client
put c i s = record c { senders = set c.senders i s }

abbrev pub enter : Client → ℕ → Sender → Phase → Client
enter c i s p = put c i (record s { phase = p })

pub data Event : Type 0 where
  begins acquires expires numbers registers : Event
  encode_fails write_fails writes : Event
  takes_answer sees_done gives_up : Event
  forgets releases : Event

pub acquire : Client → ℕ → Sender → Turn
unfolding semaphore_cap
acquire c i s =
    if ltb c.slots (semaphore_cap max_in_flight)
    then moves (record (enter c i s holding) { slots = c.slots + 1 })
    else blocked

-- `c.nextID.Add(1)` on a uint64.
pub number : Client → ℕ → Sender → Turn
number c i s =
    let id = (c.next_id + 1) % 2 ^ 64 in moves (record (enter c i s (numbered id)) { next_id = id })

pub register : Client → ℕ → Sender → ℕ → Turn
register c i s id =
    if c.closed
    then moves (enter c i s (releasing (some id) (failed disconnected)))
    else moves
        (record (enter c i s (registered id)) { pending = insert (format_uint id) i c.pending })

pub take_answer : Client → ℕ → Sender → ℕ → Turn
take_answer c i s id = elim s.chan [
  | none ↦ blocked
  | some r ↦ moves (put c i (record { phase = leaving id (answered r); chan = none }))
]

pub see_done : Client → ℕ → Sender → ℕ → Turn
see_done c i s id =
    if c.done then moves (enter c i s (leaving id (failed disconnected))) else blocked

-- `forget`: drop the pending entry if it is still there.
pub forget : Client → ℕ → Sender → ℕ → Verdict → Turn
forget c i s id v =
    moves
      (record (enter c i s (releasing (some id) v)) { pending = delete (format_uint id) c.pending })

-- `<-s` waits while the channel is empty.
pub release : Client → ℕ → Sender → Option ℕ → Verdict → Turn
release c i s id v =
    if c.slots == 0
    then blocked
    else moves (record (enter c i s (finished id v)) { slots = c.slots - 1 })

-- The body of `send`, one event at a time.
pub dispatch : Event → Phase → Client → ℕ → Sender → Turn
dispatch begins idle c i s = moves (enter c i s queued)
dispatch acquires queued c i s = acquire c i s
dispatch expires queued c i s = moves (enter c i s (finished none (failed overloaded)))
dispatch numbers holding c i s = number c i s
dispatch registers (numbered id) c i s = register c i s id
dispatch encode_fails (registered id) c i s =
    moves (enter c i s (leaving id (failed encode_failed)))
dispatch write_fails (registered id) c i s = moves (enter c i s (leaving id (failed write_failed)))
dispatch writes (registered id) c i s = moves (enter c i s (awaiting id))
dispatch takes_answer (awaiting id) c i s = take_answer c i s id
dispatch sees_done (awaiting id) c i s = see_done c i s id
dispatch gives_up (awaiting id) c i s = moves (enter c i s (leaving id (failed timeout)))
dispatch forgets (leaving id v) c i s = forget c i s id v
dispatch releases (releasing id v) c i s = release c i s id v
dispatch _ _ c i s = blocked

pub send_step : Event → ℕ → Client → Turn
unfolding dispatch acquire number register take_answer see_done forget release
send_step e i c = elim (get_elem? c.senders i) [
  | none ↦ blocked
  | some s ↦ dispatch e s.phase c i s
]

-- The part of `deliver` under the lock. The one reader does not read on with a response in hand.
pub take_frame : Response → Client → Turn
take_frame r c = elim c.hand [
  | some _ ↦ blocked
  | none ↦ elim (lookup r.req_id c.pending) [
    | none ↦ moves c
    | some i ↦ moves (record c { pending = delete r.req_id c.pending; hand = some (i, r) })
  ]
]

-- `ch <- resp`: it waits while the channel's one place is taken.
pub put_frame : Client → Turn
put_frame c = elim c.hand [
  | none ↦ blocked
  | some (i, r) ↦ elim (get_elem? c.senders i) [
    | none ↦ blocked
    | some s ↦ elim s.chan [
      | some _ ↦ blocked
      | none ↦ moves (record (put c i (record s { chan = some r })) { hand = none })
    ]
  ]
]

-- `close`, under the lock: a second call returns at once.
pub mark_closed : Client → Turn
mark_closed c =
    if c.closed then moves c else moves (record c { closed = true; closing = true; pending = [] })

-- `close(c.done)`, outside the lock. A second close of a channel panics.
pub close_done : Client → Turn
close_done c =
    if c.closing
    then (if c.done then panics else moves (record c { closing = false; done = true }))
    else blocked

pub data Action : Type 0 where
  sends : Event → ℕ → Action
  reads : Response → Action
  hands_over marks_closed closes_done : Action

pub step : Action → Client → Turn
step (sends e i) c = send_step e i c
step (reads r) c = take_frame r c
step hands_over c = put_frame c
step marks_closed c = mark_closed c
step closes_done c = close_done c

-- A schedule of events. One that cannot happen now is passed over.
pub run : List Action → Client → Option Client
run [] c = some c
run (a ∷ as') c = elim (step a c) [ blocked ↦ run as' c | panics ↦ none | moves c' ↦ run as' c' ]
