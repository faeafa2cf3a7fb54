-- ===== src/Tunnel/Backoff.antt =====
-- internal/tunnel/backoff.go and the loop `Client.Run` of internal/tunnel/client.go. A duration is
-- an int64 of nanoseconds, kept as its bit pattern where it may overflow. `rand.N` is a parameter.
pub mod Delays
use hooklens.Base.{
  ℕ, zero, suc, ◌+◌, ◌*◌, ◌%◌, ◌^◌, ◌≤◌, ◌<◌, min, ◌≡◌, refl, Bool, true, false, ◌||◌, Option, none,
  some, List, [], ◌∷◌, ltb, leb, ◌==◌, arith, if◌then◌else◌,
}
use hooklens.Tunnel.Protocol.{CloseError, permanent}

abbrev pub millisecond : ℕ
millisecond = 1_000_000

abbrev pub second : ℕ
second = 1_000_000_000

abbrev pub backoff_base : ℕ
backoff_base = 500 * millisecond

abbrev pub backoff_max : ℕ
backoff_max = 30 * second

abbrev pub stable_session : ℕ
stable_session = 30 * second

pub record Backoff : Type 0 where
  pub base : ℕ
  pub limit : ℕ
  pub attempt : ℕ

unfoldable pub new : Backoff
new = record { base = backoff_base; limit = backoff_max; attempt = 0 }

-- The shift wraps at 64 bits, and a pattern from 2 ^ 63 on is a negative duration.
unfoldable pub ceiling : Backoff → ℕ
ceiling b =
    let shifted = b.base * 2 ^ min b.attempt 32 % 2 ^ 64 in
    if leb (2 ^ 63) shifted || shifted == 0 || ltb b.limit shifted then b.limit else shifted

unfoldable pub reset : Backoff → Backoff
reset b = record b { attempt = 0 }

-- `draw n` is `rand.N(n)`.
unfoldable pub next : (ℕ → ℕ) → Backoff → Backoff × ℕ
next draw b = (record b { attempt = b.attempt + 1 }, draw (ceiling b))

-- What one `connectOnce` and the wait behind it came to: the close frame that ended it, if one did;
-- how long it lasted; whether the user had interrupted; and whether the wait ran to its end.
pub record Attempt : Type 0 where
  pub ending : Option CloseError
  pub session : ℕ
  pub interrupted : Bool
  pub woken : Bool

pub data Exit : Type 0 where
  orderly : Exit
  gave_up : CloseError → Exit
  still_running : Backoff → Exit

-- `errors.As(err, &ce) && ce.Permanent()`.
unfoldable pub rejection : Option CloseError → Option CloseError
rejection none = none
rejection (some e) = if permanent e then some e else none

-- A session that lasted counts as success, whatever ended it.
unfoldable pub after_session : Attempt → Backoff → Backoff
unfolding reset
after_session a b = if leb stable_session a.session then reset b else b

-- `Client.Run` over a script of attempts: how it ends, and the delays that it waited. The script's
-- end stands for a loop that goes on.
unfoldable pub run : (ℕ → ℕ) → Backoff → List Attempt → Exit × List ℕ
unfolding rejection next
run draw b [] = (still_running b, [])
run draw b (a ∷ rest) =
    let (b'', delay) = next draw (after_session a b) in
    let more = run draw b'' rest in
    if a.interrupted then (orderly, []) else elim (rejection a.ending) [
      | some e ↦ (gave_up e, [])
      | none ↦ if a.woken then (more.0, delay ∷ more.1) else (orderly, delay ∷ [])
    ]
