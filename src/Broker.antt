-- ===== src/Broker.antt =====
-- internal/broker/broker.go: the publish/subscribe hub. A subscriber is a pointer, so it is a
-- number that indexes a heap; its channel is a queue of at most `buffer` messages with a flag.
-- One mutex serialises the methods, so a run is a sequence of calls.
pub mod Topics
pub mod Sends
pub mod Safety
pub mod Delivery
mod Tests
use hooklens.Base.{
  ℕ, suc, ◌+◌, Bool, true, false, Option, none, some, List, [], ◌∷◌, ◌++◌, Bytes, Key, nat_key,
  bytes_key, Map, lookup, insert, delete, length, ltb, ◌==◌, if◌then◌else◌,
}
use hooklens.Base.Outcomes.{Outcome, ok, panic, ◌>>=◌}

abbrev pub buffer : ℕ
buffer = 32

pub record Message : Type 0 where
  pub event : Bytes
  pub payload : Bytes

pub record Subscriber : Type 0 where
  pub queue : List Message
  pub closed : Bool
  pub dropped : ℕ

abbrev pub Heap : Type 0
Heap = ℕ → Option Subscriber

pub update : Heap → ℕ → Subscriber → Heap
update h s v j = if s == j then some v else h j

abbrev pub Topics : Type 0
Topics = Map Bytes (Map ℕ (Unit {0}))

pub record Broker : Type 0 where
  pub subs : Topics
  pub heap : Heap
  pub fresh : ℕ

pub new : Broker
new = record { subs = []; heap = λ _. none; fresh = 0 }

-- `b.subs[topic]`: a missing topic reads as the nil map, which has no entry.
pub watchers : Topics → Bytes → Map ℕ (Unit {0})
watchers subs topic = elim (lookup topic subs) [ none ↦ [] | some set ↦ set ]

pub subscribe : Bytes → Broker → Broker × ℕ
unfolding watchers
subscribe topic b =
    let s = b.fresh in
    (
      record {
        subs = insert topic (insert s tt (watchers b.subs topic)) b.subs;
        heap = update b.heap s (record { queue = []; closed = false; dropped = 0 });
        fresh = suc b.fresh;
      },
      s,
    )

-- `close(s.ch)` panics on a closed channel.
pub close : Heap → ℕ → Outcome Heap
close h s = elim (h s) [
  | none ↦ panic
  | some sub ↦ if sub.closed then panic else ok (update h s (record sub { closed = true }))
]

-- `delete(b.subs[topic], s)`, and the topic too when its set is empty.
pub drop_watcher : Topics → Bytes → ℕ → Topics
unfolding watchers
drop_watcher subs topic s =
    let rest = delete s (watchers subs topic) in
    if length rest == 0 then delete topic subs else insert topic rest subs

pub unsubscribe : Bytes → ℕ → Broker → Outcome Broker
unfolding close drop_watcher watchers
unsubscribe topic s b = elim (lookup s (watchers b.subs topic)) [
  | none ↦ ok b
  | some _ ↦ do h ← close b.heap s; ok (record b { subs = drop_watcher b.subs topic s; heap = h })
]

-- The `select` with a default: the message is queued, or dropped and counted.
pub offer : Message → Subscriber → Subscriber
offer m s =
    if ltb (length s.queue) buffer
    then record s { queue = s.queue ++ m ∷ [] }
    else record s { dropped = s.dropped + 1 }

-- A send on a closed channel panics.
pub send : Message → ℕ → Heap → Outcome Heap
unfolding offer
send m s h = elim (h s) [
  | none ↦ panic
  | some sub ↦ if sub.closed then panic else ok (update h s (offer m sub))
]

pub send_all : Message → Map ℕ (Unit {0}) → Heap → Outcome Heap
send_all m [] h = ok h
send_all m ((s, _) ∷ set) h = do h' ← send m s h; send_all m set h'

pub publish : Bytes → Message → Broker → Outcome Broker
unfolding watchers
publish topic m b = do h ← send_all m (watchers b.subs topic) b.heap; ok (record b { heap = h })

pub dropped : ℕ → Broker → ℕ
dropped s b = elim (b.heap s) [ none ↦ 0 | some sub ↦ sub.dropped ]

pub subscribers : Bytes → Broker → ℕ
unfolding watchers
subscribers topic b = length (watchers b.subs topic)

-- `<-s.C()` of the subscriber's goroutine, where a message waits. It takes no lock.
abbrev tail_of : Subscriber → Subscriber
tail_of s = elim s.queue [ [] ↦ s | m ∷ rest ↦ record s { queue = rest } ]

pub receive : ℕ → Broker → Broker
receive s b = elim (b.heap s) [
  | none ↦ b
  | some sub ↦ record b { heap = update b.heap s (tail_of sub) }
]

pub data Call : Type 0 where
  subscribes : Bytes → Call
  unsubscribes : Bytes → ℕ → Call
  publishes : Bytes → Message → Call
  receives : ℕ → Call

pub step : Call → Broker → Outcome Broker
step (subscribes topic) b = ok (subscribe topic b).0
step (unsubscribes topic s) b = unsubscribe topic s b
step (publishes topic m) b = publish topic m b
step (receives s) b = ok (receive s b)

pub run : List Call → Broker → Outcome Broker
run [] b = ok b
run (c ∷ cs) b = do b' ← step c b; run cs b'
