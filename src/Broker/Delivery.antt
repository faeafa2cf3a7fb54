-- ===== src/Broker/Delivery.antt =====
-- What a publication and a cancellation of internal/broker/broker.go do to each subscriber.
use hooklens.Base.{
  ℕ, ◌≤◌, ◌<◌, ◌+◌, ◌≡◌, ◌≢◌, refl, none, some, [], ◌∷◌, ◌++◌, Bytes, bytes_eq_refl, nat_key,
  bytes_key, lookup, lookup-delete, arith, length,
}
use hooklens.Base.Outcomes.{ok}
use hooklens.Broker.{Broker, Subscriber, Message, buffer, watchers, offer, publish, unsubscribe}
use hooklens.Broker.Topics.{watchers-drop_watcher}
use hooklens.Broker.Sends.{delivered}
use hooklens.Broker.Safety.{Inv, publish-delivered}

-- What a publication leaves at a subscriber.
pub record Effect (topic : Bytes) (m : Message) (b b' : Broker) (s : ℕ) (sub : Subscriber)
    : Type 0 where
  pub room :
      lookup s (watchers b.subs topic) ≢ none
      → length sub.queue < buffer
      → b'.heap s ≡ some (record sub { queue = sub.queue ++ m ∷ [] })
  pub full :
      lookup s (watchers b.subs topic) ≢ none
      → buffer ≤ length sub.queue
      → b'.heap s ≡ some (record sub { dropped = sub.dropped + 1 })
  pub other : lookup s (watchers b.subs topic) ≡ none → b'.heap s ≡ some sub

-- A publication ends without a panic and changes no subscription. Each watcher of the topic with
-- room has the message at the end of its queue; each watcher with a full queue has one more
-- dropped message; every other subscriber is as it was.
publish-Effect :
    (topic : Bytes) (m : Message) (b : Broker)
    → Inv b
    → (b' : Broker) × (publish topic m b ≡ ok b')
      × (b'.subs ≡ b.subs)
      × ((s : ℕ) (sub : Subscriber) → b.heap s ≡ some sub → Effect topic m b b' s sub)
unfolding offer
publish-Effect topic m b v = (
  record b { heap = delivered m (watchers b.subs topic) b.heap },
  publish-delivered topic m b v,
  refl,
  λ s sub e. record {
    room = λ w r. ground arith;
    full = λ w f. ground arith;
    other = λ w. ground arith;
  },
)

-- A second cancellation of the same subscription changes nothing: it does not reach the close.
unsubscribe_twice :
    (topic : Bytes) (s : ℕ) (b b' : Broker)
    → unsubscribe topic s b ≡ ok b'
    → unsubscribe topic s b' ≡ ok b'
unfolding unsubscribe
unsubscribe_twice topic s b b' done = ground (
  arith,
  watchers-drop_watcher topic topic s b.subs,
  bytes_eq_refl topic,
  lookup-delete s s (watchers b.subs topic),
)
