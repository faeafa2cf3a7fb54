-- ===== src/Broker/Safety.antt =====
-- That no sequence of calls of internal/broker/broker.go panics, and what always holds of the hub.
use hooklens.Base.{
  ℕ, ◌≤◌, ◌≡◌, ◌≢◌, refl, true, false, none, some, List, [], ◌∷◌, Bytes, bytes_eq_iff,
  bytes_eq_refl, Key, nat_key, bytes_key, Map, Distinct, lookup, insert, lookup-insert,
  lookup-delete, insert-Distinct, delete-Distinct, arith, length, length-append, ◌⊎◌, Option-cases,
  inl, inr,
}
use hooklens.Base.Outcomes.{ok}
use hooklens.Broker.{
  Broker, Subscriber, Message, Call, subscribes, unsubscribes, publishes, receives, buffer, update,
  new, watchers, subscribe, drop_watcher, unsubscribe, offer, publish, tail_of, receive, step, run,
}
use hooklens.Broker.Topics.{
  watchers-insert, watchers-drop_watcher, NoEmpty, insert-NoEmpty, drop_watcher-NoEmpty,
}
use hooklens.Broker.Sends.{update_lem, IsOpen, delivered, send_all-delivered}

-- What holds of the hub between two calls: whoever watches a topic has an open channel, watches no
-- other topic, and stands once in the set; no queue is longer than its buffer; a number not yet
-- given out names nothing; and no topic keeps an empty set.
pub record Inv (b : Broker) : Type 0 where
  pub live : (t : Bytes) (s : ℕ) → lookup s (watchers b.subs t) ≢ none → IsOpen b.heap s
  pub single :
      (t t' : Bytes) (s : ℕ)
      → lookup s (watchers b.subs t) ≢ none
      → lookup s (watchers b.subs t') ≢ none
      → t ≡ t'
  pub distinct : (t : Bytes) → Distinct (watchers b.subs t)
  pub bounded : (s : ℕ) (sub : Subscriber) → b.heap s ≡ some sub → length sub.queue ≤ buffer
  pub below : (s : ℕ) → b.fresh ≤ s → b.heap s ≡ none
  pub no_empty : NoEmpty b.subs

pub new-Inv : Inv new
unfolding new watchers lookup
new-Inv = record {
  live = λ t s w. absurd (w refl);
  single = λ t t' s w w'. absurd (w refl);
  distinct = λ t. tt;
  bounded = λ s sub e. cc;
  below = λ s h. refl;
  no_empty = λ t set e. cc;
}

-- Nobody watches under a number that was not given out.
unseen :
    (b : Broker) → Inv b → (t : Bytes) (s : ℕ) → b.fresh ≤ s → lookup s (watchers b.subs t) ≡ none
unseen b v t s h = elim (Option-cases (lookup s (watchers b.subs t))) [
  | inl e ↦ e
  | inr (u, e) ↦ absurd (ground (arith, v.live t s, v.below s h))
]

insert-ne-nil {ℓ κ} :
    {K : Type ℓ} {V : Type κ} ⦃e : Key K⦄ (k : K) (v : V) (m : Map K V) → insert k v m ≢ []
unfolding insert
insert-ne-nil k v [] h = cc
insert-ne-nil k v ((j, w) ∷ m) h = ground arith

pub subscribe-Inv : (topic : Bytes) (b : Broker) → Inv b → Inv (subscribe topic b).0
unfolding subscribe
subscribe-Inv topic b v =
    let n = b.fresh in
    let set = watchers b.subs topic in
    let idle : Subscriber = record { queue = []; closed = false; dropped = 0 } in
    record {
      live = λ t s w. ground (
        arith,
        watchers-insert topic t (insert n tt set) b.subs,
        lookup-insert n s tt set,
        v.live topic s,
        v.live t s,
        unseen b v t s,
        update_lem b.heap n idle s,
      );
      single = λ t t' s w w'. ground (
        arith,
        watchers-insert topic t (insert n tt set) b.subs,
        watchers-insert topic t' (insert n tt set) b.subs,
        bytes_eq_iff topic t,
        bytes_eq_iff topic t',
        lookup-insert n s tt set,
        unseen b v t s,
        unseen b v t' s,
        v.single t t' s,
      );
      distinct = λ t. ground (
        arith,
        watchers-insert topic t (insert n tt set) b.subs,
        insert-Distinct n tt set (v.distinct topic),
        v.distinct t,
      );
      bounded = λ s sub e. ground (arith, update_lem b.heap n idle s, v.bounded s sub);
      below = λ s h. ground (arith, update_lem b.heap n idle s, v.below s);
      no_empty = insert-NoEmpty topic (insert n tt set) b.subs (insert-ne-nil n tt set) v.no_empty;
    }

-- Under the invariant a publication does not panic, and comes to one offer for each watcher.
pub publish-delivered :
    (topic : Bytes) (m : Message) (b : Broker)
    → Inv b
    → publish topic m b ≡ ok (record b { heap = delivered m (watchers b.subs topic) b.heap })
unfolding publish
publish-delivered topic m b v =
    ground
      (arith, send_all-delivered m (watchers b.subs topic) b.heap (v.distinct topic) (v.live topic))

offer-bounded :
    (m : Message) (s : Subscriber) → length s.queue ≤ buffer → length (offer m s).queue ≤ buffer
unfolding offer
offer-bounded m s h = ground (arith, length-append s.queue (m ∷ []))

offer-closed : (m : Message) (s : Subscriber) → (offer m s).closed ≡ s.closed
unfolding offer
offer-closed m s = ground arith

publish-Inv :
    (topic : Bytes) (m : Message) (b : Broker)
    → Inv b
    → Inv (record b { heap = delivered m (watchers b.subs topic) b.heap })
publish-Inv topic m b v =
    let set = watchers b.subs topic in
    record {
      live = λ t s w. elim (Option-cases (b.heap s)) [
        | inl e ↦ ground (arith, v.live t s)
        | inr (sub, e) ↦ ground (arith, v.live t s, offer-closed m sub)
      ];
      single = v.single;
      distinct = v.distinct;
      bounded = λ s sub e. elim (Option-cases (b.heap s)) [
        | inl gone ↦ ground arith
        | inr (old, was) ↦ ground (arith, v.bounded s old was, offer-bounded m old)
      ];
      below = λ s h. ground (arith, v.below s h);
      no_empty = v.no_empty;
    }

-- Under the invariant a close does not panic.
unsubscribe_cases :
    (topic : Bytes) (s : ℕ) (b : Broker)
    → Inv b
    → (unsubscribe topic s b ≡ ok b)
      ⊎ ((sub : Subscriber) × (lookup s (watchers b.subs topic) ≢ none)
          × (b.heap s ≡ some sub)
          × (unsubscribe topic s b
              ≡ ok (record b {
                subs = drop_watcher b.subs topic s;
                heap = update b.heap s (record sub { closed = true });
              })))
unfolding unsubscribe
unsubscribe_cases topic s b v = elim (Option-cases (lookup s (watchers b.subs topic))) [
  | inl out ↦ inl (ground arith)
  | inr (u, there) ↦ elim (Option-cases (b.heap s)) [
    | inl e ↦ absurd (ground (arith, v.live topic s))
    | inr (sub, e) ↦ inr (sub, (λ n. ground arith), e, ground (arith, v.live topic s))
  ]
]

module _ (topic : Bytes) (s : ℕ) (b : Broker) (sub : Subscriber) (v : Inv b) where
  unsubscribed : Broker
  unsubscribed = record b {
    subs = drop_watcher b.subs topic s;
    heap = update b.heap s (record sub { closed = true });
  }

  unsubscribed-Inv :
      lookup s (watchers b.subs topic) ≢ none → b.heap s ≡ some sub → Inv unsubscribed
  unfolding unsubscribed
  unsubscribed-Inv there e =
      let set = watchers b.subs topic in
      let gone : Subscriber = record sub { closed = true } in
      record {
        live = λ t j w. ground (
          arith,
          watchers-drop_watcher topic t s b.subs,
          lookup-delete s j set,
          update_lem b.heap s gone j,
          bytes_eq_iff topic t,
          bytes_eq_refl topic,
          v.live t j,
          v.single topic t s,
        );
        single = λ t t' j w w'. ground (
          arith,
          watchers-drop_watcher topic t s b.subs,
          watchers-drop_watcher topic t' s b.subs,
          bytes_eq_iff topic t,
          bytes_eq_iff topic t',
          lookup-delete s j set,
          v.single t t' j,
        );
        distinct = λ t. ground (
          arith,
          watchers-drop_watcher topic t s b.subs,
          delete-Distinct s set (v.distinct topic),
          v.distinct t,
        );
        bounded =
            λ j x w. ground (arith, update_lem b.heap s gone j, v.bounded j x, v.bounded s sub e);
        below = λ j h. ground (arith, update_lem b.heap s gone j, v.below j h);
        no_empty = drop_watcher-NoEmpty topic s b.subs v.no_empty;
      }

receive-Inv : (s : ℕ) (b : Broker) → Inv b → Inv (receive s b)
unfolding receive
receive-Inv s b v = elim (Option-cases (b.heap s)) [
  | inl e ↦ rw (e, receive) v
  | inr (sub, e) ↦
      rw (e, receive)
        (record {
          live = λ t j w. ground (arith, update_lem b.heap s (tail_of sub) j, v.live t j);
          single = v.single;
          distinct = v.distinct;
          bounded = λ j x w.
              ground (arith, update_lem b.heap s (tail_of sub) j, v.bounded j x, v.bounded s sub e);
          below = λ j h. ground (arith, update_lem b.heap s (tail_of sub) j, v.below j h);
          no_empty = v.no_empty;
        })
]

-- No call panics in a state that satisfies the invariant, and every call keeps it.
pub step-Inv : (c : Call) (b : Broker) → Inv b → (b' : Broker) × (step c b ≡ ok b') × Inv b'
unfolding step unsubscribed
step-Inv (subscribes topic) b v = ((subscribe topic b).0, refl, subscribe-Inv topic b v)
step-Inv (unsubscribes topic s) b v = elim (unsubscribe_cases topic s b v) [
  | inl same ↦ (b, same, v)
  | inr (sub, there, e, done) ↦
      (unsubscribed topic s b sub v, done, unsubscribed-Inv topic s b sub v there e)
]
step-Inv (publishes topic m) b v = (
  record b { heap = delivered m (watchers b.subs topic) b.heap },
  publish-delivered topic m b v,
  publish-Inv topic m b v,
)
step-Inv (receives s) b v = (receive s b, refl, receive-Inv s b v)

run-Inv : (cs : List Call) (b : Broker) → Inv b → (b' : Broker) × (run cs b ≡ ok b') × Inv b'
unfolding run
run-Inv [] b v = (b, refl, v)
run-Inv (c ∷ cs) b v =
    let (b', stepped, v') = step-Inv c b v in
    let (b'', ran, v'') = run-Inv cs b' v' in (b'', rw stepped ran, v'')

-- From a new hub, every sequence of subscriptions, cancellations (repeated ones and ones of another
-- topic too), publications and receives runs to its end without a panic, and the hub it leaves
-- satisfies the invariant.
pub run_calls-Inv : (cs : List Call) → (b : Broker) × (run cs new ≡ ok b) × Inv b
run_calls-Inv cs = run-Inv cs new new-Inv
