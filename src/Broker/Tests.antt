-- ===== src/Broker/Tests.antt =====
-- Runs of the hub, and the theorems at concrete hubs.
use hooklens.Base.{
  ◌≡◌, List, [], ◌∷◌, codes, true, nat_key, bytes_key, lookup, insert, delete, bytes_eq,
}
use hooklens.Base.Outcomes.{ok}
use hooklens.Broker.{
  Broker, Message, Call, subscribes, unsubscribes, publishes, receives, new, update, watchers,
  subscribe, close, drop_watcher, unsubscribe, offer, send, send_all, publish, receive, step, run,
}
use hooklens.Broker.Safety.{Inv, new-Inv, subscribe-Inv, run_calls-Inv}

program : Unit {0}
unfolding lookup insert delete bytes_eq new update watchers subscribe close drop_watcher unsubscribe
    offer send send_all publish receive step run
program = tt

abbrev hello : Message
hello = record { event = codes "capture"; payload = codes "1" }

abbrev calls : List Call
calls =
    subscribes (codes "a")
    ∷ subscribes (codes "b")
    ∷ publishes (codes "a") hello
    ∷ unsubscribes (codes "a") 0
    ∷ unsubscribes (codes "a") 0
    ∷ publishes (codes "a") hello
    ∷ receives 0
    ∷ []

run_calls-Inv_example : (b : Broker) × (run calls new ≡ ok b) × Inv b
run_calls-Inv_example = run_calls-Inv calls

abbrev one : Broker
one = (subscribe (codes "a") new).0

one-Inv : Inv one
one-Inv = subscribe-Inv (codes "a") new new-Inv

abbrev none_left : Broker
none_left = record one {
  subs = [];
  heap = update one.heap 0 (record { queue = []; closed = true; dropped = 0 });
}
