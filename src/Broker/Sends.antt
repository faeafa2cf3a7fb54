-- ===== src/Broker/Sends.antt =====
-- internal/broker/broker.go (`Publish`): the heap after a message went to a set of subscribers.
use hooklens.Base.{
  ℕ, ◌≡◌, ◌≢◌, refl, ap, ◌∙◌, Bool, true, false, not, none, some, [], ◌∷◌, nat_key, bytes_key, Map,
  Distinct, lookup, if◌then◌else◌, arith, ◌==◌, fun_ext, Option-cases, inl, inr,
}
use hooklens.Base.Outcomes.{ok}
use hooklens.Broker.{Subscriber, Message, Heap, update, offer, send, send_all}

pub update_lem :
    (h : Heap) (s : ℕ) (v : Subscriber) (j : ℕ) → update h s v j ≡ (if s == j then some v else h j)
unfolding update
update_lem h s v j = refl

abbrev pub is_open : Heap → ℕ → Bool
is_open h s = elim (h s) [ none ↦ false | some sub ↦ not sub.closed ]

abbrev pub IsOpen : Heap → ℕ → Type 0
IsOpen h s = is_open h s ≡ true

-- The heap after a message went to every number of a set.
abbrev pub delivered : Message → Map ℕ (Unit {0}) → Heap → Heap
delivered m set h = λ j. elim (lookup j set) [
  | none ↦ h j
  | some _ ↦ elim (h j) [ none ↦ none | some sub ↦ some (offer m sub) ]
]

-- A delivery to distinct open subscribers does not panic, and each of them is offered the message
-- once.
pub send_all-delivered :
    (m : Message) (set : Map ℕ (Unit {0})) (h : Heap)
    → Distinct set
    → ((s : ℕ) → lookup s set ≢ none → IsOpen h s)
    → send_all m set h ≡ ok (delivered m set h)
unfolding send_all send lookup offer
send_all-delivered m [] h d live = refl
send_all-delivered m ((s, u) ∷ set) h d live = elim (Option-cases (h s)) [
  | inl e ↦ absurd (ground (arith, live s))
  | inr (sub, e) ↦
      let h' : Heap = update h s (offer m sub) in
      let still : (j : ℕ) → lookup j set ≢ none → IsOpen h' j =
        λ j w. ground (arith, update_lem h s (offer m sub) j, live j) in
      let same : (j : ℕ) → delivered m set h' j ≡ delivered m ((s, u) ∷ set) h j =
        λ j. ground (arith, update_lem h s (offer m sub) j) in
      let all : send_all m set h' ≡ ok (delivered m ((s, u) ∷ set) h) =
        send_all-delivered m set h' d.1 still ∙ ap (λ (g : Heap). ok g) (fun_ext same) in
      ground (arith, live s)
]
