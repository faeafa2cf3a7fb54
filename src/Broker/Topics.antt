-- ===== src/Broker/Topics.antt =====
-- The topic map of internal/broker/broker.go: who watches a topic after each change of the map.
use hooklens.Base.{
  ℕ, ◌≡◌, ◌≢◌, refl, true, some, List, [], ◌∷◌, Bytes, bytes_eq, nat_key, bytes_key, Map, lookup,
  insert, delete, lookup-insert, lookup-delete, if◌then◌else◌, arith, length, ◌==◌, Bool-cases, inl,
  inr,
}
use hooklens.Broker.{Topics, watchers, drop_watcher}

pub watchers-insert :
    (t t' : Bytes) (set : Map ℕ (Unit {0})) (subs : Topics)
    → watchers (insert t set subs) t' ≡ (if bytes_eq t t' then set else watchers subs t')
unfolding watchers
watchers-insert t t' set subs = ground (arith, lookup-insert t t' set subs)

watchers-delete :
    (t t' : Bytes) (subs : Topics)
    → watchers (delete t subs) t' ≡ (if bytes_eq t t' then [] else watchers subs t')
unfolding watchers
watchers-delete t t' subs = ground (arith, lookup-delete t t' subs)

nil_of_length {ℓ} : {A : Type ℓ} (xs : List A) → (length xs == 0) ≡ true → xs ≡ []
nil_of_length [] h = refl
nil_of_length (x ∷ xs) h = ground arith

pub watchers-drop_watcher :
    (t t' : Bytes) (s : ℕ) (subs : Topics)
    → watchers (drop_watcher subs t s) t'
      ≡ (if bytes_eq t t' then delete s (watchers subs t) else watchers subs t')
unfolding drop_watcher
watchers-drop_watcher t t' s subs = ground (
  arith,
  watchers-delete t t' subs,
  watchers-insert t t' (delete s (watchers subs t)) subs,
  nil_of_length (delete s (watchers subs t)),
)

-- No topic keeps an empty set.
abbrev pub NoEmpty : Topics → Type 0
NoEmpty subs = (t : Bytes) (set : Map ℕ (Unit {0})) → lookup t subs ≡ some set → set ≢ []

pub insert-NoEmpty :
    (t : Bytes) (set : Map ℕ (Unit {0})) (subs : Topics)
    → set ≢ []
    → NoEmpty subs
    → NoEmpty (insert t set subs)
insert-NoEmpty t set subs ne h t' set' e = ground (arith, lookup-insert t t' set subs, h t' set')

pub drop_watcher-NoEmpty :
    (t : Bytes) (s : ℕ) (subs : Topics) → NoEmpty subs → NoEmpty (drop_watcher subs t s)
unfolding drop_watcher
drop_watcher-NoEmpty t s subs h t' set' e =
    let rest = delete s (watchers subs t) in
    elim (Bool-cases (length rest == 0)) [
      | inl gone ↦ h t' set' (ground (arith, lookup-delete t t' subs))
      | inr more ↦ insert-NoEmpty t rest subs (λ n. ground arith) h t' set' (ground arith)
    ]
