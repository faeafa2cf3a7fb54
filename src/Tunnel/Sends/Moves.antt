-- ===== src/Tunnel/Sends/Moves.antt =====
-- The invariant of the requests in flight (internal/tunnel/hub.go), and the one rule by which every
-- move of a single call keeps it.
use hooklens.Base.{
  ℕ, ◌≤◌, ◌+◌, ◌≡◌, Bool, true, false, ◌&&◌, Option, none, some, List, [], Bytes, bytes_eq,
  bytes_key, lookup, get_elem?, weigh, get_elem?-set, weigh-set, format_uint, arith,
}
use hooklens.Tunnel.Protocol.{Response}
use hooklens.Tunnel.Sends.{
  Client, Sender, Phase, Verdict, answered, failed, idle, queued, numbered, registered, awaiting,
  leaving, releasing, finished, max_in_flight, put,
}

abbrev pub number_of : Phase → Option ℕ
number_of (numbered k) = some k
number_of (registered k) = some k
number_of (awaiting k) = some k
number_of (leaving k v) = some k
number_of (releasing k v) = k
number_of (finished k v) = k
number_of _ = none

-- The slots that a phase holds.
abbrev pub holds : Phase → ℕ
holds idle = 0
holds queued = 0
holds (finished k v) = 0
holds _ = 1

-- The phases between the entry into `pending` and `forget`.
abbrev pub listed : Phase → Bool
listed (registered k) = true
listed (awaiting k) = true
listed (leaving k v) = true
listed _ = false

-- The phases behind the entry into `pending`.
abbrev pub past : Phase → Bool
past (registered k) = true
past (awaiting k) = true
past (leaving k v) = true
past (releasing k v) = true
past (finished k v) = true
past _ = false

abbrev pub response_in : Verdict → Option Response
response_in (answered r) = some r
response_in (failed e) = none

abbrev pub response_of : Phase → Option Response
response_of (leaving k v) = response_in v
response_of (releasing k v) = response_in v
response_of (finished k v) = response_in v
response_of _ = none

-- The phase's request has this id.
abbrev pub tied : Phase → Bytes → Bool
tied p key = elim (number_of p) [ none ↦ false | some k ↦ bytes_eq (format_uint k) key ]

abbrev pub is_empty : Option Response → Bool
is_empty none = true
is_empty (some r) = false

-- A test of the call at an index.
abbrev pub spot : (Sender → Bool) → Client → ℕ → Bool
spot p c i = elim (get_elem? c.senders i) [ none ↦ false | some s ↦ p s ]

abbrev pub expects : Bytes → Sender → Bool
expects key s = listed s.phase && tied s.phase key && is_empty s.chan

abbrev pub accepts : Bytes → Sender → Bool
accepts key s = past s.phase && tied s.phase key && is_empty s.chan

abbrev pub slots_held : List Sender → ℕ
slots_held = weigh (λ s. holds s.phase)

abbrev pub At : Client → ℕ → Sender → Type 0
At c i s = get_elem? c.senders i ≡ some s

-- After at most `n` ids were given out.
pub record Inv (n : ℕ) (c : Client) : Type 0 where
  pub held : c.slots ≡ slots_held c.senders
  pub within : c.slots ≤ max_in_flight
  pub counted : c.next_id ≤ n
  pub issued : (i k : ℕ) (s : Sender) → At c i s → number_of s.phase ≡ some k → k ≤ c.next_id
  pub unique :
      (i j k : ℕ) (s t : Sender)
      → At c i s
      → At c j t
      → number_of s.phase ≡ some k
      → number_of t.phase ≡ some k
      → i ≡ j
  pub expected :
      (key : Bytes) (i : ℕ) → lookup key c.pending ≡ some i → spot (expects key) c i ≡ true
  pub accepted : (i : ℕ) (r : Response) → c.hand ≡ some (i, r) → spot (accepts r.req_id) c i ≡ true
  pub taken : (i : ℕ) (r : Response) → c.hand ≡ some (i, r) → lookup r.req_id c.pending ≡ none
  pub routed :
      (i : ℕ) (s : Sender) (r : Response)
      → At c i s
      → s.chan ≡ some r
      → (past s.phase && tied s.phase r.req_id) ≡ true
  pub correlated :
      (i : ℕ) (s : Sender) (r : Response)
      → At c i s
      → response_of s.phase ≡ some r
      → tied s.phase r.req_id ≡ true
  pub cleared : c.closed ≡ true → c.pending ≡ []
  pub closing_once : c.closing ≡ true → (c.closed ≡ true) × (c.done ≡ false)
  pub done_closed : c.done ≡ true → c.closed ≡ true

-- What a new state of one call must satisfy, with the client's new counters.
pub record Fits (n : ℕ) (c : Client) (i : ℕ) (s s' : Sender) (slots next_id : ℕ) : Type 0 where
  pub weight : slots + holds s.phase ≡ c.slots + holds s'.phase
  pub within : slots ≤ max_in_flight
  pub grows : c.next_id ≤ next_id
  pub counted : next_id ≤ n
  pub issued : (k : ℕ) → number_of s'.phase ≡ some k → k ≤ next_id
  pub unique :
      (j k : ℕ) (t : Sender)
      → At c j t
      → number_of s'.phase ≡ some k
      → number_of t.phase ≡ some k
      → j ≡ i
  pub expected : (key : Bytes) → lookup key c.pending ≡ some i → expects key s' ≡ true
  pub accepted : (r : Response) → c.hand ≡ some (i, r) → accepts r.req_id s' ≡ true
  pub routed : (r : Response) → s'.chan ≡ some r → (past s'.phase && tied s'.phase r.req_id) ≡ true
  pub correlated : (r : Response) → response_of s'.phase ≡ some r → tied s'.phase r.req_id ≡ true

module _ (n m : ℕ) (c : Client) (i : ℕ) (s s' : Sender) (slots next_id : ℕ) where
  pub Fits-Inv :
      At c i s
      → Inv m c
      → Fits n c i s s' slots next_id
      → Inv n (record (put c i s') { slots = slots; next_id = next_id })
  Fits-Inv here v f =
      let moved = λ (j : ℕ). get_elem?-set c.senders i j s' s here in
      record {
        held =
            omega (arith, weigh-set (λ x. holds x.phase) c.senders i s' s here, v.held, f.weight);
        within = f.within;
        counted = f.counted;
        issued = λ j k t a b. ground (arith, moved j, v.issued j k t, f.issued k, f.grows);
        unique = λ j j' k t t' a a' b b'.
            ground
              (arith, moved j, moved j', v.unique j j' k t t', f.unique j k t, f.unique j' k t');
        expected = λ key j e. ground (arith, moved j, v.expected key j, f.expected key);
        accepted = λ j r e. ground (arith, moved j, v.accepted j r, f.accepted r);
        taken = v.taken;
        routed = λ j t r a e. ground (arith, moved j, v.routed j t r, f.routed r);
        correlated = λ j t r a e. ground (arith, moved j, v.correlated j t r, f.correlated r);
        cleared = v.cleared;
        closing_once = v.closing_once;
        done_closed = v.done_closed;
      }
