-- ===== src/Replay/Guarded.antt =====
-- internal/replay/safedial.go, replay.go: which addresses a replay connects to, and what it sends.

use hooklens.Base.{
  Bool, true, false, not, ◌&&◌, ◌≡◌, refl, sym, Option, none, some, List, [], ◌∷◌, ◌++◌, append-nil,
  append_assoc, All, All-append, Bytes, codes, bytes_eq, bytes_eq_iff, bytes_key, Map, lookup,
  insert, lookup-insert, is_some, arith, Bool-cases, Option-cases, inl, inr, if◌then◌else◌,
}
use hooklens.Capture.{Header}
use hooklens.Server.Net.{split_host_port}
use hooklens.Replay.Addresses.{Addr}
use hooklens.Replay.Reserved.{reserved, blocked-reserved}
use hooklens.Replay.{
  Url, Library, Error, Result, ok, err, Request, Call, Effect, connect, send, Network,
  replay_header, check_addr, control_addr, control, or_error, tried, dial, hop_by_hop, values_at,
  carry, outgoing, Answer, sent_on, send_to, parse_http_url, to_url,
}
use hooklens.Replay.Aimed.{Aimed, parse_http_url-Parses, outgoing-Aimed}

module _ (lib : Library) where
  -- A dial address of an IP that no range of refused ones has.
  unfoldable pub is_public : Bytes → Bool
  is_public address = elim (split_host_port address) [
    | none ↦ false
    | some (host, port) ↦ elim (lib.parse_addr host) [ none ↦ false | some a ↦ not (reserved a) ]
  ]

  check_addr-reserved : (a : Addr) → check_addr lib (some a) ≡ none → reserved a ≡ false
  unfolding check_addr is_some
  check_addr-reserved a e = ground (arith, blocked-reserved a)

  control-is_public : (address : Bytes) → control lib address ≡ none → is_public address ≡ true
  unfolding control control_addr is_public
  control-is_public address e = elim (Option-cases (split_host_port address)) [
    | inl unsplit ↦ absurd (ground arith)
    | inr (parts, are) ↦ elim (Option-cases (lib.parse_addr parts.0)) [
      | inl unparsed ↦ absurd (ground arith)
      | inr (a, is) ↦ ground (arith, check_addr-reserved a)
    ]
  ]

  -- The values that a capture has under a canonical name, but for those of one hop.
  abbrev pub kept : Bytes → List Header → List Bytes
  kept key [] = []
  kept key (h ∷ rest) =
      if not (hop_by_hop lib h.name) && bytes_eq (lib.canonical h.name) key
      then h.content ∷ kept key rest
      else kept key rest

  -- What is sent for a request: its method and body, and under each name what the capture has, but
  -- that the marker says that it is a replay, whatever the capture has there.
  unfoldable pub Replayed : Request → Call → Type 0
  Replayed req call =
      (call.method ≡ req.method)
      × (call.body ≡ req.body)
      × ((key : Bytes)
          → values_at lib key call.header ≡ (
              if bytes_eq (lib.canonical replay_header) key
              then codes "1" ∷ []
              else kept key req.headers))

  -- Connections are made to public addresses only, and requests are sent on those only.
  unfoldable pub Guarded : Bytes → Request → Effect → Type 0
  Guarded target req (connect address) = is_public address ≡ true
  Guarded target req (send address call) =
      (is_public address ≡ true) × Replayed req call × Aimed lib target req call

  carry-kept :
      (key : Bytes) (hs : List Header) (header : Map Bytes (List Bytes))
      → values_at lib key (carry lib hs header) ≡ values_at lib key header ++ kept key hs
  unfolding carry values_at
  carry-kept key [] header = sym (append-nil (values_at lib key header))
  carry-kept key (h ∷ rest) header =
      let name = lib.canonical h.name in
      let more = insert name (values_at lib name header ++ (h.content ∷ [])) header in
      let read = lookup-insert name key (values_at lib name header ++ (h.content ∷ [])) header in
      elim (Bool-cases (hop_by_hop lib h.name)) [
        | inl hop ↦ cc (hop, carry-kept key rest header)
        | inr passes ↦ elim (Bool-cases (bytes_eq name key)) [
          | inl same ↦
              let key_is = (bytes_eq_iff name key).0 same in
              cc (
                passes,
                same,
                key_is,
                carry-kept key rest more,
                read,
                append_assoc (values_at lib name header) (h.content ∷ []) (kept key rest),
              )
          | inr other ↦ cc (passes, other, carry-kept key rest more, read)
        ]
      ]

  outgoing-Replayed : (u : Url) (req : Request) → Replayed req (outgoing lib u req)
  unfolding Replayed outgoing values_at lookup
  outgoing-Replayed u req = (
    refl,
    refl,
    λ key.
        let marker = lib.canonical replay_header in
        let read = lookup-insert marker key (codes "1" ∷ []) (carry lib req.headers []) in
        elim (Bool-cases (bytes_eq marker key)) [
          | inl same ↦ cc (read, same)
          | inr other ↦ cc (read, other, carry-kept key req.headers [])
        ],
  )

  -- What is dialled: connections to public addresses, and the address of one of them.
  abbrev Dialled : Bytes → Request → List Effect × Result Bytes → Type 0
  Dialled target req (effects, r) =
      All (Guarded target req) effects
      × ((address : Bytes) → r ≡ ok address → is_public address ≡ true)

  or_error-is_public :
      (e : Error) (r : Result Bytes)
      → ((address : Bytes) → r ≡ ok address → is_public address ≡ true)
      → (address : Bytes) → or_error lib e r ≡ ok address
      → is_public address ≡ true
  unfolding or_error
  or_error-is_public e (ok later) public address is = public address is
  or_error-is_public e (err later) public address is = cc is

  tried-Dialled :
      (target : Bytes) (req : Request) (c : Option Error) (t : Bytes × Bool)
      (later : List Effect × Result Bytes)
      → control lib t.0 ≡ c
      → Dialled target req later
      → Dialled target req (tried lib c t later)
  unfolding tried Guarded
  tried-Dialled target req (some e) t (effects, r) is h = (h.0, or_error-is_public e r h.1)
  tried-Dialled target req none (address, true) later is h = (
    (control-is_public address is, tt),
    λ other same.
        let here : address ≡ other = ground arith in cc (control-is_public address is, here),
  )
  tried-Dialled target req none (address, false) (effects, r) is h =
      ((control-is_public address is, h.0), or_error-is_public Error.refused r h.1)

  dial-Dialled :
      (target : Bytes) (req : Request) (tries : List (Bytes × Bool))
      → Dialled target req (dial lib tries)
  unfolding dial
  dial-Dialled target req [] = (tt, λ address is. cc is)
  dial-Dialled target req (t ∷ rest) =
      tried-Dialled target req (control lib t.0) t (dial lib rest) refl
        (dial-Dialled target req rest)

  sent_on-Guarded :
      (target : Bytes) (req : Request) (answer : Option Answer) (call : Call)
      (effects : List Effect) (r : Result Bytes)
      → All (Guarded target req) effects
      → ((address : Bytes) → r ≡ ok address → is_public address ≡ true)
      → Replayed req call
      → Aimed lib target req call
      → All (Guarded target req) (sent_on lib answer call (effects, r)).0
  unfolding sent_on Guarded
  sent_on-Guarded target req answer call effects (err e) before public sends aimed = before
  sent_on-Guarded target req answer call effects (ok address) before public sends aimed =
      All-append (Guarded target req) effects (send address call ∷ []) before
        ((public address refl, sends, aimed), tt)

  send_to-Guarded :
      (target : Bytes) (req : Request) (net : Network) (o : Result Url)
      → parse_http_url lib target ≡ o
      → All (Guarded target req) (send_to lib net req o).0
  unfolding send_to
  send_to-Guarded target req net (err e) is = tt
  send_to-Guarded target req net (ok u) is =
      let call = outgoing lib u req in
      let dialled = dial-Dialled target req net.tries in
      elim (Bool-cases (lib.accepts call.method call.url)) [
        | inl accepted ↦ rw accepted (
            sent_on-Guarded target req net.answer call (dial lib net.tries).0 (dial lib net.tries).1
              dialled.0 dialled.1 (outgoing-Replayed u req)
              (outgoing-Aimed lib target u req (parse_http_url-Parses lib target u is)))
        | inr rejected ↦ rw rejected tt
      ]

  -- Whatever a target's host resolves to, a replay connects only to addresses outside the refused
  -- ranges and sends on such a connection only. What it sends has the request's method and body, the
  -- marker, and under every other name the capture's values but for the headers of one hop; and it
  -- names the target's scheme and host, with the request's path behind the target's and the request's
  -- query, or the target's where the request has none.
  pub to_url-Guarded :
      (net : Network) (target : Bytes) (req : Request)
      → All (Guarded target req) (to_url lib net target req).0
  unfolding to_url
  to_url-Guarded net target req = send_to-Guarded target req net (parse_http_url lib target) refl
