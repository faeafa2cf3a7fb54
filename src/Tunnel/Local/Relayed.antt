-- ===== src/Tunnel/Local/Relayed.antt =====
-- internal/tunnel/client.go (`callLocal`): the response that an app's answer makes.
use hooklens.Base.{
  ℕ, ◌+◌, ◌≡◌, ◌∙◌, refl, sym, ap, Bool, true, false, not, List, [], ◌∷◌, ◌++◌, Bytes, codes,
  bytes_key, length, length-take, take, keep, map, ltb, leb, if◌then◌else◌, arith, Bool-cases, inl,
  inr,
}
use hooklens.Capture.{Stream, read_limited}
use hooklens.Tunnel.Protocol.{Header, Response}
use hooklens.Tunnel.Local.{
  Net, Answer, answered, max_body_bytes, is_hop_by_hop_header, problem, one_header, relayed_headers,
  relayed_answer, read_answer,
}

pub first_of {ℓ} : {A : Type ℓ} (b : Bool) (x y : A) → b ≡ true → (if b then x else y) ≡ x
first_of b x y e = cc e

pub second_of {ℓ} : {A : Type ℓ} (b : Bool) (x y : A) → b ≡ false → (if b then x else y) ≡ y
second_of b x y e = cc e

over_limit : (m n : ℕ) → leb (m + 1) n ≡ true → ltb m n ≡ true
over_limit m n h = ground (arith, h)

within_limit : (m n : ℕ) → leb (m + 1) n ≡ false → ltb m n ≡ false
within_limit m n h = ground (arith, h)

-- All headers of an answer, one for each value.
abbrev pub every : List (Bytes × List Bytes) → List Header
every [] = []
every ((name, values) ∷ rest) = map (λ v. record { name = name; content = v }) values ++ every rest

keep-append : (p : Header → Bool) (xs ys : List Header) → keep p (xs ++ ys) ≡ keep p xs ++ keep p ys
keep-append p [] ys = refl
keep-append p (x ∷ xs) ys = ground (arith, keep-append p xs ys)

module _ (net : Net) where
  -- A header that is for more than one hop.
  abbrev pub crosses : Header → Bool
  crosses h = not (is_hop_by_hop_header net.wide h.name)

  crosses-values :
      (name : Bytes) (values : List Bytes)
      → keep crosses (map (λ v. record { name = name; content = v }) values)
        ≡ (if is_hop_by_hop_header net.wide name then [] else one_header name values)
  unfolding one_header
  crosses-values name [] = ground arith
  crosses-values name (v ∷ values) = ground (arith, crosses-values name values)

  relayed_headers-crosses :
      (hs : List (Bytes × List Bytes)) → relayed_headers net hs ≡ keep crosses (every hs)
  unfolding relayed_headers
  relayed_headers-crosses [] = refl
  relayed_headers-crosses ((name, values) ∷ rest) =
      let later = relayed_headers-crosses rest in
      let own : List Header = map (λ v. record { name = name; content = v }) values in
      ground (arith, later, crosses-values name values, keep-append crosses own (every rest))

  -- The response that a whole body makes, with all headers of the answer but those of one hop.
  abbrev pub relayed_whole : Answer → Response
  relayed_whole a = record {
    req_id = [];
    status = a.status;
    headers = keep crosses (every a.headers);
    body_b64 = net.encode a.body.bytes;
    error = [];
  }

  -- A body that is longer than the limit is refused, and one that breaks off before.
  abbrev pub relayed_or_refused : Answer → Response
  relayed_or_refused a =
      if ltb max_body_bytes (length a.body.bytes)
      then problem (codes "local response is larger than the relay limit")
      else if a.body.fails
      then problem (codes "reading local response")
      else relayed_whole a

  read-long :
      (limit : ℕ) (s : Stream)
      → leb (limit + 1) (length s.bytes) ≡ true
      → (read_limited (limit + 1) s ≡ (take (limit + 1) s.bytes, false))
        × (length (take (limit + 1) s.bytes) ≡ limit + 1)
  unfolding read_limited
  read-long limit s h = (ground (arith, h), ground (arith, h, length-take (limit + 1) s.bytes))

  read-short :
      (limit : ℕ) (s : Stream)
      → leb (limit + 1) (length s.bytes) ≡ false
      → read_limited (limit + 1) s ≡ (s.bytes, s.fails)
  unfolding read_limited
  read-short limit s h = ground (arith, h)

  relayed-answer_long :
      (a : Answer) (body : Bytes)
      → length body ≡ max_body_bytes + 1
      → relayed_answer net a (body, false)
        ≡ problem (codes "local response is larger than the relay limit")
  unfolding relayed_answer
  relayed-answer_long a body h = ground (arith, h)

  relayed-answer_short :
      (a : Answer) (fails : Bool)
      → ltb max_body_bytes (length a.body.bytes) ≡ false
      → relayed_answer net a (a.body.bytes, fails)
        ≡ (if fails then problem (codes "reading local response") else relayed_whole a)
  unfolding relayed_answer
  relayed-answer_short a true h = refl
  relayed-answer_short a false h = ground (arith, h, relayed_headers-crosses a.headers)

  pub read_answer-whole : (a : Answer) → read_answer net (answered a) ≡ relayed_or_refused a
  unfolding read_answer
  read_answer-whole a = elim (Bool-cases (leb (max_body_bytes + 1) (length a.body.bytes))) [
    | inl long ↦
        let read = read-long max_body_bytes a.body long in
        let over : ltb max_body_bytes (length a.body.bytes) ≡ true =
          over_limit max_body_bytes (length a.body.bytes) long in
        ap (relayed_answer net a) read.0
        ∙ (relayed-answer_long a (take (max_body_bytes + 1) a.body.bytes) read.1
            ∙ sym (first_of _ _ _ over))
    | inr short ↦
        let within : ltb max_body_bytes (length a.body.bytes) ≡ false =
          within_limit max_body_bytes (length a.body.bytes) short in
        ap (relayed_answer net a) (read-short max_body_bytes a.body short)
        ∙ (relayed-answer_short a a.body.fails within ∙ sym (second_of _ _ _ within))
  ]
