-- ===== src/Server/Comparing/Identical.antt =====
-- internal/server/diff.go: which captures are compared, and when they are said to be identical.
use hooklens.Base.{
  true, false, ◌≡◌, ◌↔◌, refl, List, [], ◌∷◌, Bytes, codes, bytes_eq, bytes_eq_iff, arith,
  Bool-cases, inl, inr, if◌then◌else◌,
}
use hooklens.Diff.{Library, Change}
use hooklens.Diff.Alike.{SameBody}
use hooklens.Diff.Walk.{decode, bodies}
use hooklens.Diff.Identical.{bodies-SameBody}
use hooklens.Diff.Headers.{headers, without, without_volatile, volatile_headers}
use hooklens.Diff.Headers.Same.{values_of, shown_as, named_in, without-headers}
use hooklens.Store.Requests.{StoredRequest}
use hooklens.Server.Comparing.{append_if_different, is_empty, meta, shown_headers, compare}

append_if_different-empty :
    (out : List Change) (name l r : Bytes)
    → (append_if_different out name l r ≡ []) ↔ ((out ≡ []) × (l ≡ r))
unfolding append_if_different
append_if_different-empty [] name l r = ground (arith, bytes_eq_iff l r)
append_if_different-empty (c ∷ out) name l r = ground (arith, bytes_eq_iff l r)

is_empty_iff : (cs : List Change) → (is_empty cs ≡ true) ↔ (cs ≡ [])
unfolding is_empty
is_empty_iff [] = (λ _. refl, λ _. refl)
is_empty_iff (c ∷ cs) = ((λ e. cc e), (λ e. cc e))

-- The parts that a diff looks at first.
unfoldable pub SameLine : StoredRequest → StoredRequest → Type 0
SameLine l r = (l.method ≡ r.method) × (l.path ≡ r.path) × (l.query ≡ r.query)

meta-SameLine : (l r : StoredRequest) → (meta l r ≡ []) ↔ SameLine l r
unfolding meta SameLine
meta-SameLine l r =
    let of_method = append_if_different [] (codes "method") l.method r.method in
    let of_path = append_if_different of_method (codes "path") l.path r.path in
    ground (
      arith,
      append_if_different-empty [] (codes "method") l.method r.method,
      append_if_different-empty of_method (codes "path") l.path r.path,
      append_if_different-empty of_path (codes "query") l.query r.query,
    )

-- The names that a diff does not look at.
unfoldable pub left_out : Bytes → List Bytes
left_out volatile = if bytes_eq volatile (codes "1") then [] else volatile_headers

unfoldable pub SameHeaders : (Bytes → Bytes) → StoredRequest → StoredRequest → List Bytes → Type 0
SameHeaders wide l r names =
    (n : Bytes)
    → named_in n names ≡ false
    → shown_as (values_of wide n l.headers) ≡ shown_as (values_of wide n r.headers)

without-nothing : (cs : List Change) → without [] cs ≡ cs
unfolding without
without-nothing [] = refl
without-nothing (c ∷ cs) = cc (without-nothing cs)

module _ (lib : Library) (wide : Bytes → Bytes) where
  shown_headers-without :
      (l r : StoredRequest) (volatile : Bytes)
      → shown_headers lib wide l r volatile
        ≡ without (left_out volatile) (headers wide l.headers r.headers)
  unfolding shown_headers left_out without_volatile
  shown_headers-without l r volatile = elim (Bool-cases (bytes_eq volatile (codes "1"))) [
    | inl all ↦ rw (all, without-nothing (headers wide l.headers r.headers))
    | inr few ↦ rw few
  ]

  -- A comparison says identical if and only if the two requests have the same method, path and query,
  -- the same values, joined, under every header name that is not left out (the volatile ones are,
  -- unless the query asks for them), and bodies that are the same (alike as documents, or where one is
  -- none, the same bytes).
  pub compare-Same :
      (l r : StoredRequest) (volatile : Bytes)
      → ((compare lib wide l r volatile).identical ≡ true) ↔ (
          SameLine l r
          × SameHeaders wide l r (left_out volatile)
          × SameBody lib l.body r.body (decode lib l.body) (decode lib r.body))
  unfolding compare SameHeaders
  compare-Same l r volatile =
      let of_line = meta-SameLine l r in
      let of_headers = without-headers wide (left_out volatile) l.headers r.headers in
      let of_body = bodies-SameBody lib l.body r.body in
      let shown = shown_headers-without l r volatile in
      let line_empty = is_empty_iff (meta l r) in
      let headers_empty = is_empty_iff (shown_headers lib wide l r volatile) in
      (
        λ e.
            let all : (is_empty (meta l r) ≡ true)
                × (is_empty (shown_headers lib wide l r volatile) ≡ true)
                × ((bodies lib l.body r.body).identical ≡ true) =
              ground arith in
            (
              of_line.0 (line_empty.0 all.0),
              of_headers.0 (cc (shown, headers_empty.0 all.1)),
              of_body.0 all.2,
            ),
        λ same.
            let a = line_empty.1 (of_line.1 same.0) in
            let b = headers_empty.1 (cc (shown, of_headers.1 same.1)) in
            let c = of_body.1 same.2 in ground (arith, a, b, c),
      )
