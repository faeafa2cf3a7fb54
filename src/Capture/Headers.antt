-- ===== src/Capture/Headers.antt =====
-- internal/capture/request.go (`headersOf`): the order of the headers, and what is kept of them.
use hooklens.Base.{
  ◌≡◌, ◌∙◌, refl, sym, append-nil, ap, not, Bool, true, false, ◌&&◌, Option, none, some, List, [],
  ◌∷◌, ◌++◌, Bytes, codes, bytes_eq, bytes_eq_iff, bytes_key, Map, lookup, Distinct, if◌then◌else◌,
  arith, Bool-cases, inl, inr,
}
use hooklens.Capture.{
  Header, HttpRequest, bytes_less, insert_name, sorted_names, lines, values, all_lines,
  insert_header, sort_headers, host_lines, headers_of,
}

less_asym : (s t : Bytes) → bytes_less s t ≡ true → bytes_less t s ≡ false
unfolding bytes_less
less_asym s [] h = cc
less_asym [] (b ∷ t) h = refl
less_asym (a ∷ s) (b ∷ t) h = ground (arith, less_asym s t)

-- No header's name is smaller than the name before it.
unfoldable pub sorted_from : Bytes → List Header → Bool
sorted_from least [] = true
sorted_from least (h ∷ rest) = not (bytes_less h.name least) && sorted_from h.name rest

unfoldable pub IsSorted : List Header → Type 0
IsSorted [] = Unit
IsSorted (h ∷ rest) = sorted_from h.name rest ≡ true

insert-sorted_from :
    (least : Bytes) (h : Header) (hs : List Header)
    → bytes_less h.name least ≡ false
    → sorted_from least hs ≡ true
    → sorted_from least (insert_header h hs) ≡ true
unfolding sorted_from insert_header
insert-sorted_from least h [] low sorted = ground arith
insert-sorted_from least h (g ∷ rest) low sorted =
    ground (arith, less_asym g.name h.name, insert-sorted_from g.name h rest)

insert-IsSorted : (h : Header) (hs : List Header) → IsSorted hs → IsSorted (insert_header h hs)
unfolding IsSorted sorted_from insert_header
insert-IsSorted h [] sorted = refl
insert-IsSorted h (g ∷ rest) sorted =
    ground (arith, less_asym g.name h.name, insert-sorted_from g.name h rest)

sort-IsSorted : (hs : List Header) → IsSorted (sort_headers hs)
unfolding sort_headers IsSorted
sort-IsSorted [] = tt
sort-IsSorted (h ∷ rest) = insert-IsSorted h (sort_headers rest) (sort-IsSorted rest)

-- The headers of a capture are in the order of their names.
headers_of-IsSorted : (r : HttpRequest) → IsSorted (headers_of r)
unfolding headers_of
headers_of-IsSorted r = sort-IsSorted _

-- The contents of the headers of one name, in their order.
unfoldable pub contents : Bytes → List Header → List Bytes
contents name [] = []
contents name (h ∷ rest) =
    if bytes_eq h.name name then h.content ∷ contents name rest else contents name rest

contents-insert :
    (name : Bytes) (h : Header) (hs : List Header)
    → contents name (insert_header h hs) ≡ contents name (h ∷ hs)
unfolding contents insert_header
contents-insert name h [] = refl
contents-insert name h (g ∷ rest) = ground (
  arith,
  less_asym g.name h.name,
  bytes_eq_iff h.name name,
  bytes_eq_iff g.name name,
  contents-insert name h rest,
)

contents-sort :
    (name : Bytes) (hs : List Header) → contents name (sort_headers hs) ≡ contents name hs
unfolding contents sort_headers
contents-sort name [] = refl
contents-sort name (h ∷ rest) =
    ground (arith, contents-insert name h (sort_headers rest), contents-sort name rest)

contents-append :
    (name : Bytes) (hs gs : List Header)
    → contents name (hs ++ gs) ≡ contents name hs ++ contents name gs
unfolding contents
contents-append name [] gs = refl
contents-append name (h ∷ hs) gs = ground (arith, contents-append name hs gs)

contents-lines :
    (name other : Bytes) (vs : List Bytes)
    → contents name (lines other vs) ≡ (if bytes_eq other name then vs else [])
unfolding contents
contents-lines name other [] = ground arith
contents-lines name other (v ∷ vs) = ground (arith, contents-lines name other vs)

-- What a test of the names leaves of the contents under one.
abbrev under : Bool → List Bytes → List Bytes
under test vs = if test then vs else []

lines-first :
    (header : Map Bytes (List Bytes)) (name n : Bytes) (names : List Bytes)
    → contents name (all_lines header (n ∷ names))
      ≡ under (bytes_eq n name) (values header n) ++ contents name (all_lines header names)
unfolding all_lines
lines-first header name n names =
    contents-append name (lines n (values header n)) (all_lines header names)
    ∙ ap (λ vs. vs ++ contents name (all_lines header names))
        (contents-lines name n (values header n))

under-swap :
    (b c : Bool) (xs ys zs : List Bytes)
    → (b && c) ≡ false
    → under b xs ++ (under c ys ++ zs) ≡ under c ys ++ (under b xs ++ zs)
under-swap true true xs ys zs h = cc
under-swap true false xs ys zs h = refl
under-swap false true xs ys zs h = refl
under-swap false false xs ys zs h = refl

not_both : (m n name : Bytes) → bytes_less m n ≡ true → (bytes_eq m name && bytes_eq n name) ≡ false
not_both m n name h = ground (arith, less_asym m n, bytes_eq_iff m name, bytes_eq_iff n name)

contents-insert_name :
    (header : Map Bytes (List Bytes)) (name n : Bytes) (names : List Bytes)
    → contents name (all_lines header (insert_name n names))
      ≡ contents name (all_lines header (n ∷ names))
unfolding insert_name
contents-insert_name header name n [] = refl
contents-insert_name header name n (m ∷ names) =
    let pick = λ (t : Bool).
      contents name (all_lines header (if t then m ∷ insert_name n names else n ∷ m ∷ names)) in
    elim (Bool-cases (bytes_less m n)) [
      | inl smaller ↦ cc (
        ap pick smaller,
        lines-first header name m (insert_name n names),
        contents-insert_name header name n names,
        lines-first header name n names,
        under-swap (bytes_eq m name) (bytes_eq n name) (values header m) (values header n)
            (contents name (all_lines header names)) (not_both m n name smaller),
        lines-first header name m names,
        lines-first header name n (m ∷ names),
      )
      | inr other ↦ ap pick other
    ]

-- The header's contents under a name that a part of it has.
unfoldable pub listed : Map Bytes (List Bytes) → Bytes → Option (List Bytes) → List Bytes
listed header name none = []
listed header name (some vs) = values header name

under-listed :
    (header : Map Bytes (List Bytes)) (name n : Bytes) (vs : List Bytes) (o : Option (List Bytes))
    (test : Bool)
    → (test ≡ true → (n ≡ name) × (o ≡ none))
    → under test (values header n) ++ listed header name o
      ≡ listed header name (if test then some vs else o)
unfolding listed
under-listed header name n vs o false h = refl
under-listed header name n vs o true h =
    let none_left : listed header name o ≡ [] = ap (listed header name) (h refl).1 in
    ap (λ zs. values header n ++ zs) none_left
    ∙ (append-nil (values header n) ∙ ap (values header) (h refl).0)

contents-names :
    (header m : Map Bytes (List Bytes)) (name : Bytes)
    → Distinct m
    → contents name (all_lines header (sorted_names m)) ≡ listed header name (lookup name m)
unfolding sorted_names lookup listed all_lines contents
contents-names header [] name d = refl
contents-names header (entry ∷ rest) name d =
    contents-insert_name header name entry.0 (sorted_names rest)
    ∙ (lines-first header name entry.0 (sorted_names rest)
        ∙ (ap (λ zs. under (bytes_eq entry.0 name) (values header entry.0) ++ zs)
              (contents-names header rest name d.1)
            ∙ under-listed header name entry.0 entry.1 (lookup name rest) (bytes_eq entry.0 name)
                (λ same.
                  let equal = (bytes_eq_iff entry.0 name).0 same in
                  (equal, sym (ap (λ k. lookup k rest) equal) ∙ d.0))))

listed-values :
    (header : Map Bytes (List Bytes)) (name : Bytes)
    → listed header name (lookup name header) ≡ values header name
unfolding listed values
listed-values header name = ground arith

contents-host_lines :
    (name host : Bytes)
    → contents name (host_lines host)
      ≡ (if bytes_eq (codes "Host") name && not (bytes_eq host []) then host ∷ [] else [])
unfolding host_lines contents bytes_eq
contents-host_lines name [] = ground arith
contents-host_lines name (c ∷ s) = ground arith

-- Under every name the capture has the header's values in their order, with the host and the
-- transfer encodings, which Go's server takes out of the header, put back behind them; nothing else
-- is added and nothing is lost.
pub contents-headers_of :
    (r : HttpRequest) (name : Bytes)
    → Distinct r.header
    → contents name (headers_of r)
      ≡ values r.header name
        ++ (if bytes_eq (codes "Host") name && not (bytes_eq r.host []) then r.host ∷ [] else [])
        ++ (if bytes_eq (codes "Transfer-Encoding") name then r.transfer_encoding else [])
unfolding headers_of
contents-headers_of r name d =
    let own = all_lines r.header (sorted_names r.header) in
    let host = host_lines r.host in
    let encodings = lines (codes "Transfer-Encoding") r.transfer_encoding in
    cc (
      contents-sort name (own ++ host ++ encodings),
      contents-append name (own ++ host) encodings,
      contents-append name own host,
      contents-names r.header r.header name d,
      listed-values r.header name,
      contents-host_lines name r.host,
      contents-lines name (codes "Transfer-Encoding") r.transfer_encoding,
    )
