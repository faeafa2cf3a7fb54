-- ===== src/Signature/Stripe.antt =====
-- internal/signature/stripe.go.
pub mod Carried
pub mod Verdict
use hooklens.Base.{
  split, ℕ, ◌+◌, Bool, true, false, ◌&&◌, ◌||◌, Option, none, some, List, [], ◌∷◌, ◌++◌, Bytes,
  codes, bytes_eq, trim_space, cut, any_of, length, ltb, ◌==◌, if◌then◌else◌, ℤ, pos, negsuc,
  parse_int, format_int,
}
use hooklens.Signature.{
  Crypto, sha256, hex, compute, equal, Problem, no_header, bad_timestamp, no_timestamp,
  no_signature, no_v1_match, expired, in_future, Result, unchecked, default_tolerance, too_old,
  too_new, ahead,
}

abbrev pub stripe_header : Bytes
stripe_header = codes "Stripe-Signature"

-- What the header says, or why it says nothing.
pub data Parsed : Type 0 where
  parsed : ℤ → List Bytes → Parsed
  refused : Problem → Parsed

-- What one part of the header does to the loop's variables.
pub data Part : Type 0 where
  skipped : Part
  stamp : Bytes → Part
  signature : Bytes → Part

unfoldable pub part_of : Bytes × Option Bytes → Part
part_of (k, none) = skipped
part_of (k, some v) =
    if bytes_eq k (codes "t")
    then stamp v
    else if bytes_eq k (codes "v1")
    then signature v
    else skipped

unfoldable pub conclude : Option ℤ → List Bytes → Parsed
conclude none sigs = refused no_timestamp
conclude (some ts) [] = refused no_signature
conclude (some ts) (sig ∷ sigs) = parsed ts (sig ∷ sigs)

unfoldable pub scan_parts : List Bytes → Option ℤ → List Bytes → Parsed
scan_parts [] ts sigs = conclude ts sigs
scan_parts (part ∷ rest) ts sigs = elim (part_of (cut (trim_space part) b'=')) [
  | skipped ↦ scan_parts rest ts sigs
  | signature v ↦ scan_parts rest ts (sigs ++ (v ∷ []))
  | stamp v ↦ elim (parse_int v) [
    | none ↦ refused (bad_timestamp v)
    | some n ↦ scan_parts rest (some n) sigs
  ]
]

unfoldable pub parse_stripe_header : Bytes → Parsed
parse_stripe_header header =
    let found = scan_parts (split b',' header) none [] in
    if bytes_eq (trim_space header) [] then refused (no_header stripe_header) else found

-- strings.Join with a comma and a space.
unfoldable pub join_tags : List Bytes → Bytes
join_tags [] = []
join_tags (t ∷ []) = t
join_tags (t ∷ u ∷ ts) = t ++ (codes ", " ++ join_tags (u ∷ ts))

abbrev pub signed_payload : ℤ → Bytes → Bytes
signed_payload ts body = format_int ts ++ (codes "." ++ body)

-- The timestamp is looked at only when a tag has matched.
unfoldable pub judged : ℕ → ℕ → ℤ → Bool → Result → Result
judged now tolerance ts false res = record res { valid = false; problem = some no_v1_match }
judged now tolerance ts true res =
    if too_old now ts tolerance || too_new now ts tolerance
    then record res { valid = false; problem = some (if ahead now ts then in_future else expired) }
    else record res { valid = true; problem = none }

unfoldable pub verified : Crypto → Bytes → Bytes → ℕ → ℕ → Parsed → Result
verified crypto body secret now tolerance (refused why) = unchecked (codes "stripe") (some why)
verified crypto body secret now tolerance (parsed ts sigs) =
    let signed = signed_payload ts body in
    let expected = compute crypto sha256 hex secret signed in
    judged now tolerance ts (any_of (equal expected) sigs) (record {
      provider = codes "stripe";
      valid = false;
      signed = signed;
      expected = expected;
      provided = join_tags sigs;
      timestamp = some ts;
      problem = none;
    })

-- A tolerance of 0 stands for one that is not positive.
unfoldable pub verify_stripe : Crypto → Bytes → Bytes → Bytes → ℕ → ℕ → Result
verify_stripe crypto header body secret now tolerance =
    verified crypto body secret now (if tolerance == 0 then default_tolerance else tolerance)
      (parse_stripe_header header)
