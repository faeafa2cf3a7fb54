-- ===== src/Signature/Stripe/Verdict.antt =====
-- internal/signature/stripe.go: what a header that Stripe makes comes to.

use hooklens.Base.{
  ℕ, ◌≡◌, ◌∙◌, refl, sym, ap, Bool, true, false, not, ◌&&◌, ◌||◌, none, some, List, [], ◌∷◌, ◌++◌,
  map, append_assoc, append-nil, Bytes, codes, bytes_eq, trim_space, cut, any_of, all_of,
  all-append, free_of, graphic, trim_space-graphic, split, split-append, split_free, ◌==◌,
  if◌then◌else◌, ℤ, format_int, Fits, parse_int-format_int, number_byte, format_int-bytes, arith,
}
use hooklens.Signature.{
  Crypto, sha256, hex, compute, equal, too_old, too_new, Result, default_tolerance,
}
use hooklens.Signature.Stripe.{
  stamp, signature, part_of, conclude, scan_parts, parse_stripe_header, judged, verified,
  verify_stripe, signed_payload,
}

-- The header that Stripe sends: one timestamp, then the tags of the current secrets.
unfoldable pub tag_parts : List Bytes → Bytes
tag_parts [] = []
tag_parts (tag ∷ tags) = b',' ∷ ((codes "v1=" ++ tag) ++ tag_parts tags)

unfoldable pub header_of : ℤ → List Bytes → Bytes
header_of ts tags = (codes "t=" ++ format_int ts) ++ tag_parts tags

-- Printable, without spaces and commas, as hexadecimal digits are.
abbrev pub plain : Bytes → Bool
plain s = all_of graphic s && free_of b',' s

abbrev part_with : Bytes → Bytes
part_with tag = codes "v1=" ++ tag

split-tags :
    (piece : Bytes) (tags : List Bytes)
    → free_of b',' piece ≡ true
    → all_of plain tags ≡ true
    → split b',' (piece ++ tag_parts tags) ≡ piece ∷ map part_with tags
unfolding tag_parts
split-tags piece [] f h = ap (split b',') (append-nil piece) ∙ split_free b',' piece f
split-tags piece (tag ∷ tags) f h =
    split-append b',' piece (part_with tag ++ tag_parts tags) f
    ∙ ap (◌∷◌ piece) (split-tags (part_with tag) tags (ground arith) (ground arith))

cut-tag : (tag : Bytes) → part_of (cut (part_with tag) b'=') ≡ signature tag
unfolding cut part_of bytes_eq
cut-tag tag = refl

cut-stamp : (text : Bytes) → part_of (cut (codes "t=" ++ text) b'=') ≡ stamp text
unfolding cut part_of bytes_eq
cut-stamp text = refl

part-tag :
    (tag : Bytes)
    → plain tag ≡ true
    → part_of (cut (trim_space (part_with tag)) b'=') ≡ signature tag
part-tag tag h =
    ap (λ p. part_of (cut p b'=')) (trim_space-graphic (part_with tag) (ground arith)) ∙ cut-tag tag

scan-tag :
    (tag : Bytes) (rest : List Bytes) (ts : ℤ) (sigs : List Bytes)
    → plain tag ≡ true
    → scan_parts (part_with tag ∷ rest) (some ts) sigs
      ≡ scan_parts rest (some ts) (sigs ++ (tag ∷ []))
unfolding scan_parts
scan-tag tag rest ts sigs h = ground (arith, part-tag tag h)

scan-tags :
    (tags : List Bytes) (ts : ℤ) (sigs : List Bytes)
    → all_of plain tags ≡ true
    → scan_parts (map part_with tags) (some ts) sigs ≡ conclude (some ts) (sigs ++ tags)
unfolding scan_parts
scan-tags [] ts sigs h = ap (conclude (some ts)) (sym (append-nil sigs))
scan-tags (tag ∷ tags) ts sigs h =
    scan-tag tag (map part_with tags) ts sigs (ground arith)
    ∙ (scan-tags tags ts (sigs ++ (tag ∷ [])) (ground arith)
        ∙ ap (conclude (some ts)) (append_assoc sigs (tag ∷ []) tags))

number-graphic :
    (s : Bytes) → all_of number_byte s ≡ true → (all_of graphic s ≡ true) × (free_of b',' s ≡ true)
number-graphic [] h = (refl, refl)
number-graphic (c ∷ s) h = ground (arith, number-graphic s)

scan-stamp :
    (ts : ℤ) (rest : List Bytes)
    → Fits ts
    → scan_parts ((codes "t=" ++ format_int ts) ∷ rest) none [] ≡ scan_parts rest (some ts) []
unfolding scan_parts
scan-stamp ts rest fits =
    let text = format_int ts in
    let shape = number-graphic text (format_int-bytes ts) in
    let part : part_of (cut (trim_space (codes "t=" ++ text)) b'=') ≡ stamp text =
      ap (λ p. part_of (cut p b'=')) (trim_space-graphic (codes "t=" ++ text) (ground arith))
      ∙ cut-stamp text in
    ground (arith, part, parse_int-format_int ts fits)

tags-graphic :
    (tags : List Bytes) → all_of plain tags ≡ true → all_of graphic (tag_parts tags) ≡ true
unfolding tag_parts
tags-graphic [] h = refl
tags-graphic (tag ∷ tags) h =
    let own : all_of graphic tag ≡ true = ground arith in
    all-append graphic tag (tag_parts tags) own (tags-graphic tags (ground arith))

not_blank :
    (s : Bytes) → all_of graphic s ≡ true → bytes_eq (trim_space (codes "t=" ++ s)) [] ≡ false
unfolding bytes_eq
not_blank s h = ap (λ t. bytes_eq t []) (trim_space-graphic (codes "t=" ++ s) h)

parse_lem :
    (header : Bytes)
    → bytes_eq (trim_space header) [] ≡ false
    → parse_stripe_header header ≡ scan_parts (split b',' header) none []
unfolding parse_stripe_header
parse_lem header h = ground arith

parse-header_of :
    (ts : ℤ) (tags : List Bytes)
    → Fits ts
    → all_of plain tags ≡ true
    → parse_stripe_header (header_of ts tags) ≡ conclude (some ts) tags
unfolding header_of
parse-header_of ts tags fits h =
    let text = format_int ts in
    let piece = codes "t=" ++ text in
    let shape = number-graphic text (format_int-bytes ts) in
    let line = all-append graphic text (tag_parts tags) shape.0 (tags-graphic tags h) in
    parse_lem (piece ++ tag_parts tags) (not_blank (text ++ tag_parts tags) line)
    ∙ (ap (λ parts. scan_parts parts none []) (split-tags piece tags (ground arith) h)
        ∙ (scan-stamp ts (map part_with tags) fits ∙ scan-tags tags ts [] h))

-- Whether the timestamp is inside the tolerance on both sides.
abbrev pub timely : ℕ → ℤ → ℕ → Bool
timely now ts tolerance = not (too_old now ts tolerance || too_new now ts tolerance)

judged-valid :
    (now tolerance : ℕ) (ts : ℤ) (matches : Bool) (res : Result)
    → (judged now tolerance ts matches res).valid ≡ (matches && timely now ts tolerance)
unfolding judged
judged-valid now tolerance ts true res = ground arith
judged-valid now tolerance ts false res = refl

verified-valid :
    (crypto : Crypto) (body secret : Bytes) (now tolerance : ℕ) (ts : ℤ) (tags : List Bytes)
    → (verified crypto body secret now tolerance (conclude (some ts) tags)).valid ≡ (
        any_of (equal (compute crypto sha256 hex secret (signed_payload ts body))) tags
        && timely now ts tolerance)
unfolding verified conclude
verified-valid crypto body secret now tolerance ts [] = refl
verified-valid crypto body secret now tolerance ts (tag ∷ tags) = judged-valid now tolerance ts _ _

-- A header of Stripe's form with any number of tags is valid exactly when one of the tags is the
-- HMAC of the timestamp, a dot and the raw body under the secret, and the timestamp is at most the
-- tolerance away from the instant of arrival on either side; five minutes where none is given. The
-- timestamp is an int64 and the tags are printable without spaces and commas.
pub verify_stripe_iff :
    (crypto : Crypto) (body secret : Bytes) (now tolerance : ℕ) (ts : ℤ) (tags : List Bytes)
    → Fits ts
    → all_of plain tags ≡ true
    → (verify_stripe crypto (header_of ts tags) body secret now tolerance).valid ≡ (
        any_of (equal (compute crypto sha256 hex secret (signed_payload ts body))) tags
        && timely now ts (if tolerance == 0 then default_tolerance else tolerance))
unfolding verify_stripe
verify_stripe_iff crypto body secret now tolerance ts tags fits h =
    let limit : ℕ = if tolerance == 0 then default_tolerance else tolerance in
    ap (λ p. (verified crypto body secret now limit p).valid) (parse-header_of ts tags fits h)
    ∙ verified-valid crypto body secret now limit ts tags
