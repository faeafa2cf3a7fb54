-- ===== src/Signature/Tests.antt =====
-- The verifiers with a toy HMAC, which puts the secret in front of the payload.
use hooklens.Base.{
  ◌*◌, ◌≡◌, refl, true, false, ◌&&◌, some, List, [], ◌∷◌, ◌++◌, Bytes, codes, bytes_eq, trim_space,
  cut, cut_prefix, any_of, split, onto_first, equal_fold, to_lower, parse_digits, parse_uint,
  parse_int, positive, negative, format_int, format_uint, pos, arith, strip_one, strip_all, ◌==◌,
  if◌then◌else◌,
}
use hooklens.Signature.{
  Crypto, second, default_tolerance, compute, sha256, hex, equal, too_old, too_new, ahead,
  sha1_deprecated,
}
use hooklens.Signature.Stripe.{
  part_of, conclude, scan_parts, parse_stripe_header, join_tags, judged, verified, verify_stripe,
  signed_payload,
}
use hooklens.Signature.Stripe.Verdict.{header_of, tag_parts, timely, verify_stripe_iff}
use hooklens.Signature.Providers.{
  concluded, github_tagged, github_scheme, github_cut, verify_github, verify_shopify, slack_judged,
  slack_cut, slack_at, verify_slack,
}
use hooklens.Signature.Detect.{Header, stripe, github, has, detect, get, verify}
use hooklens.Signature.Detect.Sound.{Vouched, verify-Vouched}

program : Unit {0}
unfolding bytes_eq trim_space strip_one strip_all cut cut_prefix split onto_first equal_fold
    to_lower parse_digits parse_uint parse_int positive negative format_int format_uint equal
    too_old too_new ahead part_of conclude scan_parts parse_stripe_header join_tags judged verified
    verify_stripe concluded github_tagged github_scheme github_cut verify_github verify_shopify
    slack_judged slack_cut slack_at verify_slack has detect get verify header_of tag_parts
program = tt

abbrev toy : Crypto
toy = record {
  hmac = λ alg secret payload. secret ++ payload;
  encoded = λ enc digest. digest;
  wide = λ s. s;
  wide_fold = λ s t. false;
}

abbrev tags : List Bytes
tags = codes "old" ∷ codes "k5.body" ∷ []

verify_stripe_iff_example :
    (verify_stripe toy (header_of (pos 5) tags) (codes "body") (codes "k") (6 * second) 0).valid ≡ (
      any_of
        (equal (compute toy sha256 hex (codes "k") (signed_payload (pos 5) (codes "body"))))
        tags
      && timely (6 * second) (pos 5) (if 0 == 0 then default_tolerance else 0))
verify_stripe_iff_example =
    verify_stripe_iff toy (codes "body") (codes "k") (6 * second) 0 (pos 5) tags (omega arith) refl

abbrev headers : List Header
headers =
    (record { name = codes "stripe-signature"; content = codes "t=5, v1=old,v1=k5.body" })
    ∷ (record { name = codes "X-Hub-Signature"; content = codes "sha1=KBODY" })
    ∷ []

stripe-valid : (verify toy stripe headers (codes "body") (codes "k") (6 * second)).valid ≡ true
unfolding program
stripe-valid = refl

stripe-late : (verify toy stripe headers (codes "body") (codes "k") (400 * second)).valid ≡ false
unfolding program
stripe-late = refl

-- A valid result of the old scheme still has a problem.
github-problem :
    (verify toy github headers (codes "body") (codes "k") 0).problem ≡ some sha1_deprecated
unfolding program
github-problem = refl

github-valid : (verify toy github headers (codes "body") (codes "k") 0).valid ≡ true
unfolding program
github-valid = refl

verify-Vouched_example :
    Vouched toy headers
      (codes "body")
      (codes "k")
      (6 * second)
      stripe
      (verify toy stripe headers (codes "body") (codes "k") (6 * second))
verify-Vouched_example =
    verify-Vouched toy headers (codes "body") (codes "k") (6 * second) stripe stripe-valid
