-- ===== src/Signature/Providers.antt =====
-- internal/signature/providers.go: GitHub, Shopify and Slack.
use hooklens.Base.{
  ℕ, Bool, true, false, ◌||◌, Option, none, some, [], ◌++◌, Bytes, codes, bytes_eq, trim_space, cut,
  to_lower, ◌==◌, if◌then◌else◌, ℤ, parse_int,
}
use hooklens.Signature.{
  Crypto, Algorithm, sha256, sha1, hex, base64, compute, equal, Problem, no_header, bad_timestamp,
  no_match, expired, expected_scheme, unknown_scheme, sha1_deprecated, hex_encoded, Result,
  unchecked, default_tolerance, too_old, too_new,
}

abbrev pub github_header : Bytes
github_header = codes "X-Hub-Signature-256"

abbrev pub github_legacy : Bytes
github_legacy = codes "X-Hub-Signature"

abbrev pub shopify_header : Bytes
shopify_header = codes "X-Shopify-Hmac-Sha256"

abbrev pub slack_sig_header : Bytes
slack_sig_header = codes "X-Slack-Signature"

abbrev pub slack_time_header : Bytes
slack_time_header = codes "X-Slack-Request-Timestamp"

-- Tags are compared without regard to case.
abbrev pub same_folded : Crypto → Bytes → Bytes → Bool
same_folded crypto a b = equal (to_lower crypto.wide a) (to_lower crypto.wide b)

-- A result whose tag was computed: valid as the test says, with a problem if it is not.
unfoldable pub concluded : Bool → Option Problem → Problem → Result → Result
concluded true kept otherwise res = record res { valid = true; problem = kept }
concluded false kept otherwise res = record res { valid = false; problem = some otherwise }

unfoldable pub github_tagged : Crypto → Algorithm → Option Problem → Bytes → Bytes → Bytes → Result
github_tagged crypto alg kept tag body secret =
    let expected = compute crypto alg hex secret body in
    concluded (same_folded crypto expected tag) kept no_match (record {
      provider = codes "github";
      valid = false;
      signed = body;
      expected = expected;
      provided = tag;
      timestamp = none;
      problem = none;
    })

-- The problem of the sha1 scheme stays when the tag matches.
unfoldable pub github_scheme : Crypto → Bytes → Bytes → Bytes → Bytes → Result
github_scheme crypto scheme tag body secret =
    if bytes_eq scheme (codes "sha1")
    then github_tagged crypto sha1 (some sha1_deprecated) tag body secret
    else if bytes_eq scheme (codes "sha256")
    then github_tagged crypto sha256 none tag body secret
    else unchecked (codes "github") (some (unknown_scheme scheme))

unfoldable pub github_cut : Crypto → Bytes → Bytes → Bytes → Bytes × Option Bytes → Result
github_cut crypto header body secret (scheme, none) =
    unchecked (codes "github") (some (expected_scheme header))
github_cut crypto header body secret (scheme, some tag) =
    if bytes_eq scheme []
    then unchecked (codes "github") (some (expected_scheme header))
    else github_scheme crypto scheme tag body secret

unfoldable pub verify_github : Crypto → Bytes → Bytes → Bytes → Result
verify_github crypto header body secret =
    github_cut crypto header body secret (cut (trim_space header) b'=')

-- The two ways in which a Shopify tag can be wrong.
abbrev pub shopify_problem : Crypto → Bytes → Bytes → Bytes → Problem
shopify_problem crypto tag body secret =
    if same_folded crypto (compute crypto sha256 hex secret body) tag then hex_encoded else no_match

unfoldable pub verify_shopify : Crypto → Bytes → Bytes → Bytes → Result
verify_shopify crypto header body secret =
    let tag = trim_space header in
    let expected = compute crypto sha256 base64 secret body in
    if bytes_eq tag []
    then unchecked (codes "shopify") (some (no_header shopify_header))
    else concluded (equal expected tag) none (shopify_problem crypto tag body secret) (record {
      provider = codes "shopify";
      valid = false;
      signed = body;
      expected = expected;
      provided = tag;
      timestamp = none;
      problem = none;
    })

abbrev pub slack_version : Bytes
slack_version = codes "v0"

-- A result that keeps what was read of the timestamp.
abbrev pub stamped : ℤ → Problem → Result
stamped ts problem = record (unchecked (codes "slack") (some problem)) { timestamp = some ts }

unfoldable pub slack_judged : ℕ → ℤ → ℕ → Bool → Result → Result
slack_judged now ts tolerance false res = record res { valid = false; problem = some no_match }
slack_judged now ts tolerance true res =
    if too_old now ts tolerance || too_new now ts tolerance
    then record res { valid = false; problem = some expired }
    else record res { valid = true; problem = none }

abbrev pub slack_base : Bytes → Bytes → Bytes
slack_base raw body = slack_version ++ (codes ":" ++ (raw ++ (codes ":" ++ body)))

unfoldable pub slack_cut :
    Crypto → Bytes → Bytes → ℤ → Bytes → Bytes → ℕ → ℕ → Bytes × Option Bytes → Result
slack_cut crypto header raw ts body secret now tolerance (version, none) =
    stamped ts (expected_scheme header)
slack_cut crypto header raw ts body secret now tolerance (version, some tag) =
    let signed = slack_base raw body in
    let expected = compute crypto sha256 hex secret signed in
    if bytes_eq version slack_version
    then slack_judged now ts tolerance (same_folded crypto expected tag) (record {
      provider = codes "slack";
      valid = false;
      signed = signed;
      expected = expected;
      provided = tag;
      timestamp = some ts;
      problem = none;
    })
    else stamped ts (expected_scheme header)

unfoldable pub slack_at : Crypto → Bytes → Bytes → Bytes → Bytes → ℕ → ℕ → Option ℤ → Result
slack_at crypto header raw body secret now tolerance none =
    unchecked (codes "slack") (some (bad_timestamp raw))
slack_at crypto header raw body secret now tolerance (some ts) =
    slack_cut crypto header raw ts body secret now tolerance (cut (trim_space header) b'=')

-- A tolerance of 0 stands for one that is not positive.
unfoldable pub verify_slack : Crypto → Bytes → Bytes → Bytes → Bytes → ℕ → ℕ → Result
verify_slack crypto sig_header ts_header body secret now tolerance =
    let raw = trim_space ts_header in
    let limit = if tolerance == 0 then default_tolerance else tolerance in
    if bytes_eq raw []
    then unchecked (codes "slack") (some (no_header slack_time_header))
    else slack_at crypto sig_header raw body secret now limit (parse_int raw)
