-- ===== src/Signature/Detect.antt =====
-- internal/signature/detect.go: which provider, and the verifier that `Verify` calls.
pub mod Sound
use hooklens.Base.{
  ℕ, Bool, true, false, ◌||◌, Option, none, some, List, [], ◌∷◌, Bytes, codes, bytes_eq, equal_fold,
  any_of, if◌then◌else◌,
}
use hooklens.Signature.{Crypto, Result, unchecked, unsupported}
use hooklens.Signature.Stripe.{stripe_header, verify_stripe}
use hooklens.Signature.Providers.{
  github_header, github_legacy, shopify_header, slack_sig_header, slack_time_header, verify_github,
  verify_shopify, verify_slack,
}

-- A provider's name; `other` is any text that is none of the four.
pub data Provider : Type 0 where
  stripe github shopify slack : Provider
  other : Bytes → Provider

pub record Header : Type 0 where
  pub name : Bytes
  pub content : Bytes

unfoldable pub has : Crypto → List Header → Bytes → Bool
has crypto headers name = any_of (λ h. equal_fold crypto.wide_fold h.name name) headers

unfoldable pub detect : Crypto → List Header → Option Provider
detect crypto headers =
    if has crypto headers stripe_header
    then some stripe
    else if has crypto headers github_header || has crypto headers github_legacy
    then some github
    else if has crypto headers shopify_header
    then some shopify
    else if has crypto headers slack_sig_header
    then some slack
    else none

unfoldable pub get : Crypto → List Header → Bytes → Bytes
get crypto [] name = []
get crypto (h ∷ rest) name =
    if equal_fold crypto.wide_fold h.name name then h.content else get crypto rest name

-- The header of GitHub's current scheme, or else of the old one.
abbrev pub github_content : Crypto → List Header → Bytes
github_content crypto headers =
    let h = get crypto headers github_header in
    if bytes_eq h [] then get crypto headers github_legacy else h

unfoldable pub verify : Crypto → Provider → List Header → Bytes → Bytes → ℕ → Result
verify crypto stripe headers body secret received_at =
    verify_stripe crypto (get crypto headers stripe_header) body secret received_at 0
verify crypto github headers body secret received_at =
    verify_github crypto (github_content crypto headers) body secret
verify crypto shopify headers body secret received_at =
    verify_shopify crypto (get crypto headers shopify_header) body secret
verify crypto slack headers body secret received_at =
    verify_slack crypto (get crypto headers slack_sig_header) (get crypto headers slack_time_header)
      body secret received_at 0
verify crypto (other name) headers body secret received_at =
    unchecked name (some (unsupported name))
