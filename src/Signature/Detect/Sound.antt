-- ===== src/Signature/Detect/Sound.antt =====
-- internal/signature: what a valid result vouches for.
use hooklens.Base.{
  ℕ, ◌≡◌, ◌∙◌, refl, Bool, true, false, not, ◌||◌, Option, none, some, List, [], ◌++◌, Bytes, codes,
  bytes_eq, bytes_eq_iff, trim_space, cut, split, ap, ℤ, parse_int, format_int,
}
use hooklens.Signature.{
  Crypto, Algorithm, Encoding, sha256, sha1, hex, base64, compute, equal, Problem, no_header,
  unknown_scheme, sha1_deprecated, unsupported, Result, default_tolerance, too_old, too_new,
}
use hooklens.Signature.Honest.{Honest, Honest-if, concluded-Honest, unchecked-Honest, near-Honest}
use hooklens.Signature.Stripe.{
  Parsed, parsed, refused, judged, verified, verify_stripe, stripe_header, parse_stripe_header,
}
use hooklens.Signature.Stripe.Carried.{Carries, parse-Carries, any-Carries}
use hooklens.Signature.Stripe.Verdict.{timely}
use hooklens.Signature.Providers.{
  github_tagged, github_scheme, github_cut, verify_github, verify_shopify, slack_judged,
  shopify_header, slack_version, slack_sig_header, slack_time_header, slack_cut, slack_at,
  verify_slack, same_folded,
}
use hooklens.Signature.Detect.{
  Provider, Header, stripe, github, shopify, slack, other, get, github_content, verify,
}

module _ (crypto : Crypto) (headers : List Header) (body secret : Bytes) (now : ℕ) where
  -- The text that the result shows as signed, and the tag that it shows as expected for it.
  abbrev pub Shown : Algorithm → Encoding → Bytes → Result → Type 0
  Shown alg enc text res = (res.signed ≡ text) × (res.expected ≡ compute crypto alg enc secret text)

  abbrev pub scheme_name : Algorithm → Bytes
  scheme_name sha1 = codes "sha1"
  scheme_name sha256 = codes "sha256"

  abbrev pub slack_text : Bytes → Bytes
  slack_text raw = codes "v0:" ++ (raw ++ (codes ":" ++ body))

  -- What stands in the headers of each provider when its result is valid: the tag of the header is
  -- the HMAC, under the secret, of the text that the provider signs.
  abbrev pub Vouched : Provider → Result → Type 0
  Vouched stripe res =
      let parts = split b',' (get crypto headers stripe_header) in
      (ts : ℤ) × (text : Bytes) × (tag : Bytes) × Carries (codes "t") text parts
      × (parse_int text ≡ some ts)
      × Carries (codes "v1") tag parts
      × (equal (compute crypto sha256 hex secret (format_int ts ++ (codes "." ++ body))) tag ≡ true)
      × (timely now ts default_tolerance ≡ true)
      × Shown sha256 hex (format_int ts ++ (codes "." ++ body)) res
      × (res.timestamp ≡ some ts)
  Vouched github res =
      (alg : Algorithm) × (tag : Bytes) × (cut (trim_space (github_content crypto headers)) b'='
        ≡ (scheme_name alg, some tag))
      × (same_folded crypto (compute crypto alg hex secret body) tag ≡ true)
      × Shown alg hex body res
      × (res.provided ≡ tag)
  Vouched shopify res =
      let tag = trim_space (get crypto headers shopify_header) in
      (equal (compute crypto sha256 base64 secret body) tag ≡ true)
      × Shown sha256 base64 body res
      × (res.provided ≡ tag)
  Vouched slack res =
      let raw = trim_space (get crypto headers slack_time_header) in
      (ts : ℤ) × (tag : Bytes) × (parse_int raw ≡ some ts)
      × (cut (trim_space (get crypto headers slack_sig_header)) b'=' ≡ (codes "v0", some tag))
      × (same_folded crypto (compute crypto sha256 hex secret (slack_text raw)) tag ≡ true)
      × (timely now ts default_tolerance ≡ true)
      × Shown sha256 hex (slack_text raw) res
      × (res.provided ≡ tag)
      × (res.timestamp ≡ some ts)
  Vouched (other name) res = ⊥

  github_tagged-Honest :
      (alg : Algorithm) (kept : Option Problem) (tag : Bytes)
      → cut (trim_space (github_content crypto headers)) b'=' ≡ (scheme_name alg, some tag)
      → Honest (Vouched github) (github_tagged crypto alg kept tag body secret)
  unfolding github_tagged
  github_tagged-Honest alg kept tag is =
      concluded-Honest _ _ _ _ (λ same. (alg, tag, is, same, (refl, refl), refl))

  github_scheme-Honest :
      (scheme tag : Bytes)
      → cut (trim_space (github_content crypto headers)) b'=' ≡ (scheme, some tag)
      → Honest (Vouched github) (github_scheme crypto scheme tag body secret)
  unfolding github_scheme
  github_scheme-Honest scheme tag is =
      Honest-if (bytes_eq scheme (codes "sha1")) _ _
        (λ e.
          github_tagged-Honest sha1 (some sha1_deprecated) tag
            (is ∙ ap (λ s. (s, some tag)) ((bytes_eq_iff scheme (codes "sha1")).0 e)))
        (Honest-if (bytes_eq scheme (codes "sha256")) _ _
          (λ e.
            github_tagged-Honest sha256 none tag
              (is ∙ ap (λ s. (s, some tag)) ((bytes_eq_iff scheme (codes "sha256")).0 e)))
          (unchecked-Honest (codes "github") (some (unknown_scheme scheme))))

  github_cut-Honest :
      (header : Bytes) (parts : Bytes × Option Bytes)
      → cut (trim_space (github_content crypto headers)) b'=' ≡ parts
      → Honest (Vouched github) (github_cut crypto header body secret parts)
  unfolding github_cut
  github_cut-Honest header (scheme, none) is = unchecked-Honest _ _
  github_cut-Honest header (scheme, some tag) is =
      Honest-if (bytes_eq scheme []) _ _ (λ _. unchecked-Honest _ _)
        (github_scheme-Honest scheme tag is)

  github-Honest :
      Honest (Vouched github) (verify_github crypto (github_content crypto headers) body secret)
  unfolding verify_github
  github-Honest = github_cut-Honest _ _ refl

  shopify-Honest :
      Honest
        (Vouched shopify)
        (verify_shopify crypto (get crypto headers shopify_header) body secret)
  unfolding verify_shopify
  shopify-Honest =
      Honest-if (bytes_eq (trim_space (get crypto headers shopify_header)) []) _ _
        (λ _. unchecked-Honest _ _) (concluded-Honest _ _ _ _ (λ same. (same, (refl, refl), refl)))

  slack_judged-Honest :
      (ts : ℤ) (matches : Bool) (res : Result)
      → (matches ≡ true
          → timely now ts default_tolerance ≡ true
          → Vouched slack (record res { valid = true; problem = none }))
      → Honest (Vouched slack) (slack_judged now ts default_tolerance matches res)
  unfolding slack_judged
  slack_judged-Honest ts false res h = record { vouched = λ v. absurd (cc v) }
  slack_judged-Honest ts true res h =
      near-Honest (too_old now ts default_tolerance || too_new now ts default_tolerance) res _
        (λ e. h refl (ap not e))

  slack_cut-Honest :
      (header : Bytes) (ts : ℤ) (parts : Bytes × Option Bytes)
      → parse_int (trim_space (get crypto headers slack_time_header)) ≡ some ts
      → cut (trim_space (get crypto headers slack_sig_header)) b'=' ≡ parts
      → Honest (Vouched slack) (
          slack_cut crypto header
            (trim_space (get crypto headers slack_time_header))
            ts
            body
            secret
            now
            default_tolerance
            parts)
  unfolding slack_cut
  slack_cut-Honest header ts (version, none) at is = record { vouched = λ v. absurd (cc v) }
  slack_cut-Honest header ts (version, some tag) at is =
      Honest-if (bytes_eq version slack_version) _ _
        (λ e. slack_judged-Honest ts _ _ (λ same near. (
          ts,
          tag,
          at,
          is ∙ ap (λ s. (s, some tag)) ((bytes_eq_iff version slack_version).0 e),
          same,
          near,
          (refl, refl),
          refl,
          refl,
        )))
        (record { vouched = λ v. absurd (cc v) })

  slack_at-Honest :
      (at : Option ℤ)
      → parse_int (trim_space (get crypto headers slack_time_header)) ≡ at
      → Honest (Vouched slack) (
          slack_at crypto
            (get crypto headers slack_sig_header)
            (trim_space (get crypto headers slack_time_header))
            body
            secret
            now
            default_tolerance
            at)
  unfolding slack_at
  slack_at-Honest none e = unchecked-Honest _ _
  slack_at-Honest (some ts) e = slack_cut-Honest _ ts _ e refl

  slack-Honest : Honest (Vouched slack) (
      verify_slack crypto
        (get crypto headers slack_sig_header)
        (get crypto headers slack_time_header)
        body
        secret
        now
        0)
  unfolding verify_slack
  slack-Honest =
      Honest-if (bytes_eq (trim_space (get crypto headers slack_time_header)) []) _ _
        (λ _. unchecked-Honest (codes "slack") (some (no_header slack_time_header)))
        (slack_at-Honest _ refl)

  judged-Honest :
      (ts : ℤ) (matches : Bool) (res : Result)
      → (matches ≡ true
          → timely now ts default_tolerance ≡ true
          → Vouched stripe (record res { valid = true; problem = none }))
      → Honest (Vouched stripe) (judged now default_tolerance ts matches res)
  unfolding judged
  judged-Honest ts false res h = record { vouched = λ v. absurd (cc v) }
  judged-Honest ts true res h =
      near-Honest (too_old now ts default_tolerance || too_new now ts default_tolerance) res _
        (λ e. h refl (ap not e))

  verified-Honest :
      (p : Parsed)
      → parse_stripe_header (get crypto headers stripe_header) ≡ p
      → Honest (Vouched stripe) (verified crypto body secret now default_tolerance p)
  unfolding verified
  verified-Honest (refused why) e = unchecked-Honest _ _
  verified-Honest (parsed ts tags) e =
      let expected = compute crypto sha256 hex secret (format_int ts ++ (codes "." ++ body)) in
      let read = parse-Carries (get crypto headers stripe_header) ts tags e in
      let parts = split b',' (get crypto headers stripe_header) in
      judged-Honest ts _ _ (λ found near.
        let one = any-Carries (equal expected) parts tags found read.1 in
        (ts, read.0.0, one.0, read.0.1, read.0.2, one.1, one.2, near, (refl, refl), refl))

  stripe-Honest :
      Honest
        (Vouched stripe)
        (verify_stripe crypto (get crypto headers stripe_header) body secret now 0)
  unfolding verify_stripe
  stripe-Honest = verified-Honest _ refl

  -- A result of `Verify` that is valid vouches for the body by what stands in the headers: GitHub's
  -- tag behind the name of its scheme and Shopify's whole header are the HMAC of the raw body under
  -- the secret, Slack's tag behind `v0` that of the version, the timestamp of the other header and the
  -- body, and one `v1` part of Stripe's that of the timestamp of a `t` part and the body; a timestamp
  -- is at most five minutes away from the arrival; and the result shows the text and the expected tag.
  pub verify-Vouched :
      (p : Provider)
      → (verify crypto p headers body secret now).valid ≡ true
      → Vouched p (verify crypto p headers body secret now)
  unfolding verify
  verify-Vouched stripe = stripe-Honest.vouched
  verify-Vouched github = github-Honest.vouched
  verify-Vouched shopify = shopify-Honest.vouched
  verify-Vouched slack = slack-Honest.vouched
  verify-Vouched (other name) =
      (unchecked-Honest {P = Vouched (other name)} name (some (unsupported name))).vouched
