-- ===== src/Signature/Stripe/Carried.antt =====
-- internal/signature/stripe.go: what `parseStripeHeader` reads stands in the header.
use mathlib.Core.Path.{subst}
use hooklens.Base.{
  ◌≡◌, ◌⊎◌, inl, inr, refl, true, Option, none, some, List, [], ◌∷◌, ◌++◌, Bytes, codes,
  bytes_eq_iff, trim_space, cut, split, All, All-append, ℤ, parse_int, arith, Option-cases, Bool,
  Bool-cases, any_of,
}
use hooklens.Signature.Stripe.{
  parsed, Part, skipped, stamp, signature, part_of, conclude, scan_parts, parse_stripe_header,
}

-- One of the parts is `name=content`.
abbrev pub Carries : Bytes → Bytes → List Bytes → Type 0
Carries name content [] = ⊥
Carries name content (part ∷ rest) =
    (cut (trim_space part) b'=' ≡ (name, some content)) ⊎ Carries name content rest

Part-cases :
    (p : Part) → (p ≡ skipped) ⊎ ((v : Bytes) × (p ≡ stamp v)) ⊎ ((v : Bytes) × (p ≡ signature v))
Part-cases skipped = inl refl
Part-cases (stamp v) = inr (inl (v, refl))
Part-cases (signature v) = inr (inr (v, refl))

part_of-stamp :
    (c : Bytes × Option Bytes) (v : Bytes) → part_of c ≡ stamp v → c ≡ (codes "t", some v)
unfolding part_of
part_of-stamp (k, none) v e = absurd (cc e)
part_of-stamp (k, some w) v e = ground (arith, e, bytes_eq_iff k (codes "t"))

part_of-signature :
    (c : Bytes × Option Bytes) (v : Bytes) → part_of c ≡ signature v → c ≡ (codes "v1", some v)
unfolding part_of
part_of-signature (k, none) v e = absurd (cc e)
part_of-signature (k, some w) v e = ground (arith, e, bytes_eq_iff k (codes "v1"))

module _ (P : Bytes → Type 0) (Q : ℤ → Type 0) where
  abbrev Known : Option ℤ → Type 0
  Known none = Unit
  Known (some n) = Q n

  conclude-Known :
      (ts : Option ℤ) (sigs : List Bytes) (t : ℤ) (tags : List Bytes)
      → conclude ts sigs ≡ parsed t tags
      → Known ts
      → All P sigs
      → Q t × All P tags
  unfolding conclude
  conclude-Known none sigs t tags e q p = absurd (cc e)
  conclude-Known (some ts) [] t tags e q p = absurd (cc e)
  conclude-Known (some ts) (sig ∷ sigs) t tags e q p =
      let stamps : ts ≡ t = cc e in
      let found : sig ∷ sigs ≡ tags = cc e in (subst Q stamps q, subst (All P) found p)

  scan-Known :
      (parts : List Bytes) (ts : Option ℤ) (sigs : List Bytes) (t : ℤ) (tags : List Bytes)
      → scan_parts parts ts sigs ≡ parsed t tags
      → ((v : Bytes) → Carries (codes "v1") v parts → P v)
      → ((v : Bytes) (n : ℤ) → Carries (codes "t") v parts → parse_int v ≡ some n → Q n)
      → Known ts
      → All P sigs
      → Q t × All P tags
  unfolding scan_parts
  scan-Known [] ts sigs t tags e v1 at q p = conclude-Known ts sigs t tags e q p
  scan-Known (part ∷ rest) ts sigs t tags e v1 at q p =
      let c = cut (trim_space part) b'=' in
      let next =
        λ (ts' : Option ℤ) (sigs' : List Bytes) (e' : scan_parts rest ts' sigs' ≡ parsed t tags)
            (q' : Known ts') (p' : All P sigs').
          scan-Known rest ts' sigs' t tags e' (λ v h. v1 v (inr h)) (λ v n h. at v n (inr h)) q'
            p' in
      elim (Part-cases (part_of c)) [
        | inl is ↦ next ts sigs (ground (arith, is, e)) q p
        | inr (inl (v, is)) ↦ elim (Option-cases (parse_int v)) [
          | inl bad ↦ absurd (ground (arith, is, bad, e))
          | inr (n, good) ↦
              next (some n) sigs (ground (arith, is, good, e))
                (at v n (inl (part_of-stamp c v is)) good) p
        ]
        | inr (inr (v, is)) ↦
            next ts (sigs ++ (v ∷ [])) (ground (arith, is, e)) q
              (All-append P sigs (v ∷ []) p (v1 v (inl (part_of-signature c v is)), tt))
      ]

-- The timestamp and the tags are the contents of parts of the header.
pub parse-Carries :
    (header : Bytes) (t : ℤ) (tags : List Bytes)
    → parse_stripe_header header ≡ parsed t tags
    → ((text : Bytes) × Carries (codes "t") text (split b',' header) × (parse_int text ≡ some t))
      × All (λ tag. Carries (codes "v1") tag (split b',' header)) tags
unfolding parse_stripe_header
parse-Carries header t tags e =
    let parts = split b',' header in
    scan-Known (λ tag. Carries (codes "v1") tag parts)
      (λ n. (text : Bytes) × Carries (codes "t") text parts × (parse_int text ≡ some n)) parts none
      [] t tags (ground (arith, e)) (λ v h. h) (λ v n h is. (v, h, is)) tt tt

-- A tag that passes a test is among those of the header.
pub any-Carries :
    (test : Bytes → Bool) (parts tags : List Bytes)
    → any_of test tags ≡ true
    → All (λ tag. Carries (codes "v1") tag parts) tags
    → (tag : Bytes) × Carries (codes "v1") tag parts × (test tag ≡ true)
any-Carries test parts [] e h = absurd (cc e)
any-Carries test parts (tag ∷ tags) e h = elim (Bool-cases (test tag)) [
  | inl passes ↦ (tag, h.0, passes)
  | inr fails ↦ any-Carries test parts tags (ground (arith, e, fails)) h.1
]
