-- ===== src/Server/Routing/Laws.antt =====
-- What the routing of internal/server/routing.go guarantees: which names can be inboxes, that every
-- inbox is reached by both forms, and that nothing else is.
use hooklens.Base.{
  ℕ, ◌≤◌, ◌≡◌, ◌≢◌, refl, ap, true, false, none, some, [], ◌∷◌, ◌++◌, Bytes, codes, bytes_eq,
  bytes_eq_iff, cut_prefix-append, cut_suffix, cut_suffix-append, cut-append, cut_lacking, Lacks,
  length, length-append, all_of, arith,
}
use hooklens.Server.Routing.{
  Route, target_ingest, path_form_prefix, slug_byte, is_reserved, valid_slug, split_path_form,
  normalize_host, resolve_host, resolve,
}

slug_bytes-Lacks :
    (b : ℕ) → slug_byte b ≡ false → (s : Bytes) → all_of slug_byte s ≡ true → Lacks b s
slug_bytes-Lacks b h [] a = tt
slug_bytes-Lacks b h (c ∷ s) a = (
  λ (e : c ≡ b). ground (arith, ap (λ (d : ℕ). slug_byte d) e),
  slug_bytes-Lacks b h s (ground arith),
)

pub valid_slug-bytes : (s : Bytes) → valid_slug s ≡ true → all_of slug_byte s ≡ true
unfolding valid_slug
valid_slug-bytes s h = ground arith

-- A path that spells the path form leads to its inbox, with what stands behind the slug.
split_path_form-append :
    (slug rest : Bytes)
    → valid_slug slug ≡ true
    → split_path_form (path_form_prefix ++ slug ++ b'/' ∷ rest) ≡ some (slug, b'/' ∷ rest)
unfolding split_path_form
split_path_form-append slug rest h = ground (
  arith,
  cut_prefix-append path_form_prefix (slug ++ b'/' ∷ rest),
  cut-append slug rest b'/' (slug_bytes-Lacks b'/' refl slug (valid_slug-bytes slug h)),
)

split_path_form_root :
    (slug : Bytes)
    → valid_slug slug ≡ true
    → split_path_form (path_form_prefix ++ slug) ≡ some (slug, b'/' ∷ [])
unfolding split_path_form
split_path_form_root slug h = ground (
  arith,
  cut_prefix-append path_form_prefix slug,
  cut_lacking slug b'/' (slug_bytes-Lacks b'/' refl slug (valid_slug-bytes slug h)),
)

abbrev pub inbox : Bytes → Bytes → Route
inbox slug path = record { target = target_ingest; slug = slug; path = path }

-- For every valid slug, `/e/{slug}/rest` is captured into that inbox as `/rest`, and `/e/{slug}` as
-- `/`, on every host and whatever the base domain is.
resolve_path_form :
    (wide : Bytes → Bytes) (base host slug rest : Bytes)
    → valid_slug slug ≡ true
    → (resolve wide base host (path_form_prefix ++ slug ++ b'/' ∷ rest) ≡ inbox slug (b'/' ∷ rest))
      × (resolve wide base host (path_form_prefix ++ slug) ≡ inbox slug (b'/' ∷ []))
unfolding resolve
resolve_path_form wide base host slug rest h = (
  ground (arith, split_path_form-append slug rest h),
  ground (arith, split_path_form_root slug h),
)

-- A slug in front of the base domain is not the base domain, nor its www alias.
longer_than_base : (slug base : Bytes) → 3 ≤ length slug → slug ++ b'.' ∷ base ≢ base
longer_than_base slug base h e =
    absurd (omega (arith, ap (length {A = ℕ}) e, length-append slug (b'.' ∷ base)))

append_cancel : (p q t : Bytes) → p ++ t ≡ q ++ t → p ≡ q
append_cancel p q t e =
    ground
      (arith, cut_suffix-append p t, cut_suffix-append q t, ap (λ (s : Bytes). cut_suffix s t) e)

www_reserved : valid_slug (codes "www") ≡ false
unfolding valid_slug is_reserved bytes_eq
www_reserved = refl

valid_slug-length : (s : Bytes) → valid_slug s ≡ true → 3 ≤ length s
unfolding valid_slug
valid_slug-length s h = ground arith

-- A host that is normalized to a valid slug in front of the base domain is captured into that inbox
-- with the path unchanged, unless the path itself is of the path form.
pub resolve_normalized :
    (wide : Bytes → Bytes) (base host path slug : Bytes)
    → valid_slug slug ≡ true
    → split_path_form path ≡ none
    → normalize_host wide host ≡ slug ++ b'.' ∷ base
    → resolve wide base host path ≡ inbox slug path
unfolding resolve resolve_host
resolve_normalized wide base host path slug h no_form e =
    let other : normalize_host wide host ≢ base =
      λ q. longer_than_base slug base (valid_slug-length slug h) (ground arith) in
    let not_www : normalize_host wide host ≢ codes "www." ++ base = λ q. absurd (
      ground (
        arith,
        append_cancel slug (codes "www") (b'.' ∷ base),
        www_reserved,
        ap valid_slug (append_cancel slug (codes "www") (b'.' ∷ base) (ground arith)),
      )) in
    ground (
      arith,
      bytes_eq_iff (normalize_host wide host) base,
      bytes_eq_iff (normalize_host wide host) (codes "www." ++ base),
      cut_suffix-append slug (b'.' ∷ base),
      ap (λ (s : Bytes). cut_suffix s (b'.' ∷ base)) e,
    )
