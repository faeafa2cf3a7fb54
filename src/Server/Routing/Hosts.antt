-- ===== src/Server/Routing/Hosts.antt =====
-- internal/server/routing.go (`normalizeHost`): hosts that are normalized as they stand, and the inbox
-- of a subdomain.
use hooklens.Base.{
  ℕ, ◌≡◌, ◌∙◌, refl, ap, Bool, true, none, [], ◌∷◌, ◌++◌, ◌==◌, ◌||◌, map, Bytes, all_of,
  all-append, graphic, trim_space, trim_space-graphic, to_lower, lower_byte, ltb, trim_suffix_byte,
  arith,
}
use hooklens.Server.Net.{split_host_port, last_index}
use hooklens.Server.Routing.{slug_byte, valid_slug, split_path_form, normalize_host, resolve}
use hooklens.Server.Routing.Laws.{inbox, resolve_normalized, valid_slug-bytes}

-- The bytes of a domain name in lower case.
abbrev pub domain_byte : ℕ → Bool
domain_byte c = slug_byte c || c == b'.'

slug-domain : (s : Bytes) → all_of slug_byte s ≡ true → all_of domain_byte s ≡ true
slug-domain [] h = refl
slug-domain (c ∷ s) h = ground (arith, slug-domain s)

domain-graphic : (s : Bytes) → all_of domain_byte s ≡ true → all_of graphic s ≡ true
domain-graphic [] h = refl
domain-graphic (c ∷ s) h = ground (arith, domain-graphic s)

domain-ascii : (s : Bytes) → all_of domain_byte s ≡ true → all_of (λ c. ltb c 128) s ≡ true
domain-ascii [] h = refl
domain-ascii (c ∷ s) h = ground (arith, domain-ascii s)

domain-lower : (s : Bytes) → all_of domain_byte s ≡ true → map lower_byte s ≡ s
domain-lower [] h = refl
domain-lower (c ∷ s) h = ground (arith, domain-lower s)

to_lower-domain :
    (wide : Bytes → Bytes) (s : Bytes) → all_of domain_byte s ≡ true → to_lower wide s ≡ s
unfolding to_lower
to_lower-domain wide s h = ground (arith, domain-ascii s h, domain-lower s h)

no_colon : (s : Bytes) → all_of domain_byte s ≡ true → last_index b':' s ≡ none
unfolding last_index
no_colon [] h = refl
no_colon (c ∷ s) h = ground (arith, no_colon s)

split_host_port-domain : (s : Bytes) → all_of domain_byte s ≡ true → split_host_port s ≡ none
unfolding split_host_port
split_host_port-domain [] h = refl
split_host_port-domain (c ∷ s) h = ground (arith, no_colon (c ∷ s) h)

trim_suffix_byte-append :
    (p base : Bytes) (c : ℕ)
    → trim_suffix_byte (c ∷ base) b'.' ≡ c ∷ base
    → trim_suffix_byte (p ++ b'.' ∷ c ∷ base) b'.' ≡ p ++ b'.' ∷ c ∷ base
unfolding trim_suffix_byte
trim_suffix_byte-append [] base c h = ap (◌∷◌ b'.') h
trim_suffix_byte-append (d ∷ []) base c h = ap (λ s. d ∷ b'.' ∷ s) h
trim_suffix_byte-append (d ∷ e ∷ p) base c h = ap (◌∷◌ d) (trim_suffix_byte-append (e ∷ p) base c h)

normalize_host-domain :
    (wide : Bytes → Bytes) (s : Bytes)
    → all_of domain_byte s ≡ true
    → normalize_host wide s ≡ trim_suffix_byte s b'.'
unfolding normalize_host
normalize_host-domain wide s h =
    let trimmed : trim_space s ≡ s = trim_space-graphic s (domain-graphic s h) in
    ground (arith, trimmed, to_lower-domain wide s h, split_host_port-domain s h)

-- Where the base domain is not empty, has lower-case letters, digits, hyphens and dots only and no dot
-- at its end, the host `{slug}.{base}` of a valid slug is captured into that inbox with the path
-- unchanged, unless the path is of the path form.
pub resolve_subdomain :
    (wide : Bytes → Bytes) (slug path : Bytes) (c : ℕ) (base : Bytes)
    → valid_slug slug ≡ true
    → all_of domain_byte (c ∷ base) ≡ true
    → trim_suffix_byte (c ∷ base) b'.' ≡ c ∷ base
    → split_path_form path ≡ none
    → resolve wide (c ∷ base) (slug ++ b'.' ∷ c ∷ base) path ≡ inbox slug path
resolve_subdomain wide slug path c base valid plain no_dot no_form =
    let rest : all_of domain_byte (b'.' ∷ c ∷ base) ≡ true = ground arith in
    let host : all_of domain_byte (slug ++ b'.' ∷ c ∷ base) ≡ true =
      all-append domain_byte slug (b'.' ∷ c ∷ base) (slug-domain slug (valid_slug-bytes slug valid))
        rest in
    resolve_normalized wide (c ∷ base) (slug ++ b'.' ∷ c ∷ base) path slug valid no_form (
      normalize_host-domain wide (slug ++ b'.' ∷ c ∷ base) host
      ∙ trim_suffix_byte-append slug base c no_dot)
