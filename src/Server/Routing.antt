-- ===== src/Server/Routing.antt =====
-- internal/server/routing.go: where a request goes, from its Host header and its path.
pub mod Laws
pub mod Hosts
pub mod Sound
use hooklens.Base.{
  ℕ, suc, ◌+◌, Bool, true, false, not, ◌&&◌, ◌||◌, Option, none, some, List, [], ◌∷◌, ◌++◌, Bytes,
  codes, bytes_eq, cut_prefix, cut_suffix, cut, trim_suffix_byte, trim_space, to_lower, length, leb,
  ltb, ◌==◌, if◌then◌else◌, all_of, any_of,
}
use hooklens.Server.Net.{split_host_port}

pub data Target : Type 0 where
  target_app target_ingest : Target

pub record Route : Type 0 where
  pub target : Target
  pub slug : Bytes
  pub path : Bytes

abbrev pub path_form_prefix : Bytes
path_form_prefix = codes "/e/"

abbrev pub reserved_slugs : List Bytes
reserved_slugs =
    codes "admin"
    ∷ codes "api"
    ∷ codes "app"
    ∷ codes "assets"
    ∷ codes "blog"
    ∷ codes "cdn"
    ∷ codes "dashboard"
    ∷ codes "dev"
    ∷ codes "docs"
    ∷ codes "ftp"
    ∷ codes "help"
    ∷ codes "mail"
    ∷ codes "smtp"
    ∷ codes "static"
    ∷ codes "status"
    ∷ codes "support"
    ∷ codes "www"
    ∷ []

-- The `switch` over one byte.
abbrev pub slug_byte : ℕ → Bool
slug_byte c = (leb b'a' c && leb c b'z') || (leb b'0' c && leb c b'9') || c == b'-'

abbrev pub starts_with_byte : ℕ → Bytes → Bool
starts_with_byte b [] = false
starts_with_byte b (c ∷ s) = c == b

abbrev pub ends_with_byte : ℕ → Bytes → Bool
ends_with_byte b [] = false
ends_with_byte b (c ∷ []) = c == b
ends_with_byte b (c ∷ d ∷ s) = ends_with_byte b (d ∷ s)

unfoldable pub is_reserved : Bytes → Bool
unfolding bytes_eq
is_reserved s = any_of (λ r. bytes_eq r s) reserved_slugs

unfoldable pub valid_slug : Bytes → Bool
valid_slug s =
    if ltb (length s) 3 || ltb 32 (length s)
    then false
    else if starts_with_byte b'-' s || ends_with_byte b'-' s
    then false
    else if all_of slug_byte s
    then not (is_reserved s)
    else false

-- The inbox and the path that the provider addressed.
unfoldable pub split_path_form : Bytes → Option (Bytes × Bytes)
unfolding cut_prefix cut
split_path_form path = elim (cut_prefix path path_form_prefix) [
  | none ↦ none
  | some after ↦
      let (slug, rest) = cut after b'/' in
      if valid_slug slug
      then elim rest [ none ↦ some (slug, b'/' ∷ []) | some r ↦ some (slug, b'/' ∷ r) ]
      else none
]

-- `wide` is strings.ToLower on a text outside ASCII.
unfoldable pub normalize_host : (Bytes → Bytes) → Bytes → Bytes
unfolding to_lower trim_space split_host_port trim_suffix_byte
normalize_host wide host =
    let lowered = to_lower wide (trim_space host) in
    elim (split_host_port lowered) [
      | none ↦ trim_suffix_byte lowered b'.'
      | some (h, _) ↦ trim_suffix_byte h b'.'
    ]

abbrev to_app : Bytes → Route
to_app path = record { target = target_app; slug = []; path = path }

-- The second and third forms, of a normalised host.
unfoldable pub resolve_host : Bytes → Bytes → Bytes → Route
unfolding bytes_eq cut_suffix
resolve_host base host path =
    if bytes_eq host base || bytes_eq host (codes "www." ++ base)
    then to_app path
    else elim (cut_suffix host (b'.' ∷ base)) [
      | none ↦ to_app path
      | some sub ↦
          if valid_slug sub
          then record { target = target_ingest; slug = sub; path = path }
          else to_app path
    ]

unfoldable pub resolve : (Bytes → Bytes) → Bytes → Bytes → Bytes → Route
unfolding split_path_form resolve_host
resolve wide base host path = elim (split_path_form path) [
  | some (slug, rest) ↦ record { target = target_ingest; slug = slug; path = rest }
  | none ↦ resolve_host base (normalize_host wide host) path
]
