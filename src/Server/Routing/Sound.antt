-- ===== src/Server/Routing/Sound.antt =====
-- What internal/server/routing.go captures at all: only well-formed slugs, and only by the two forms.
use hooklens.Base.{ℕ, ◌≤◌, ◌≡◌, ◌≢◌, ◌⊎◌, false, [], ◌∷◌, ◌++◌, Bytes, length, All, arith}
use hooklens.Server.Routing.{
  Route, target_app, path_form_prefix, reserved_slugs, starts_with_byte, ends_with_byte,
  resolve_host, resolve,
}

-- A lowercase letter, a digit or a hyphen.
abbrev pub SlugByte : ℕ → Type 0
SlugByte c = ((b'a' ≤ c) × (c ≤ b'z')) ⊎ (((b'0' ≤ c) × (c ≤ b'9')) ⊎ (c ≡ b'-'))

-- 3 to 32 of those bytes, no hyphen at either end, and no reserved name.
pub record IsSlug (s : Bytes) : Type 0 where
  pub long : 3 ≤ length s
  pub short : length s ≤ 32
  pub made : All SlugByte s
  pub start : starts_with_byte b'-' s ≡ false
  pub end_of : ends_with_byte b'-' s ≡ false
  pub free : All (λ r. r ≢ s) reserved_slugs

-- How a request came to an inbox: by a path of the path form, or by a host that is the slug in front
-- of the base domain, with the path unchanged.
pub data Captured (base host path : Bytes) (r : Route) : Type 0 where
  by_path : path ≡ path_form_prefix ++ r.slug ++ r.path → Captured base host path r
  by_root : path ≡ path_form_prefix ++ r.slug → r.path ≡ b'/' ∷ [] → Captured base host path r
  by_host : host ≡ r.slug ++ b'.' ∷ base → r.path ≡ path → Captured base host path r

-- A request that is not captured goes to the app with its path unchanged and no slug.
resolve_app :
    (wide : Bytes → Bytes) (base host path : Bytes)
    → (resolve wide base host path).target ≡ target_app
    → ((resolve wide base host path).path ≡ path) × ((resolve wide base host path).slug ≡ [])
unfolding resolve resolve_host
resolve_app wide base host path h = ground arith
