-- ===== src/Replay/Aimed.antt =====
-- internal/replay/replay.go: the URL of a replay, from its target and the capture.
use mathlib.Core.Path.{subst}
use hooklens.Base.{
  true, false, ◌≡◌, refl, Option, none, some, [], ◌++◌, ◌||◌, Bytes, codes, bytes_eq, trim_space,
  trim_suffix_byte, arith, Bool-cases, inl, inr, if◌then◌else◌,
}
use hooklens.Replay.{Url, Library, ok, Request, Call, outgoing, parsed_url, parse_http_url}

module _ (lib : Library) where
  -- The call goes to the host that the target names, over http or https, to the request's path behind
  -- the target's, and with the request's query, or the target's where the request has none.
  unfoldable pub Aimed : Bytes → Request → Call → Type 0
  Aimed target req call =
      (u : Url) × (lib.parse_url (trim_space target) ≡ some u)
      × ((bytes_eq u.scheme (codes "http") || bytes_eq u.scheme (codes "https")) ≡ true)
      × (bytes_eq u.host [] ≡ false)
      × (call.url.scheme ≡ u.scheme)
      × (call.url.host ≡ u.host)
      × (call.url.path ≡ trim_suffix_byte u.path b'/' ++ req.path)
      × (call.url.query ≡ (if bytes_eq req.query [] then u.query else req.query))

  -- What a target that parses says.
  abbrev pub Parses : Bytes → Url → Type 0
  Parses target u =
      (lib.parse_url (trim_space target) ≡ some u)
      × ((bytes_eq u.scheme (codes "http") || bytes_eq u.scheme (codes "https")) ≡ true)
      × (bytes_eq u.host [] ≡ false)

  parsed_url-ok :
      (o : Option Url) (u : Url)
      → parsed_url lib o ≡ ok u
      → (o ≡ some u)
        × ((bytes_eq u.scheme (codes "http") || bytes_eq u.scheme (codes "https")) ≡ true)
        × (bytes_eq u.host [] ≡ false)
  unfolding parsed_url
  parsed_url-ok none u e = absurd (cc e)
  parsed_url-ok (some v) u e =
      elim (Bool-cases (bytes_eq v.scheme (codes "http") || bytes_eq v.scheme (codes "https"))) [
        | inl http ↦ elim (Bool-cases (bytes_eq v.host [])) [
          | inl nowhere ↦ absurd (ground arith)
          | inr host ↦
              let is : v ≡ u = ground arith in
              subst
                (λ (x : Url).
                  (some v ≡ some x)
                  × ((bytes_eq x.scheme (codes "http") || bytes_eq x.scheme (codes "https")) ≡ true)
                  × (bytes_eq x.host [] ≡ false))
                is (refl, http, host)
        ]
        | inr neither ↦ absurd (ground arith)
      ]

  pub parse_http_url-Parses :
      (target : Bytes) (u : Url) → parse_http_url lib target ≡ ok u → Parses target u
  unfolding parse_http_url
  parse_http_url-Parses target u e =
      parsed_url-ok (lib.parse_url (trim_space target)) u (ground (arith, e))

  pub outgoing-Aimed :
      (target : Bytes) (u : Url) (req : Request)
      → Parses target u
      → Aimed target req (outgoing lib u req)
  unfolding Aimed outgoing
  outgoing-Aimed target u req h = (u, h.0, h.1, h.2, refl, refl, refl, refl)
