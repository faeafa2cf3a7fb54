-- ===== src/Diff/Headers.antt =====
-- internal/diff/headers.go: header lists compared by name. `wide` is strings.ToLower outside ASCII.
pub mod Same
use hooklens.Base.{
  Bool, true, false, not, Option, none, some, List, [], ◌∷◌, ◌++◌, Bytes, codes, bytes_eq,
  bytes_key, Map, lookup, insert, keep, any_of, to_lower, if◌then◌else◌,
}
use hooklens.Capture.{Header}
use hooklens.Diff.{Change, removed, added, changed, sort_strings, all_keys, over}

-- strings.Join.
unfoldable pub joined : List Bytes → Bytes → Bytes
joined [] sep = []
joined (v ∷ []) sep = v
joined (v ∷ w ∷ rest) sep = v ++ (sep ++ joined (w ∷ rest) sep)

abbrev pub comma : Bytes
comma = codes ", "

-- A name that is not there has no values so far.
unfoldable pub grown : Option (List Bytes) → Bytes → List Bytes
grown none v = v ∷ []
grown (some vs) v = vs ++ (v ∷ [])

unfoldable pub header_path : Bytes → Bytes
header_path name = codes "header:" ++ name

-- One name: its values on the left and on the right.
unfoldable pub header_change : Bytes → Option (List Bytes) → Option (List Bytes) → List Change
header_change path none none =
    (record { path = path; op = removed; old = joined [] comma; new = [] }) ∷ []
header_change path (some l) none =
    (record { path = path; op = removed; old = joined l comma; new = [] }) ∷ []
header_change path none (some r) =
    (record { path = path; op = added; old = []; new = joined r comma }) ∷ []
header_change path (some l) (some r) =
    if bytes_eq (joined l comma) (joined r comma)
    then []
    else (record { path = path; op = changed; old = joined l comma; new = joined r comma }) ∷ []

abbrev pub volatile_headers : List Bytes
volatile_headers =
    codes "date"
    ∷ codes "x-request-id"
    ∷ codes "x-hooklens-id"
    ∷ codes "stripe-signature"
    ∷ codes "x-hub-signature"
    ∷ codes "x-hub-signature-256"
    ∷ codes "x-shopify-hmac-sha256"
    ∷ codes "x-slack-signature"
    ∷ codes "x-slack-request-timestamp"
    ∷ codes "x-github-delivery"
    ∷ codes "user-agent"
    ∷ codes "content-length"
    ∷ []

-- `WithoutVolatile`, for whatever names are volatile.
unfoldable pub without : List Bytes → List Change → List Change
without names = keep (λ c. not (any_of (λ h. bytes_eq (header_path h) c.path) names))

unfoldable pub without_volatile : List Change → List Change
without_volatile = without volatile_headers

module _ (wide : Bytes → Bytes) where
  -- `group`, from the map so far.
  unfoldable pub group_onto : Map Bytes (List Bytes) → List Header → Map Bytes (List Bytes)
  group_onto out [] = out
  group_onto out (h ∷ rest) =
      let n = to_lower wide h.name in
      group_onto (insert n (grown (lookup n out) h.content) out) rest

  abbrev pub group : List Header → Map Bytes (List Bytes)
  group = group_onto []

  unfoldable pub headers : List Header → List Header → List Change
  headers left right =
      let l = group left in
      let r = group right in
      over (λ name. header_change (header_path name) (lookup name l) (lookup name r))
        (sort_strings (all_keys l r))
