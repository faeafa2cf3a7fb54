-- ===== src/Server/Comparing/Owners.antt =====
-- internal/server/diff.go: both captures of a diff are the token's.
use hooklens.Base.{◌≡◌, Bytes}
use hooklens.Diff.{Library}
use hooklens.Store.Access.{Access, granted}
use hooklens.Store.Requests.{StoredRequest}
use hooklens.Server.Comparing.{Comparison, compare}

module _ (lib : Library) (wide : Bytes → Bytes) where
  -- Both captures are granted, and it is they that are compared.
  abbrev Granted : Access StoredRequest → Access StoredRequest → Bytes → Comparison → Type 0
  Granted left right volatile c =
      (l : StoredRequest) × (r : StoredRequest) × (left ≡ granted l)
      × (right ≡ granted r)
      × (c ≡ compare lib wide l r volatile)
