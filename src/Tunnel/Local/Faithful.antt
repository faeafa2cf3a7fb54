-- ===== src/Tunnel/Local/Faithful.antt =====
-- internal/tunnel/client.go (`callLocal`): what reaches the app, and what comes back.
use hooklens.Base.{
  Bool, not, ◌&&◌, List, [], ◌∷◌, Bytes, codes, bytes_eq, bytes_key, to_lower, if◌then◌else◌,
}
use hooklens.Tunnel.Protocol.{Header}
use hooklens.Tunnel.Local.{Net, is_hop_by_hop_header}

-- The headers that keep their name on the way to the app.
abbrev pub passes : Net → Header → Bool
passes net h =
    not (bytes_eq (to_lower net.wide h.name) (codes "host"))
    && not (bytes_eq (to_lower net.wide h.name) (codes "content-length"))
    && not (is_hop_by_hop_header net.wide h.name)

-- The contents of those under one key, in their order.
unfoldable pub passed : Net → Bytes → List Header → List Bytes
passed net key [] = []
passed net key (h ∷ rest) =
    let later = passed net key rest in
    if passes net h && bytes_eq (net.canonical h.name) key then h.content ∷ later else later
