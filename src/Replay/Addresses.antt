-- ===== src/Replay/Addresses.antt =====
-- internal/replay/safedial.go (`blocked`): addresses that the server is not to reach for a user, by
-- the predicates of net/netip. An address is its number, and in IPv6 its zone too.
use hooklens.Base.{
  ℕ, ◌+◌, ◌*◌, ◌-◌, ◌/◌, ◌%◌, ◌^◌, Bool, false, not, ◌&&◌, ◌||◌, Option, none, some, List, [], ◌∷◌,
  Bytes, bytes_eq, ◌==◌, if◌then◌else◌,
}

pub data Addr : Type 0 where
  v4 : ℕ → Addr
  v6 : ℕ → Bytes → Addr

-- `n` as the number of four bytes.
abbrev pub ipv4 : ℕ → ℕ → ℕ → ℕ → ℕ
ipv4 a b c d = ((a * 256 + b) * 256 + c) * 256 + d

-- The leading bits, behind which are `size` addresses.
unfoldable pub leads : ℕ → ℕ → ℕ → Bool
leads size bits n = n / size == bits

-- Addr.Unmap: IPv4 in ::ffff:0:0/96, whatever the zone.
unfoldable pub unmap : Addr → Addr
unmap (v4 n) = v4 n
unmap (v6 n zone) = if leads (2 ^ 32) 65535 n then v4 (n % 2 ^ 32) else v6 n zone

unfoldable pub is_loopback : Addr → Bool
is_loopback (v4 n) = leads (2 ^ 24) 127 n
is_loopback (v6 n zone) = n == 1

unfoldable pub is_link_local_unicast : Addr → Bool
is_link_local_unicast (v4 n) = leads (2 ^ 16) 43518 n
is_link_local_unicast (v6 n zone) = leads (2 ^ 118) 1018 n

unfoldable pub is_link_local_multicast : Addr → Bool
is_link_local_multicast (v4 n) = leads (2 ^ 8) 14680064 n
is_link_local_multicast (v6 n zone) = leads (2 ^ 120) 255 n && (n / 2 ^ 112) % 16 == 2

unfoldable pub is_interface_local_multicast : Addr → Bool
is_interface_local_multicast (v4 n) = false
is_interface_local_multicast (v6 n zone) = leads (2 ^ 120) 255 n && (n / 2 ^ 112) % 16 == 1

unfoldable pub is_private : Addr → Bool
is_private (v4 n) = leads (2 ^ 24) 10 n || leads (2 ^ 20) 2753 n || leads (2 ^ 16) 49320 n
is_private (v6 n zone) = leads (2 ^ 121) 126 n

unfoldable pub is_unspecified : Addr → Bool
is_unspecified (v4 n) = n == 0
is_unspecified (v6 n zone) = n == 0 && bytes_eq zone []

unfoldable pub is_multicast : Addr → Bool
is_multicast (v4 n) = leads (2 ^ 28) 14 n
is_multicast (v6 n zone) = leads (2 ^ 120) 255 n

unfoldable pub is_broadcast : Addr → Bool
is_broadcast (v4 n) = n == 4294967295
is_broadcast (v6 n zone) = false

unfoldable pub is_global_unicast : Addr → Bool
is_global_unicast a =
    not (is_unspecified a || is_broadcast a)
    && not (is_loopback a)
    && not (is_multicast a)
    && not (is_link_local_unicast a)

-- A prefix as its address and its length. One of IPv6 does not contain an address with a zone.
pub data Prefix : Type 0 where
  prefix4 : ℕ → ℕ → Prefix
  prefix6 : ℕ → ℕ → Prefix

unfoldable pub contains : Prefix → Addr → Bool
contains (prefix4 p length) (v4 n) = leads (2 ^ (32 - length)) (p / 2 ^ (32 - length)) n
contains (prefix6 p length) (v6 n zone) =
    leads (2 ^ (128 - length)) (p / 2 ^ (128 - length)) n && bytes_eq zone []
contains p a = false

abbrev pub documentation : ℕ
documentation = (8193 * 65536 + 3512) * 2 ^ 96

abbrev pub extra_blocked : List Prefix
extra_blocked =
    prefix4 (ipv4 100 64 0 0) 10
    ∷ prefix4 (ipv4 192 0 2 0) 24
    ∷ prefix4 (ipv4 198 51 100 0) 24
    ∷ prefix4 (ipv4 203 0 113 0) 24
    ∷ prefix4 (ipv4 198 18 0 0) 15
    ∷ prefix4 (ipv4 0 0 0 0) 8
    ∷ prefix6 documentation 32
    ∷ []

-- Why an address is refused.
pub data Reason : Type 0 where
  loopback link_local private_range unspecified multicast not_global : Reason
  reserved_range : Prefix → Reason

unfoldable pub first_containing : List Prefix → Addr → Option Reason
first_containing [] a = none
first_containing (p ∷ rest) a =
    let later = first_containing rest a in if contains p a then some (reserved_range p) else later

unfoldable pub blocked_unmapped : Addr → Option Reason
blocked_unmapped a =
    if is_loopback a
    then some loopback
    else if is_link_local_unicast a || is_link_local_multicast a
    then some link_local
    else if is_private a
    then some private_range
    else if is_unspecified a
    then some unspecified
    else if is_multicast a || is_interface_local_multicast a
    then some multicast
    else if not (is_global_unicast a)
    then some not_global
    else first_containing extra_blocked a

unfoldable pub blocked : Addr → Option Reason
blocked a = blocked_unmapped (unmap a)
