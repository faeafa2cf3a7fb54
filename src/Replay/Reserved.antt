-- ===== src/Replay/Reserved.antt =====
-- internal/replay/safedial.go: what is refused, as ranges of addresses.
use hooklens.Base.{
  is_some, ℕ, ◌+◌, ◌*◌, ◌-◌, ◌/◌, ◌%◌, ◌^◌, ◌≡◌, sym, ◌∙◌, Bool, true, false, Bool-cases, inl, inr,
  not, ◌&&◌, ◌||◌, List, [], ◌∷◌, Bytes, bytes_eq, ◌==◌, any_of, arith, if◌then◌else◌,
}
use hooklens.Replay.Addresses.{
  Addr, v4, v6, ipv4, leads, unmap, is_loopback, is_link_local_unicast, is_link_local_multicast,
  is_interface_local_multicast, is_private, is_unspecified, is_multicast, is_broadcast,
  is_global_unicast, contains, documentation, extra_blocked, first_containing, blocked_unmapped,
  blocked,
}
use hooklens.Replay.Ranges.{
  within, leads-within, eq-within, chosen-any, first_containing-any, reordered, reordered6,
  place_in,
}

-- 0/8, 10/8, 100.64/10, 127/8, 169.254/16, 172.16/12, 192.0.2/24, 192.168/16, 198.18/15,
-- 198.51.100/24, 203.0.113/24, 224/4 and the broadcast address, by first and last address.
abbrev pub reserved4 : List (ℕ × ℕ)
reserved4 =
    (ipv4 0 0 0 0, ipv4 0 255 255 255)
    ∷ (ipv4 10 0 0 0, ipv4 10 255 255 255)
    ∷ (ipv4 100 64 0 0, ipv4 100 127 255 255)
    ∷ (ipv4 127 0 0 0, ipv4 127 255 255 255)
    ∷ (ipv4 169 254 0 0, ipv4 169 254 255 255)
    ∷ (ipv4 172 16 0 0, ipv4 172 31 255 255)
    ∷ (ipv4 192 0 2 0, ipv4 192 0 2 255)
    ∷ (ipv4 192 168 0 0, ipv4 192 168 255 255)
    ∷ (ipv4 198 18 0 0, ipv4 198 19 255 255)
    ∷ (ipv4 198 51 100 0, ipv4 198 51 100 255)
    ∷ (ipv4 203 0 113 0, ipv4 203 0 113 255)
    ∷ (ipv4 224 0 0 0, ipv4 239 255 255 255)
    ∷ (ipv4 255 255 255 255, ipv4 255 255 255 255)
    ∷ []

multicast_narrow : (n : ℕ) → leads (2 ^ 8) 14680064 n ≡ true → leads (2 ^ 28) 14 n ≡ true
unfolding within
multicast_narrow n h = ground (
  arith,
  leads-within (2 ^ 8) 14680064 n (ground arith),
  leads-within (2 ^ 28) 14 n (ground arith),
)

zero_first : (n : ℕ) → (n == 0) ≡ true → leads (2 ^ 24) 0 n ≡ true
unfolding within
zero_first n h = ground (arith, leads-within (2 ^ 24) 0 n (ground arith))

ranges_v4 :
    (n : ℕ)
    → (leads (2 ^ 24) 0 n
        || (leads (2 ^ 24) 10 n
            || (leads (2 ^ 22) 401 n
                || (leads (2 ^ 24) 127 n
                    || (leads (2 ^ 16) 43518 n
                        || (leads (2 ^ 20) 2753 n
                            || (leads (2 ^ 8) 12582914 n
                                || (leads (2 ^ 16) 49320 n
                                    || (leads (2 ^ 17) 25353 n
                                        || (leads (2 ^ 8) 12989284 n
                                            || (leads (2 ^ 8) 13303921 n
                                                || (leads (2 ^ 28) 14 n
                                                    || ((n == 4294967295) || (false))))))))))))))
      ≡ any_of (within n) reserved4
ranges_v4 n = rw (
  leads-within (2 ^ 24) 0 n (ground arith),
  leads-within (2 ^ 24) 10 n (ground arith),
  leads-within (2 ^ 22) 401 n (ground arith),
  leads-within (2 ^ 24) 127 n (ground arith),
  leads-within (2 ^ 16) 43518 n (ground arith),
  leads-within (2 ^ 20) 2753 n (ground arith),
  leads-within (2 ^ 8) 12582914 n (ground arith),
  leads-within (2 ^ 16) 49320 n (ground arith),
  leads-within (2 ^ 17) 25353 n (ground arith),
  leads-within (2 ^ 8) 12989284 n (ground arith),
  leads-within (2 ^ 8) 13303921 n (ground arith),
  leads-within (2 ^ 28) 14 n (ground arith),
  eq-within n 4294967295,
)

blocked_v4 : (n : ℕ) → is_some (blocked_unmapped (v4 n)) ≡ any_of (within n) reserved4
unfolding blocked_unmapped is_loopback is_link_local_unicast is_link_local_multicast is_private
    is_unspecified is_multicast is_interface_local_multicast is_global_unicast is_broadcast contains
blocked_v4 n =
    let narrow : leads (2 ^ 8) 14680064 n ≡ true → leads (2 ^ 28) 14 n ≡ true =
      multicast_narrow n in
    let zero : (n == 0) ≡ true → leads (2 ^ 24) 0 n ≡ true = zero_first n in
    let a = v4 n in
    let chain =
      chosen-any (is_loopback a) (is_link_local_unicast a) (is_link_local_multicast a)
        (is_private a) (is_unspecified a) (is_multicast a || is_interface_local_multicast a)
        (not (is_global_unicast a)) (first_containing extra_blocked a) in
    let extra = first_containing-any extra_blocked a in
    let order =
      reordered (leads (2 ^ 24) 127 n) (leads (2 ^ 16) 43518 n) (leads (2 ^ 8) 14680064 n)
        (leads (2 ^ 24) 10 n) (leads (2 ^ 20) 2753 n) (leads (2 ^ 16) 49320 n) (n == 0)
        (leads (2 ^ 28) 14 n) (n == 4294967295) (leads (2 ^ 22) 401 n) (leads (2 ^ 8) 12582914 n)
        (leads (2 ^ 8) 12989284 n) (leads (2 ^ 8) 13303921 n) (leads (2 ^ 17) 25353 n)
        (leads (2 ^ 24) 0 n) narrow zero in
    rw (chain, extra) (order ∙ ranges_v4 n)

-- ::1, fe80::/10, fc00::/7 and ff00::/8, and without a zone also :: and 2001:db8::/32.
abbrev pub reserved6 : List (ℕ × ℕ)
reserved6 =
    (1, 1)
    ∷ (126 * 2 ^ 121, 127 * 2 ^ 121 - 1)
    ∷ (1018 * 2 ^ 118, 1019 * 2 ^ 118 - 1)
    ∷ (255 * 2 ^ 120, 256 * 2 ^ 120 - 1)
    ∷ []

unfoldable pub reserved_unmapped : Addr → Bool
reserved_unmapped (v4 n) = any_of (within n) reserved4
reserved_unmapped (v6 n zone) =
    any_of (within n) reserved6
    || ((within n (0, 0) || within n (documentation, documentation + (2 ^ 96 - 1)))
        && bytes_eq zone [])

unfoldable pub reserved : Addr → Bool
reserved (v4 n) = reserved_unmapped (v4 n)
reserved (v6 n zone) =
    if within n (65535 * 2 ^ 32, 65536 * 2 ^ 32 - 1)
    then reserved_unmapped (v4 (n - 65535 * 2 ^ 32))
    else reserved_unmapped (v6 n zone)

ranges_v6 :
    (n : ℕ) (zone : Bytes)
    → (((n == 1)
          || (leads (2 ^ 121) 126 n
              || (leads (2 ^ 118) 1018 n || (leads (2 ^ 120) 255 n || false))))
        || (((n == 0) || leads (2 ^ 96) 536939960 n) && bytes_eq zone []))
      ≡ reserved_unmapped (v6 n zone)
unfolding reserved_unmapped
ranges_v6 n zone = rw (
  eq-within n 1,
  leads-within (2 ^ 121) 126 n (ground arith),
  leads-within (2 ^ 118) 1018 n (ground arith),
  leads-within (2 ^ 120) 255 n (ground arith),
  eq-within n 0,
  leads-within (2 ^ 96) 536939960 n (ground arith),
)

blocked_v6 :
    (n : ℕ) (zone : Bytes) → is_some (blocked_unmapped (v6 n zone)) ≡ reserved_unmapped (v6 n zone)
unfolding blocked_unmapped is_loopback is_link_local_unicast is_link_local_multicast is_private
    is_unspecified is_multicast is_interface_local_multicast is_global_unicast is_broadcast contains
    reserved_unmapped
blocked_v6 n zone =
    let a = v6 n zone in
    let chain =
      chosen-any (is_loopback a) (is_link_local_unicast a) (is_link_local_multicast a)
        (is_private a) (is_unspecified a) (is_multicast a || is_interface_local_multicast a)
        (not (is_global_unicast a)) (first_containing extra_blocked a) in
    let extra = first_containing-any extra_blocked a in
    let order =
      reordered6 (n == 1) (leads (2 ^ 118) 1018 n) ((n / 2 ^ 112) % 16 == 2) (leads (2 ^ 121) 126 n)
        (n == 0) (leads (2 ^ 120) 255 n) ((n / 2 ^ 112) % 16 == 1) (bytes_eq zone [])
        (leads (2 ^ 96) 536939960 n) in
    rw (chain, extra) (order ∙ ranges_v6 n zone)

-- An address is refused if and only if it is in one of the ranges.
pub blocked-reserved : (a : Addr) → is_some (blocked a) ≡ reserved a
unfolding blocked unmap reserved reserved_unmapped
blocked-reserved (v4 n) = blocked_v4 n
blocked-reserved (v6 n zone) =
    let range = leads-within (2 ^ 32) 65535 n (ground arith) in
    elim (Bool-cases (leads (2 ^ 32) 65535 n)) [
      | inl mapped ↦
          let place = place_in (2 ^ 32) 65535 n (ground arith) mapped in
          rw (mapped, sym range ∙ mapped, place) (blocked_v4 (n - 65535 * 2 ^ 32))
      | inr other ↦ rw (other, sym range ∙ other) (blocked_v6 n zone)
    ]
