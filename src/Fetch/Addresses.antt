-- ===== src/Fetch/Addresses.antt =====
-- src/aedifex/acquisition/fetch/addresses.py: whether an address may be connected to. An address is
-- its number. The classes are those of the `ipaddress` module of Python 3.13, and an IPv4-mapped
-- IPv6 address is turned down before any of them is asked.
pub mod Routable
use aedifex.Prelude.{
  ℕ, ◌+◌, ◌-◌, ◌*◌, ◌/◌, ◌^◌, Bool, true, false, not, ◌&&◌, ◌||◌, Option, none, some, List, [], ◌∷◌,
  ◌==◌, if◌then◌else◌, any_of,
}

pub data IpAddress : Type 0 where
  ipv4 ipv6 : ℕ → IpAddress

pub data AddressRejection : Type 0 where
  unspecified loopback private link_local carrier_grade_nat multicast documentation reserved
        ipv4_mapped embedded_ipv4 not_globally_routable :
      AddressRejection

-- a.b.c.d
abbrev pub dotted : ℕ → ℕ → ℕ → ℕ → ℕ
dotted a b c d = ((a * 256 + b) * 256 + c) * 256 + d

-- the first two groups of an IPv6 address, as a number of 32 bits
abbrev pub groups : ℕ → ℕ → ℕ
groups a b = a * 65536 + b

-- `address in network`, for a network with that many bits of prefix
abbrev pub in_ipv4 : ℕ → ℕ → ℕ → Bool
in_ipv4 n prefix bits = n / 2 ^ (32 - bits) == prefix / 2 ^ (32 - bits)

abbrev pub in_ipv6 : ℕ → ℕ → ℕ → Bool
in_ipv6 n prefix bits = n / 2 ^ (128 - bits) == prefix / 2 ^ (128 - bits)

-- a network whose prefix lies in the first 32 bits
abbrev pub in_head : ℕ → ℕ → ℕ → Bool
in_head n head bits = in_ipv6 n (head * 2 ^ 96) bits

-- `_private_networks` without their exceptions, of `IPv4Address`
unfoldable pub is_private_ipv4 : ℕ → Bool
is_private_ipv4 n =
    (in_ipv4 n 0 8
      || in_ipv4 n (dotted 10 0 0 0) 8
      || in_ipv4 n (dotted 127 0 0 0) 8
      || in_ipv4 n (dotted 169 254 0 0) 16
      || in_ipv4 n (dotted 172 16 0 0) 12
      || in_ipv4 n (dotted 192 0 0 0) 24
      || in_ipv4 n (dotted 192 0 2 0) 24
      || in_ipv4 n (dotted 192 168 0 0) 16
      || in_ipv4 n (dotted 198 18 0 0) 15
      || in_ipv4 n (dotted 198 51 100 0) 24
      || in_ipv4 n (dotted 203 0 113 0) 24
      || in_ipv4 n (dotted 240 0 0 0) 4)
    && not (n == dotted 192 0 0 9 || n == dotted 192 0 0 10)

unfoldable pub is_private_ipv6 : ℕ → Bool
is_private_ipv6 n =
    (n == 1
      || n == 0
      || in_ipv6 n (65535 * 2 ^ 32) 96
      || in_ipv6 n (groups 0x64 0xff9b * 2 ^ 96 + 2 ^ 80) 48
      || in_head n (groups 0x100 0) 64
      || in_head n (groups 0x2001 0) 23
      || in_head n (groups 0x2001 0xdb8) 32
      || in_head n (groups 0x2002 0) 16
      || in_head n (groups 0x3fff 0) 20
      || in_head n (groups 0xfc00 0) 7
      || in_head n (groups 0xfe80 0) 10)
    && not (
        n == groups 0x2001 1 * 2 ^ 96 + 1
        || n == groups 0x2001 1 * 2 ^ 96 + 2
        || in_head n (groups 0x2001 3) 32
        || in_ipv6 n (groups 0x2001 4 * 2 ^ 96 + 0x112 * 2 ^ 80) 48
        || in_head n (groups 0x2001 0x20) 28
        || in_head n (groups 0x2001 0x30) 28)

-- `_reserved_networks` of `IPv6Address`
unfoldable pub is_reserved_ipv6 : ℕ → Bool
is_reserved_ipv6 n =
    in_head n 0 8
    || in_head n (groups 0x100 0) 8
    || in_head n (groups 0x200 0) 7
    || in_head n (groups 0x400 0) 6
    || in_head n (groups 0x800 0) 5
    || in_head n (groups 0x1000 0) 4
    || in_head n (groups 0x4000 0) 3
    || in_head n (groups 0x6000 0) 3
    || in_head n (groups 0x8000 0) 3
    || in_head n (groups 0xa000 0) 3
    || in_head n (groups 0xc000 0) 3
    || in_head n (groups 0xe000 0) 4
    || in_head n (groups 0xf000 0) 5
    || in_head n (groups 0xf800 0) 6
    || in_head n (groups 0xfe00 0) 9

-- the networks of `_DOCUMENTATION_NETWORKS` of each version
unfoldable pub is_documentation_ipv4 : ℕ → Bool
is_documentation_ipv4 n =
    in_ipv4 n (dotted 192 0 2 0) 24
    || in_ipv4 n (dotted 198 51 100 0) 24
    || in_ipv4 n (dotted 203 0 113 0) 24
    || in_ipv4 n (dotted 198 18 0 0) 15

unfoldable pub is_documentation_ipv6 : ℕ → Bool
is_documentation_ipv6 n = in_head n (groups 0x2001 0xdb8) 32

-- `_CGNAT_NETWORK`
unfoldable pub is_carrier_grade_nat : ℕ → Bool
is_carrier_grade_nat n = in_ipv4 n (dotted 100 64 0 0) 10

unfoldable pub classify_ipv4 : ℕ → Option AddressRejection
unfolding is_private_ipv4 is_documentation_ipv4 is_carrier_grade_nat
classify_ipv4 n =
    if n == 0
    then some unspecified
    else if in_ipv4 n (dotted 127 0 0 0) 8
    then some loopback
    else if in_ipv4 n (dotted 169 254 0 0) 16
    then some link_local
    else if in_ipv4 n (dotted 224 0 0 0) 4
    then some multicast
    else if is_carrier_grade_nat n
    then some carrier_grade_nat
    else if is_documentation_ipv4 n
    then some documentation
    else if in_ipv4 n (dotted 240 0 0 0) 4
    then some reserved
    else if is_private_ipv4 n
    then some private
    else if not (not (is_carrier_grade_nat n) && not (is_private_ipv4 n))
    then some not_globally_routable
    else none

unfoldable pub classify_ipv6 : ℕ → Option AddressRejection
unfolding is_private_ipv6 is_reserved_ipv6 is_documentation_ipv6
classify_ipv6 n =
    if in_ipv6 n (65535 * 2 ^ 32) 96
    then some ipv4_mapped
    else if in_ipv6 n (groups 0x64 0xff9b * 2 ^ 96) 96
        || in_ipv6 n (groups 0x64 0xff9b * 2 ^ 96 + 2 ^ 80) 48
    then some embedded_ipv4
    else if in_head n (groups 0x2002 0) 16 || in_head n (groups 0x2001 0) 32
    then some embedded_ipv4
    else if n == 0
    then some unspecified
    else if n == 1
    then some loopback
    else if in_head n (groups 0xfe80 0) 10
    then some link_local
    else if in_head n (groups 0xff00 0) 8
    then some multicast
    else if is_documentation_ipv6 n
    then some documentation
    else if is_reserved_ipv6 n
    then some reserved
    else if is_private_ipv6 n
    then some private
    else if not (not (is_private_ipv6 n))
    then some not_globally_routable
    else none

-- `classify_address`
unfoldable pub classify_address : IpAddress → Option AddressRejection
unfolding classify_ipv4 classify_ipv6
classify_address (ipv4 n) = classify_ipv4 n
classify_address (ipv6 n) = classify_ipv6 n

unfoldable pub is_publicly_routable : IpAddress → Bool
unfolding classify_address
is_publicly_routable address = elim (classify_address address) [ none ↦ true | some r ↦ false ]
