-- ===== src/Fetch/Addresses/Routable.antt =====
-- Which addresses pass.
use aedifex.Prelude.{ℕ, ◌*◌, ◌/◌, ◌^◌, ◌≤◌, ◌<◌, ◌≡◌, ◌≢◌, ◌⊎◌, false, ◌||◌, none, arith}
use aedifex.Fetch.Addresses.{
  ipv4, ipv6, classify_address, classify_ipv4, classify_ipv6, dotted, groups, in_head,
  is_private_ipv4, is_private_ipv6, is_reserved_ipv6, is_carrier_grade_nat,
}

-- An address a.b.c.d that is on the public Internet by its first two octets.
pub record IsPublic (a b : ℕ) : Type 0 where
  pub this_network : a ≢ 0
  pub private_10 : a ≢ 10
  pub own_host : a ≢ 127
  pub unicast : a < 224
  pub private_172 : a ≡ 172 → (b < 16) ⊎ (31 < b)
  pub private_192 : a ≡ 192 → b ≢ 168
  pub link : a ≡ 169 → b ≢ 254
  pub carrier : a ≡ 100 → (b < 64) ⊎ (127 < b)

-- An IPv4 address that is accepted is none of the private, local and shared ones.
pub classify_ipv4-IsPublic :
    (a b c d : ℕ)
    → a < 256
    → b < 256
    → c < 256
    → d < 256
    → classify_address (ipv4 (dotted a b c d)) ≡ none
    → IsPublic a b
unfolding classify_address classify_ipv4 is_private_ipv4 is_carrier_grade_nat
classify_ipv4-IsPublic a b c d ha hb hc hd h = ground arith

-- The two ranges of IPv6 addresses that are accepted: the global unicast ones, and fec0::/10.
abbrev pub IsGlobalUnicast : ℕ → Type 0
IsGlobalUnicast n = (groups 0x2000 0 * 2 ^ 96 ≤ n) × (n < groups 0x4000 0 * 2 ^ 96)

abbrev pub IsSiteLocal : ℕ → Type 0
IsSiteLocal n = (groups 0xfec0 0 * 2 ^ 96 ≤ n) × (n < groups 0xff00 0 * 2 ^ 96)

-- What is left of 2^128 outside the reserved networks.
unreserved_ranges :
    (n : ℕ)
    → n < 2 ^ 128
    → is_reserved_ipv6 n ≡ false
    → IsGlobalUnicast n ⊎ (groups 0xfc00 0 * 2 ^ 96 ≤ n)
unfolding is_reserved_ipv6
unreserved_ranges n bound h = ground arith

half_reserved : (n : ℕ) → is_reserved_ipv6 n ≡ false → n / 2 ^ 119 ≢ 0x1fc
unfolding is_reserved_ipv6
half_reserved n h = ground arith

private_outside : (n : ℕ) → is_private_ipv6 n ≡ false → n / 2 ^ 121 ≢ 0x7e
unfolding is_private_ipv6
private_outside n h = ground arith

accepted_ranges :
    (n : ℕ)
    → n < 2 ^ 128
    → is_reserved_ipv6 n ≡ false
    → is_private_ipv6 n ≡ false
    → in_head n (groups 0xfe80 0) 10 || in_head n (groups 0xff00 0) 8 ≡ false
    → IsGlobalUnicast n ⊎ IsSiteLocal n
accepted_ranges n bound unreserved public other =
    let low = half_reserved n unreserved in
    ground (arith, unreserved_ranges n bound unreserved, private_outside n public)

classify_ipv6_none :
    (n : ℕ)
    → classify_address (ipv6 n) ≡ none
    → (is_reserved_ipv6 n ≡ false)
      × (is_private_ipv6 n ≡ false)
      × (in_head n (groups 0xfe80 0) 10 || in_head n (groups 0xff00 0) 8 ≡ false)
      × (n / 2 ^ 112 ≢ 0x2002)
      × (n / 2 ^ 96 ≢ groups 0x2001 0)
      × (n / 2 ^ 96 ≢ groups 0x64 0xff9b)
unfolding classify_address classify_ipv6
classify_ipv6_none n h = ground arith

-- An IPv6 address that is accepted is global unicast or site-local, and carries no IPv4 address:
-- it is not mapped, translated, 6to4 or Teredo.
pub classify_ipv6-IsGlobalUnicast :
    (n : ℕ)
    → n < 2 ^ 128
    → classify_address (ipv6 n) ≡ none
    → (IsGlobalUnicast n ⊎ IsSiteLocal n)
      × (n / 2 ^ 112 ≢ 0x2002)
      × (n / 2 ^ 96 ≢ groups 0x2001 0)
      × (n / 2 ^ 96 ≢ groups 0x64 0xff9b)
classify_ipv6-IsGlobalUnicast n bound h =
    let (unreserved, unlocal, other, six, teredo, translated) = classify_ipv6_none n h in
    (accepted_ranges n bound unreserved unlocal other, six, teredo, translated)
