-- ===== src/ApiConfigSync/Addresses.antt =====
-- examples/apiconfigsync/src/url_policy.rs: which IP addresses are public. The tests of
-- `std::net::Ipv4Addr` and `Ipv6Addr` are written out. An octet is below 256 and a segment below
-- 65536.
pub mod Blocks
use Prim.Native.Nat.{bit_and}
use koprs.Prelude.{
  ℕ, Bool, true, false, not, ◌&&◌, ◌||◌, ◌+◌, ◌*◌, ◌/◌, ◌%◌, leb, ◌==◌, if◌then◌else◌, Option, none,
  some,
}

pub record Ipv4Addr : Type 0 where
  pub o0 : ℕ
  pub o1 : ℕ
  pub o2 : ℕ
  pub o3 : ℕ

pub record Ipv6Addr : Type 0 where
  pub s0 : ℕ
  pub s1 : ℕ
  pub s2 : ℕ
  pub s3 : ℕ
  pub s4 : ℕ
  pub s5 : ℕ
  pub s6 : ℕ
  pub s7 : ℕ

pub data IpAddr : Type 0 where
  v4 : Ipv4Addr → IpAddr
  v6 : Ipv6Addr → IpAddr

-- The methods of `Ipv4Addr`.
abbrev pub is_unspecified : Ipv4Addr → Bool
is_unspecified ip = ip.o0 == 0 && ip.o1 == 0 && ip.o2 == 0 && ip.o3 == 0

abbrev pub is_loopback : Ipv4Addr → Bool
is_loopback ip = ip.o0 == 127

abbrev pub is_private : Ipv4Addr → Bool
is_private ip =
    ip.o0 == 10 || (ip.o0 == 172 && leb 16 ip.o1 && leb ip.o1 31) || (ip.o0 == 192 && ip.o1 == 168)

abbrev pub is_link_local : Ipv4Addr → Bool
is_link_local ip = ip.o0 == 169 && ip.o1 == 254

abbrev pub is_broadcast : Ipv4Addr → Bool
is_broadcast ip = ip.o0 == 255 && ip.o1 == 255 && ip.o2 == 255 && ip.o3 == 255

abbrev pub is_multicast : Ipv4Addr → Bool
is_multicast ip = leb 224 ip.o0 && leb ip.o0 239

abbrev pub is_documentation : Ipv4Addr → Bool
is_documentation ip =
    (ip.o0 == 192 && ip.o1 == 0 && ip.o2 == 2)
    || (ip.o0 == 198 && ip.o1 == 51 && ip.o2 == 100)
    || (ip.o0 == 203 && ip.o1 == 0 && ip.o2 == 113)

unfoldable pub is_public_v4 : Ipv4Addr → Bool
is_public_v4 ip = not (
    is_unspecified ip
    || is_loopback ip
    || is_private ip
    || is_link_local ip
    || is_broadcast ip
    || is_multicast ip
    || is_documentation ip
    || ip.o0 == 0
    || (ip.o0 == 100 && bit_and ip.o1 0xc0 == 64)
    || (ip.o0 == 192 && ip.o1 == 0 && ip.o2 == 0)
    || (ip.o0 == 198 && bit_and ip.o1 0xfe == 18)
    || leb 240 ip.o0)

-- `is_unspecified`, `is_loopback` and `is_multicast` of `Ipv6Addr`.
abbrev pub seven_zero : Ipv6Addr → Bool
seven_zero ip =
    ip.s0 == 0 && ip.s1 == 0 && ip.s2 == 0 && ip.s3 == 0 && ip.s4 == 0 && ip.s5 == 0 && ip.s6 == 0

unfoldable pub is_public_v6 : Ipv6Addr → Bool
is_public_v6 ip = not (
    (seven_zero ip && ip.s7 == 0)
    || (seven_zero ip && ip.s7 == 1)
    || bit_and ip.s0 0xff00 == 0xff00
    || bit_and ip.s0 0xfe00 == 0xfc00
    || bit_and ip.s0 0xffc0 == 0xfe80
    || (ip.s0 == 0x2001 && ip.s1 == 0x0db8))

-- `::ffff:a.b.c.d`.
unfoldable pub to_ipv4_mapped : Ipv6Addr → Option Ipv4Addr
to_ipv4_mapped ip =
    if ip.s0 == 0 && ip.s1 == 0 && ip.s2 == 0 && ip.s3 == 0 && ip.s4 == 0 && ip.s5 == 0xffff
    then some (record { o0 = ip.s6 / 256; o1 = ip.s6 % 256; o2 = ip.s7 / 256; o3 = ip.s7 % 256 })
    else none

unfoldable pub is_public : IpAddr → Bool
unfolding is_public_v4 is_public_v6 to_ipv4_mapped
is_public (v4 ip) = is_public_v4 ip
is_public (v6 ip) = elim (to_ipv4_mapped ip) [
  | some ip4 ↦ is_public_v4 ip4
  | none ↦ is_public_v6 ip
]
