-- ===== src/Protocol/Header.antt =====
-- omnistack-core/src/protocol.rs: the link, network and transport headers, as they lie in memory. The
-- machine is little-endian; a header is packed, so that a field's place is the sum of those before.
pub mod EthField
pub mod Ipv4Field
pub mod UdpField
pub mod Version
mod Tests
use omni_stack_rust.Base.{
  ℕ, ◌+◌, ◌*◌, ◌/◌, ◌%◌, ◌^◌, ◌≡◌, Bool, true, false, Outcome, ok, panic, bit_and, bit_or, leb,
  if◌then◌else◌, Option, none, some, ◌==◌, not, ◌&&◌,
}
use omni_stack_rust.Base.Word.{to_be16, u8_mod}

pub data EtherType : Type 0 where
  ipv4 arp ipv6 : EtherType

-- The discriminant, as its `u16` is stored.
unfoldable pub ether_code : EtherType → ℕ
unfolding to_be16
ether_code ipv4 = to_be16 0x0800
ether_code arp = to_be16 0x0806
ether_code ipv6 = to_be16 0x86DD

pub data Ipv4ProtoType : Type 0 where
  tcp udp : Ipv4ProtoType

unfoldable pub proto_code : Ipv4ProtoType → ℕ
proto_code tcp = 0x06
proto_code udp = 0x11

-- `size_of` the packed headers.
abbrev pub eth_header_size : ℕ
eth_header_size = 6 + 6 + 2

abbrev pub ipv4_header_size : ℕ
ipv4_header_size = 1 + 1 + 2 + 2 + 2 + 1 + 1 + 2 + 4 + 4

abbrev pub udp_header_size : ℕ
udp_header_size = 2 + 2 + 2 + 2

-- `version_ihl` is the byte; each reads or changes it.
unfoldable pub version : ℕ → ℕ
version version_ihl = bit_and version_ihl 0xf0 / 2 ^ 4

unfoldable pub ihl : ℕ → ℕ
ihl version_ihl = bit_and version_ihl 0xf

-- `debug_assert!` is there in a debug build only.
unfoldable pub set_version : Bool → ℕ → ℕ → Outcome ℕ
set_version debug v version_ihl =
    if debug && not (leb v 15) then panic else ok (bit_or version_ihl v)

-- `ihl << 4` of a `u8`.
unfoldable pub set_ihl : Bool → ℕ → ℕ → Outcome ℕ
set_ihl debug i version_ihl =
    if debug && not (leb i 15) then panic else ok (bit_or version_ihl (i * 2 ^ 4 % u8_mod))
