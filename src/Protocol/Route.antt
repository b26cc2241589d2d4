-- ===== src/Protocol/Route.antt =====
-- omnistack-core/src/protocol.rs, `Route`. `debug` is the build profile: with it, overflow panics.
pub mod Prefix
mod Tests
use omni_stack_rust.Base.{
  ℕ, ◌+◌, ◌-◌, ◌*◌, ◌%◌, ◌^◌, ◌≡◌, Bool, true, false, Outcome, ok, panic, ◌>>=◌, bit_and, bit_xor,
  ltb, leb, ◌==◌, if◌then◌else◌,
}
use omni_stack_rust.Base.Word.{u32_mod, sub_word}
use omni_stack_rust.Protocol.Addr.{Ipv4Addr, to_u32_be}

pub record Route : Type 0 where
  pub ip : ℕ
  pub cidr_mask : ℕ
  pub nic : ℕ
  pub cidr : ℕ

-- `1 << n` of a `u32`: a shift by 32 or more panics or is taken modulo 32.
unfoldable pub shl_one : Bool → ℕ → Outcome ℕ
shl_one debug n = if ltb n 32 then ok (2 ^ n) else if debug then panic else ok (2 ^ (n % 32))

-- The fields, once the assertion holds.
build : Bool → Ipv4Addr → ℕ → ℕ → Outcome Route
unfolding shl_one
build debug ip cidr nic = do
  bit ← shl_one debug cidr
  mask ← sub_word debug u32_mod bit 1
  ok (record { ip = to_u32_be ip; cidr_mask = mask; nic = nic; cidr = cidr })

unfoldable pub new : Bool → Ipv4Addr → ℕ → ℕ → Outcome Route
unfolding build
new debug ip cidr nic = if leb cidr 32 then build debug ip cidr nic else panic

unfoldable pub matches : Route → ℕ → Bool
matches r ip = bit_and (bit_xor r.ip ip) r.cidr_mask == 0
