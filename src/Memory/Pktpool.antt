-- ===== src/Memory/Pktpool.antt =====
-- omnistack-core/src/packet.rs, `PacketPool::get_or_create`: the pool of packets of a socket, and a cache
-- of it for each thread. What DPDK answers is the input.
pub mod Caches
use Prim.Native.String
use Prim.Native.String.{String}
use text.Mathlib.Text.{◌==◌ as str_eq}
use omni_stack_rust.Base.{
  ℕ, zero, suc, ◌+◌, ◌/◌, ◌%◌, ◌^◌, Bool, Option, none, some, List, [], ◌∷◌, Outcome, ok, panic,
  undefined, ◌>>=◌, ltb, if◌then◌else◌,
}
use omni_stack_rust.Memory.{
  MemoryPool, Slot, unwritten, written, Got, pool, failed, Zones, get_or_create, create_cache,
}

abbrev pub packet_pool_size : ℕ
packet_pool_size = 2 ^ 16

abbrev pub cache_size : ℕ
cache_size = 256

-- The pool is the one of a zone, by its name.
pub record PacketPool : Type 0 where
  pub mp : String
  pub thread_id : ℕ

-- A number in decimals; ten digits are enough for a `u32`.
digit_text : ℕ → String
digit_text d = String.slice "0123456789" d (d + 1)

decimal : ℕ → ℕ → String
unfolding digit_text
decimal zero n = ""
decimal (suc fuel) n =
    let front = String.◌++◌ (decimal fuel (n / 10)) (digit_text (n % 10)) in
    if ltb n 10 then digit_text n else front

-- `format!("pktpool_{socket_id}")`.
unfoldable pub pool_name : ℕ → String
unfolding decimal
pool_name socket_id = String.◌++◌ "pktpool_" (decimal 10 socket_id)

-- What is written through a reference to a zone's pool is seen by all who found it.
unfoldable pub put_slot : String → Slot → Zones → Zones
put_slot name slot [] = []
put_slot name slot ((k, old) ∷ zones) =
    if str_eq k name then (k, slot) ∷ zones else (k, old) ∷ put_slot name slot zones

-- `unwrap`, and then `create_cache`; a pool that was never written has no array of caches.
with_cache : String → ℕ → ℕ → Zones × Got → Outcome (Zones × PacketPool)
unfolding put_slot create_cache
with_cache name cache thread_id (zones, failed e) = panic
with_cache name cache thread_id (zones, pool unwritten) = undefined
with_cache name cache thread_id (zones, pool (written p)) = ok (
  put_slot name (written (create_cache cache thread_id p)) zones,
  record { mp = name; thread_id = thread_id },
)

unfoldable pub pktpool : ℕ → ℕ → Bool → Option ℕ → ℕ → Zones → Outcome (Zones × PacketPool)
unfolding with_cache
pktpool socket_id thread_id reserved mp cache zones =
    get_or_create (pool_name socket_id) socket_id reserved mp zones >>= λ r.
    with_cache (pool_name socket_id) cache thread_id r
