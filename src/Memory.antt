-- ===== src/Memory.antt =====
-- omnistack-core/src/memory.rs: memory pools that the processes of a machine share by name. What DPDK
-- answers is the input: whether the zone can be reserved, and the pool that is created, if one is.
pub mod Laws
pub mod Pktpool
mod Tests
use Prim.Native.String.{String, len}
use text.Mathlib.Text.{◌==◌ as str_eq}
use omni_stack_rust.Base.{
  ℕ, Bool, true, false, Option, none, some, List, [], ◌∷◌, Outcome, ok, panic, undefined, ◌>>=◌,
  or_undefined, leb, ◌==◌, if◌then◌else◌,
}
use omni_stack_rust.Error.{MemoryError, exhausted}
use omni_stack_rust.Packet.Pool.{Mempool}

-- The DPDK pool, its socket, and the caches of the threads by their ids.
pub record MemoryPool : Type 0 where
  pub mp : ℕ
  pub socket_id : ℕ
  pub cache_per_thread : ℕ → Option ℕ

-- A zone's memory holds no pool before one is written to it.
pub data Slot : Type 0 where
  unwritten : Slot
  written : MemoryPool → Slot

pub data Got : Type 0 where
  pool : Slot → Got
  failed : MemoryError → Got

-- The reserved zones by the names of their pools.
abbrev pub Zones : Type 0
Zones = List (String × Slot)

unfoldable pub memzone_lookup : String → Zones → Option Slot
memzone_lookup name [] = none
memzone_lookup name ((k, slot) ∷ zones) =
    if str_eq k name then some slot else memzone_lookup name zones

-- `rte_mempool_create` and what follows it, in a zone that was just reserved.
fill_zone : String → ℕ → Option ℕ → Zones → Zones × Got
fill_zone name socket_id none zones = ((name, unwritten) ∷ zones, failed exhausted)
fill_zone name socket_id (some mp) zones =
    let slot =
      written (record { mp = mp; socket_id = socket_id; cache_per_thread = λ thread. none }) in
    ((name, slot) ∷ zones, pool slot)

reserve_zone : String → ℕ → Bool → Option ℕ → Zones → Zones × Got
unfolding fill_zone
reserve_zone name socket_id false mp zones = (zones, failed exhausted)
reserve_zone name socket_id true mp zones = fill_zone name socket_id mp zones

-- A zone that is there is taken for a pool.
found_or_reserve : Option Slot → String → ℕ → Bool → Option ℕ → Zones → Zones × Got
unfolding reserve_zone
found_or_reserve (some slot) name socket_id reserved mp zones = (zones, pool slot)
found_or_reserve none name socket_id reserved mp zones =
    reserve_zone name socket_id reserved mp zones

unfoldable pub get_or_create : String → ℕ → Bool → Option ℕ → Zones → Outcome (Zones × Got)
unfolding memzone_lookup found_or_reserve
get_or_create name socket_id reserved mp zones =
    if leb (len name) 24
    then ok (found_or_reserve (memzone_lookup name zones) name socket_id reserved mp zones)
    else panic

-- `create_cache`, with the cache that DPDK makes.
unfoldable pub create_cache : ℕ → ℕ → MemoryPool → MemoryPool
create_cache cache thread_id p = record p {
  cache_per_thread = λ t. if t == thread_id then some cache else p.cache_per_thread t;
}

-- The cache of a thread; where none was created, the array holds whatever lay there.
unfoldable pub get_cache : ℕ → MemoryPool → Outcome ℕ
get_cache thread_id p = or_undefined (p.cache_per_thread thread_id)

-- `allocate` and `deallocate`: the thread's cache is read, and DPDK takes the objects out of the pool or puts
-- one back. The pool is found through the object's header.
module _ (M : Mempool) where
  unfoldable pub allocate : ℕ → ℕ → MemoryPool → M.State → Outcome (Option (List ℕ × M.State))
  unfolding get_cache
  allocate n thread_id p s = get_cache thread_id p >>= λ cache. ok (M.get n thread_id s)

  unfoldable pub deallocate : ℕ → ℕ → MemoryPool → M.State → Outcome M.State
  unfolding get_cache
  deallocate obj thread_id p s = get_cache thread_id p >>= λ cache. ok (M.put obj thread_id s)
