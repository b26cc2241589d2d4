-- ===== src/Memory/Tests.antt =====
-- memory.rs, `MemoryPool::get_or_create`: a failed and a repeated creation.
use omni_stack_rust.Base.{◌≡◌, refl, ok, some, none, [], ◌∷◌, true, arith}
use omni_stack_rust.Error.{exhausted}
use omni_stack_rust.Memory.{Got, unwritten, pool, failed, Zones, memzone_lookup, get_or_create}
use omni_stack_rust.Memory.Laws.{Shared, get_or_create-Shared, get_or_create-unwritten}

abbrev zones : Zones
zones = ("pktpool_1", unwritten) ∷ []

get_or_create-Shared_example :
    (after : Zones) × (got : Got) × (get_or_create "pktpool_0" 0 true (some 7) zones
      ≡ ok (after, got))
    × Shared "pktpool_0" zones after got
get_or_create-Shared_example = get_or_create-Shared "pktpool_0" 0 true (some 7) zones (omega arith)

get_or_create-unwritten_example :
    (after : Zones) × (get_or_create "pktpool_0" 0 true none zones ≡ ok (after, failed exhausted))
    × (get_or_create "pktpool_0" 0 true (some 7) after ≡ ok (after, pool unwritten))
unfolding memzone_lookup
get_or_create-unwritten_example =
    get_or_create-unwritten "pktpool_0" 0 0 true (some 7) zones (omega arith) refl
