-- ===== src/Modules/Dpdk/Tests.antt =====
-- dpdk.rs, `Dpdk::recv`: a buffer is received, and the pool has a packet for it.
use mathlib.Core.List.{Nodup-cons, Nodup-nil, not-mem-nil}
use omni_stack_rust.Base.{refl, Ends, some, [], ◌∷◌, true, replicate, arith}
use omni_stack_rust.Packet.{Packet, own, mbuf}
use omni_stack_rust.Packet.Pool.{World}
use omni_stack_rust.Packet.Pool.ListPool.{list_pool}
use omni_stack_rust.Packet.Pool.Grants.{IsStocked}
use omni_stack_rust.Modules.Dpdk.{Mbuf, new, recv}
use omni_stack_rust.Modules.Dpdk.Receive.{Chained, recv-Chained}

-- A packet that was last used for another buffer.
abbrev used : Packet
used = record {
  len = 0;
  l2_header = record { length = 0; offset = 0 };
  l3_header = record { length = 0; offset = 0 };
  l4_header = record { length = 0; offset = 0 };
  offset = 0;
  region = own;
  next = some 3;
  nic = 4;
  thread_id = 0;
  refcnt = 1;
  buf_ty = mbuf 77;
  buf = [];
}

abbrev stocked : World list_pool
stocked = record { packets = λ q. some used; pool = 1 ∷ []; freed_mbufs = [] }

stocked-IsStocked : IsStocked stocked
stocked-IsStocked = record {
  live = λ q m. (used, refl);
  once = Nodup-cons.1 (not-mem-nil, Nodup-nil);
}

abbrev buffer : Mbuf
buffer = record { address = 9; data_off = 128; pkt_len = 60; memory = replicate 188 0 }

recv-Chained_example :
    Ends (recv list_pool true 0 (buffer ∷ []) new stocked) (Chained new.nic (buffer ∷ []))
recv-Chained_example = recv-Chained true 0 buffer [] new stocked stocked-IsStocked (omega arith, tt)
