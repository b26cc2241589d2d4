-- ===== src/Modules/Pipeline/Tests.antt =====
-- The way of a packet of the user's module, run on 36 bytes of data.
use omni_stack_rust.Base.{
  ℕ, ◌+◌, ◌^◌, ◌≡◌, refl, ok, Ends, some, none, List, [], ◌∷◌, true, ◌>>=◌, replicate, get_elem?,
  arith,
}
use omni_stack_rust.Error.{value, error, nop}
use omni_stack_rust.Packet.{Packet, own, local}
use omni_stack_rust.Packet.Pool.{World, store}
use omni_stack_rust.Packet.Pool.ListPool.{list_pool}
use omni_stack_rust.Protocol.Addr.{MacAddr, new_mac}
use omni_stack_rust.Protocol.Route.{Route, matches}
use omni_stack_rust.Engine.Worker.{Context}
use omni_stack_rust.Nio.{Adapter, IoNode, put_source}
use omni_stack_rust.Modules.Pushed.{HasRoom}
use omni_stack_rust.Modules.Ipv4.{dst_addr, select, choose_nic}
use omni_stack_rust.Modules.Dpdk.Send.{Platform}
use omni_stack_rust.Modules.Pipeline.{send_path}
use omni_stack_rust.Modules.Pipeline.Framed.{headers, Framed, send_path-Framed}
use omni_stack_rust.Modules.Pipeline.Sendable.{HasAddress, OnCard, send_path-OnCard}

abbrev packet : Packet
packet = record {
  len = 100;
  l2_header = record { length = 0; offset = 0 };
  l3_header = record { length = 0; offset = 0 };
  l4_header = record { length = 0; offset = 0 };
  offset = 64;
  region = own;
  next = none;
  nic = 0;
  thread_id = 0;
  refcnt = 1;
  buf_ty = local;
  buf = replicate 128 7;
}

packet-HasRoom : HasRoom headers packet
packet-HasRoom = record {
  front = omega arith;
  order = omega arith;
  short = omega arith;
  within = omega arith;
}

abbrev routes : List Route
routes = record { ip = dst_addr; cidr_mask = 0xFFFFFF; nic = 1; cidr = 24 } ∷ []

send_path-Framed_example :
    Ends (send_path true routes packet) (λ r. (r.1 ≡ value tt) × Framed routes 7 packet r.0)
send_path-Framed_example = send_path-Framed true routes 7 packet packet-HasRoom refl

abbrev quiet : Adapter ℕ (World list_pool)
quiet = record {
  init = λ ctx nic port num_queues queue a w. ok (a, w, value new_mac);
  send = λ ctx p a w. ok (a, w, value tt);
  recv = λ ctx a w. ok (a, w, error nop);
  flush = λ ctx a w. ok (a, w, value tt);
  stop = λ ctx a w. ok (a, w);
}

abbrev context : Context
context = record {
  pktpool = record { mp = "pktpool_0"; thread_id = 0 };
  cpu = 0;
  worker_id = 0;
  thread_id = 0;
  graph_id = 0;
  stack_name = "UDP";
}

abbrev card_mac : MacAddr
card_mac = record { raw = 2 ∷ 0 ∷ 0 ∷ 0 ∷ 0 ∷ 9 ∷ [] }

abbrev two_cards : IoNode ℕ
two_cards = record {
  flush_queue = replicate 16 0;
  flush_flag = 0;
  flush_queue_idx = 0;
  adapters = 0 ∷ 0 ∷ [];
  nic_to_mac = new_mac ∷ card_mac ∷ [];
}

abbrev empty_world : World list_pool
empty_world = record { packets = λ q. none; pool = []; freed_mbufs = [] }

-- The data of the packet at 4096 lie 128 bytes behind it, in memory that starts at 2 ^ 32.
abbrev platform : Platform
platform = record {
  virt2iova = λ ptr. 2 ^ 32 + ptr;
  data_address = λ ptr pkt. 4096 + 128;
  phdr_cksum = λ header flags. 0x1234;
}

platform-HasAddress : HasAddress platform 4096
platform-HasAddress = record { above = λ x. omega arith; physical = λ x small. omega arith }

chosen : get_elem? two_cards.nic_to_mac (choose_nic routes) ≡ some card_mac
unfolding choose_nic select matches
chosen = refl

send_path-OnCard_example :
    Ends
      (send_path true routes packet >>= λ r.
        put_source list_pool quiet true context 4096 two_cards
          (store list_pool 4096 r.0 empty_world))
      (λ w'. (x : Packet) × (w'.packets 4096 ≡ some x) × OnCard platform 4096 card_mac packet x)
send_path-OnCard_example =
    send_path-OnCard list_pool quiet true context platform 4096 7 routes card_mac packet two_cards
      empty_world refl refl packet-HasRoom refl platform-HasAddress chosen
