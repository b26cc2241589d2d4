-- ===== src/Modules/Dpdk/Send/Tests.antt =====
-- dpdk.rs, `Dpdk::send`: the 64th packet of a queue, which the card takes in two bursts.
use omni_stack_rust.Base.{
  List, length, take, ◌+◌, ◌^◌, ok, some, none, [], ◌∷◌, ◌++◌, replicate, ℕ, zero, suc,
}
use omni_stack_rust.Error.{value}
use omni_stack_rust.Packet.{Packet, own, local}
use omni_stack_rust.Packet.Pool.{World}
use omni_stack_rust.Packet.Pool.ListPool.{list_pool}
use omni_stack_rust.Modules.Dpdk.Send.{headroom, Buffer, Platform, Answer, Sending, send}
use omni_stack_rust.Error.{nop, error}
use omni_stack_rust.Protocol.Addr.{new_mac}
use omni_stack_rust.Engine.Worker.{Context}
use omni_stack_rust.Nio.{Adapter, IoNode}
use omni_stack_rust.Nio.Idle.{Given}
use omni_stack_rust.Modules.Dpdk.Send.Card.{Plugged}

abbrev frame : Packet
frame = record {
  len = 78;
  l2_header = record { length = 14; offset = 0 };
  l3_header = record { length = 20; offset = 14 };
  l4_header = record { length = 8; offset = 34 };
  offset = 0;
  region = own;
  next = none;
  nic = 0;
  thread_id = 0;
  refcnt = 1;
  buf_ty = local;
  buf = replicate 12 0 ++ (8 ∷ 0 ∷ []) ++ replicate 9 0 ++ (17 ∷ []) ++ replicate 60 0;
}

abbrev platform : Platform
platform = record {
  virt2iova = λ ptr. 2 ^ 32 + ptr;
  data_address = λ ptr pkt. 4096 + 128;
  phdr_cksum = λ header flags. 0x1234;
}

abbrev fresh_buffer : Buffer
fresh_buffer = record {
  buf_addr = headroom;
  buf_iova = 0;
  buf_len = 2176;
  data_off = 128;
  pkt_len = 0;
  data_len = 0;
  l2_len = 0;
  l3_len = 0;
  ol_flags = 0;
  shinfo = none;
}

-- The numbers below `n`, downwards.
abbrev below : ℕ → List ℕ
below zero = []
below (suc n) = n ∷ below n

abbrev almost_full : Sending
almost_full = record {
  card = record {
    tx_bufs = below 64;
    tx_idx = 63;
    port = 0;
    queue = 0;
    nic = 0;
    pktmbuf_pool = some 1;
  };
  buffers = λ a. some fresh_buffer;
  wire = [];
}

abbrev answer : Answer
answer = record {
  bursts = 60 ∷ 4 ∷ [];
  fresh = some (replicate 64 9);
  buffers = λ a. some fresh_buffer;
}

abbrev one_packet : World list_pool
one_packet = record { packets = λ q. some frame; pool = []; freed_mbufs = [] }

-- The card gives the buffers that it was handed back at once.
abbrev card : Plugged
card = record {
  sending = record almost_full { card = record almost_full.card { tx_idx = 0 } };
  answers = λ n tx_bufs waiting. record {
    bursts = replicate waiting 1;
    fresh = some (take waiting tx_bufs);
    buffers = λ a. some fresh_buffer;
  };
}

-- The rest of the adapter: a card that receives nothing.
abbrev deaf : Adapter Plugged (World list_pool)
deaf = record {
  init = λ ctx nic port num_queues queue a w. ok (a, w, value new_mac);
  send = λ ctx p a w. ok (a, w, value tt);
  recv = λ ctx a w. ok (a, w, error nop);
  flush = λ ctx a w. ok (a, w, value tt);
  stop = λ ctx a w. ok (a, w);
}

abbrev context : Context
context = record {
  pktpool = record { mp = "pktpool_0"; thread_id = 3 };
  cpu = 0;
  worker_id = 0;
  thread_id = 3;
  graph_id = 0;
  stack_name = "stack";
}

abbrev node : IoNode Plugged
node = record {
  flush_queue = replicate 16 0;
  flush_flag = 0;
  flush_queue_idx = 0;
  adapters = card ∷ [];
  nic_to_mac = replicate 16 new_mac;
}

abbrev none_given : Given
none_given nic = []
