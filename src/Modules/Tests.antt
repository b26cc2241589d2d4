-- ===== src/Modules/Tests.antt =====
-- omnistack-core/src/modules and src/user.rs: runs on small inputs.
use omni_stack_rust.Base.{
  ℕ, zero, suc, ◌≤◌, ◌<◌, ◌≡◌, ◌⊎◌, inl, refl, ok, ◌>>=◌, Ends, some, none, List, [], ◌∷◌, ◌++◌,
  All, true, false, take, drop, ◌==◌, replicate, length, arith,
}
use omni_stack_rust.Base.Word.{to_be16}
use omni_stack_rust.Error.{memory_error, exhausted, value, error, dropped}
use omni_stack_rust.Packet.{Packet, own, local, read8, read16}
use omni_stack_rust.Packet.Chain.{IsDistinct, IsLive, Chained}
use omni_stack_rust.Packet.Pool.{World, store, allocate_many, deallocate}
use omni_stack_rust.Packet.Pool.ListPool.{list_pool}
use omni_stack_rust.Packet.Pool.Counts.{refcnt_at, GivenUp, deallocate-GivenUp}
use omni_stack_rust.Protocol.Route.{Route, matches}
use omni_stack_rust.Protocol.Header.{ihl, ipv4_header_size}
use omni_stack_rust.Modules.Pushed.{HasRoom}
use omni_stack_rust.Modules.Ipv4
use omni_stack_rust.Modules.Ipv4.{dst_addr, choose_nic}
use omni_stack_rust.Modules.Ipv4.Select.{AtMost, Below, choose_nic-longest}
use omni_stack_rust.Modules.Ipv4.Sender.{Ipv4Sent, sender-Ipv4Sent}
use omni_stack_rust.Modules.Ipv4.Receiver.{
  HasHeader, Accepted, Refused, stripped, receiver_lem, sent-dropped,
}
use omni_stack_rust.Modules.Dpdk.{Dpdk, flush}
use omni_stack_rust.Modules.Dpdk.Refill.{Sends, done, burst, flush-refilled}
use omni_stack_rust.Modules.User
use omni_stack_rust.Modules.User.{burst_size}
use omni_stack_rust.Modules.User.Laws.{Prepared, poll-burst}

-- Four bytes of data behind 36 bytes of room.
abbrev packet : Packet
packet = record {
  len = 40;
  l2_header = record { length = 0; offset = 0 };
  l3_header = record { length = 0; offset = 0 };
  l4_header = record { length = 0; offset = 0 };
  offset = 36;
  region = own;
  next = none;
  nic = 0;
  thread_id = 0;
  refcnt = 1;
  buf_ty = local;
  buf = replicate 48 0;
}

abbrev routes : List Route
routes =
    record { ip = 0; cidr_mask = 0; nic = 3; cidr = 0 }
    ∷ record { ip = dst_addr; cidr_mask = 0xFFFF; nic = 2; cidr = 16 }
    ∷ []

ipv4_room : HasRoom ipv4_header_size packet
ipv4_room = record {
  front = omega arith;
  order = omega arith;
  short = omega arith;
  within = omega arith;
}

choose_nic-longest_example :
    (AtMost dst_addr 0 routes × (choose_nic routes ≡ 0))
    ⊎ ((before : List Route) × (r : Route) × (after : List Route) × (routes ≡ before ++ r ∷ after)
        × (matches r dst_addr ≡ true)
        × Below dst_addr r.cidr before
        × AtMost dst_addr r.cidr after
        × (choose_nic routes ≡ r.nic))
choose_nic-longest_example = choose_nic-longest routes

sender-Ipv4Sent_example :
    Ends (Ipv4.sender false routes packet) (λ r. (r.1 ≡ value tt) × Ipv4Sent routes 0 packet r.0)
sender-Ipv4Sent_example = sender-Ipv4Sent false routes 0 packet ipv4_room refl

abbrev world_of : Packet → World list_pool
world_of p = record { packets = λ q. some p; pool = []; freed_mbufs = [] }

sent-dropped_example :
    Ends
      (Ipv4.sender false routes packet >>= λ (q, r).
        Ipv4.receiver list_pool false 1 0 (store list_pool 1 q (world_of packet)))
      (λ (w', r). (r ≡ error dropped) × GivenUp 1 0 (world_of packet) w')
unfolding ihl
sent-dropped_example =
    sent-dropped list_pool false routes 0 1 0 0 packet (world_of packet) ipv4_room refl
      (omega arith) (inl refl) refl

-- A header of five words with 28 bytes in all and a time to live of 64.
abbrev received : Packet
received = record packet {
  offset = 0;
  len = 28;
  buf = 0x45 ∷ 0 ∷ 0 ∷ 28 ∷ 0 ∷ 0 ∷ 0 ∷ 0 ∷ 64 ∷ replicate 40 0;
}

received-HasHeader : HasHeader 0x45 28 64 received
unfolding read16 read8 to_be16 ihl
received-HasHeader = record {
  first_at = refl;
  tot_at = refl;
  ttl_at = refl;
  tot_small = omega arith;
  end_small = omega arith;
}

receiver_lem_example :
    (5 ≤ ihl 0x45
      → 0 < 64
      → Accepted list_pool 1
          (stripped 0x45 28 received)
          (world_of received)
          (Ipv4.receiver list_pool true 1 0 (world_of received)))
    × ((ihl 0x45 < 5) ⊎ (◌≡◌ {A = ℕ} 64 0)
        → Refused list_pool true 1 0
            (stripped 0x45 28 received)
            (world_of received)
            (Ipv4.receiver list_pool true 1 0 (world_of received)))
receiver_lem_example =
    receiver_lem list_pool true 1 0 0x45 28 64 received (world_of received) refl (omega arith)
      received-HasHeader

abbrev shared : World list_pool
shared = world_of (record packet { refcnt = 2 })

deallocate-GivenUp_example : Ends (deallocate list_pool true 1 0 shared) (GivenUp 1 1 shared)
deallocate-GivenUp_example = deallocate-GivenUp true 1 0 shared 1 refl

-- The numbers below `n`, downwards.
abbrev below : ℕ → List ℕ
below zero = []
below (suc n) = n ∷ below n

abbrev full_pool : World list_pool
full_pool = record { packets = λ q. some packet; pool = below 32; freed_mbufs = [] }

abbrev empty_pool : World list_pool
empty_pool = record full_pool { pool = [] }

burst_taken : allocate_many list_pool burst_size 0 full_pool ≡ some (below 32, empty_pool)
unfolding allocate_many
burst_taken = refl

burst-IsLive : (n : ℕ) → All (IsLive empty_pool) (below n)
burst-IsLive zero = tt
burst-IsLive (suc n) = ((packet, refl), burst-IsLive n)

above_below : (m n : ℕ) → n ≤ m → All (λ q. (m == q) ≡ false) (below n)
above_below m zero h = tt
above_below m (suc n) h = (ground arith, above_below m n (omega arith))

burst-IsDistinct : (n : ℕ) → IsDistinct (below n)
burst-IsDistinct zero = tt
burst-IsDistinct (suc n) = (above_below n n (omega arith), burst-IsDistinct n)

poll-burst_example : Ends (User.poll list_pool true 0 full_pool) (λ (w2, r).
    (first : ℕ) × (r ≡ value first)
    × (length (below 32) ≡ burst_size)
    × Chained Prepared w2 (some first) (below 32)
    × ((q : ℕ) → refcnt_at w2 q ≡ refcnt_at empty_pool q))
poll-burst_example =
    poll-burst true 0 full_pool empty_pool (below 32) burst_taken (burst-IsDistinct 32)
      (burst-IsLive 32)

-- Two of 64 buffers wait, and the card takes them one at a time.
abbrev two_wait : Dpdk
two_wait = record {
  tx_bufs = below 64;
  tx_idx = 2;
  port = 0;
  queue = 0;
  nic = 0;
  pktmbuf_pool = some 1;
}

one_by_one : Sends (1 ∷ 1 ∷ []) 2
one_by_one = burst 1 1 (1 ∷ []) (omega arith) (burst 1 0 [] (omega arith) (done []))

flush-refilled_example :
    (filled : Dpdk) × (flush true (1 ∷ 1 ∷ []) (some (8 ∷ 9 ∷ [])) two_wait
      ≡ some (ok (take 2 (below 64), filled, value tt)))
    × (filled.tx_idx ≡ 0)
    × (filled.tx_bufs ≡ (8 ∷ 9 ∷ []) ++ drop 2 two_wait.tx_bufs)
    × (length filled.tx_bufs ≡ length two_wait.tx_bufs)
    × (flush true (1 ∷ 1 ∷ []) none two_wait
        ≡ some (
            ok (take 2 (below 64), record two_wait { tx_idx = 0 }, error (memory_error exhausted))))
flush-refilled_example =
    flush-refilled true (1 ∷ 1 ∷ []) (8 ∷ 9 ∷ []) two_wait (λ e. absurd (omega (arith, e)))
      (omega arith) refl one_by_one
