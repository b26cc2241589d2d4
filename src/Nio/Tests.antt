-- ===== src/Nio/Tests.antt =====
-- nio.rs, `IoNode`: runs on one adapter.
use omni_stack_rust.Nio.Idle.{IsSettled}
use omni_stack_rust.Base.{
  ◌≤◌, ℕ, ◌≡◌, ◌*◌, some, List, refl, ok, Ends, [], ◌∷◌, ◌+◌, true, none, length, replicate, arith,
}
use omni_stack_rust.Error.{nop, value, error}
use omni_stack_rust.Packet.Pool.{World}
use omni_stack_rust.Packet.Pool.ListPool.{list_pool}
use omni_stack_rust.Protocol.Addr.{MacAddr, new_mac}
use omni_stack_rust.Config.{NicConfig, StackConfig}
use omni_stack_rust.Config.Load.{ConfigManager, get_stack_config}
use omni_stack_rust.Nio.Init.{init_node}
use omni_stack_rust.Nio.Init.Built.{Built, set_up, init_node-Built}
use omni_stack_rust.Engine.Worker.{Context}
use omni_stack_rust.Nio.{Adapter, IoNode, new, mark, flush_pending}
use omni_stack_rust.Nio.Flush.{IsValid, Marked, mark-Marked}
use omni_stack_rust.Nio.Poll.{Flushed, flush_pending-IsValid}
use omni_stack_rust.Base.Bits.{digit-zero}
use omni_stack_rust.Occurs.{occurs}

-- An adapter that counts its flushes.
abbrev counting : Adapter ℕ (World list_pool)
counting = record {
  init = λ ctx nic port num_queues queue a w. ok (a, w, value new_mac);
  send = λ ctx p a w. ok (a, w, value tt);
  recv = λ ctx a w. ok (a, w, error nop);
  flush = λ ctx a w. ok (a + 1, w, value tt);
  stop = λ ctx a w. ok (a, w);
}

abbrev context : Context
context = record {
  pktpool = record { mp = "pktpool_0"; thread_id = 0 };
  cpu = 0;
  worker_id = 0;
  thread_id = 0;
  graph_id = 0;
  stack_name = "stack";
}

abbrev world : World list_pool
world = record { packets = λ q. none; pool = []; freed_mbufs = [] }

abbrev idle : IoNode ℕ
idle = record {
  flush_queue = replicate 16 0;
  flush_flag = 0;
  flush_queue_idx = 0;
  adapters = 0 ∷ [];
  nic_to_mac = replicate 16 new_mac;
}

idle-IsValid : IsValid idle
unfolding occurs
idle-IsValid = record {
  size = refl;
  count = omega arith;
  bound = omega arith;
  exist = tt;
  flags = λ k. digit-zero k;
}

mark-Marked_example : Ends (mark true 0 idle) (Marked 0 idle)
mark-Marked_example = mark-Marked true 0 idle idle-IsValid (omega arith)

-- The node after a packet was sent.
busy : (io : IoNode ℕ) × IsValid io
busy = let (io, e, m) = mark-Marked true 0 idle idle-IsValid (omega arith) in (io, m.valid)

flush_pending-IsValid_example :
    Ends
      (flush_pending list_pool counting true context ((busy.0).flush_queue_idx) (busy.0) world)
      (Flushed list_pool counting true context (λ a w. (_, refl, tt)) (length ((busy.0).adapters)))
flush_pending-IsValid_example =
    flush_pending-IsValid list_pool counting true context (λ a w. (_, refl, tt))
      ((busy.0).flush_queue_idx) (busy.0) world (busy.1) refl

-- An adapter that keeps its port and its queue, and has its card's number for an address.
abbrev card_mac : ℕ → MacAddr
card_mac nic = record { raw = 2 ∷ 0 ∷ 0 ∷ 0 ∷ 0 ∷ nic ∷ [] }

abbrev keeping : Adapter ℕ (World list_pool)
keeping = record counting {
  init = λ ctx nic port num_queues queue a w. ok (port * 100 + queue, w, value (card_mac nic));
}

abbrev two_cards : StackConfig
two_cards = record {
  name = "stack";
  nics =
      record {
        adapter_name = "Dpdk";
        port = 7;
        ipv4 = record { octets = [] };
        netmask = record { octets = [] };
      }
      ∷ record {
        adapter_name = "Dpdk";
        port = 9;
        ipv4 = record { octets = [] };
        netmask = record { octets = [] };
      }
      ∷ [];
  routes = [];
  graphs = record { name = "echo"; cpus = 12 ∷ 14 ∷ [] } ∷ [];
}

abbrev config : ConfigManager
config = record { graph_configs = []; stack_configs = two_cards ∷ [] }

abbrev Made : ℕ → NicConfig → ℕ → MacAddr → Type 0
Made id nic a mac = (a ≡ nic.port * 100 + 3) × (mac ≡ card_mac id)

config_known : get_stack_config "stack" config ≡ some two_cards
unfolding get_stack_config
config_known = refl

port_kept :
    (id : ℕ) (nic : NicConfig) (a : ℕ) (mac : MacAddr) → Made id nic a mac → (3 ≤ a) × Unit {0}
port_kept id nic a mac (e, _) = (omega (arith, e), tt)

init_node-Built_example :
    Ends
      (init_node list_pool keeping true context (λ name. some 0) config 3 new world)
      (λ (next, io, w').
        (next ≡ 4)
        × (adapters : List ℕ) × (ms : List MacAddr) × Built list_pool keeping true context
            (λ name. some 0)
            Made
            0
            two_cards.nics
            adapters
            ms
        × (io ≡ set_up list_pool keeping true context (λ name. some 0) Made adapters ms)
        × IsSettled (λ i a. 3 ≤ a) (λ i a. Unit {0}) io)
init_node-Built_example =
    init_node-Built list_pool keeping true context (λ name. some 0) Made (λ a. 3 ≤ a)
      (λ a. Unit {0}) config 3 two_cards (record { name = "echo"; cpus = 12 ∷ 14 ∷ [] }) world
      config_known refl
      (
        (0, refl, λ w. (_, refl, (card_mac 0, refl, (refl, refl)))),
        ((0, refl, λ w. (_, refl, (card_mac 1, refl, (refl, refl)))), tt),
      )
      (omega arith) port_kept
