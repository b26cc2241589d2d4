-- ===== src/Modules/Dpdk/Port.antt =====
-- dpdk.rs: the set-up of a port, `Dpdk::port_init` and `Dpdk::init`. What DPDK answers for a port is an
-- argument; a call that fails there panics here.
pub mod Once
pub mod Queues
mod Tests
use omni_stack_rust.Base.{
  ℕ, zero, suc, ◌+◌, ◌-◌, ◌*◌, ◌/◌, ◌^◌, Bool, true, false, Option, none, some, List, [], ◌∷◌, ◌++◌,
  Outcome, ok, panic, undefined, ◌>>=◌, or_panic, ◌==◌, bit_and, bit_or, if◌then◌else◌,
}
use omni_stack_rust.Error.{unknown, Result, value, error}
use omni_stack_rust.Packet.{mtu}
use omni_stack_rust.Protocol.Addr.{MacAddr}
use omni_stack_rust.Protocol.Header.{eth_header_size}
use omni_stack_rust.Modules.Dpdk.{Dpdk}

abbrev pub rx_ring_size : ℕ
rx_ring_size = 2048

abbrev pub tx_ring_size : ℕ
tx_ring_size = 2048

abbrev pub mbuf_cache_size : ℕ
mbuf_cache_size = 256

abbrev pub nb_mbufs : ℕ
nb_mbufs = 2 ^ 16

-- `RTE_PKTMBUF_HEADROOM`.
abbrev pktmbuf_headroom : ℕ
pktmbuf_headroom = 128

abbrev pub mbuf_size : ℕ
mbuf_size = (mtu + eth_header_size + pktmbuf_headroom + 64 - 1) / 64 * 64

abbrev pub max_frame_size : ℕ
max_frame_size = mtu + eth_header_size

abbrev pub default_rss_key : List ℕ
default_rss_key =
    0xd1 ∷ 0x81 ∷ 0xc6 ∷ 0x2c ∷ 0xf7 ∷ 0xf4 ∷ 0xdb ∷ 0x5b ∷ 0x19 ∷ 0x83 ∷ 0xa2 ∷ 0xfc ∷ 0x94 ∷ 0x3e
    ∷ 0x1a ∷ 0xdb ∷ 0xd9 ∷ 0x38 ∷ 0x9e ∷ 0x6b ∷ 0xd1 ∷ 0x03 ∷ 0x9c ∷ 0x2c ∷ 0xa7 ∷ 0x44 ∷ 0x99
    ∷ 0xad ∷ 0x59 ∷ 0x3d ∷ 0x56 ∷ 0xd9 ∷ 0xf3 ∷ 0x25 ∷ 0x3c ∷ 0x06 ∷ 0x2a ∷ 0xdc ∷ 0x1f ∷ 0xfc ∷ []

-- `rte_eth_conf`, as far as it is filled in. The modes of the queues are constants.
pub record PortConf : Type 0 where
  pub rx_mtu : ℕ
  pub max_lro_pkt_size : ℕ
  pub rx_offloads : ℕ
  pub tx_offloads : ℕ
  pub rss_key : List ℕ
  pub rss_hf : ℕ

-- The offloads, by the places of their bits.
unfoldable pub default_port_conf : PortConf
default_port_conf = record {
  rx_mtu = mtu;
  max_lro_pkt_size = max_frame_size;
  rx_offloads = bit_or (2 ^ 19) 14;
  tx_offloads =
      bit_or (bit_or (bit_or (bit_or (bit_or (bit_or 2 4) 8) 16) (2 ^ 5)) (2 ^ 6)) (2 ^ 16);
  rss_key = default_rss_key;
  rss_hf = bit_or (bit_or 8 16) 32;
}

pub record DevInfo : Type 0 where
  pub rx_offload_capa : ℕ
  pub tx_offload_capa : ℕ

-- The answers of DPDK for one port; a call that fails answers `none` or `false`.
pub record Device : Type 0 where
  pub is_valid : Bool
  pub info : Option DevInfo
  pub adjusted : Option (ℕ × ℕ)
  pub configured : ℕ → PortConf → Bool
  pub flow_flushed : Bool
  pub socket_id : ℕ
  pub dev_socket_id : ℕ
  pub new_pool : Option ℕ
  pub rx_queue_ready : ℕ → Bool
  pub tx_queue_ready : ℕ → Bool
  pub started : Bool
  pub promiscuous : Bool

-- A queue of a port, with its descriptors and its offloads.
pub record Queue : Type 0 where
  pub port : ℕ
  pub queue : ℕ
  pub desc : ℕ
  pub offloads : ℕ

-- What is set up: the buffer pools by the port in their names, the queues, the ports that run, and the
-- two statics `INIT_ONCE` and `INIT_DONE_FLAG`.
pub record Machine : Type 0 where
  pub pools : ℕ → Option ℕ
  pub rx_queues : List Queue
  pub tx_queues : List Queue
  pub running : List ℕ
  pub init_once : Bool
  pub init_done : Bool

abbrev pub no_ports : Machine
no_ports = record {
  pools = λ port. none;
  rx_queues = [];
  tx_queues = [];
  running = [];
  init_once = false;
  init_done = false;
}

-- `if ret != 0 { panic!(..) }`.
unfoldable pub check : Bool → Outcome (Unit {0})
check true = ok tt
check false = panic

-- `default_rx_conf` and `default_tx_conf`: the offloads of a queue.
unfoldable pub default_rx_conf : Device → Outcome ℕ
unfolding default_port_conf
default_rx_conf dev = do
  info ← or_panic dev.info
  ok (bit_and default_port_conf.rx_offloads info.rx_offload_capa)

unfoldable pub default_tx_conf : Device → Outcome ℕ
unfolding default_port_conf
default_tx_conf dev = do
  info ← or_panic dev.info
  ok (bit_and default_port_conf.tx_offloads info.tx_offload_capa)

-- One turn of `for queue in 0..num_queues`.
unfoldable queue_init : ℕ → Device → ℕ × ℕ → ℕ → Machine → Outcome Machine
unfolding check default_rx_conf default_tx_conf
queue_init port dev (rx_desc, tx_desc) queue m = do
  rx ← default_rx_conf dev
  _ ← check (dev.rx_queue_ready queue)
  tx ← default_tx_conf dev
  _ ← check (dev.tx_queue_ready queue)
  ok (record m {
    rx_queues =
        m.rx_queues ++ record { port = port; queue = queue; desc = rx_desc; offloads = rx } ∷ [];
    tx_queues =
        m.tx_queues ++ record { port = port; queue = queue; desc = tx_desc; offloads = tx } ∷ [];
  })

-- The queues from `queue` on, `left` of them.
unfoldable pub queues_init : ℕ → Device → ℕ × ℕ → ℕ → ℕ → Machine → Outcome Machine
unfolding queue_init
queues_init port dev desc zero queue m = ok m
queues_init port dev desc (suc left) queue m = do
  m ← queue_init port dev desc queue m
  queues_init port dev desc left (queue + 1) m

-- `conf.txmode.offloads &= ..` and its twin.
abbrev pub limit_offloads : DevInfo → PortConf → PortConf
limit_offloads info conf = record conf {
  tx_offloads = bit_and conf.tx_offloads info.tx_offload_capa;
  rx_offloads = bit_and conf.rx_offloads info.rx_offload_capa;
}

-- The pool goes by the port; whether it could be made is not looked at here.
abbrev pub put_pool : ℕ → Option ℕ → (ℕ → Option ℕ) → ℕ → Option ℕ
put_pool port pool pools other = if port == other then pool else pools other

unfoldable pub port_init : ℕ → ℕ → Device → Machine → Outcome Machine
unfolding check queues_init default_port_conf
port_init port num_queues dev m = do
  _ ← check dev.is_valid
  info ← or_panic dev.info
  desc ← or_panic dev.adjusted
  _ ← check (dev.configured num_queues (limit_offloads info default_port_conf))
  _ ← check dev.flow_flushed
  _ ← check (dev.socket_id == dev.dev_socket_id)
  m ←
      queues_init port dev desc num_queues 0
        (record m { pools = put_pool port dev.new_pool m.pools })
  _ ← check dev.started
  _ ← check dev.promiscuous
  ok (record m { running = m.running ++ port ∷ []; init_done = true })

-- `INIT_ONCE.call_once(..)`: one static for all adapters, whatever their ports. The threads that come
-- while the first is at it wait for its end.
unfoldable pub call_once : ℕ → ℕ → Device → Machine → Outcome Machine
unfolding port_init
call_once port num_queues dev m =
    if m.init_once
    then ok m
    else port_init port num_queues dev m >>= λ m. ok (record m { init_once = true })

-- The rest of `init`: 64 buffers of the port's pool, and the card's address.
take_buffers : Option (List ℕ) → Option MacAddr → Dpdk → Dpdk × Result MacAddr
take_buffers none mac d = (d, error unknown)
take_buffers (some bufs) none d = (record d { tx_bufs = bufs }, error unknown)
take_buffers (some bufs) (some mac) d = (record d { tx_bufs = bufs }, value mac)

look_up :
    ℕ → ℕ → ℕ → Option (List ℕ) → Option MacAddr → Machine → Dpdk → Outcome (Dpdk × Result MacAddr)
unfolding take_buffers
look_up nic port queue bufs mac m d = do
  pool ← or_panic (m.pools port)
  ok (
      take_buffers bufs mac
        (record d { nic = nic; port = port; queue = queue; pktmbuf_pool = some pool }))

-- `while !INIT_DONE_FLAG`: `none` if the flag is not set, and so the thread waits for ever.
wait_done :
    ℕ
    → ℕ
    → ℕ
    → Option (List ℕ)
    → Option MacAddr
    → Dpdk
    → Machine
    → Option (Outcome (Machine × Dpdk × Result MacAddr))
unfolding look_up
wait_done nic port queue bufs mac d m =
    if m.init_done
    then some (look_up nic port queue bufs mac m d >>= λ r. ok (m, r.0, r.1))
    else none

after_once :
    ℕ
    → ℕ
    → ℕ
    → Option (List ℕ)
    → Option MacAddr
    → Dpdk
    → Outcome Machine
    → Option (Outcome (Machine × Dpdk × Result MacAddr))
unfolding wait_done
after_once nic port queue bufs mac d panic = some panic
after_once nic port queue bufs mac d undefined = some undefined
after_once nic port queue bufs mac d (ok m) = wait_done nic port queue bufs mac d m

unfoldable pub init :
    ℕ
    → ℕ
    → ℕ
    → ℕ
    → Device
    → Option (List ℕ)
    → Option MacAddr
    → Machine
    → Dpdk
    → Option (Outcome (Machine × Dpdk × Result MacAddr))
unfolding call_once after_once
init nic port num_queues queue dev bufs mac m d =
    after_once nic port queue bufs mac d (call_once port num_queues dev m)

-- `start`, with the two answers of DPDK.
unfoldable pub start : Bool → Bool → Outcome (Result (Unit {0}))
unfolding check
start started promiscuous = do _ ← check started; _ ← check promiscuous; ok (value tt)
