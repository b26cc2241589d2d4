-- ===== src/Modules/Dpdk/Port/Tests.antt =====
-- dpdk.rs, `Dpdk::init`: a card with two queues, and the adapter of another port.
use omni_stack_rust.Base.{
  ℕ, ◌+◌, ◌^◌, ◌≡◌, ◌≢◌, refl, true, some, none, List, Option, Outcome, ok, panic, replicate,
}
use omni_stack_rust.Error.{Result, value}
use omni_stack_rust.Protocol.Addr.{MacAddr, new_mac}
use omni_stack_rust.Modules.Dpdk.{Dpdk, new}
use omni_stack_rust.Modules.Dpdk.Port.{
  DevInfo, Device, Machine, no_ports, init, call_once, port_init, queues_init, queue_init, check,
  default_rx_conf, default_tx_conf,
}
use omni_stack_rust.Modules.Dpdk.Port.Once.{Reached, boot, later, init-one_port, init-returns}
use omni_stack_rust.Modules.Dpdk.Port.Queues.{IsWell, set_up_machine, ready, init-Ready}

-- A card that can do three of the offloads that are asked for.
abbrev info : DevInfo
info = record { rx_offload_capa = 2 ^ 19 + 2; tx_offload_capa = 14 }

abbrev device : Device
device = record {
  is_valid = true;
  info = some info;
  adjusted = some (1024, 512);
  configured = λ n conf. true;
  flow_flushed = true;
  socket_id = 0;
  dev_socket_id = 0;
  new_pool = some 7;
  rx_queue_ready = λ q. true;
  tx_queue_ready = λ q. true;
  started = true;
  promiscuous = true;
}

device-IsWell : IsWell 2 device info 1024 512 7
device-IsWell = record {
  valid = refl;
  known = refl;
  adjusted = refl;
  configured = refl;
  flushed = refl;
  socket = refl;
  pooled = refl;
  rx_ready = λ q h. refl;
  tx_ready = λ q h. refl;
  started = refl;
  promiscuous = refl;
}

abbrev up : Machine
up = set_up_machine 4 2 device info 1024 512 7 device-IsWell

init-Ready_example :
    let done : Option (Outcome (Machine × Dpdk × Result MacAddr)) = some (
      ok (
        up,
        ready 4 2 device info 1024 512 7 device-IsWell 0 1 (replicate 64 5) new,
        value new_mac,
      )) in
    (init 0 4 2 1 device (some (replicate 64 5)) (some new_mac) no_ports new ≡ done)
    × (init 0 4 2 1 device (some (replicate 64 5)) (some new_mac) up new ≡ done)
init-Ready_example =
    init-Ready 4 2 device info 1024 512 7 device-IsWell 0 1 (replicate 64 5) new_mac new

up-Reached : Reached up
unfolding call_once port_init queues_init queue_init check default_rx_conf default_tx_conf
up-Reached = later 4 2 device boot refl

init-one_port_example :
    (a : ℕ) × ((nic port num_queues queue : ℕ) (dev : Device) (bufs : Option (List ℕ))
        (mac : Option MacAddr) (d : Dpdk)
      → port ≢ a
      → init nic port num_queues queue dev bufs mac up d ≡ some panic)
init-one_port_example = init-one_port up up-Reached refl

init-returns_example :
    (r : Outcome (Machine × Dpdk × Result MacAddr)) × (init 1 5 2 0 device none none up new
      ≡ some r)
init-returns_example = init-returns 1 5 2 0 device none none new up up-Reached
