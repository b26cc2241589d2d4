-- ===== src/Modules/Dpdk/Port/Queues.antt =====
-- dpdk.rs, `Dpdk::port_init` and `Dpdk::init` on a port whose calls succeed.
use mathlib.Core.List.{append_assoc, append-nil}
use omni_stack_rust.Base.{
  ℕ, zero, suc, ◌+◌, ◌<◌, ◌≤◌, ◌≡◌, refl, sym, ap, ap₂, ◌∙◌, Bool, true, false, Option, some, none,
  List, [], ◌∷◌, ◌++◌, Outcome, ok, Ends, Ends-value, or_panic, ◌==◌, ==_iff, bit_and, arith,
}
use omni_stack_rust.Error.{Result, value}
use omni_stack_rust.Protocol.Addr.{MacAddr}
use omni_stack_rust.Modules.Dpdk.{Dpdk}
use omni_stack_rust.Modules.Dpdk.Port.{
  DevInfo, Device, Machine, Queue, no_ports, put_pool, limit_offloads, default_port_conf, check,
  default_rx_conf, default_tx_conf, queue_init, queues_init, port_init, call_once, init, wait_done,
  look_up, take_buffers, after_once,
}

-- The queues from `queue` on, `left` of them, each with the same descriptors and offloads.
abbrev pub queues_of : ℕ → ℕ → ℕ → ℕ → ℕ → List Queue
queues_of port desc offloads queue zero = []
queues_of port desc offloads queue (suc left) =
    record { port = port; queue = queue; desc = desc; offloads = offloads }
    ∷ queues_of port desc offloads (queue + 1) left

-- Every call of DPDK for the port succeeds.
pub record IsWell (num_queues : ℕ) (dev : Device) (info : DevInfo) (rx_desc tx_desc pool : ℕ)
    : Type 0 where
  pub valid : dev.is_valid ≡ true
  pub known : dev.info ≡ some info
  pub adjusted : dev.adjusted ≡ some (rx_desc, tx_desc)
  pub configured : dev.configured num_queues (limit_offloads info default_port_conf) ≡ true
  pub flushed : dev.flow_flushed ≡ true
  pub socket : dev.socket_id ≡ dev.dev_socket_id
  pub pooled : dev.new_pool ≡ some pool
  pub rx_ready : (q : ℕ) → q < num_queues → dev.rx_queue_ready q ≡ true
  pub tx_ready : (q : ℕ) → q < num_queues → dev.tx_queue_ready q ≡ true
  pub started : dev.started ≡ true
  pub promiscuous : dev.promiscuous ≡ true

abbrev pub rx_of : DevInfo → ℕ
rx_of info = bit_and default_port_conf.rx_offloads info.rx_offload_capa

abbrev pub tx_of : DevInfo → ℕ
tx_of info = bit_and default_port_conf.tx_offloads info.tx_offload_capa

passes : (b : Bool) → b ≡ true → check b ≡ ok tt
unfolding check
passes b e = rw e refl

module _ (port num_queues : ℕ) (dev : Device) (info : DevInfo) (rx_desc tx_desc pool : ℕ)
    (well : IsWell num_queues dev info rx_desc tx_desc pool) where
  abbrev with_queues : ℕ → ℕ → Machine → Machine
  with_queues queue left m = record m {
    rx_queues = m.rx_queues ++ queues_of port rx_desc (rx_of info) queue left;
    tx_queues = m.tx_queues ++ queues_of port tx_desc (tx_of info) queue left;
  }

  rx_conf-value : default_rx_conf dev ≡ ok (rx_of info)
  unfolding default_rx_conf
  rx_conf-value = rw well.known refl

  tx_conf-value : default_tx_conf dev ≡ ok (tx_of info)
  unfolding default_tx_conf
  tx_conf-value = rw well.known refl

  queue_init-value :
      (queue : ℕ) (m : Machine)
      → queue < num_queues
      → queue_init port dev (rx_desc, tx_desc) queue m ≡ ok (with_queues queue 1 m)
  unfolding queue_init
  queue_init-value queue m h =
      rw
        (
          rx_conf-value,
          passes _ (well.rx_ready queue h),
          tx_conf-value,
          passes _ (well.tx_ready queue h),
        )
        refl

  queues_init-value :
      (left queue : ℕ) (m : Machine)
      → queue + left ≤ num_queues
      → queues_init port dev (rx_desc, tx_desc) left queue m ≡ ok (with_queues queue left m)
  unfolding queues_init
  queues_init-value zero queue m h =
      ap₂ (λ rx tx. ok (record m { rx_queues = rx; tx_queues = tx })) (sym (append-nil _))
        (sym (append-nil _))
  queues_init-value (suc left) queue m h = rw (queue_init-value queue m (omega arith)) (
      queues_init-value left (queue + 1) (with_queues queue 1 m) (omega arith)
      ∙ ap₂ (λ rx tx. ok (record m { rx_queues = rx; tx_queues = tx }))
          (append_assoc m.rx_queues _ _) (append_assoc m.tx_queues _ _))

  -- The machine once the port is set up, from one in which nothing was.
  abbrev pub set_up_machine : Machine
  set_up_machine = record {
    pools = put_pool port dev.new_pool (λ other. none);
    rx_queues = queues_of port rx_desc (rx_of info) 0 num_queues;
    tx_queues = queues_of port tx_desc (tx_of info) 0 num_queues;
    running = port ∷ [];
    init_once = true;
    init_done = true;
  }

  set_up-Ends :
      Ends
        (port_init port num_queues dev no_ports)
        (λ m. m ≡ record set_up_machine { init_once = false })
  unfolding port_init
  set_up-Ends = Ends-value (check dev.is_valid) _ tt (passes _ well.valid) (
      Ends-value (or_panic dev.info) _ info (ap or_panic well.known) (
        Ends-value (or_panic dev.adjusted) _ _ (ap or_panic well.adjusted) (
          Ends-value (check (dev.configured num_queues _)) _ tt (passes _ well.configured) (
            Ends-value (check dev.flow_flushed) _ tt (passes _ well.flushed) (
              Ends-value (check (dev.socket_id == dev.dev_socket_id)) _ tt
                (passes _ ((==_iff dev.socket_id dev.dev_socket_id).1 well.socket))
                (Ends-value (queues_init port dev (rx_desc, tx_desc) num_queues 0 _) _ _
                  (queues_init-value num_queues 0 _ (omega arith))
                  (Ends-value (check dev.started) _ tt (passes _ well.started) (
                    Ends-value (check dev.promiscuous) _ tt (passes _ well.promiscuous)
                      (_, refl, refl)))))))))

  port_init-value :
      port_init port num_queues dev no_ports ≡ ok (record set_up_machine { init_once = false })
  port_init-value = let (m, e, same) = set_up-Ends in e ∙ ap ok same

  abbrev pub ready : ℕ → ℕ → List ℕ → Dpdk → Dpdk
  ready nic queue bufs d = record d {
    tx_bufs = bufs;
    nic = nic;
    port = port;
    queue = queue;
    pktmbuf_pool = some pool;
  }

  look_up-value :
      (nic queue : ℕ) (bufs : List ℕ) (mac : MacAddr) (d : Dpdk)
      → look_up nic port queue (some bufs) (some mac) set_up_machine d
        ≡ ok (ready nic queue bufs d, value mac)
  unfolding look_up take_buffers
  look_up-value nic queue bufs mac d = rw ((==_iff port port).1 refl) (rw well.pooled refl)

-- On a port whose calls all succeed, the adapters of all its queues get ready, whichever of them comes
-- first: the first one makes the port's queues, one of each kind for every number below `num_queues`, with
-- the offloads that the code asks for and the card can do, and starts the port; those that follow change
-- nothing. Each has its buffers, the port's pool, its own queue, and the card's address.
pub init-Ready :
    (port num_queues : ℕ) (dev : Device) (info : DevInfo) (rx_desc tx_desc pool : ℕ)
    (well : IsWell num_queues dev info rx_desc tx_desc pool) (nic queue : ℕ) (bufs : List ℕ)
    (mac : MacAddr) (d : Dpdk)
    → let up = set_up_machine port num_queues dev info rx_desc tx_desc pool well in
      let done : Option (Outcome (Machine × Dpdk × Result MacAddr)) = some (
        ok (
          up,
          ready port num_queues dev info rx_desc tx_desc pool well nic queue bufs d,
          value mac,
        )) in
      (init nic port num_queues queue dev (some bufs) (some mac) no_ports d ≡ done)
      × (init nic port num_queues queue dev (some bufs) (some mac) up d ≡ done)
unfolding init call_once after_once wait_done
init-Ready port num_queues dev info rx_desc tx_desc pool well nic queue bufs mac d = (
  rw (port_init-value port num_queues dev info rx_desc tx_desc pool well) (
      rw (look_up-value port num_queues dev info rx_desc tx_desc pool well nic queue bufs mac d)
        refl),
  rw (look_up-value port num_queues dev info rx_desc tx_desc pool well nic queue bufs mac d) refl,
)
