-- ===== src/Modules/Dpdk/Port/Once.antt =====
-- dpdk.rs, `Dpdk::init`: which ports its `Once` lets it set up.
use omni_stack_rust.Base.{
  ℕ, zero, suc, ◌+◌, ◌≡◌, ◌≢◌, ◌⊎◌, inl, inr, refl, sym, ap, ◌∙◌, true, false, Option, some, none,
  List, Outcome, ok, panic, undefined, subst, if◌then◌else◌, ◌>>=◌, Gives, Gives-any, Gives-bind,
  Gives-ok, ◌==◌, or_panic, arith,
}
use omni_stack_rust.Error.{Result}
use omni_stack_rust.Protocol.Addr.{MacAddr}
use omni_stack_rust.Modules.Dpdk.{Dpdk}
use omni_stack_rust.Modules.Dpdk.Port.{
  Device, Machine, no_ports, put_pool, limit_offloads, default_port_conf, check, default_rx_conf,
  default_tx_conf, queue_init, queues_init, port_init, call_once, init, wait_done, look_up,
  after_once,
}

-- The set-up of queues leaves the rest of the machine.
record SameStatics (m m' : Machine) : Type 0 where
  pools : m'.pools ≡ m.pools
  once : m'.init_once ≡ m.init_once

queue_init-SameStatics :
    (port : ℕ) (dev : Device) (desc : ℕ × ℕ) (queue : ℕ) (m : Machine)
    → Gives (queue_init port dev desc queue m) (SameStatics m)
unfolding queue_init
queue_init-SameStatics port dev (rx_desc, tx_desc) queue m = Gives-any (default_rx_conf dev) (λ rx.
    Gives-any (check (dev.rx_queue_ready queue)) (λ u. Gives-any (default_tx_conf dev) (λ tx.
      Gives-any (check (dev.tx_queue_ready queue))
        (λ u. Gives-ok (SameStatics m) _ (record { pools = refl; once = refl })))))

queues_init-SameStatics :
    (port : ℕ) (dev : Device) (desc : ℕ × ℕ) (left queue : ℕ) (m : Machine)
    → Gives (queues_init port dev desc left queue m) (SameStatics m)
unfolding queues_init
queues_init-SameStatics port dev desc zero queue m =
    Gives-ok (SameStatics m) m (record { pools = refl; once = refl })
queues_init-SameStatics port dev desc (suc left) queue m =
    Gives-bind (queue_init port dev desc queue m) (queue_init-SameStatics port dev desc queue m)
      (λ m1 s1 m2 e.
        let s2 = queues_init-SameStatics port dev desc left (queue + 1) m1 m2 e in
        record { pools = s2.pools ∙ s1.pools; once = s2.once ∙ s1.once })

-- What a set-up that succeeded did to the statics.
record SetUp (port : ℕ) (dev : Device) (m m' : Machine) : Type 0 where
  pools : m'.pools ≡ put_pool port dev.new_pool m.pools
  is_done : m'.init_done ≡ true

port_init-SetUp :
    (port num_queues : ℕ) (dev : Device) (m : Machine)
    → Gives (port_init port num_queues dev m) (SetUp port dev m)
unfolding port_init
port_init-SetUp port num_queues dev m = Gives-any (check dev.is_valid) (λ u.
    Gives-any (or_panic dev.info) (λ info. Gives-any (or_panic dev.adjusted) (λ desc.
      Gives-any (check (dev.configured num_queues (limit_offloads info default_port_conf))) (λ u.
        Gives-any (check dev.flow_flushed) (λ u.
          Gives-any (check (dev.socket_id == dev.dev_socket_id)) (λ u.
            Gives-bind
              (queues_init port dev desc num_queues 0
                (record m { pools = put_pool port dev.new_pool m.pools }))
              (queues_init-SameStatics port dev desc num_queues 0 _)
              (λ m1 s. Gives-any (check dev.started) (λ u. Gives-any (check dev.promiscuous) (λ u.
                Gives-ok (SetUp port dev m) _ (record { pools = s.pools; is_done = refl }))))))))))

-- The machines that the `Once` of `init` leads to, whatever ports and devices it is called with. A call
-- that panics ends the program.
pub data Reached : Machine → Type 0 where
  boot : Reached no_ports
  later :
      {m m' : Machine} (port num_queues : ℕ) (dev : Device)
      → Reached m
      → call_once port num_queues dev m ≡ ok m'
      → Reached m'

-- One port is set up, and no other has a pool.
record IsUp (a : ℕ) (m : Machine) : Type 0 where
  is_done : m.init_done ≡ true
  once : m.init_once ≡ true
  others : (b : ℕ) → b ≢ a → m.pools b ≡ none

abbrev IsFirst : Machine → Type 0
IsFirst m = (m.init_once ≡ false) × ((b : ℕ) → m.pools b ≡ none)

put_pool_other :
    (port b : ℕ) (pool : Option ℕ) (pools : ℕ → Option ℕ)
    → b ≢ port
    → put_pool port pool pools b ≡ pools b
put_pool_other port b pool pools h = ground arith

module _ (port num_queues : ℕ) (dev : Device) (m : Machine) where
  abbrev set_up : Outcome Machine
  set_up = port_init port num_queues dev m >>= λ m. ok (record m { init_once = true })

  call_once-again : m.init_once ≡ true → call_once port num_queues dev m ≡ ok m
  unfolding call_once
  call_once-again e = ap (λ b. if b then ok m else set_up) e

  call_once-first : m.init_once ≡ false → call_once port num_queues dev m ≡ set_up
  unfolding call_once
  call_once-first e = ap (λ b. if b then ok m else set_up) e

call_once-IsUp :
    (port num_queues : ℕ) (dev : Device) (m : Machine)
    → IsFirst m ⊎ ((a : ℕ) × IsUp a m)
    → Gives (call_once port num_queues dev m) (λ m'. (a : ℕ) × IsUp a m')
call_once-IsUp port num_queues dev m (inl (first, empty)) =
    subst (λ run. Gives run (λ m'. (a : ℕ) × IsUp a m'))
      (sym (call_once-first port num_queues dev m first))
      (Gives-bind (port_init port num_queues dev m) (port_init-SetUp port num_queues dev m) (λ m1 s.
        Gives-ok (λ m'. (a : ℕ) × IsUp a m') _
          (
            port,
            record {
              is_done = s.is_done;
              once = refl;
              others = λ b h.
                  ap (λ f. f b) s.pools ∙ (put_pool_other port b dev.new_pool m.pools h ∙ empty b);
            },
          )))
call_once-IsUp port num_queues dev m (inr (a, up)) =
    subst (λ run. Gives run (λ m'. (a : ℕ) × IsUp a m'))
      (sym (call_once-again port num_queues dev m up.once))
      (Gives-ok (λ m'. (a : ℕ) × IsUp a m') m (a, up))

Reached-cases : {m : Machine} → Reached m → IsFirst m ⊎ ((a : ℕ) × IsUp a m)
Reached-cases boot = inl (refl, λ b. refl)
Reached-cases (later {m} {m'} port num_queues dev r e) =
    inr (call_once-IsUp port num_queues dev m (Reached-cases r) m' e)

module _ (nic port num_queues queue : ℕ) (dev : Device) (bufs : Option (List ℕ))
    (mac : Option MacAddr) (d : Dpdk) where
  wait_done-returns :
      (m : Machine)
      → m.init_done ≡ true
      → wait_done nic port queue bufs mac d m
        ≡ some (look_up nic port queue bufs mac m d >>= λ r. ok (m, r.0, r.1))
  unfolding wait_done
  wait_done-returns m e = rw e refl

  after_once-returns :
      (run : Outcome Machine)
      → Gives run (λ m'. (a : ℕ) × IsUp a m')
      → (r : Outcome (Machine × Dpdk × Result MacAddr)) × (after_once nic port queue bufs mac d run
          ≡ some r)
  unfolding after_once
  after_once-returns panic g = (panic, refl)
  after_once-returns undefined g = (undefined, refl)
  after_once-returns (ok m) g = (_, wait_done-returns m (g m refl).1.is_done)

  -- Whatever adapters were set up before, `init` does not wait for ever for the flag.
  pub init-returns :
      (m : Machine)
      → Reached m
      → (r : Outcome (Machine × Dpdk × Result MacAddr)) × (init nic port num_queues queue dev bufs
            mac m d
          ≡ some r)
  unfolding init
  init-returns m r =
      after_once-returns (call_once port num_queues dev m)
        (call_once-IsUp port num_queues dev m (Reached-cases r))

  other_port :
      (a : ℕ) (m : Machine)
      → IsUp a m
      → port ≢ a
      → init nic port num_queues queue dev bufs mac m d ≡ some panic
  unfolding init after_once look_up
  other_port a m up h =
      rw (call_once-again port num_queues dev m up.once)
        (wait_done-returns m up.is_done ∙ rw (up.others port h) refl)

-- Once an adapter went through the `Once` of `init`, there is one port that can be used: the adapter of any
-- other port panics in `init`, whatever its card answers, since its buffer pool was never made.
pub init-one_port :
    (m : Machine)
    → Reached m
    → m.init_once ≡ true
    → (a : ℕ) × ((nic port num_queues queue : ℕ) (dev : Device) (bufs : Option (List ℕ))
          (mac : Option MacAddr) (d : Dpdk)
        → port ≢ a
        → init nic port num_queues queue dev bufs mac m d ≡ some panic)
init-one_port m r once = elim (Reached-cases r) [
  | inl (first, _) ↦ cc
  | inr (a, up) ↦ (
    a,
    λ nic port num_queues queue dev bufs mac d h.
        other_port nic port num_queues queue dev bufs mac d a m up h,
  )
]
