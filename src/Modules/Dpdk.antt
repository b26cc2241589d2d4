-- ===== src/Modules/Dpdk.antt =====
-- omnistack-core/src/modules/dpdk.rs: the adapter of a network card. Here it receives packets and flushes
-- those that are to be sent; sending and the set-up are children. What the card and DPDK's pools answer is
-- the input: the buffers that were received, how many each transmit burst takes, and the fresh buffers.
-- `debug` is the build profile.
pub mod Refill
pub mod Receive
pub mod Send
pub mod Port
mod Tests
use omni_stack_rust.Base.{
  ℕ, zero, suc, ◌+◌, ◌-◌, ◌%◌, Bool, Option, none, some, List, [], ◌∷◌, ◌++◌, Outcome, ok, panic,
  undefined, ◌>>=◌, length, take, drop, replicate, ◌==◌, if◌then◌else◌,
}
use omni_stack_rust.Base.Word.{u16_mod, u64_mod, sub_word}
use omni_stack_rust.Error.{Error, nop, memory_error, exhausted, Result, value, error}
use omni_stack_rust.Packet.{Packet, outside, mbuf, set_len}
use omni_stack_rust.Packet.Pool.{Mempool, World, load, store, allocate, deallocate}

abbrev pub burst_size : ℕ
burst_size = 64

-- The buffers by their addresses; `tx_idx` of them wait for the card. A null pool is `none`.
pub record Dpdk : Type 0 where
  pub tx_bufs : List ℕ
  pub tx_idx : ℕ
  pub port : ℕ
  pub queue : ℕ
  pub nic : ℕ
  pub pktmbuf_pool : Option ℕ

-- `Dpdk::new`: null buffers.
unfoldable pub new : Dpdk
new = record {
  tx_bufs = replicate burst_size 0;
  tx_idx = 0;
  port = 0;
  queue = 0;
  nic = 0;
  pktmbuf_pool = none;
}

-- A received buffer: its address, where its data start, its length, and the memory it points to.
pub record Mbuf : Type 0 where
  pub address : ℕ
  pub data_off : ℕ
  pub pkt_len : ℕ
  pub memory : List ℕ

-- The buffers of one burst, in front of those of the bursts behind it.
abbrev handed : List ℕ → Option (Outcome (List ℕ)) → Option (Outcome (List ℕ))
handed now none = none
handed now (some later) = some (later >>= λ rest. ok (now ++ rest))

-- `while self.tx_idx != 0`: a burst takes the first of the buffers from `pkts` on, and `pkts` moves behind
-- them. The buffers that the card was handed, in order; `none` when no burst is left.
unfoldable pub transmit : Bool → List ℕ → List ℕ → ℕ → Option (Outcome (List ℕ))
transmit debug bursts pkts zero = some (ok [])
transmit debug [] pkts (suc waiting) = none
transmit debug (nb_tx ∷ bursts) pkts (suc waiting) =
    elim (sub_word debug u64_mod (suc waiting) nb_tx) [
      | ok left ↦ handed (take nb_tx pkts) (transmit debug bursts (drop nb_tx pkts) left)
      | panic ↦ some panic
      | undefined ↦ some undefined
    ]

-- `rte_pktmbuf_alloc_bulk` into the front of `tx_bufs`.
refill : Option (List ℕ) → Dpdk → Dpdk × Result (Unit {0})
refill none d = (d, error (memory_error exhausted))
refill (some fresh) d = (record d { tx_bufs = fresh ++ drop (length fresh) d.tx_bufs }, value tt)

after_transmit :
    Option (List ℕ)
    → Dpdk
    → Option (Outcome (List ℕ))
    → Option (Outcome (List ℕ × Dpdk × Result (Unit {0})))
unfolding refill
after_transmit fresh d none = none
after_transmit fresh d (some r) =
    let (d', res) = refill fresh (record d { tx_idx = 0 }) in
    some (r >>= λ sent. ok (sent, d', res))

-- `flush`, with the buffers that the card was handed.
unfoldable pub flush :
    Bool → List ℕ → Option (List ℕ) → Dpdk → Option (Outcome (List ℕ × Dpdk × Result (Unit {0})))
unfolding transmit after_transmit
flush debug bursts fresh d =
    if d.tx_idx == 0
    then some (ok ([], d, value tt))
    else after_transmit fresh d (transmit debug bursts d.tx_bufs d.tx_idx)

module _ (M : Mempool) where
  -- The packet that stands for one received buffer.
  describe : Bool → ℕ → Mbuf → Option ℕ → Packet → Outcome Packet
  describe debug nic m ret pkt =
      set_len debug (m.pkt_len % u16_mod) (record pkt { nic = nic; offset = m.data_off }) >>= λ pkt.
      ok (record pkt { region = outside m.memory; next = ret; buf_ty = mbuf m.address })

  receive_one :
      Bool
      → ℕ
      → Mbuf
      → Option ℕ
      → Option (ℕ × World M)
      → World M
      → Outcome (World M × Result (Option ℕ))
  unfolding describe
  receive_one debug nic m ret none w = ok (w, error (memory_error exhausted))
  receive_one debug nic m ret (some (p, w)) _ = do
    pkt ← load M p w
    pkt ← describe debug nic m ret pkt
    ok (store M p pkt w, value (some p))

  -- One turn of the loop, behind the turns for the buffers after it.
  unfoldable pub receive_next :
      Bool → ℕ → ℕ → Mbuf → World M × Result (Option ℕ) → Outcome (World M × Result (Option ℕ))
  unfolding receive_one
  receive_next debug thread nic m (w, error e) = ok (w, error e)
  receive_next debug thread nic m (w, value ret) =
      allocate M thread w >>= λ got. receive_one debug nic m ret got w

  -- The loop from the last buffer to the first; `?` ends it.
  unfoldable pub receive_all :
      Bool → ℕ → ℕ → List Mbuf → World M → Outcome (World M × Result (Option ℕ))
  unfolding receive_next
  receive_all debug thread nic [] w = ok (w, value none)
  receive_all debug thread nic (m ∷ ms) w =
      receive_all debug thread nic ms w >>= λ r. receive_next debug thread nic m r

  first_packet : World M × Result (Option ℕ) → Outcome (World M × Result ℕ)
  first_packet (w, value (some p)) = ok (w, value p)
  first_packet (w, value none) = undefined
  first_packet (w, error e) = ok (w, error e)

  unfoldable pub recv : Bool → ℕ → List Mbuf → Dpdk → World M → Outcome (World M × Result ℕ)
  unfolding receive_all first_packet
  recv debug thread [] d w = ok (w, error nop)
  recv debug thread (m ∷ ms) d w = receive_all debug thread d.nic (m ∷ ms) w >>= λ r. first_packet r

  -- The card is done with a packet's buffer.
  unfoldable pub packet_free_callback : Bool → ℕ → World M → Outcome (World M)
  packet_free_callback debug p w = do pkt ← load M p w; deallocate M debug p pkt.thread_id w
