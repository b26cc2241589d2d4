-- ===== src/Modules/Dpdk/Send/Waiting.antt =====
-- dpdk.rs, `Dpdk::send`: the buffers that wait for the card.
use omni_stack_rust.Base.{
  ℕ, ◌+◌, ◌<◌, ◌≡◌, refl, sym, ap, subst, ◌∙◌, Bool, some, List, ok, length, map, take, drop, ◌++◌,
  ◌==◌, ==_iff, Bool-cases, inl, inr, arith,
}
use omni_stack_rust.Error.{value}
use omni_stack_rust.Packet.{Packet}
use omni_stack_rust.Packet.Pool.{Mempool, World}
use omni_stack_rust.Modules.Dpdk.{burst_size, Dpdk}
use omni_stack_rust.Modules.Dpdk.Refill.{Sends, flush-refilled}
use omni_stack_rust.Modules.Dpdk.Send.{Buffer, Answer, Sending, put_buffer, flushed, waits}

-- There is always a buffer for the next packet.
pub record IsReady (d : Dpdk) : Type 0 where
  pub size : length d.tx_bufs ≡ burst_size
  pub room : d.tx_idx < burst_size

-- The card takes a full queue, and as many fresh buffers are there.
pub record Takes (answer : Answer) (fresh : List ℕ) : Type 0 where
  pub given : answer.fresh ≡ some fresh
  pub count : length fresh ≡ burst_size
  pub sends : Sends answer.bursts burst_size

-- The adapter after a packet: its buffer waits behind the others, or the queue was full and is empty again.
pub record Queued (filled : Buffer) (address : ℕ) (answer : Answer) (s s' : Sending) : Type 0 where
  pub ready : IsReady s'.card
  pub waits_too :
      s.card.tx_idx + 1 < burst_size
      → (s'.card.tx_idx ≡ s.card.tx_idx + 1)
        × (s'.card.tx_bufs ≡ s.card.tx_bufs)
        × (s'.buffers ≡ put_buffer s.buffers address filled)
        × (s'.wire ≡ s.wire)
  pub all_sent :
      s.card.tx_idx + 1 ≡ burst_size
      → (s'.card.tx_idx ≡ 0)
        × (s'.buffers ≡ answer.buffers)
        × (s'.wire
            ≡ s.wire ++ map (put_buffer s.buffers address filled) (take burst_size s.card.tx_bufs))
        × ((fresh : List ℕ)
            → answer.fresh ≡ some fresh
            → s'.card.tx_bufs ≡ fresh ++ drop burst_size s.card.tx_bufs)

module _ (M : Mempool) (debug : Bool) where
  pub waits-Queued :
      (filled : Buffer) (address : ℕ) (answer : Answer) (fresh : List ℕ) (s : Sending) (w : World M)
      → IsReady s.card
      → Takes answer fresh
      → (let s1 = record s { buffers = put_buffer s.buffers address filled } in
          (s' : Sending) × (waits M debug answer (ok (s1, w)) ≡ some (ok (s', w, value tt)))
          × Queued filled address answer s s')
  unfolding waits flushed
  waits-Queued filled address answer fresh s w ready takes =
      elim (Bool-cases (s.card.tx_idx + 1 == burst_size)) [
        | inl full ↦
            let at_end = (==_iff (s.card.tx_idx + 1) burst_size).0 full in
            let (d, done, empty, bufs, size, _) =
              flush-refilled debug answer.bursts fresh
                (record s.card { tx_idx = s.card.tx_idx + 1 }) (λ e. absurd (omega arith))
                (omega (arith, ready.size)) (omega (arith, takes.count))
                (subst (Sends answer.bursts) (sym at_end) takes.sends) in
            (
              record {
                card = d;
                buffers = answer.buffers;
                wire =
                    s.wire
                    ++ map (put_buffer s.buffers address filled)
                        (take (s.card.tx_idx + 1) s.card.tx_bufs);
              },
              rw (full, takes.given, done) refl,
              record {
                ready = record { size = size ∙ ready.size; room = omega (arith, empty) };
                waits_too = λ h. absurd (omega arith);
                all_sent = λ h. (
                  empty,
                  refl,
                  ap
                      (λ n.
                        s.wire ++ map (put_buffer s.buffers address filled) (take n s.card.tx_bufs))
                      at_end,
                  λ other given.
                      let same : fresh ≡ other = cc (takes.given, given) in
                      bufs
                      ∙ ap (λ n. fresh ++ drop n s.card.tx_bufs) at_end
                      ∙ ap (λ l. l ++ drop burst_size s.card.tx_bufs) same,
                );
              },
            )
        | inr more ↦ (
          record s {
            card = record s.card { tx_idx = s.card.tx_idx + 1 };
            buffers = put_buffer s.buffers address filled;
          },
          rw more refl,
          record {
            ready = record { size = ready.size; room = ground (arith, ready.room) };
            waits_too = λ h. (refl, refl, refl, refl);
            all_sent = λ h. ground arith;
          },
        )
      ]
