-- ===== src/Modules/Dpdk/Receive.antt =====
-- dpdk.rs, `Dpdk::recv`: the packets that stand for the buffers received.
use mathlib.Core.List.{Mem}
use omni_stack_rust.Base.{
  ℕ, ◌+◌, ◌%◌, ◌<◌, ◌≡◌, refl, sym, ap, ◌∙◌, subst, Bool, true, false, Option, none, some, List, [],
  ◌∷◌, Ends, Ends-bind, Ends-value, or_undefined, ◌==◌, All, arith,
}
use omni_stack_rust.Base.Word.{u16_mod}
use omni_stack_rust.Error.{memory_error, exhausted, Result, value, error}
use omni_stack_rust.Packet.{Packet, outside, mbuf}
use omni_stack_rust.Packet.Length.{set_len-value}
use omni_stack_rust.Packet.Chain.{IsLive, packets-store_other, packets-store_self}
use omni_stack_rust.Packet.Pool.{Mempool, World, load, store}
use omni_stack_rust.Packet.Pool.Grants.{IsStocked, Grants, Granted, allocate-Grants, Grants-Granted}
use omni_stack_rust.Modules.Dpdk.{
  Dpdk, Mbuf, describe, receive_one, receive_next, receive_all, first_packet, recv,
}

-- The packet that stands for a received buffer: the card it came from, and the buffer's memory, from where
-- the data start to their end.
pub record Described (nic : ℕ) (m : Mbuf) (pkt : Packet) : Type 0 where
  pub card : pkt.nic ≡ nic
  pub offset : pkt.offset ≡ m.data_off
  pub len : pkt.len ≡ m.pkt_len + m.data_off
  pub region : pkt.region ≡ outside m.memory
  pub buf_ty : pkt.buf_ty ≡ mbuf m.address

-- A buffer's data end within what a `u16` counts.
abbrev pub Fits : Mbuf → Type 0
Fits m = m.pkt_len + m.data_off < u16_mod

describe-Described :
    (M : Mempool) (debug : Bool) (nic : ℕ) (m : Mbuf) (head : Option ℕ) (pkt : Packet)
    → Fits m
    → Ends (describe M debug nic m head pkt) (λ new. Described nic m new × (new.next ≡ head))
unfolding describe
describe-Described M debug nic m head pkt h =
    let small : m.pkt_len % u16_mod ≡ m.pkt_len = omega (arith, h) in
    Ends-value _ _ _
      (set_len-value debug (m.pkt_len % u16_mod) (record pkt { nic = nic; offset = m.data_off })
        (omega (arith, h, small)))
      (
        _,
        refl,
        (
          record {
            card = refl;
            offset = refl;
            len = ap (λ n. n + m.data_off) small;
            region = refl;
            buf_ty = refl;
          },
          refl,
        ),
      )

module _ {M : Mempool} where
  -- The packets hang on one another in the order of the buffers, each the one that stands for its buffer.
  abbrev pub Received : ℕ → World M → Option ℕ → List ℕ → List Mbuf → Type 0
  Received nic w head [] [] = head ≡ none
  Received nic w head (p ∷ ps) (m ∷ ms) =
      (head ≡ some p)
      × (pkt : Packet) × (w.packets p ≡ some pkt)
      × Described nic m pkt
      × Received nic w pkt.next ps ms
  Received nic w head [] (m ∷ ms) = ⊥
  Received nic w head (p ∷ ps) [] = ⊥

  Received-store :
      (nic p : ℕ) (new : Packet) (w : World M) (head : Option ℕ) (ps : List ℕ) (ms : List Mbuf)
      → All (λ q. (p == q) ≡ false) ps
      → Received nic w head ps ms
      → Received nic (store M p new w) head ps ms
  Received-store nic p new w head [] [] apart c = c
  Received-store nic p new w head [] (m ∷ ms) apart c = c
  Received-store nic p new w head (q ∷ ps) [] apart c = c
  Received-store nic p new w head (q ∷ ps) (m ∷ ms) (e, apart) (here, pkt, at, has, rest) = (
    here,
    pkt,
    packets-store_other p new w q e ∙ at,
    has,
    Received-store nic p new w pkt.next ps ms apart rest,
  )

  -- The same packets, read in a world that differs in its pool.
  Received-same :
      (nic : ℕ) (w w' : World M) (head : Option ℕ) (ps : List ℕ) (ms : List Mbuf)
      → w'.packets ≡ w.packets
      → Received nic w head ps ms
      → Received nic w' head ps ms
  Received-same nic w w' head [] [] e c = c
  Received-same nic w w' head [] (m ∷ ms) e c = c
  Received-same nic w w' head (q ∷ ps) [] e c = c
  Received-same nic w w' head (q ∷ ps) (m ∷ ms) e (here, pkt, at, has, rest) =
      (here, pkt, ap (λ f. f q) e ∙ at, has, Received-same nic w w' pkt.next ps ms e rest)

  -- The packets of a suffix of the buffers, none of which the pool still has, or the failure to get them.
  abbrev SoFar : ℕ → List Mbuf → World M × Result (Option ℕ) → Type 0
  SoFar nic ms (w, error e) = e ≡ memory_error exhausted
  SoFar nic ms (w, value head) =
      IsStocked w
      × (ps : List ℕ) × Received nic w head ps ms
      × All (λ q. ¬ Mem q (M.content w.pool)) ps

  -- The packets behind a granted one are others.
  all_apart :
      (w w1 : World M) (p : ℕ) (ps : List ℕ)
      → Granted w p w1
      → All (λ q. ¬ Mem q (M.content w.pool)) ps
      → All (λ q. (p == q) ≡ false) ps × All (λ q. ¬ Mem q (M.content w1.pool)) ps
  all_apart w w1 p [] g absent = (tt, tt)
  all_apart w w1 p (q ∷ ps) g (h, absent) =
      let (others, gone) = all_apart w w1 p ps g absent in
      ((g.apart q h, others), (g.still_gone q h, gone))

  stocked-store : (p : ℕ) (pkt : Packet) (w : World M) → IsStocked w → IsStocked (store M p pkt w)
  stocked-store p pkt w s = record {
    live = λ q m. live_after q (s.live q m) (p == q) refl;
    once = s.once;
  }
    where
      live_after : (q : ℕ) → IsLive w q → (b : Bool) → (p == q) ≡ b → IsLive (store M p pkt w) q
      live_after q l true e = (pkt, rw e refl)
      live_after q (old, at) false e = (old, packets-store_other p pkt w q e ∙ at)

  receive_one-SoFar :
      (debug : Bool) (nic : ℕ) (m : Mbuf) (ms : List Mbuf) (head : Option ℕ) (ps : List ℕ)
      (w w1 : World M) (p : ℕ)
      → Fits m
      → Granted w p w1
      → Received nic w head ps ms
      → All (λ q. ¬ Mem q (M.content w.pool)) ps
      → Ends (receive_one M debug nic m head (some (p, w1)) w) (SoFar nic (m ∷ ms))
  unfolding receive_one load
  receive_one-SoFar debug nic m ms head ps w w1 p fits g c absent =
      let (pkt, at) = g.live in
      let (apart, gone) = all_apart w w1 p ps g absent in
      Ends-value _ _ pkt (ap or_undefined at) (
        Ends-bind (describe-Described M debug nic m head pkt fits) (λ new (described, next). (
          _,
          refl,
          (
            stocked-store p new w1 g.stocked,
            p ∷ ps,
            (
              refl,
              new,
              packets-store_self p new w1,
              described,
              Received-store nic p new w1 new.next ps ms apart (
                  Received-same nic w w1 new.next ps ms g.same
                    (subst (λ o. Received nic w o ps ms) (sym next) c)),
            ),
            (g.gone, gone),
          ),
        )))

  next-SoFar :
      (debug : Bool) (thread nic : ℕ) (m : Mbuf) (ms : List Mbuf) (r : World M × Result (Option ℕ))
      → Fits m
      → SoFar nic ms r
      → Ends (receive_next M debug thread nic m r) (SoFar nic (m ∷ ms))
  unfolding receive_next
  next-SoFar debug thread nic m ms (w, error e) fits h = ((w, error e), refl, h)
  next-SoFar debug thread nic m ms (w, value head) fits (s, ps, c, absent) =
      Ends-bind (allocate-Grants thread w) (by_grant)
    where
      by_grant :
          (o : Option (ℕ × World M))
          → Grants w o
          → Ends (receive_one M debug nic m head o w) (SoFar nic (m ∷ ms))
      by_grant none g = (_, refl, refl)
      by_grant (some (p, w1)) g =
          receive_one-SoFar debug nic m ms head ps w w1 p fits (Grants-Granted w w1 p s g) c absent

  receive_all-SoFar :
      (debug : Bool) (thread nic : ℕ) (ms : List Mbuf) (w : World M)
      → IsStocked w
      → All Fits ms
      → Ends (receive_all M debug thread nic ms w) (SoFar nic ms)
  unfolding receive_all
  receive_all-SoFar debug thread nic [] w s fits = ((w, value none), refl, (s, [], refl, tt))
  receive_all-SoFar debug thread nic (m ∷ ms) w s (fit, fits) =
      Ends-bind (receive_all-SoFar debug thread nic ms w s fits)
        (λ r h. next-SoFar debug thread nic m ms r fit h)

  -- What `recv` gives when buffers came in.
  abbrev pub Chained : ℕ → List Mbuf → World M × Result ℕ → Type 0
  Chained nic ms (w, error e) = e ≡ memory_error exhausted
  Chained nic ms (w, value p) = IsStocked w × (ps : List ℕ) × Received nic w (some p) ps ms

  first_packet-Chained :
      (nic : ℕ) (m : Mbuf) (ms : List Mbuf) (r : World M × Result (Option ℕ))
      → SoFar nic (m ∷ ms) r
      → Ends (first_packet M r) (Chained nic (m ∷ ms))
  unfolding first_packet
  first_packet-Chained nic m ms (w, error e) h = (_, refl, h)
  first_packet-Chained nic m ms (w, value none) (s, p ∷ ps, (e, _, _, _, _), absent) = absurd (cc)
  first_packet-Chained nic m ms (w, value none) (s, [], c, absent) = absurd c
  first_packet-Chained nic m ms (w, value (some p)) (s, ps, c, absent) = (_, refl, (s, ps, c))

  -- Where the pool hands out packets, and none twice, `recv` always returns for a burst of buffers that fit: it
  -- fails because a packet was wanting, or gives the first of a chain of packets, one for each buffer and in
  -- the order of the burst, each describing its buffer, and the pool goes on to hand out none twice.
  pub recv-Chained :
      (debug : Bool) (thread : ℕ) (m : Mbuf) (ms : List Mbuf) (d : Dpdk) (w : World M)
      → IsStocked w
      → All Fits (m ∷ ms)
      → Ends (recv M debug thread (m ∷ ms) d w) (Chained d.nic (m ∷ ms))
  unfolding recv
  recv-Chained debug thread m ms d w s fits =
      Ends-bind (receive_all-SoFar debug thread d.nic (m ∷ ms) w s fits)
        (λ r h. first_packet-Chained d.nic m ms r h)
