-- ===== src/Modules/Dpdk/Send/Card.antt =====
-- dpdk.rs, `impl Adapter for Dpdk`: the card as an adapter, and the buffers that it is handed.
use omni_stack_rust.Base.{
  ℕ, ◌+◌, ◌≤◌, ◌≡◌, sym, ap, ◌∙◌, subst, Bool, Option, none, some, List, Outcome, ok, undefined,
  ◌>>=◌, length, get_elem?, ◌==◌, ==_iff, if◌then◌else◌, Bool-cases, inl, inr, arith, suc, [], ◌∷◌,
  ◌++◌, ◌<◌, map, take, drop, ap₂,
}
use mathlib.Core.List.{append_assoc, append-nil}
use omni_stack_rust.Packet.{Packet}
use omni_stack_rust.Modules.Dpdk.Send.Carried.{
  OnePlace, Carries, Delivered, Delivered-append, put-take,
}
use omni_stack_rust.Error.{Result, value}
use omni_stack_rust.Packet.Pool.{Mempool, World}
use omni_stack_rust.Engine.Worker.{Context}
use omni_stack_rust.Nio.{Adapter}
use omni_stack_rust.Modules.Dpdk.{burst_size, flush}
use omni_stack_rust.Modules.Dpdk.Refill.{Sends}
use omni_stack_rust.Modules.Dpdk.Send.{Buffer, Platform, Answer, Sending, put_buffer, flushed, send}
use omni_stack_rust.Modules.Dpdk.Send.Waiting.{IsReady, Takes, Queued}

-- The adapter, and what its card and its pool are going to answer: to each call, when so many of these buffers
-- wait.
pub record Plugged : Type 0 where
  pub sending : Sending
  pub answers : ℕ → List ℕ → ℕ → Answer

abbrev pub called : Plugged → Sending → Plugged
called a s = record { sending = s; answers = λ n. a.answers (n + 1) }

-- A loop that does not end has no outcome.
abbrev pub ended {ℓ} : {B : Type ℓ} → Option (Outcome B) → Outcome B
ended none = undefined
ended (some r) = r

module _ (M : Mempool) (debug : Bool) (hw : Platform) where
  unfoldable pub plug_send :
      Context → ℕ → Plugged → World M → Outcome (Plugged × World M × Result (Unit {0}))
  unfolding send
  plug_send ctx p a w =
      ended (
        send M debug hw (a.answers 0 a.sending.card.tx_bufs burst_size) ctx.thread_id p a.sending w)
      >>= λ (s, w, r). ok (called a s, w, r)

  -- The buffers are others only where some waited.
  unfoldable pub plug_flush : Plugged → World M → Outcome (Plugged × World M × Result (Unit {0}))
  unfolding flushed
  plug_flush a w =
      let card = a.sending.card in
      let answer = a.answers 0 card.tx_bufs card.tx_idx in
      let kept : Outcome (Plugged × World M × Result (Unit {0})) =
        ok (called a a.sending, w, value tt) in
      let sent =
        ended (flushed M debug answer a.sending w (flush debug answer.bursts answer.fresh card)) in
      if card.tx_idx == 0 then kept else sent >>= λ (s, w, r). ok (called a s, w, r)

  -- The adapter that sends and flushes so, and does the rest as `rest`.
  abbrev pub plugged : Adapter Plugged (World M) → Adapter Plugged (World M)
  plugged rest = record rest { send = plug_send; flush = λ ctx a w. plug_flush a w }

  -- The card takes what waits, in some bursts, and as many fresh buffers are there, none of which is among the
  -- others.
  pub record Serves (answer : Answer) (tx_bufs : List ℕ) (waiting : ℕ) : Type 0 where
    pub fresh : List ℕ
    pub given : answer.fresh ≡ some fresh
    pub count : length fresh ≡ waiting
    pub sends : Sends answer.bursts waiting
    pub one_place : OnePlace (fresh ++ drop waiting tx_bufs)

  -- What the card was handed, with what waits, is one buffer for each packet, in their order.
  pub record IsGood (l : List (ℕ × Packet)) (a : Plugged) : Type 0 where
    pub ready : IsReady a.sending.card
    pub one_place : OnePlace a.sending.card.tx_bufs
    pub serves :
        (n waiting : ℕ) (tx_bufs : List ℕ)
        → waiting ≤ burst_size
        → length tx_bufs ≡ burst_size
        → OnePlace tx_bufs
        → Serves (a.answers n tx_bufs waiting) tx_bufs waiting
    pub carried : Delivered debug l (
        a.sending.wire ++ map a.sending.buffers (take a.sending.card.tx_idx a.sending.card.tx_bufs))

  -- The card was handed one buffer for each packet, in their order, and nothing waits.
  abbrev pub IsIdle : List (ℕ × Packet) → Plugged → Type 0
  IsIdle l a = (a.sending.card.tx_idx ≡ 0) × Delivered debug l a.sending.wire

  pub taken-Takes :
      (answer : Answer) (tx_bufs : List ℕ)
      → (g : Serves answer tx_bufs burst_size) → Takes answer g.fresh
  taken-Takes answer tx_bufs g = record { given = g.given; count = g.count; sends = g.sends }

  -- The buffer that was filled last is behind those that wait.
  put_behind-Delivered :
      (l : List (ℕ × Packet)) (p : ℕ) (pkt : Packet) (address : ℕ) (filled : Buffer) (s : Sending)
      (n : ℕ)
      → OnePlace s.card.tx_bufs
      → get_elem? s.card.tx_bufs s.card.tx_idx ≡ some address
      → Carries debug p pkt filled
      → s.card.tx_idx + 1 ≡ n
      → Delivered debug l (s.wire ++ map s.buffers (take s.card.tx_idx s.card.tx_bufs))
      → Delivered debug
          (l ++ (p, pkt) ∷ [])
          (s.wire ++ map (put_buffer s.buffers address filled) (take n s.card.tx_bufs))
  put_behind-Delivered l p pkt address filled s n one slot c next d =
      let last : List (Option Buffer) = some filled ∷ [] in
      let number : n ≡ suc s.card.tx_idx = omega (arith, next) in
      let waiting : map (put_buffer s.buffers address filled) (take n s.card.tx_bufs)
          ≡ map s.buffers (take s.card.tx_idx s.card.tx_bufs) ++ last =
        ap (λ k. map (put_buffer s.buffers address filled) (take k s.card.tx_bufs)) number
        ∙ put-take s.buffers address filled s.card.tx_bufs s.card.tx_idx one slot in
      subst (Delivered debug (l ++ (p, pkt) ∷ []))
        (append_assoc s.wire (map s.buffers (take s.card.tx_idx s.card.tx_bufs)) last
          ∙ ap (s.wire ++◌) (sym waiting))
        (Delivered-append debug l _ p pkt filled d c)

  pub put_behind-IsGood :
      (l : List (ℕ × Packet)) (p : ℕ) (pkt : Packet) (address : ℕ) (filled : Buffer) (a : Plugged)
      (s' : Sending)
      → IsGood l a
      → get_elem? a.sending.card.tx_bufs a.sending.card.tx_idx ≡ some address
      → Carries debug p pkt filled
      → Queued filled address (a.answers 0 a.sending.card.tx_bufs burst_size) a.sending s'
      → IsGood (l ++ (p, pkt) ∷ []) (called a s')
  put_behind-IsGood l p pkt address filled a s' g slot c q =
      let s = a.sending in
      let serves = g.serves 0 burst_size s.card.tx_bufs (omega arith) g.ready.size g.one_place in
      elim (Bool-cases (s.card.tx_idx + 1 == burst_size)) [
        | inl full ↦
            let at_end = (==_iff (s.card.tx_idx + 1) burst_size).0 full in
            let (empty, buffers, wire, bufs) = q.all_sent at_end in
            record {
              ready = q.ready;
              one_place = subst OnePlace (sym (bufs serves.fresh serves.given)) serves.one_place;
              serves = λ n waiting tx_bufs. g.serves (n + 1) waiting tx_bufs;
              carried =
                  subst (Delivered debug (l ++ (p, pkt) ∷ []))
                    (sym (append-nil _)
                      ∙ ap₂ (λ w k. w ++ map s'.buffers (take k s'.card.tx_bufs)) (sym wire)
                          (sym empty))
                    (put_behind-Delivered l p pkt address filled s burst_size g.one_place slot c
                      at_end g.carried);
            }
        | inr more ↦
            let room : s.card.tx_idx + 1 < burst_size = ground (arith, g.ready.room) in
            let (next, bufs, buffers, wire) = q.waits_too room in
            record {
              ready = q.ready;
              one_place = subst OnePlace (sym bufs) g.one_place;
              serves = λ n waiting tx_bufs. g.serves (n + 1) waiting tx_bufs;
              carried =
                  subst (Delivered debug (l ++ (p, pkt) ∷ []))
                    (ap₂ (λ w (xs : List (Option Buffer)). w ++ xs) (sym wire)
                      (ap₂ (λ f xs. map f xs) (sym buffers)
                        (ap (λ xs. take s'.card.tx_idx xs) (sym bufs))))
                    (put_behind-Delivered l p pkt address filled s s'.card.tx_idx g.one_place slot c
                      (sym next) g.carried);
            }
      ]
