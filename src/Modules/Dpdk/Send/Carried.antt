-- ===== src/Modules/Dpdk/Send/Carried.antt =====
-- dpdk.rs, `Dpdk::send`: the buffers that carry packets.
use omni_stack_rust.Base.{
  ℕ, zero, suc, ◌%◌, ◌^◌, ◌≡◌, refl, sym, ap, ap₂, ◌∙◌, Bool, false, Option, some, List, [], ◌∷◌,
  ◌++◌, ok, Gives, Gives-any, Gives-bind, Gives-value, Gives-ok, ok-injective, or_undefined,
  or_undefined-eq-ok, get_elem?, map, take, ◌==◌, ==_iff, bit_or, arith,
}
use omni_stack_rust.Base.Word.{u16_mod, sub_word}
use omni_stack_rust.Packet.{Packet, Header, packet_len}
use omni_stack_rust.Packet.Bytes.{Frame}
use omni_stack_rust.Packet.Pool.{Mempool, World, load, store}
use omni_stack_rust.Packet.Pool.Counts.{ne_==_false}
use omni_stack_rust.Modules.Dpdk.Send.{
  BufAddr, headroom, packet_data, Buffer, Platform, Sending, put_buffer, describe_packet,
  shared_info, iova, offload, f_external, attach,
}

-- No buffer lies in two places.
abbrev pub OnePlace : List ℕ → Type 0
OnePlace xs = (i j a : ℕ) → get_elem? xs i ≡ some a → get_elem? xs j ≡ some a → i ≡ j

-- A buffer that is filled after the others changes none of them.
pub put-take :
    (f : ℕ → Option Buffer) (address : ℕ) (filled : Buffer) (bufs : List ℕ) (i : ℕ)
    → OnePlace bufs
    → get_elem? bufs i ≡ some address
    → map (put_buffer f address filled) (take (suc i) bufs)
      ≡ map f (take i bufs) ++ some filled ∷ []
put-take f address filled [] i one at = absurd (cc)
put-take f address filled (x ∷ bufs) zero one at =
    let same : address ≡ x = cc in rw ((==_iff address x).1 same) refl
put-take f address filled (x ∷ bufs) (suc i) one at =
    let apart : (address == x) ≡ false =
      ne_==_false address x
        (λ e. absurd (omega (arith, one 0 (suc i) address (ap some (sym e)) at))) in
    rw apart (
      ap (f x ∷◌) (
        put-take f address filled bufs i (λ i j a h k. omega (arith, one (suc i) (suc j) a h k))
          at))

-- The buffer describes the packet at `p`: the card reads the packet's data from it, all of them, and gives the
-- packet back when it is done.
pub record Carries (debug : Bool) (p : ℕ) (pkt : Packet) (b : Buffer) : Type 0 where
  pub points : b.buf_addr ≡ packet_data p pkt.offset
  pub all : packet_len debug pkt ≡ ok b.pkt_len
  pub segment : b.data_len ≡ b.pkt_len
  pub link : b.l2_len ≡ pkt.l2_header.length % 2 ^ 7
  pub network : b.l3_len ≡ pkt.l3_header.length % 2 ^ 9
  pub back : b.shinfo ≡ some (record { fcb_opaque = p; refcnt = 1 })

pub Carries-Frame :
    (debug : Bool) (p : ℕ) (pkt q : Packet) (b : Buffer)
    → Frame pkt q
    → Carries debug p q b
    → Carries debug p pkt b
unfolding packet_len
Carries-Frame debug p pkt q b f c = record {
  points = c.points ∙ ap (packet_data p) f.offset;
  all = ap₂ (sub_word debug u16_mod) (sym f.len) (sym f.offset) ∙ c.all;
  segment = c.segment;
  link = c.link ∙ ap (λ (h : Header). h.length % 2 ^ 7) f.l2_header;
  network = c.network ∙ ap (λ (h : Header). h.length % 2 ^ 9) f.l3_header;
  back = c.back;
}

-- One buffer for each packet, in their order.
abbrev pub Delivered : Bool → List (ℕ × Packet) → List (Option Buffer) → Type 0
Delivered debug [] [] = Unit
Delivered debug ((p, pkt) ∷ l) (b ∷ bs) =
    ((filled : Buffer) × (b ≡ some filled) × Carries debug p pkt filled) × Delivered debug l bs
Delivered debug [] (b ∷ bs) = ⊥
Delivered debug ((p, pkt) ∷ l) [] = ⊥

pub Delivered-append :
    (debug : Bool) (l : List (ℕ × Packet)) (bs : List (Option Buffer)) (p : ℕ) (pkt : Packet)
    (filled : Buffer)
    → Delivered debug l bs
    → Carries debug p pkt filled
    → Delivered debug (l ++ (p, pkt) ∷ []) (bs ++ some filled ∷ [])
Delivered-append debug [] [] p pkt filled d c = ((filled, refl, c), tt)
Delivered-append debug ((r, s) ∷ l) (b ∷ bs) p pkt filled (h, d) c =
    (h, Delivered-append debug l bs p pkt filled d c)
Delivered-append debug [] (b ∷ bs) p pkt filled d c = absurd d
Delivered-append debug ((r, s) ∷ l) [] p pkt filled d c = absurd d

shared_info_lem :
    (p : ℕ) (addr : BufAddr)
    → Gives (shared_info p addr) (λ info. info ≡ record { fcb_opaque = p; refcnt = 1 })
unfolding shared_info
shared_info_lem p headroom info e = sym (ok-injective e)
shared_info_lem p (packet_data other offset) info e = absurd (cc)

module _ (M : Mempool) (debug : Bool) (hw : Platform) where
  -- The buffer at hand is all that `attach` changes of the adapter, and it carries the packet.
  abbrev pub Attached : ℕ → Packet → Sending → Sending × World M → Type 0
  Attached p pkt s (s', w') =
      (address : ℕ) × (filled : Buffer) × (get_elem? s.card.tx_bufs s.card.tx_idx ≡ some address)
      × Carries debug p pkt filled
      × (s' ≡ record s { buffers = put_buffer s.buffers address filled })

  pub attach-Attached :
      (thread p : ℕ) (pkt : Packet) (s : Sending) (w : World M)
      → w.packets p ≡ some pkt
      → Gives (attach M debug hw thread p s w) (Attached p pkt s)
  unfolding attach load
  attach-Attached thread p pkt s w at =
      Gives-bind (or_undefined (get_elem? s.card.tx_bufs s.card.tx_idx))
        {P = λ address. get_elem? s.card.tx_bufs s.card.tx_idx ≡ some address}
        (λ address e. or_undefined-eq-ok (get_elem? s.card.tx_bufs s.card.tx_idx) e)
        λ address slot. Gives-any (or_undefined (s.buffers address)) λ b.
          Gives-value (load M p w) _ pkt (ap or_undefined at) (
            Gives-bind (shared_info p b.buf_addr) (shared_info_lem p b.buf_addr) λ info about.
              Gives-bind (packet_len debug pkt) {P = λ n. packet_len debug pkt ≡ ok n} (λ n e. e)
                λ pkt_len covers. Gives-any (iova debug hw p pkt) λ io.
                  Gives-any
                    (offload hw (record pkt { thread_id = thread }) (bit_or b.ol_flags f_external))
                    λ (q, flags).
                      let filled : Buffer = record (describe_packet p pkt pkt_len io info b) {
                        ol_flags = flags;
                      } in
                      Gives-ok (Attached p pkt s)
                        (record s { buffers = put_buffer s.buffers address filled }, store M p q w)
                        (
                          address,
                          filled,
                          slot,
                          record {
                            points = refl;
                            all = covers;
                            segment = refl;
                            link = refl;
                            network = refl;
                            back = ap some about;
                          },
                          refl,
                        ))
