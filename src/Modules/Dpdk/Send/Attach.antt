-- ===== src/Modules/Dpdk/Send/Attach.antt =====
-- dpdk.rs, `Dpdk::send` up to the count: the buffer and the packet after it.
use omni_stack_rust.Base.{
  le→leb, ℕ, ◌+◌, ◌-◌, ◌≤◌, ◌<◌, ◌≡◌, refl, ap, Bool, true, false, ◌&&◌, not, some, ok, panic,
  ◌>>=◌, Ends, Ends-bind, Ends-value, length, get_elem?, take, drop, bit_or, if◌then◌else◌,
}
use omni_stack_rust.Base.Word.{
  u64_mod, u16_mod, to_be16, sub_word, add_word, sub_word_fits, add_word_fits,
}
use omni_stack_rust.Packet.{Packet, local, bytes, packet_len, read8, read16}
use omni_stack_rust.Packet.Bytes.{Wrote, write16-Writes, le16}
use omni_stack_rust.Packet.Pool.{Mempool, World, load, store}
use omni_stack_rust.Protocol.Header.{ether_code, ipv4, proto_code, udp, ipv4_header_size}
use omni_stack_rust.Modules.Dpdk.Send.{
  Buffer, BufAddr, headroom, Platform, Sending, put_buffer, describe_packet, is_local, shared_info,
  iova, offload, offload_ipv4, offload_udp, attach, f_external, f_ip_cksum, f_ipv4, f_udp_cksum,
}

-- What `send` asks of a packet: it is the pool's own, and holds an IPv4 header and the room of a UDP header
-- where its records say; its addresses do not overflow.
pub record IsSendable (hw : Platform) (p : ℕ) (pkt : Packet) : Type 0 where
  pub own : pkt.buf_ty ≡ local
  pub order : pkt.offset ≤ pkt.len
  pub link : read16 pkt (pkt.l2_header.offset + 12) ≡ ok (ether_code ipv4)
  pub network : read8 pkt (pkt.l3_header.offset + 9) ≡ ok (proto_code udp)
  pub header : pkt.l3_header.offset + ipv4_header_size ≤ length (bytes pkt)
  pub transport : pkt.l4_header.offset + 6 + 2 ≤ length (bytes pkt)
  pub above : p ≤ hw.data_address p pkt + pkt.offset
  pub physical : hw.virt2iova p + (hw.data_address p pkt + pkt.offset - p) < u64_mod

-- The flags of a buffer that carries a packet.
abbrev pub sent_flags : ℕ → ℕ
sent_flags flags = bit_or (bit_or (bit_or flags f_external) (bit_or f_ip_cksum f_ipv4)) f_udp_cksum

abbrev pub pseudo_checksum : Platform → Packet → ℕ → ℕ
pseudo_checksum hw pkt flags =
    hw.phdr_cksum (take ipv4_header_size (drop pkt.l3_header.offset (bytes pkt))) flags

-- The buffer points at the packet's data and covers them; it has one reference, and the packet to give back.
abbrev pub sent_buffer : Platform → ℕ → Packet → Buffer → Buffer
sent_buffer hw p pkt b =
    record (describe_packet p pkt (pkt.len - pkt.offset)
      (hw.virt2iova p + (hw.data_address p pkt + pkt.offset - p))
      (record { fcb_opaque = p; refcnt = 1 }) b) { ol_flags = sent_flags b.ol_flags }

-- The packet but for the two bytes of its UDP checksum, and the thread that sent it.
abbrev pub Stamped : Platform → ℕ → ℕ → Packet → Packet → Type 0
Stamped hw thread flags pkt q =
    Wrote (pkt.l4_header.offset + 6) (le16 (pseudo_checksum hw pkt (sent_flags flags)))
      (record pkt { thread_id = thread }) q

shared_info-headroom :
    (p : ℕ) (a : BufAddr)
    → a ≡ headroom
    → shared_info p a ≡ ok (record { fcb_opaque = p; refcnt = 1 })
unfolding shared_info
shared_info-headroom p a e = rw e refl

iova-value :
    (debug : Bool) (hw : Platform) (p : ℕ) (pkt : Packet)
    → IsSendable hw p pkt
    → iova debug hw p pkt ≡ ok (hw.virt2iova p + (hw.data_address p pkt + pkt.offset - p))
unfolding iova
iova-value debug hw p pkt h = chosen debug _ (ap (λ t. not (is_local t)) h.own)
  where
    run :
        (sub_word debug u64_mod (hw.data_address p pkt + pkt.offset) p >>= λ far.
        add_word debug u64_mod (hw.virt2iova p) far)
        ≡ ok (hw.virt2iova p + (hw.data_address p pkt + pkt.offset - p))
    run =
        rw (sub_word_fits debug u64_mod (hw.data_address p pkt + pkt.offset) p h.above)
          (add_word_fits debug u64_mod (hw.virt2iova p) _ h.physical)

    chosen :
        (b foreign : Bool)
        → foreign ≡ false
        → (if b && foreign
            then panic
            else sub_word debug u64_mod (hw.data_address p pkt + pkt.offset) p >>= λ far.
                add_word debug u64_mod (hw.virt2iova p) far)
          ≡ ok (hw.virt2iova p + (hw.data_address p pkt + pkt.offset - p))
    chosen b true e = cc
    chosen true false e = run
    chosen false false e = run

offload-Stamped :
    (hw : Platform) (thread p : ℕ) (pkt : Packet) (flags : ℕ)
    → IsSendable hw p pkt
    → Ends
        (offload hw (record pkt { thread_id = thread }) (bit_or flags f_external))
        (λ r. Stamped hw thread flags pkt r.0 × (r.1 ≡ sent_flags flags))
unfolding offload offload_ipv4 offload_udp read8 read16 ether_code to_be16 proto_code
offload-Stamped hw thread p pkt flags h =
    let sent = record pkt { thread_id = thread } in
    Ends-value (read16 sent (pkt.l2_header.offset + 12)) _ (ether_code ipv4) h.link (
      Ends-value (read8 sent (pkt.l3_header.offset + 9)) _ (proto_code udp) h.network (
        rw (le→leb (pkt.l3_header.offset + ipv4_header_size) (length (bytes pkt)) h.header) (
          Ends-bind (write16-Writes (pkt.l4_header.offset + 6) _ sent h.transport)
            (λ q v. ((q, sent_flags flags), refl, (v, refl))))))

module _ (M : Mempool) (debug : Bool) (hw : Platform) where
  pub attach-value :
      (thread p address : ℕ) (pkt : Packet) (b : Buffer) (s : Sending) (w : World M)
      → get_elem? s.card.tx_bufs s.card.tx_idx ≡ some address
      → s.buffers address ≡ some b
      → b.buf_addr ≡ headroom
      → w.packets p ≡ some pkt
      → IsSendable hw p pkt
      → (q : Packet) × (attach M debug hw thread p s w
          ≡ ok (
            record s { buffers = put_buffer s.buffers address (sent_buffer hw p pkt b) },
            store M p q w,
          ))
        × Stamped hw thread b.ol_flags pkt q
  unfolding attach load packet_len
  attach-value thread p address pkt b s w slot buffer room at h =
      let ((q, flags), done, (stamped, same)) = offload-Stamped hw thread p pkt b.ol_flags h in
      (
        q,
        rw (slot, buffer, at, shared_info-headroom p b.buf_addr room)
            (rw (sub_word_fits debug u16_mod pkt.len pkt.offset h.order)
              (rw (iova-value debug hw p pkt h) (rw (done, same) refl))),
        stamped,
      )
